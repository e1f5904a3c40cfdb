-- ===== src/Messaging/Schema.antt =====
-- The constructor of client/src/messaging/MessageStore.cpp: the schema, and the migration of
-- databases that an older client left.
pub mod Legacy
use epic_1bit2qbit.Prelude.{
  ℕ, zero, suc, ◌≡◌, Bool, true, false, not, ◌&&◌, ◌||◌, List, [], ◌∷◌, ◌++◌, Option, none, some,
  ◌==◌, nat_eq, bytes_eq, if◌then◌else◌, map,
}
use epic_1bit2qbit.Prelude.Text.{Bytes, codes}
use epic_1bit2qbit.Prelude.Result.{Result, ok, err}
use epic_1bit2qbit.Messaging.Table.{Table}
use epic_1bit2qbit.Messaging.Sqlite.{Sqlite, Row}
use epic_1bit2qbit.Messaging.Rows.{message_columns, has_column, has_columns}
use epic_1bit2qbit.Messaging.Store.{MessageStore, CryptoState}

-- A database file: `columns` is `none` where it has no messages table yet.
pub record Disk : Type 0 where
  pub columns : Option (List Bytes)
  pub messages : List Row
  pub conversations : Table CryptoState
  pub pinned_keys : Table Bytes
  pub key_store : Table Bytes

-- kSchema: CREATE TABLE IF NOT EXISTS messages
unfoldable pub create_table : Option (List Bytes) → List Bytes
create_table none = message_columns
create_table (some cs) = cs

-- ALTER TABLE messages ADD COLUMN: its failure, where the column is there, is ignored.
unfoldable pub add_column : List Bytes → Bytes → List Bytes
add_column cs name = if has_column name cs then cs else cs ++ name ∷ []

unfoldable pub add_columns : List Bytes → List Bytes
unfolding add_column
add_columns cs =
    add_column
      (add_column
        (add_column (add_column (add_column cs (codes "wire_ciphertext")) (codes "edited"))
          (codes "mid"))
        (codes "sender"))
      (codes "deleted")

-- The loop over PRAGMA table_info: the position of a column, `none` for -1.
unfoldable pub column_index : Bytes → List Bytes → Option ℕ
column_index name [] = none
column_index name (c ∷ cs) =
    let rest = column_index name cs in
    if c == name then some 0 else elim rest [ none ↦ none | some i ↦ some (suc i) ]

-- The columns that the INSERT of the reordering selects, and those of the table that it makes:
-- `deleted` is not among them.
abbrev pub reordered_columns : List Bytes
reordered_columns =
    codes "id"
    ∷ codes "peer"
    ∷ codes "sender"
    ∷ codes "recipient"
    ∷ codes "timestamp_ms"
    ∷ codes "type"
    ∷ codes "body"
    ∷ codes "edited"
    ∷ codes "target_id"
    ∷ codes "wire_ciphertext"
    ∷ codes "mid"
    ∷ []

abbrev pub is_two : Option ℕ → Bool
is_two none = false
is_two (some i) = i == 2

-- sender_cid == 2
unfoldable pub sender_in_place : List Bytes → Bool
unfolding column_index
sender_in_place cs = is_two (column_index (codes "sender") cs)

-- What the SELECT of the reordering leaves of a row.
abbrev pub undelete : Row → Row
undelete r = record r { deleted = false }

abbrev pub store_of : List Bytes → List Row → Disk → MessageStore
store_of cs rows d = record {
  columns = cs;
  messages = rows;
  conversations = d.conversations;
  pinned_keys = d.pinned_keys;
  key_store = d.key_store;
}

-- The transaction that rebuilds the table; a column that is missing makes it throw.
unfoldable pub reorder : Sqlite → List Bytes → Disk → Result MessageStore
reorder db cs d =
    if has_columns reordered_columns cs
    then ok (store_of reordered_columns (map undelete d.messages) d)
    else err (codes "MessageStore: " ++ db.errmsg)

-- MessageStore::MessageStore; `none` is a path that sqlite3_open refuses.
unfoldable pub open_store : Sqlite → Option Disk → Result MessageStore
unfolding create_table add_columns sender_in_place reorder
open_store db none = err (codes "MessageStore: failed to open database: " ++ db.errmsg)
open_store db (some d) =
    let cs = add_columns (create_table d.columns) in
    if not (sender_in_place cs) then reorder db cs d else ok (store_of cs d.messages d)

-- The file that a closed store leaves.
abbrev pub close_store : MessageStore → Disk
close_store s = record {
  columns = some s.columns;
  messages = s.messages;
  conversations = s.conversations;
  pinned_keys = s.pinned_keys;
  key_store = s.key_store;
}
