-- ===== src/Messaging/Rows.antt =====
-- The rows of the messages table of client/src/messaging/MessageStore.cpp: what its SQL statements
-- read and write in them.
use epic_1bit2qbit.Prelude.{
  ℕ, Bool, true, false, not, ◌&&◌, ◌||◌, List, [], ◌∷◌, ◌++◌, ◌==◌, nat_eq, bytes_eq, if◌then◌else◌,
  keep, map,
}
use epic_1bit2qbit.Prelude.Text.{Bytes, codes, c_str}
use epic_1bit2qbit.Prelude.Int.{ℤ, leb_ℤ}
use epic_1bit2qbit.Messaging.Message.{Message, to_int, of_int}
use epic_1bit2qbit.Messaging.Conversation.{Conversation, add_message}
use epic_1bit2qbit.Messaging.Sqlite.{Row}

-- The columns that `save_message` and `load_conversation` name.
abbrev pub message_columns : List Bytes
message_columns =
    codes "id"
    ∷ codes "peer"
    ∷ codes "sender"
    ∷ codes "recipient"
    ∷ codes "timestamp_ms"
    ∷ codes "type"
    ∷ codes "body"
    ∷ codes "edited"
    ∷ codes "deleted"
    ∷ codes "target_id"
    ∷ codes "wire_ciphertext"
    ∷ codes "mid"
    ∷ []

unfoldable pub has_column : Bytes → List Bytes → Bool
has_column name [] = false
has_column name (c ∷ cs) = c == name || has_column name cs

-- Can a statement that names these columns be prepared?
unfoldable pub has_columns : List Bytes → List Bytes → Bool
unfolding has_column
has_columns [] cs = true
has_columns (n ∷ ns) cs = has_column n cs && has_columns ns cs

-- The row that the bindings of `save_message` describe.
unfoldable pub row_of : ℕ → Message → Row
unfolding to_int
row_of id msg = record {
  id = id;
  peer = c_str msg.peer;
  sender = c_str msg.sender;
  recipient = c_str msg.recipient;
  timestamp_ms = msg.timestamp_ms;
  type = to_int msg.type;
  body = c_str msg.body;
  edited = msg.edited;
  deleted = msg.deleted;
  target_id = msg.target_id;
  wire_ciphertext = c_str msg.wire_ciphertext;
  mid = c_str msg.mid;
}

-- The message that `load_conversation` reads from a row.
unfoldable pub message_of : Row → Message
unfolding of_int
message_of r = record {
  id = r.id;
  peer = r.peer;
  sender = r.sender;
  recipient = r.recipient;
  timestamp_ms = r.timestamp_ms;
  type = of_int r.type;
  body = r.body;
  edited = r.edited;
  deleted = r.deleted;
  target_id = r.target_id;
  target_mid = [];
  wire_ciphertext = r.wire_ciphertext;
  mid = r.mid;
}

abbrev pub row_ids : List Row → List ℕ
row_ids = map λ r. r.id

-- INSERT OR REPLACE: a row with the same id goes first.
unfoldable pub insert_row : Row → List Row → List Row
insert_row r rows = keep (λ q. not (q.id == r.id)) rows ++ r ∷ []

-- UPDATE messages SET ... WHERE ...: every row that matches.
unfoldable pub update_rows : (Row → Bool) → (Row → Row) → List Row → List Row
update_rows test change [] = []
update_rows test change (r ∷ rs) = (if test r then change r else r) ∷ update_rows test change rs

abbrev pub row_has_id : ℕ → Row → Bool
row_has_id id r = r.id == id

abbrev pub row_has_mid : Bytes → Row → Bool
row_has_mid mid r = r.mid == c_str mid

-- SET body = ?, edited = 1
abbrev pub edit_row : Bytes → Row → Row
edit_row body r = record r { body = c_str body; edited = true }

-- SET deleted = 1, body = ''
abbrev pub delete_row : Row → Row
delete_row r = record r { deleted = true; body = [] }

-- WHERE peer = ?
unfoldable pub rows_of : Bytes → List Row → List Row
rows_of peer = keep (λ r. r.peer == c_str peer)

-- conv.add_message for each row of the result
unfoldable pub add_rows : List Row → Conversation → Conversation
unfolding add_message message_of
add_rows [] conv = conv
add_rows (r ∷ rs) conv = add_rows rs (add_message (message_of r) conv)

-- GROUP BY peer, with MAX(timestamp_ms) of each group
unfoldable pub raise_group : Bytes → ℤ → List (Bytes × ℤ) → List (Bytes × ℤ)
raise_group peer t [] = (peer, t) ∷ []
raise_group peer t ((p, u) ∷ gs) =
    if p == peer then (p, (if leb_ℤ u t then t else u)) ∷ gs else (p, u) ∷ raise_group peer t gs

unfoldable pub groups : List Row → List (Bytes × ℤ)
unfolding raise_group
groups [] = []
groups (r ∷ rs) = raise_group r.peer r.timestamp_ms (groups rs)
