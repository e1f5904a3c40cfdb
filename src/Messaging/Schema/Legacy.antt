-- ===== src/Messaging/Schema/Legacy.antt =====
-- What the constructor of MessageStore.cpp makes of a new database, of its own, and of one whose
-- messages table has no sender column.
use epic_1bit2qbit.Prelude.{
  ◌≤◌, ◌≡◌, refl, sym, true, false, List, [], ◌∷◌, ◌++◌, none, some, bytes_eq, arith, length, map,
  Bool-cases, inl, inr, append-nil, append_assoc, bytes_beq_iff, bytes_beq,
}
use epic_1bit2qbit.Prelude.Text.{Bytes, codes}
use epic_1bit2qbit.Prelude.Result.{ok}
use epic_1bit2qbit.Messaging.Message.{Message}
use epic_1bit2qbit.Messaging.Sqlite.{Sqlite}
use epic_1bit2qbit.Messaging.Rows.{message_columns, has_column, has_columns}
use epic_1bit2qbit.Messaging.Store.{MessageStore, save_message, load_conversation}
use epic_1bit2qbit.Messaging.Schema.{
  Disk, create_table, add_column, add_columns, column_index, reordered_columns, is_two,
  sender_in_place, store_of, undelete, reorder, open_store, close_store,
}

-- A new database and one that the current client left are opened with the full schema and keep all
-- their rows.
pub open_store-current :
    (db : Sqlite) (d : Disk)
    → create_table d.columns ≡ message_columns
    → open_store db (some d) ≡ ok (store_of message_columns d.messages d)
unfolding open_store
open_store-current db d h = rw h (unfold has_column column_index bytes_beq in refl)

-- The columns that every version of the table had.
abbrev pub first_columns : List Bytes
first_columns =
    codes "id"
    ∷ codes "peer"
    ∷ codes "recipient"
    ∷ codes "timestamp_ms"
    ∷ codes "type"
    ∷ codes "body"
    ∷ codes "target_id"
    ∷ []

has_column-append :
    (n : Bytes) (cs ds : List Bytes) → has_column n cs ≡ true → has_column n (cs ++ ds) ≡ true
unfolding has_column
has_column-append n [] ds h = cc
has_column-append n (c ∷ cs) ds h = ground (arith, has_column-append n cs ds)

has_column-add_column :
    (n m : Bytes) (cs : List Bytes) → has_column n cs ≡ true → has_column n (add_column cs m) ≡ true
unfolding add_column
has_column-add_column n m cs h = ground (arith, has_column-append n cs (m ∷ []))

has_column_last : (n : Bytes) (cs : List Bytes) → has_column n (cs ++ n ∷ []) ≡ true
unfolding has_column
has_column_last n [] = ground (arith, bytes_beq_iff n n)
has_column_last n (c ∷ cs) = ground (arith, has_column_last n cs)

has_column-add_column_self : (n : Bytes) (cs : List Bytes) → has_column n (add_column cs n) ≡ true
unfolding add_column
has_column-add_column_self n cs = ground (arith, has_column_last n cs)

-- Adding columns puts them behind those that are there.
abbrev Extends : List Bytes → List Bytes → Type 0
Extends cs ds = (es : List Bytes) × (ds ≡ cs ++ es)

Extends-add_column : (cs ds : List Bytes) (n : Bytes) → Extends cs ds → Extends cs (add_column ds n)
unfolding add_column
Extends-add_column cs ds n (es, e) = elim (Bool-cases (has_column n ds)) [
  | inl there ↦ (es, rw there e)
  | inr new ↦ (es ++ n ∷ [], rw (new, e) (append_assoc cs es (n ∷ [])))
]

Extends-add_columns : (cs : List Bytes) → Extends cs (add_columns cs)
unfolding add_columns
Extends-add_columns cs = Extends-add_column cs _ _ (
    Extends-add_column cs _ _ (
      Extends-add_column cs _ _
        (Extends-add_column cs _ _ (Extends-add_column cs cs _ ([], sym (append-nil cs))))))

column_index-ge :
    (n : Bytes) (cs es : List Bytes)
    → has_column n cs ≡ false
    → 3 ≤ length cs
    → is_two (column_index n (cs ++ es)) ≡ false
unfolding column_index has_column
column_index-ge n [] es h l = absurd (omega arith)
column_index-ge n (a ∷ []) es h l = absurd (omega arith)
column_index-ge n (a ∷ b ∷ []) es h l = absurd (omega arith)
column_index-ge n (a ∷ b ∷ c ∷ cs) es h l = ground arith

sender_out_of_place :
    (cs : List Bytes)
    → has_column (codes "sender") cs ≡ false
    → 3 ≤ length cs
    → sender_in_place (add_columns cs) ≡ false
unfolding sender_in_place
sender_out_of_place cs h l =
    let (es, e) = Extends-add_columns cs in rw e (column_index-ge (codes "sender") cs es h l)

can_reorder :
    (cs : List Bytes)
    → has_columns first_columns cs ≡ true
    → has_columns reordered_columns (add_columns cs) ≡ true
unfolding has_columns add_columns
can_reorder cs h = grind (arith, has_column-add_column, has_column-add_column_self)

-- A database from before the sender column is rebuilt without a deleted column. Through the store that
-- has been opened so, saving a message stores nothing and no conversation can be loaded; when the database
-- is closed and opened again, the column is added, and every row is found, with no message marked
-- deleted.
pub open_store_legacy :
    (db : Sqlite) (cs : List Bytes) (d : Disk) (msg : Message) (peer : Bytes)
    → d.columns ≡ some cs
    → has_columns first_columns cs ≡ true
    → has_column (codes "sender") cs ≡ false
    → 3 ≤ length cs
    → (s : MessageStore) × (open_store db (some d) ≡ ok s)
      × (has_columns message_columns s.columns ≡ false)
      × ((save_message db msg s).1 ≡ s)
      × (load_conversation db peer s ≡ none)
      × (open_store db (some (close_store s))
          ≡ ok (store_of (reordered_columns ++ codes "deleted" ∷ []) (map undelete d.messages) d))
      × (has_columns message_columns (reordered_columns ++ codes "deleted" ∷ []) ≡ true)
unfolding has_columns
open_store_legacy db cs d msg peer table old no_sender wide = (
  store_of reordered_columns (map undelete d.messages) d,
  unfold open_store create_table reorder in
      rw (table, sender_out_of_place cs no_sender wide, can_reorder cs old),
  unfold has_column bytes_beq in refl,
  unfold save_message has_column bytes_beq in refl,
  unfold load_conversation has_column bytes_beq in refl,
  unfold open_store has_column bytes_beq in refl,
  unfold has_column bytes_beq in refl,
)
