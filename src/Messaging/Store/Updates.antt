-- ===== src/Messaging/Store/Updates.antt =====
-- Rows written by MessageStore.cpp against the loops of Conversation.cpp, which keep the same
-- messages in memory.
use epic_1bit2qbit.Prelude.{
  ℕ, ◌<◌, ◌≡◌, refl, ◌≢◌, ap, Bool, true, false, not, List, [], ◌∷◌, ◌++◌, ◌==◌, nat_eq, bytes_eq,
  arith, keep, All, map, Bool-cases, inl, inr, nat_beq_iff, bytes_beq_iff,
}
use epic_1bit2qbit.Prelude.Text.{Bytes, c_str, codes}
use epic_1bit2qbit.Messaging.Message.{Message}
use epic_1bit2qbit.Messaging.Conversation.{update_first, has_id, has_mid, edit_message}
use epic_1bit2qbit.Messaging.Conversation
use epic_1bit2qbit.Messaging.Conversation.Edits.{NoneIs, update_first-miss}
use epic_1bit2qbit.Messaging.Sqlite.{Sqlite, Row}
use epic_1bit2qbit.Messaging.Rows.{
  message_columns, has_columns, row_of, row_ids, message_of, insert_row, update_rows, row_has_id,
  edit_row, delete_row, rows_of, row_has_mid,
}
use epic_1bit2qbit.Messaging.Store
use epic_1bit2qbit.Messaging.Store.{MessageStore, save_message}
use epic_1bit2qbit.Messaging.Store.Ids.{Distinct}

-- The statements that write in place name columns of the full schema.
statement_columns :
    (cs : List Bytes)
    → has_columns message_columns cs ≡ true
    → (has_columns (codes "body" ∷ codes "edited" ∷ codes "id" ∷ []) cs ≡ true)
      × (has_columns (codes "deleted" ∷ codes "body" ∷ codes "id" ∷ []) cs ≡ true)
unfolding has_columns
statement_columns cs h = ground arith

pub mid_columns :
    (cs : List Bytes)
    → has_columns message_columns cs ≡ true
    → (has_columns (codes "body" ∷ codes "edited" ∷ codes "mid" ∷ []) cs ≡ true)
      × (has_columns (codes "deleted" ∷ codes "body" ∷ codes "mid" ∷ []) cs ≡ true)
unfolding has_columns
mid_columns cs h = ground arith

keep-All :
    (id : ℕ) (rows : List Row)
    → All (λ i. i ≢ id) (row_ids rows)
    → keep (λ q. not (q.id == id)) rows ≡ rows
keep-All id [] h = refl
keep-All id (r ∷ rs) h = ground (arith, h.0, keep-All id rs h.1)

-- A message saved with id 0 is given a positive id that no row has, and is added behind all the
-- rows: it replaces none of them (with the full schema).
pub save_message-fresh :
    (db : Sqlite) (msg : Message) (s : MessageStore)
    → has_columns message_columns s.columns ≡ true
    → msg.id ≡ 0
    → let (id, t) = save_message db msg s in
      (0 < id)
      × All (λ i. i ≢ id) (row_ids s.messages)
      × (t.messages ≡ s.messages ++ row_of id msg ∷ [])
unfolding save_message insert_row
save_message-fresh db msg s schema blank =
    let ids = row_ids s.messages in
    let fresh = db.new_rowid_fresh ids in
    rw (schema, blank)
      (
        db.new_rowid_pos ids,
        fresh,
        ap (λ rs. rs ++ row_of (db.new_rowid ids) msg ∷ [])
            (keep-All (db.new_rowid ids) s.messages fresh),
      )

reads_id : (r : Row) → (message_of r).id ≡ r.id
unfolding message_of
reads_id r = refl

module _ (id : ℕ) (change : Row → Row) where
  update_rows-miss :
      (rows : List Row) → All (λ q. q.id ≢ id) rows → update_rows (row_has_id id) change rows ≡ rows
  unfolding update_rows
  update_rows-miss [] h = refl
  update_rows-miss (r ∷ rs) h = ground (arith, h.0, update_rows-miss rs h.1)

  module _ (peer : Bytes) where
    no_message :
        (rows : List Row)
        → All (λ q. q.id ≢ id) rows
        → NoneIs (has_id id) (map message_of (rows_of peer rows))
    unfolding rows_of message_of
    no_message [] h = tt
    no_message (r ∷ rs) h = elim (Bool-cases (r.peer == c_str peer)) [
      | inl e ↦ rw e (ground (arith, h.0), no_message rs h.1)
      | inr e ↦ rw e (no_message rs h.1)
    ]

    module _ (change' : Message → Message)
        (same : (r : Row) → message_of (change r) ≡ change' (message_of r))
        (keeps_peer : (r : Row) → (change r).peer ≡ r.peer) where
      update_rows_at_hit :
          (r : Row) (rs : List Row)
          → (r.id == id) ≡ true
          → All (λ q. q.id ≢ id) rs
          → map message_of (rows_of peer (update_rows (row_has_id id) change (r ∷ rs)))
            ≡ update_first (has_id id) change' (map message_of (rows_of peer (r ∷ rs)))
      unfolding update_rows rows_of update_first
      update_rows_at_hit r rs hit rest = ground (
        arith,
        keeps_peer r,
        same r,
        reads_id r,
        update_rows-miss rs rest,
        update_first-miss (has_id id) change' (map message_of (rows_of peer rs))
            (no_message rs rest),
      )

      -- One UPDATE by a distinct id is one pass of the loop that stops at its first hit.
      update_rows-update_first :
          (rows : List Row)
          → Distinct rows
          → map message_of (rows_of peer (update_rows (row_has_id id) change rows))
            ≡ update_first (has_id id) change' (map message_of (rows_of peer rows))
      unfolding update_rows rows_of update_first
      update_rows-update_first [] h = refl
      update_rows-update_first (r ∷ rs) h = elim (Bool-cases (r.id == id)) [
        | inl hit ↦ update_rows_at_hit r rs hit (rw (← (nat_beq_iff r.id id).0 hit) h.0)
        | inr miss ↦ ground (arith, reads_id r, update_rows-update_first rs h.1)
      ]

-- The messages that the table holds for a peer, as a load reads them.
abbrev pub stored : Bytes → MessageStore → List Message
stored peer s = map message_of (rows_of peer s.messages)

-- Where ids are distinct and the schema is full, an edit or a deletion by id does to a peer's
-- stored messages what Conversation's loop does to the messages in memory.
pub edits_agree :
    (id : ℕ) (body peer : Bytes) (s : MessageStore)
    → has_columns message_columns s.columns ≡ true
    → Distinct s.messages
    → (stored peer (Store.update_message_body id body s)
        ≡ update_first (has_id id) (edit_message (c_str body)) (stored peer s))
      × (stored peer (Store.mark_message_deleted id s)
          ≡ update_first (has_id id) Conversation.delete_message (stored peer s))
unfolding Store.update_message_body Store.mark_message_deleted
edits_agree id body peer s schema distinct =
    let (ready, ready') = statement_columns s.columns schema in
    (
      rw ready (
          update_rows-update_first id (edit_row body) peer (edit_message (c_str body))
            (λ r. unfold message_of in refl) (λ r. refl) s.messages distinct),
      rw ready' (
          update_rows-update_first id delete_row peer Conversation.delete_message
            (λ r. unfold message_of in refl) (λ r. refl) s.messages distinct),
    )

-- An UPDATE that keeps the peer of each row touches a peer's rows as it touches the table.
rows_of-update_rows :
    (peer : Bytes) (test : Row → Bool) (change : Row → Row) (rows : List Row)
    → ((r : Row) → (change r).peer ≡ r.peer)
    → rows_of peer (update_rows test change rows) ≡ update_rows test change (rows_of peer rows)
unfolding rows_of update_rows
rows_of-update_rows peer test change [] keeps_peer = refl
rows_of-update_rows peer test change (r ∷ rs) keeps_peer =
    ground (arith, keeps_peer r, rows_of-update_rows peer test change rs keeps_peer)

two_rows_differ :
    (mid body : Bytes) (r q : Row) (rest : List Row)
    → (r.mid ≡ mid) × (q.mid ≡ mid) × (c_str mid ≡ mid)
    → q.edited ≡ false
    → map message_of (update_rows (row_has_mid mid) (edit_row body) (r ∷ q ∷ rest))
      ≢ update_first (has_mid mid) (edit_message (c_str body)) (map message_of (r ∷ q ∷ rest))
unfolding update_rows update_first message_of
two_rows_differ mid body r q rest mids old same = ground (
  arith,
  bytes_beq_iff r.mid (c_str mid),
  bytes_beq_iff q.mid (c_str mid),
  bytes_beq_iff r.mid mid,
  bytes_beq_iff q.mid mid,
)

-- An edit by mid changes the stored messages of a peer otherwise than Conversation's loop changes
-- those in memory, wherever the first two rows of that peer, among whatever rows of others, have that
-- mid (new_mid gives one mid to all that are sent to a peer within a millisecond) and the second is not
-- marked edited.
pub edits_by_mid_differ :
    (mid body peer : Bytes) (r q : Row) (rest : List Row) (s : MessageStore)
    → has_columns message_columns s.columns ≡ true
    → rows_of peer s.messages ≡ r ∷ q ∷ rest
    → (r.mid ≡ mid) × (q.mid ≡ mid) × (c_str mid ≡ mid)
    → q.edited ≡ false
    → stored peer (Store.update_message_body_by_mid mid body s)
      ≢ update_first (has_mid mid) (edit_message (c_str body)) (stored peer s)
unfolding Store.update_message_body_by_mid
edits_by_mid_differ mid body peer r q rest s schema table mids old =
    rw
      (
        (mid_columns s.columns schema).0,
        rows_of-update_rows peer (row_has_mid mid) (edit_row body) s.messages (λ x. refl),
        table,
      )
      (two_rows_differ mid body r q rest mids old)
