-- ===== src/Messaging/Store/Refinement.antt =====
-- The messages table of MessageStore.cpp as a finite map from ids to messages: what the class promises of
-- its calls, whatever the order and the layout of the rows.
use epic_1bit2qbit.Prelude.{
  ℕ, ◌<◌, ◌≡◌, refl, ◌≢◌, ◌⊎◌, ◌∙◌, ap, Bool, true, not, List, [], ◌∷◌, ◌++◌, Option, none, some,
  ◌==◌, nat_eq, nat_beq_iff, arith, keep, All, if◌then◌else◌, Bool-cases, inl, inr,
}
use epic_1bit2qbit.Prelude.Text.{Bytes, codes}
use epic_1bit2qbit.Messaging.Message.{Message}
use epic_1bit2qbit.Messaging.Sqlite.{Sqlite, Row}
use epic_1bit2qbit.Messaging.Rows.{
  message_columns, has_columns, row_of, row_ids, insert_row, update_rows, row_has_id, row_has_mid,
  edit_row, delete_row,
}
use epic_1bit2qbit.Messaging.Store.{
  MessageStore, save_message, delete_message, update_message_body, update_message_body_by_mid,
  mark_message_deleted, mark_message_deleted_by_mid, save_ratchet_state, save_associated_data,
  pin_identity_key, save_key,
}
use epic_1bit2qbit.Messaging.Store.Ids.{
  Call, save, delete, update, update_by_mid, mark_deleted, mark_deleted_by_mid, ratchet, associated,
  pin, key, perform, perform_all,
}

-- ── The abstract store ──

abbrev pub Messages : Type 0
Messages = ℕ → Option Row

abbrev pub over : (Row → Row) → Option Row → Option Row
over change none = none
over change (some r) = some (change r)

abbrev pub put : ℕ → Row → Messages → Messages
put id r m i = if i == id then some r else m i

abbrev pub remove : ℕ → Messages → Messages
remove id m i = if i == id then none else m i

abbrev pub adjust : ℕ → (Row → Row) → Messages → Messages
adjust id change m i = if i == id then over change (m i) else m i

abbrev pub adjust_where : (Row → Bool) → (Row → Row) → Messages → Messages
adjust_where test change m i = over (λ r. if test r then change r else r) (m i)

abbrev pub Same : Messages → Messages → Type 0
Same m n = (i : ℕ) → m i ≡ n i

-- What a call may do. A message that is saved with the id 0 gets an id that is free.
abbrev pub Next : Call → Messages → Messages → Type 0
Next (save msg) m n =
    (id : ℕ) × (0 < id)
    × (((msg.id ≡ 0) × (m id ≡ none)) ⊎ (msg.id ≡ id))
    × Same n (put id (row_of id msg) m)
Next (delete id) m n = Same n (remove id m)
Next (update id body) m n = Same n (adjust id (edit_row body) m)
Next (update_by_mid mid body) m n = Same n (adjust_where (row_has_mid mid) (edit_row body) m)
Next (mark_deleted id) m n = Same n (adjust id delete_row m)
Next (mark_deleted_by_mid mid) m n = Same n (adjust_where (row_has_mid mid) delete_row m)
Next (ratchet peer state) m n = Same n m
Next (associated peer ad) m n = Same n m
Next (pin user ik) m n = Same n m
Next (key prefix name value) m n = Same n m

abbrev pub Trace : List Call → Messages → Messages → Type 0
Trace [] m n = Same n m
Trace (c ∷ cs) m n = (k : Messages) × Next c m k × Trace cs k n

-- ── The rows as such a store ──

abbrev pub find_row : List Row → Messages
find_row [] i = none
find_row (r ∷ rs) i = if r.id == i then some r else find_row rs i

abbrev pub stored : MessageStore → Messages
stored s = find_row s.messages

find_row-keep :
    (id : ℕ) (rows : List Row)
    → Same (find_row (keep (λ r. not (row_has_id id r)) rows)) (remove id (find_row rows))
find_row-keep id [] i = ground arith
find_row-keep id (r ∷ rs) i = ground (arith, find_row-keep id rs i)

abbrev or_else : Option Row → Option Row → Option Row
or_else none o = o
or_else (some r) o = some r

find_row-append :
    (rows : List Row) (r : Row) (i : ℕ)
    → find_row (rows ++ r ∷ []) i ≡ or_else (find_row rows i) (if r.id == i then some r else none)
find_row-append [] r i = refl
find_row-append (q ∷ rs) r i = ground (arith, find_row-append rs r i)

find_row-insert_row :
    (r : Row) (rows : List Row) → Same (find_row (insert_row r rows)) (put r.id r (find_row rows))
unfolding insert_row
find_row-insert_row r rows i =
    rw (find_row-append (keep (λ q. not (q.id == r.id)) rows) r i, find_row-keep r.id rows i)
      (ground arith)

find_row-update_rows :
    (test : Row → Bool) (change : Row → Row) (rows : List Row)
    → ((r : Row) → (change r).id ≡ r.id)
    → Same (find_row (update_rows test change rows)) (adjust_where test change (find_row rows))
unfolding update_rows
find_row-update_rows test change [] same i = refl
find_row-update_rows test change (r ∷ rs) same i =
    ground (arith, same r, find_row-update_rows test change rs same i)

found_id : (rows : List Row) (i : ℕ) (r : Row) → find_row rows i ≡ some r → r.id ≡ i
found_id [] i r h = absurd (cc h)
found_id (q ∷ rs) i r h = ground (arith, found_id rs i r)

find_row-update_by_id :
    (id : ℕ) (change : Row → Row) (rows : List Row)
    → ((r : Row) → (change r).id ≡ r.id)
    → Same (find_row (update_rows (row_has_id id) change rows)) (adjust id change (find_row rows))
unfolding update_rows
find_row-update_by_id id change [] same i = ground arith
find_row-update_by_id id change (r ∷ rs) same i =
    ground (arith, same r, find_row-update_by_id id change rs same i)

not_found : (rows : List Row) (id : ℕ) → All (λ j. j ≢ id) (row_ids rows) → find_row rows id ≡ none
not_found [] id h = refl
not_found (r ∷ rs) id h = ground (arith, h.0, not_found rs id h.1)

-- Each statement can be prepared with the full schema.
abbrev HasStatements : List Bytes → Type 0
HasStatements cs =
    (has_columns (codes "id" ∷ []) cs ≡ true)
    × (has_columns (codes "body" ∷ codes "edited" ∷ codes "id" ∷ []) cs ≡ true)
    × (has_columns (codes "body" ∷ codes "edited" ∷ codes "mid" ∷ []) cs ≡ true)
    × (has_columns (codes "deleted" ∷ codes "body" ∷ codes "id" ∷ []) cs ≡ true)
    × (has_columns (codes "deleted" ∷ codes "body" ∷ codes "mid" ∷ []) cs ≡ true)

statements : (cs : List Bytes) → has_columns message_columns cs ≡ true → HasStatements cs
unfolding has_columns
statements cs h = ground arith

save_message-Next :
    (db : Sqlite) (msg : Message) (s : MessageStore)
    → has_columns message_columns s.columns ≡ true
    → Next (save msg) (stored s) (stored (save_message db msg s).1)
unfolding save_message row_of
save_message-Next db msg s schema = elim (Bool-cases (msg.id == 0)) [
  | inl blank ↦
      let id = db.new_rowid (row_ids s.messages) in
      (
        id,
        db.new_rowid_pos (row_ids s.messages),
        inl (
          (nat_beq_iff msg.id 0).0 blank,
          not_found s.messages id (db.new_rowid_fresh (row_ids s.messages)),
        ),
        rw (schema, blank) (find_row-insert_row (row_of id msg) s.messages),
      )
  | inr set ↦ (
    msg.id,
    ground arith,
    inr refl,
    rw (schema, set) (find_row-insert_row (row_of msg.id msg) s.messages),
  )
]

perform-Next :
    (db : Sqlite) (c : Call) (s : MessageStore)
    → has_columns message_columns s.columns ≡ true
    → Next c (stored s) (stored (perform db c s))
unfolding perform delete_message update_message_body update_message_body_by_mid mark_message_deleted
    mark_message_deleted_by_mid save_ratchet_state save_associated_data pin_identity_key save_key
perform-Next db (save msg) s h = save_message-Next db msg s h
perform-Next db (delete id) s h = rw ((statements s.columns h).0) (find_row-keep id s.messages)
perform-Next db (update id body) s h =
    rw ((statements s.columns h).1)
      (find_row-update_by_id id (edit_row body) s.messages (λ r. refl))
perform-Next db (update_by_mid mid body) s h =
    rw ((statements s.columns h).2)
      (find_row-update_rows (row_has_mid mid) (edit_row body) s.messages (λ r. refl))
perform-Next db (mark_deleted id) s h =
    rw ((statements s.columns h).3) (find_row-update_by_id id delete_row s.messages (λ r. refl))
perform-Next db (mark_deleted_by_mid mid) s h =
    rw ((statements s.columns h).4)
      (find_row-update_rows (row_has_mid mid) delete_row s.messages (λ r. refl))
perform-Next db (ratchet peer state) s h = λ i. refl
perform-Next db (associated peer ad) s h = λ i. refl
perform-Next db (pin user ik) s h = λ i. refl
perform-Next db (key prefix name value) s h = λ i. refl

columns-perform : (db : Sqlite) (c : Call) (s : MessageStore) → (perform db c s).columns ≡ s.columns
unfolding perform save_message delete_message update_message_body update_message_body_by_mid
    mark_message_deleted mark_message_deleted_by_mid save_ratchet_state save_associated_data
    pin_identity_key save_key
columns-perform db (save msg) s = ground arith
columns-perform db (delete id) s = ground arith
columns-perform db (update id body) s = ground arith
columns-perform db (update_by_mid mid body) s = ground arith
columns-perform db (mark_deleted id) s = ground arith
columns-perform db (mark_deleted_by_mid mid) s = ground arith
columns-perform db (ratchet peer state) s = refl
columns-perform db (associated peer ad) s = refl
columns-perform db (pin user ik) s = refl
columns-perform db (key prefix name value) s = refl

-- The table refines the abstract store, a finite map from ids to messages: with the full schema every
-- sequence of calls does to the map from ids to rows what the map's own operations do, step by step
-- - a save puts the message under its id, or under a free one where it has none; an edit or a
-- deletion by id touches that message alone, one by mid every message with the mid - and the
-- calls for keys and states change no message.
pub perform_all-Trace :
    (db : Sqlite) (cs : List Call) (s : MessageStore)
    → has_columns message_columns s.columns ≡ true
    → Trace cs (stored s) (stored (perform_all db cs s))
unfolding perform_all
perform_all-Trace db [] s h = λ i. refl
perform_all-Trace db (c ∷ cs) s h =
    let t = perform db c s in
    (
      stored t,
      perform-Next db c s h,
      perform_all-Trace db cs t (ap (has_columns message_columns) (columns-perform db c s) ∙ h),
    )
