-- ===== src/Messaging/Store/Ids.antt =====
-- The ids of the messages table: positive and distinct, whatever calls are made.
use mathlib.Core.Path.{subst}
use epic_1bit2qbit.Prelude.{
  ℕ, ◌<◌, ◌≡◌, refl, ◌≢◌, sym, Bool, true, false, not, List, [], ◌∷◌, ◌++◌, ◌==◌, nat_eq, arith,
  keep, All, All-append, All-keep, if◌then◌else◌, Bool-cases, inl, inr,
}
use epic_1bit2qbit.Prelude.Text.{Bytes}
use epic_1bit2qbit.Messaging.Message.{Message}
use epic_1bit2qbit.Messaging.Sqlite.{Sqlite, Row}
use epic_1bit2qbit.Messaging.Rows.{
  message_columns, has_columns, row_of, row_ids, insert_row, update_rows, row_has_id, row_has_mid,
  edit_row, delete_row,
}
use epic_1bit2qbit.Messaging.Store.{
  MessageStore, save_message, delete_message, update_message_body, update_message_body_by_mid,
  mark_message_deleted, mark_message_deleted_by_mid, save_ratchet_state, save_associated_data,
  pin_identity_key, save_key, with_columns,
}

abbrev pub Distinct : List Row → Type 0
Distinct [] = Unit
Distinct (r ∷ rs) = All (λ q. q.id ≢ r.id) rs × Distinct rs

-- Every row has a positive id of its own.
pub record IsWellFormed (rows : List Row) : Type 0 where
  pub distinct : Distinct rows
  pub positive : All (λ r. 0 < r.id) rows

Distinct-keep : (p : Row → Bool) (rows : List Row) → Distinct rows → Distinct (keep p rows)
Distinct-keep p [] h = h
Distinct-keep p (r ∷ rs) h =
    ground (arith, Distinct-keep p rs h.1, All-keep (λ q. q.id ≢ r.id) p rs h.0)

keep-IsWellFormed :
    (p : Row → Bool) (rows : List Row) → IsWellFormed rows → IsWellFormed (keep p rows)
keep-IsWellFormed p rows h = record {
  distinct = Distinct-keep p rows h.distinct;
  positive = All-keep (λ r. 0 < r.id) p rows h.positive;
}

Distinct-append_last :
    (rows : List Row) (r : Row)
    → Distinct rows
    → All (λ q. q.id ≢ r.id) rows
    → Distinct (rows ++ r ∷ [])
Distinct-append_last [] r h fresh = (tt, tt)
Distinct-append_last (x ∷ rs) r h fresh = (
  All-append (λ q. q.id ≢ x.id) rs (r ∷ []) h.0 ((λ e. fresh.0 (sym e)), tt),
  Distinct-append_last rs r h.1 fresh.1,
)

kept_differ : (id : ℕ) (rows : List Row) → All (λ q. q.id ≢ id) (keep (λ q. not (q.id == id)) rows)
kept_differ id [] = tt
kept_differ id (r ∷ rs) = ground (arith, kept_differ id rs)

insert_row-IsWellFormed :
    (r : Row) (rows : List Row) → 0 < r.id → IsWellFormed rows → IsWellFormed (insert_row r rows)
unfolding insert_row
insert_row-IsWellFormed r rows pos h =
    let kept = keep-IsWellFormed (λ q. not (q.id == r.id)) rows h in
    record {
      distinct = Distinct-append_last _ r kept.distinct (kept_differ r.id rows);
      positive = All-append (λ q. 0 < q.id) _ (r ∷ []) kept.positive (pos, tt);
    }

-- A change that keeps the id keeps any statement about ids.
All-update_rows :
    (P : ℕ → Type 0) (test : Row → Bool) (change : Row → Row) (rows : List Row)
    → ((r : Row) → (change r).id ≡ r.id)
    → All (λ r. P r.id) rows
    → All (λ r. P r.id) (update_rows test change rows)
unfolding update_rows
All-update_rows P test change [] same h = tt
All-update_rows P test change (r ∷ rs) same h =
    (step (test r), All-update_rows P test change rs same h.1)
  where
    step : (b : Bool) → P (if b then change r else r).id
    step true = subst P (sym (same r)) h.0
    step false = h.0

Distinct-update_rows :
    (test : Row → Bool) (change : Row → Row) (rows : List Row)
    → ((r : Row) → (change r).id ≡ r.id)
    → Distinct rows
    → Distinct (update_rows test change rows)
unfolding update_rows
Distinct-update_rows test change [] same h = tt
Distinct-update_rows test change (r ∷ rs) same h =
    (step (test r), Distinct-update_rows test change rs same h.1)
  where
    rest : All (λ q. q.id ≢ r.id) (update_rows test change rs)
    rest = All-update_rows (λ i. i ≢ r.id) test change rs same h.0

    step :
        (b : Bool) → All (λ q. q.id ≢ (if b then change r else r).id) (update_rows test change rs)
    step true = rw (same r) rest
    step false = rest

update_rows-IsWellFormed :
    (test : Row → Bool) (change : Row → Row) (rows : List Row)
    → ((r : Row) → (change r).id ≡ r.id)
    → IsWellFormed rows
    → IsWellFormed (update_rows test change rows)
update_rows-IsWellFormed test change rows same h = record {
  distinct = Distinct-update_rows test change rows same h.distinct;
  positive = All-update_rows (λ i. 0 < i) test change rows same h.positive;
}

-- The calls of the class that change the database.
pub data Call : Type 0 where
  save : Message → Call
  delete : ℕ → Call
  update : ℕ → Bytes → Call
  update_by_mid : Bytes → Bytes → Call
  mark_deleted : ℕ → Call
  mark_deleted_by_mid : Bytes → Call
  ratchet : Bytes → Bytes → Call
  associated : Bytes → Bytes → Call
  pin : Bytes → Bytes → Call
  key : Bytes → Bytes → Bytes → Call

unfoldable pub perform : Sqlite → Call → MessageStore → MessageStore
perform db (save msg) s = (save_message db msg s).1
perform db (delete id) s = delete_message id s
perform db (update id body) s = update_message_body id body s
perform db (update_by_mid mid body) s = update_message_body_by_mid mid body s
perform db (mark_deleted id) s = mark_message_deleted id s
perform db (mark_deleted_by_mid mid) s = mark_message_deleted_by_mid mid s
perform db (ratchet peer state) s = save_ratchet_state peer state s
perform db (associated peer ad) s = save_associated_data peer ad s
perform db (pin user ik) s = pin_identity_key user ik s
perform db (key prefix name value) s = save_key prefix name value s

unfoldable pub perform_all : Sqlite → List Call → MessageStore → MessageStore
perform_all db [] s = s
perform_all db (c ∷ cs) s = perform_all db cs (perform db c s)

with_columns-IsWellFormed :
    (names : List Bytes) (change : List Row → List Row) (s : MessageStore)
    → IsWellFormed s.messages
    → IsWellFormed (change s.messages)
    → IsWellFormed (with_columns names change s).messages
with_columns-IsWellFormed names change s old new = elim (Bool-cases (has_columns names s.columns)) [
  | inl e ↦ rw e new
  | inr e ↦ rw e old
]

-- The statements that write in place.
update_statement-IsWellFormed :
    (names : List Bytes) (test : Row → Bool) (change : Row → Row) (s : MessageStore)
    → ((r : Row) → (change r).id ≡ r.id)
    → IsWellFormed s.messages
    → IsWellFormed (with_columns names (update_rows test change) s).messages
update_statement-IsWellFormed names test change s same h =
    with_columns-IsWellFormed names (update_rows test change) s h
      (update_rows-IsWellFormed test change s.messages same h)

new_id_pos : (db : Sqlite) (id : ℕ) (ids : List ℕ) → 0 < (if id == 0 then db.new_rowid ids else id)
new_id_pos db id ids = ground (arith, db.new_rowid_pos ids)

save_message-IsWellFormed :
    (db : Sqlite) (msg : Message) (s : MessageStore)
    → IsWellFormed s.messages
    → IsWellFormed (save_message db msg s).1.messages
unfolding save_message
save_message-IsWellFormed db msg s h = elim (Bool-cases (has_columns message_columns s.columns)) [
  | inl e ↦ rw e (
      insert_row-IsWellFormed (row_of _ msg) s.messages
        (unfold row_of in new_id_pos db msg.id (row_ids s.messages)) h)
  | inr e ↦ rw e h
]

-- Every call keeps the ids of the table positive and distinct.
pub perform-IsWellFormed :
    (db : Sqlite) (c : Call) (s : MessageStore)
    → IsWellFormed s.messages
    → IsWellFormed (perform db c s).messages
unfolding perform delete_message update_message_body update_message_body_by_mid mark_message_deleted
    mark_message_deleted_by_mid save_ratchet_state save_associated_data pin_identity_key save_key
perform-IsWellFormed db (save msg) s h = save_message-IsWellFormed db msg s h
perform-IsWellFormed db (delete id) s h =
    with_columns-IsWellFormed _ (keep (λ r. not (row_has_id id r))) s h
      (keep-IsWellFormed (λ r. not (row_has_id id r)) s.messages h)
perform-IsWellFormed db (update id body) s h =
    update_statement-IsWellFormed _ (row_has_id id) (edit_row body) s (λ r. refl) h
perform-IsWellFormed db (update_by_mid mid body) s h =
    update_statement-IsWellFormed _ (row_has_mid mid) (edit_row body) s (λ r. refl) h
perform-IsWellFormed db (mark_deleted id) s h =
    update_statement-IsWellFormed _ (row_has_id id) delete_row s (λ r. refl) h
perform-IsWellFormed db (mark_deleted_by_mid mid) s h =
    update_statement-IsWellFormed _ (row_has_mid mid) delete_row s (λ r. refl) h
perform-IsWellFormed db (ratchet peer state) s h = h
perform-IsWellFormed db (associated peer ad) s h = h
perform-IsWellFormed db (pin user ik) s h = h
perform-IsWellFormed db (key prefix name value) s h = h

-- After any sequence of calls from a well-formed table the table is well-formed: the ids of its
-- rows are positive and distinct.
pub perform_all-IsWellFormed :
    (db : Sqlite) (cs : List Call) (s : MessageStore)
    → IsWellFormed s.messages
    → IsWellFormed (perform_all db cs s).messages
unfolding perform_all
perform_all-IsWellFormed db [] s h = h
perform_all-IsWellFormed db (c ∷ cs) s h =
    perform_all-IsWellFormed db cs (perform db c s) (perform-IsWellFormed db c s h)
