-- ===== src/Messaging/Store/Peers.antt =====
-- `list_peers` of MessageStore.cpp.
use mathlib.Core.List.{Mem, Mem-prop, mem-cons, not-mem-nil, perm_append_comm}
use mathlib.Core.List.Perm
use mathlib.Core.Logic.Or
use mathlib.Core.HLevel.{⊥_prop}
use mathlib.Core.Path.{subst}
use epic_1bit2qbit.Prelude.{
  ◌≡◌, refl, ◌≢◌, ◌↔◌, sym, Bool, true, false, List, [], ◌∷◌, ◌++◌, none, ◌==◌, bytes_eq, arith,
  map, if◌then◌else◌, Bool-cases, inl, inr, bytes_beq_iff,
}
use epic_1bit2qbit.Prelude.Int.{ℤ}
use epic_1bit2qbit.Prelude.Text.{Bytes, c_str}
use epic_1bit2qbit.Messaging.Sqlite.{Sqlite, Row}
use epic_1bit2qbit.Messaging.Rows.{message_columns, has_columns, rows_of, groups, raise_group}
use epic_1bit2qbit.Messaging.Store.{MessageStore, load_conversation, list_peers}
use epic_1bit2qbit.Messaging.Store.Loading.{load_conversation-Loaded}

has_group : Bytes → List (Bytes × ℤ) → Bool
has_group p [] = false
has_group p ((q, t) ∷ gs) = if q == p then true else has_group p gs

abbrev group_peers : List (Bytes × ℤ) → List Bytes
group_peers = map λ g. g.0

group_peers-raise_group :
    (p : Bytes) (t : ℤ) (gs : List (Bytes × ℤ))
    → group_peers (raise_group p t gs)
      ≡ (if has_group p gs then group_peers gs else group_peers gs ++ p ∷ [])
unfolding raise_group has_group
group_peers-raise_group p t [] = refl
group_peers-raise_group p t ((q, u) ∷ gs) =
    ground (arith, bytes_beq_iff q p, group_peers-raise_group p t gs)

has_group→Mem : (p : Bytes) (gs : List (Bytes × ℤ)) → has_group p gs ≡ true → Mem p (group_peers gs)
unfolding has_group
has_group→Mem p [] h = cc
has_group→Mem p ((q, u) ∷ gs) h = elim (Bool-cases (q == p)) [
  | inl e ↦ mem-cons.1 (Or.inl (sym ((bytes_beq_iff q p).0 e)))
  | inr e ↦ mem-cons.1 (Or.inr (has_group→Mem p gs (rw e at h)))
]

Mem→has_group :
    (p : Bytes) (gs : List (Bytes × ℤ)) → has_group p gs ≡ false → ¬ Mem p (group_peers gs)
unfolding has_group
Mem→has_group p [] h m = not-mem-nil m
Mem→has_group p ((q, u) ∷ gs) h m = elim (Bool-cases (q == p)) [
  | inl e ↦ cc (rw e at h)
  | inr e ↦
      Or.elim ⊥_prop (mem-cons.0 m) (λ same. cc (e, (bytes_beq_iff q p).1 (sym same)))
        (Mem→has_group p gs (rw e at h))
]

mem-raise_group :
    (q p : Bytes) (t : ℤ) (gs : List (Bytes × ℤ))
    → Mem q (group_peers (raise_group p t gs)) ↔ Mem q (p ∷ group_peers gs)
mem-raise_group q p t gs = elim (Bool-cases (has_group p gs)) [
  | inl e ↦
      let known = has_group→Mem p gs e in
      rw (group_peers-raise_group p t gs, e)
        (
          (λ m. mem-cons.1 (Or.inr m)),
          λ m. Or.elim Mem-prop (mem-cons.0 m) (λ same. rw same known) (λ old. old),
        )
  | inr e ↦
      rw (group_peers-raise_group p t gs, e)
        (Perm.mem_iff (perm_append_comm (group_peers gs) (p ∷ [])))
]

mem-groups :
    (q : Bytes) (rows : List Row)
    → Mem q (group_peers (groups rows)) ↔ Mem q (map (λ r. r.peer) rows)
unfolding groups
mem-groups q [] = (λ m. m, λ m. m)
mem-groups q (r ∷ rs) =
    let ih = mem-groups q rs in
    let step = mem-raise_group q r.peer r.timestamp_ms (groups rs) in
    (
      λ m.
          Or.elim Mem-prop (mem-cons.0 (step.0 m)) (λ e. mem-cons.1 (Or.inl e))
            (λ n. mem-cons.1 (Or.inr (ih.0 n))),
      λ m. step.1 (
          Or.elim Mem-prop (mem-cons.0 m) (λ e. mem-cons.1 (Or.inl e))
            (λ n. mem-cons.1 (Or.inr (ih.1 n)))),
    )

-- The peers listed are exactly those that have a row.
pub mem-list_peers :
    (db : Sqlite) (s : MessageStore) (q : Bytes)
    → Mem q (list_peers db s) ↔ Mem q (map (λ r. r.peer) s.messages)
unfolding list_peers
mem-list_peers db s q =
    let sorted =
      Perm.mem_iff {a = q}
        (Perm.map (λ (g : Bytes × ℤ). g.0) (db.by_recency_perm (groups s.messages))) in
    let grouped = mem-groups q s.messages in
    (λ m. grouped.0 (sorted.0 m), λ m. sorted.1 (grouped.1 m))

has_row :
    (q : Bytes) (rows : List Row) → rows_of q rows ≡ [] → ¬ Mem (c_str q) (map (λ r. r.peer) rows)
unfolding rows_of
has_row q [] h m = not-mem-nil m
has_row q (r ∷ rs) h m = elim (Bool-cases (r.peer == c_str q)) [
  | inl e ↦ cc (rw e at h)
  | inr e ↦
      Or.elim ⊥_prop (mem-cons.0 m) (λ same. cc (e, (bytes_beq_iff r.peer (c_str q)).1 (sym same)))
        (has_row q rs (rw e at h))
]

-- Every peer that `list_peers` returns has a conversation to load, so that a login that walks the
-- list skips none (with the full schema, for a name without a NUL, as all stored names are).
pub list_peers-load_conversation :
    (db : Sqlite) (s : MessageStore) (q : Bytes)
    → has_columns message_columns s.columns ≡ true
    → c_str q ≡ q
    → Mem q (list_peers db s)
    → load_conversation db q s ≢ none
list_peers-load_conversation db s q schema plain m = elim (load_conversation-Loaded db q s schema) [
  | inl (h, e) ↦ absurd (
      has_row q s.messages h (
        subst (λ t. Mem t (map (λ r. r.peer) s.messages)) (sym plain)
          ((mem-list_peers db s q).0 m)))
  | inr (h, (c, e, l)) ↦ λ n. cc (e, n)
]
