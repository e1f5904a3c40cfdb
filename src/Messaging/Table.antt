-- ===== src/Messaging/Table.antt =====
-- The tables of MessageStore.cpp that have a TEXT PRIMARY KEY: at most one row for a key, and no
-- order that a statement of the store shows.
use epic_1bit2qbit.Prelude.{
  ◌≡◌, refl, List, [], ◌∷◌, Option, none, some, ◌==◌, bytes_eq, if◌then◌else◌, arith, bytes_beq_iff,
}
use epic_1bit2qbit.Prelude.Text.{Bytes}

abbrev pub Table : Type 0 → Type 0
Table V = List (Bytes × V)

module _ {V : Type 0} where
  -- SELECT value WHERE key = ?
  unfoldable pub select : Bytes → Table V → Option V
  select k [] = none
  select k ((j, v) ∷ t) = if j == k then some v else select k t

  -- INSERT OR REPLACE of one row
  unfoldable pub replace : Bytes → V → Table V → Table V
  replace k v [] = (k, v) ∷ []
  replace k v ((j, w) ∷ t) = if j == k then (k, v) ∷ t else (j, w) ∷ replace k v t

  pub select-replace :
      (k j : Bytes) (v : V) (t : Table V)
      → select j (replace k v t) ≡ (if k == j then some v else select j t)
  unfolding select replace
  select-replace k j v [] = refl
  select-replace k j v ((i, w) ∷ t) =
      ground
        (arith, bytes_beq_iff k j, bytes_beq_iff i k, bytes_beq_iff i j, select-replace k j v t)
