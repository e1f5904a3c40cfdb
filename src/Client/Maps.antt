-- ===== src/Client/Maps.antt =====
-- std::map<std::string, V> of Client.h: at most one entry for a key, in the order of the keys.
use epic_1bit2qbit.Prelude.{
  ◌≡◌, Bool, true, false, ◌&&◌, ◌||◌, List, [], ◌∷◌, Option, none, some, ltb, nat_beq, ◌==◌,
  bytes_eq, if◌then◌else◌, arith, bytes_beq_iff,
}
use epic_1bit2qbit.Prelude.Text.{Bytes}

abbrev pub Map : Type 0 → Type 0
Map V = List (Bytes × V)

-- std::less<std::string>
unfoldable pub bytes_lt : Bytes → Bytes → Bool
bytes_lt [] [] = false
bytes_lt [] (y ∷ ys) = true
bytes_lt (x ∷ xs) [] = false
bytes_lt (x ∷ xs) (y ∷ ys) = ltb x y || (nat_beq x y && bytes_lt xs ys)

module _ {V : Type 0} where
  unfoldable pub lookup : Bytes → Map V → Option V
  lookup k [] = none
  lookup k ((j, v) ∷ m) = if j == k then some v else lookup k m

  -- insert_or_assign
  unfoldable pub assign : Bytes → V → Map V → Map V
  unfolding bytes_lt
  assign k v [] = (k, v) ∷ []
  assign k v ((j, w) ∷ m) =
      if j == k
      then (k, v) ∷ m
      else if bytes_lt k j
      then (k, v) ∷ (j, w) ∷ m
      else (j, w) ∷ assign k v m

  unfoldable pub erase : Bytes → Map V → Map V
  erase k [] = []
  erase k ((j, w) ∷ m) = if j == k then m else (j, w) ∷ erase k m

  abbrev pub map_values : (V → V) → Map V → Map V
  map_values f [] = []
  map_values f ((j, w) ∷ m) = (j, f w) ∷ map_values f m

  pub lookup-assign : (k : Bytes) (v : V) (m : Map V) → lookup k (assign k v m) ≡ some v
  unfolding lookup assign
  lookup-assign k v [] = ground (arith, bytes_beq_iff k k)
  lookup-assign k v ((j, w) ∷ m) =
      ground (arith, bytes_beq_iff k k, bytes_beq_iff j k, lookup-assign k v m)
