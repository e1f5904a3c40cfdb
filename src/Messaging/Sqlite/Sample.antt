-- ===== src/Messaging/Sqlite/Sample.antt =====
-- An engine that meets the laws: the next rowid is one above the largest, and sorting is by
-- insertion. It serves the concrete runs.
use mathlib.Core.List.{Perm}
use mathlib.Core.List.Perm
use Prim.Native.Nat.{max}
use epic_1bit2qbit.Prelude.{
  ℕ, suc, ◌<◌, ◌≤◌, ◌≡◌, ◌≢◌, List, [], ◌∷◌, Bool, true, false, if◌then◌else◌, All, SortedBy, arith,
  Bool-cases, inl, inr,
}
use epic_1bit2qbit.Prelude.Int.{ℤ, leb_ℤ, ◌≤ℤ◌}
use epic_1bit2qbit.Prelude.Text.{Bytes}
use epic_1bit2qbit.Messaging.Sqlite.{Row, Sqlite, Ascending, Descending}

pub largest : List ℕ → ℕ
largest [] = 0
largest (i ∷ is) = max i (largest is)

All-le : {m n : ℕ} (is : List ℕ) → m ≤ n → All (λ i. i ≤ m) is → All (λ i. i ≤ n) is
All-le [] h all = tt
All-le (i ∷ is) h all = (omega arith, All-le is h all.1)

pub largest-ge : (is : List ℕ) → All (λ i. i ≤ largest is) is
unfolding largest
largest-ge [] = tt
largest-ge (i ∷ is) =
    (omega arith, All-le {m = largest is} {n = max i (largest is)} is (omega arith) (largest-ge is))

pub above : (n : ℕ) (is : List ℕ) → All (λ i. i ≤ n) is → All (λ i. i ≢ suc n) is
above n [] h = tt
above n (i ∷ is) h = (omega arith, above n is h.1)

module _ {A : Type 0} (R : A → A → Type 0) (test : A → A → Bool) where
  insert : A → List A → List A
  insert a [] = a ∷ []
  insert a (x ∷ xs) = if test a x then a ∷ x ∷ xs else x ∷ insert a xs

  pub sort : List A → List A
  unfolding insert
  sort [] = []
  sort (x ∷ xs) = insert x (sort xs)

  insert-perm : (a : A) (xs : List A) → Perm (insert a xs) (a ∷ xs)
  unfolding insert
  insert-perm a [] = Perm.refl (a ∷ [])
  insert-perm a (x ∷ xs) = elim (Bool-cases (test a x)) [
    | inl e ↦ rw e (Perm.refl (a ∷ x ∷ xs))
    | inr e ↦ rw e (Perm.trans (Perm.cons x (insert-perm a xs)) (Perm.swap a x xs))
  ]

  pub sort-perm : (xs : List A) → Perm (sort xs) xs
  unfolding sort
  sort-perm [] = Perm.refl []
  sort-perm (x ∷ xs) = Perm.trans (insert-perm x (sort xs)) (Perm.cons x (sort-perm xs))

  module _ (yes_R : (a b : A) → test a b ≡ true → R a b)
      (no_R : (a b : A) → test a b ≡ false → R b a)
      (R_trans : (a b c : A) → R a b → R b c → R a c) where
    All-insert : (y a : A) (xs : List A) → R y a → All (R y) xs → All (R y) (insert a xs)
    unfolding insert
    All-insert y a [] h all = (h, tt)
    All-insert y a (x ∷ xs) h all = elim (Bool-cases (test a x)) [
      | inl e ↦ rw e (h, all)
      | inr e ↦ rw e (all.0, All-insert y a xs h all.1)
    ]

    All-trans : (a x : A) (xs : List A) → R a x → All (R x) xs → All (R a) xs
    All-trans a x [] h all = tt
    All-trans a x (y ∷ ys) h all = (R_trans a x y h all.0, All-trans a x ys h all.1)

    insert-SortedBy : (a : A) (xs : List A) → SortedBy R xs → SortedBy R (insert a xs)
    unfolding insert
    insert-SortedBy a [] s = (tt, tt)
    insert-SortedBy a (x ∷ xs) s = elim (Bool-cases (test a x)) [
      | inl e ↦ rw e ((yes_R a x e, All-trans a x xs (yes_R a x e) s.0), (s.0, s.1))
      | inr e ↦ rw e (All-insert x a xs (no_R a x e) s.0, insert-SortedBy a xs s.1)
    ]

    sort-SortedBy : (xs : List A) → SortedBy R (sort xs)
    unfolding sort
    sort-SortedBy [] = tt
    sort-SortedBy (x ∷ xs) = insert-SortedBy x (sort xs) (sort-SortedBy xs)

abbrev Earlier : Row → Row → Type 0
Earlier r q = r.timestamp_ms ≤ℤ q.timestamp_ms

abbrev earlier? : Row → Row → Bool
earlier? r q = leb_ℤ r.timestamp_ms q.timestamp_ms

abbrev Newer : Bytes × ℤ → Bytes × ℤ → Type 0
Newer g h = h.1 ≤ℤ g.1

abbrev newer? : Bytes × ℤ → Bytes × ℤ → Bool
newer? g h = leb_ℤ h.1 g.1

pub by_time_sorted : (rows : List Row) → Ascending (sort Earlier earlier? rows)
by_time_sorted =
    sort-SortedBy Earlier earlier? (λ a b h. ground arith) (λ a b h. ground arith)
      (λ a b c h k. omega arith)

pub by_recency_sorted : (gs : List (Bytes × ℤ)) → Descending (sort Newer newer? gs)
by_recency_sorted =
    sort-SortedBy Newer newer? (λ a b h. ground arith) (λ a b h. ground arith)
      (λ a b c h k. omega arith)

pub zero_lt_suc : (n : ℕ) → 0 < suc n
zero_lt_suc n = omega arith

unfoldable pub sample : Sqlite
unfolding largest sort
sample = record {
  new_rowid = λ is. suc (largest is);
  new_rowid_pos = λ is. zero_lt_suc (largest is);
  new_rowid_fresh = λ is. above (largest is) is (largest-ge is);
  by_time = sort Earlier earlier?;
  by_time_perm = sort-perm Earlier earlier?;
  by_time_sorted = by_time_sorted;
  by_recency = sort Newer newer?;
  by_recency_perm = sort-perm Newer newer?;
  by_recency_sorted = by_recency_sorted;
  stale_rowid = λ rows. 0;
  errmsg = [];
}
