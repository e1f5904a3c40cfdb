-- ===== src/Prelude/Text/Decimal.antt =====
-- std::stoi, and that it reads what std::to_string prints.
use Prim.Native.Nat.{ℕ, zero, suc, ◌+◌, ◌-◌, ◌*◌, ◌/◌, ◌%◌, ◌^◌, ◌<◌}
use mathlib.Core.Path.{◌≡◌, refl, ap, ◌∙◌}
use mathlib.Core.Logic.{inl, inr}
use mathlib.Core.Bool.{Bool, true, false, not, ◌&&◌}
use mathlib.Core.List.{[], ◌∷◌}
use native.Mathlib.Omega.{arith}
use epic_1bit2qbit.Prelude.Tests.{nat_beq, ltb, leb, if◌then◌else◌, Bool-cases}
use epic_1bit2qbit.Prelude.Lists.{All}
use epic_1bit2qbit.Prelude.Int.{ℤ, pos, negsuc}
use epic_1bit2qbit.Prelude.Text.{Bytes, codes, is_space, to_string, digit_loop}
use epic_1bit2qbit.Prelude.Result.{Result, ok, err}

abbrev pub is_digit : ℕ → Bool
is_digit c = leb 48 c && leb c 57

-- The number that the leading digits stand for, after `n`.
unfoldable pub digits_value : ℕ → Bytes → ℕ
digits_value n [] = n
digits_value n (c ∷ s) =
    let rest = digits_value (n * 10 + (c - 48)) s in if is_digit c then rest else n

abbrev pub starts_digit : Bytes → Bool
starts_digit [] = false
starts_digit (c ∷ s) = is_digit c

-- std::stoi behind the sign; its exceptions say "stoi".
abbrev pub stoi_unsigned : Bool → Bytes → Result ℤ
stoi_unsigned minus s =
    let n = digits_value 0 s in
    if not (starts_digit s)
    then err (codes "stoi")
    else if minus
    then (if leb n (2 ^ 31)
        then ok (if nat_beq n 0 then pos 0 else negsuc (n - 1))
        else err (codes "stoi"))
    else if ltb n (2 ^ 31)
    then ok (pos n)
    else err (codes "stoi")

abbrev pub stoi_signed : Bytes → Result ℤ
stoi_signed [] = err (codes "stoi")
stoi_signed (c ∷ s) =
    if nat_beq c 45
    then stoi_unsigned true s
    else if nat_beq c 43
    then stoi_unsigned false s
    else stoi_unsigned false (c ∷ s)

-- std::stoi: white space, a sign, digits; what follows is ignored.
unfoldable pub stoi : Bytes → Result ℤ
unfolding digits_value
stoi [] = stoi_signed []
stoi (c ∷ s) = let rest = stoi s in if is_space c then rest else stoi_signed (c ∷ s)

digits_value-digit :
    (m d : ℕ) (s : Bytes) → d < 10 → digits_value m ((48 + d) ∷ s) ≡ digits_value (m * 10 + d) s
unfolding digits_value
digits_value-digit m d s h =
    let digit : is_digit (48 + d) ≡ true = ground arith in
    let same : 48 + d - 48 ≡ d = omega arith in rw (digit, same) refl

digit_loop-digits_value :
    (f n : ℕ) (out : Bytes) → n < f → digits_value 0 (digit_loop f n out) ≡ digits_value n out
unfolding digit_loop
digit_loop-digits_value zero n out h = absurd (omega arith)
digit_loop-digits_value (suc f) n out h = elim (Bool-cases (ltb n 10)) [
  | inl small ↦
      rw small (
        digits_value-digit 0 n out (ground arith)
        ∙ ap (λ (k : ℕ). digits_value k out) (omega arith))
  | inr large ↦
      let split : n / 10 * 10 + n % 10 ≡ n = omega arith in
      rw large (
        digit_loop-digits_value f (n / 10) ((48 + n % 10) ∷ out) (ground arith)
        ∙ digits_value-digit (n / 10) (n % 10) out (omega arith)
        ∙ ap (λ (k : ℕ). digits_value k out) split)
]

-- The digits of a number: one at least, and nothing else.
abbrev pub IsDecimal : Bytes → Type 0
IsDecimal [] = ⊥
IsDecimal (c ∷ s) = (is_digit c ≡ true) × All (λ d. is_digit d ≡ true) s

digit_loop-IsDecimal :
    (f n : ℕ) (out : Bytes)
    → n < f
    → All (λ d. is_digit d ≡ true) out
    → IsDecimal (digit_loop f n out)
unfolding digit_loop
digit_loop-IsDecimal zero n out h all = absurd (omega arith)
digit_loop-IsDecimal (suc f) n out h all = elim (Bool-cases (ltb n 10)) [
  | inl small ↦ rw small (ground arith, all)
  | inr large ↦
      rw large
        (digit_loop-IsDecimal f (n / 10) ((48 + n % 10) ∷ out) (ground arith) (ground arith, all))
]

pub to_string-IsDecimal : (n : ℕ) → IsDecimal (to_string n)
unfolding to_string
to_string-IsDecimal n = digit_loop-IsDecimal (suc n) n [] (omega arith) tt

digits_value-to_string : (n : ℕ) → digits_value 0 (to_string n) ≡ n
unfolding to_string digits_value
digits_value-to_string n = digit_loop-digits_value (suc n) n [] (omega arith)

stoi_unsigned-IsDecimal :
    (s : Bytes)
    → IsDecimal s
    → digits_value 0 s < 2 ^ 31
    → stoi_unsigned false s ≡ ok (pos (digits_value 0 s))
stoi_unsigned-IsDecimal [] h small = absurd h
stoi_unsigned-IsDecimal (c ∷ s) h small =
    let fits : ltb (digits_value 0 (c ∷ s)) (2 ^ 31) ≡ true = ground arith in rw (h.0, fits) refl

stoi-IsDecimal :
    (s : Bytes) → IsDecimal s → digits_value 0 s < 2 ^ 31 → stoi s ≡ ok (pos (digits_value 0 s))
unfolding stoi
stoi-IsDecimal [] h small = absurd h
stoi-IsDecimal (c ∷ s) h small =
    let ordinary : is_space c ≡ false = ground (arith, h.0) in
    let no_minus : nat_beq c 45 ≡ false = ground (arith, h.0) in
    let no_plus : nat_beq c 43 ≡ false = ground (arith, h.0) in
    rw (ordinary, no_minus, no_plus) (stoi_unsigned-IsDecimal (c ∷ s) h small)

-- std::stoi reads back what std::to_string prints of a number that fits an int.
pub stoi-to_string : (n : ℕ) → n < 2 ^ 31 → stoi (to_string n) ≡ ok (pos n)
stoi-to_string n small =
    let value = digits_value-to_string n in
    stoi-IsDecimal (to_string n) (to_string-IsDecimal n) (omega (arith, value))
    ∙ ap (λ (k : ℕ). ok (pos k)) value
