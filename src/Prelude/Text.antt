-- ===== src/Prelude/Text.antt =====
-- std::string as a list of bytes, and what the client uses of its operations.
pub mod Decimal
use Prim.Native.Char.{code}
use Prim.Native.String.{String}
use Prim.Native.Nat.{ℕ, zero, suc, ◌+◌, ◌/◌, ◌%◌}
use mathlib.Core.Path.{◌≡◌, refl}
use mathlib.Core.Bool.{Bool, true, false, ◌&&◌, ◌||◌}
use mathlib.Core.Option.{Option, none, some}
use mathlib.Core.List.{List, [], ◌∷◌, ◌++◌}
use native.Mathlib.Omega.{arith}
use epic_1bit2qbit.Prelude.Tests.{nat_beq, ltb, leb, if◌then◌else◌}

abbrev pub Bytes : Type 0
Bytes = List ℕ

-- A literal of the source, as its bytes (the literals used are ASCII).
abbrev pub codes : String → Bytes
codes String.[] = []
codes (String.◌∷◌ c s) = code c ∷ codes s

-- Does the text begin with the given one?
unfoldable pub starts_with : Bytes → Bytes → Bool
starts_with [] s = true
starts_with (p ∷ ps) [] = false
starts_with (p ∷ ps) (c ∷ s) = nat_beq p c && starts_with ps s

-- s.find(p): the first position at which `p` stands in `s`; `none` is npos.
unfoldable pub find : Bytes → Bytes → Option ℕ
unfolding starts_with
find p [] = if starts_with p [] then some 0 else none
find p (c ∷ s) =
    let rest = find p s in
    if starts_with p (c ∷ s) then some 0 else elim rest [ none ↦ none | some i ↦ some (suc i) ]

unfoldable pub includes : Bytes → Bytes → Bool
unfolding find
includes p s = elim (find p s) [ none ↦ false | some _ ↦ true ]

-- s.rfind(c): the last position of a byte.
unfoldable pub rfind : ℕ → Bytes → Option ℕ
rfind c [] = none
rfind c (x ∷ xs) = elim (rfind c xs) [
  | some i ↦ some (suc i)
  | none ↦ if nat_beq c x then some 0 else none
]

-- std::isspace in the C locale.
abbrev pub is_space : ℕ → Bool
is_space c = nat_beq c 32 || (leb 9 c && leb c 13)

-- s.c_str() as read by a C function: the bytes before the first NUL.
unfoldable pub c_str : Bytes → Bytes
c_str [] = []
c_str (c ∷ s) = let rest = c_str s in if nat_beq c 0 then [] else c ∷ rest

pub c_str_idem : (s : Bytes) → c_str (c_str s) ≡ c_str s
unfolding c_str
c_str_idem [] = refl
c_str_idem (c ∷ s) = ground (arith, c_str_idem s)

-- A prefix with no NUL is kept.
pub c_str-append : (p s : Bytes) → c_str p ≡ p → c_str (p ++ s) ≡ p ++ c_str s
unfolding c_str
c_str-append [] s h = refl
c_str-append (c ∷ p) s h = ground (arith, c_str-append p s)

digit_loop : ℕ → ℕ → Bytes → Bytes
digit_loop zero n out = out
digit_loop (suc f) n out =
    let rest = digit_loop f (n / 10) ((48 + n % 10) ∷ out) in
    if ltb n 10 then (48 + n) ∷ out else rest

-- std::to_string of an unsigned number. It has at most n + 1 digits.
unfoldable pub to_string : ℕ → Bytes
unfolding digit_loop
to_string n = digit_loop (suc n) n []

to_string_4001 : to_string 4001 ≡ codes "4001"
unfolding to_string
to_string_4001 = refl
