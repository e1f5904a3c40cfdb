-- ===== src/Crypto/Json/Tree.antt =====
-- An instance of the interface to nlohmann::json that meets the laws, for the concrete runs: values as
-- trees, printed with a tag for each kind and a length before each text, and no newline of its own.
use epic_1bit2qbit.Prelude.{
  ℕ, zero, suc, ◌+◌, ◌-◌, ◌<◌, ◌≡◌, refl, ap, Bool, true, false, List, [], ◌∷◌, ◌++◌, Option, none,
  some, length, take, drop, ◌==◌, bytes_eq, if◌then◌else◌, arith, append_assoc, append-nil,
  length-append, take-append_length,
}
use epic_1bit2qbit.Prelude.Int.{ℤ, pos, negsuc}
use epic_1bit2qbit.Prelude.Text.{Bytes, codes}
use epic_1bit2qbit.Prelude.Result.{Result, ok, err}
use epic_1bit2qbit.Crypto.Json.{JsonLib}
use epic_1bit2qbit.Crypto.Json.Laws.{IsJson, field_of, is_some}

-- An object is a chain of fields, an array one of items.
pub data Tree : Type 0 where
  null : Tree
  text : Bytes → Tree
  number : ℤ → Tree
  no_field : Tree
  field : Bytes → Tree → Tree → Tree
  no_item : Tree
  item : Tree → Tree → Tree

unfoldable pub print : Tree → Bytes
print null = 0 ∷ []
print (text s) = 1 ∷ (length s + 11) ∷ s
print (number (pos n)) = 2 ∷ (n + 11) ∷ []
print (number (negsuc n)) = 3 ∷ (n + 11) ∷ []
print no_field = 4 ∷ []
print (field k v rest) = 5 ∷ (length k + 11) ∷ k ++ (print v ++ print rest)
print no_item = 6 ∷ []
print (item v rest) = 7 ∷ print v ++ print rest

abbrev two :
    (Tree → Tree → Tree)
    → Option (Tree × Bytes)
    → (Bytes → Option (Tree × Bytes))
    → Option (Tree × Bytes)
two make none next = none
two make (some (v, s)) next = elim (next s) [ none ↦ none | some (r, rest) ↦ some (make v r, rest) ]

-- The tree at the front, on fuel.
unfoldable pub scan : ℕ → Bytes → Option (Tree × Bytes)
scan (suc f) (zero ∷ s) = some (null, s)
scan (suc f) (suc zero ∷ n ∷ s) = some (text (take (n - 11) s), drop (n - 11) s)
scan (suc f) (suc (suc zero) ∷ n ∷ s) = some (number (pos (n - 11)), s)
scan (suc f) (suc (suc (suc zero)) ∷ n ∷ s) = some (number (negsuc (n - 11)), s)
scan (suc f) (suc (suc (suc (suc zero))) ∷ s) = some (no_field, s)
scan (suc f) (suc (suc (suc (suc (suc zero)))) ∷ n ∷ s) =
    two (field (take (n - 11) s)) (scan f (drop (n - 11) s)) (scan f)
scan (suc f) (suc (suc (suc (suc (suc (suc zero))))) ∷ s) = some (no_item, s)
scan (suc f) (suc (suc (suc (suc (suc (suc (suc zero)))))) ∷ s) = two item (scan f s) (scan f)
scan _ _ = none

depth : Tree → ℕ
depth (field k v rest) = suc (depth v + depth rest)
depth (item v rest) = suc (depth v + depth rest)
depth _ = 0

drop-append_length : (xs ys : Bytes) → drop (length xs) (xs ++ ys) ≡ ys
drop-append_length [] ys = refl
drop-append_length (x ∷ xs) ys = drop-append_length xs ys

shifted : (n : ℕ) → n + 11 - 11 ≡ n
shifted n = omega arith

scan-print : (f : ℕ) (t : Tree) (s : Bytes) → depth t < f → scan f (print t ++ s) ≡ some (t, s)
unfolding scan print depth
scan-print zero t s h = absurd (omega arith)
scan-print (suc f) null s h = refl
scan-print (suc f) (text b) s h =
    rw (shifted (length b), take-append_length b s, drop-append_length b s) refl
scan-print (suc f) (number (pos n)) s h = rw (shifted n) refl
scan-print (suc f) (number (negsuc n)) s h = rw (shifted n) refl
scan-print (suc f) no_field s h = refl
scan-print (suc f) (field k v rest) s h =
    rw
      (
        shifted (length k),
        append_assoc k (print v ++ print rest) s,
        take-append_length k ((print v ++ print rest) ++ s),
        drop-append_length k ((print v ++ print rest) ++ s),
        append_assoc (print v) (print rest) s,
        scan-print f v (print rest ++ s) (omega arith),
        scan-print f rest s (omega arith),
      )
      refl
scan-print (suc f) no_item s h = refl
scan-print (suc f) (item v rest) s h =
    rw
      (
        append_assoc (print v) (print rest) s,
        scan-print f v (print rest ++ s) (omega arith),
        scan-print f rest s (omega arith),
      )
      refl

depth-print : (t : Tree) → depth t < length (print t)
unfolding depth print
depth-print null = omega arith
depth-print (text b) = omega arith
depth-print (number (pos n)) = omega arith
depth-print (number (negsuc n)) = omega arith
depth-print no_field = omega arith
depth-print (field k v rest) = omega (
  arith,
  depth-print v,
  depth-print rest,
  length-append k (print v ++ print rest),
  length-append (print v) (print rest),
)
depth-print no_item = omega arith
depth-print (item v rest) =
    omega (arith, depth-print v, depth-print rest, length-append (print v) (print rest))

abbrev fields_of : List (Bytes × Tree) → Tree
fields_of [] = no_field
fields_of ((k, v) ∷ fields) = field k v (fields_of fields)

abbrev items_of : List Tree → Tree
items_of [] = no_item
items_of (v ∷ vs) = item v (items_of vs)

unfoldable pub get : Bytes → Tree → Option Tree
get key (field k v rest) = if k == key then some v else get key rest
get key _ = none

abbrev no_such_key : Bytes
no_such_key = codes "out_of_range: key not found"

abbrev or_throw : Option Tree → Result Tree
or_throw none = err no_such_key
or_throw (some v) = ok v

abbrev or_default : Tree → Option Tree → Result Tree
or_default d none = ok d
or_default d (some v) = ok v

abbrev as_string : Tree → Result Bytes
as_string (text s) = ok s
as_string _ = err (codes "type_error: no string")

abbrev as_int : Tree → Result ℤ
as_int (number n) = ok n
as_int _ = err (codes "type_error: no number")

abbrev is_null_tree : Tree → Bool
is_null_tree null = true
is_null_tree _ = false

abbrev is_vacant_tree : Tree → Bool
is_vacant_tree null = true
is_vacant_tree no_field = true
is_vacant_tree no_item = true
is_vacant_tree _ = false

abbrev whole : Option (Tree × Bytes) → Result Tree
whole none = err (codes "parse_error")
whole (some (t, rest)) = ok t

unfoldable pub parse : Bytes → Result Tree
unfolding scan
parse [] = err (codes "parse_error")
parse (c ∷ s) = whole (scan (length s) s)

abbrev pub tree_lib : JsonLib Tree
tree_lib = record {
  text = text;
  number = number;
  object = fields_of;
  parse = parse;
  dump = λ t. 123 ∷ print t;
  contains = λ t key. is_some (get key t);
  at_key = λ t key. or_throw (get key t);
  value_or = λ t key d. or_default d (get key t);
  get_string = as_string;
  get_int = as_int;
  null = null;
  is_null = is_null_tree;
  array = items_of;
  is_vacant = is_vacant_tree;
}

get-fields_of :
    (fields : List (Bytes × Tree)) (key : Bytes) → get key (fields_of fields) ≡ field_of key fields
unfolding get
get-fields_of [] key = refl
get-fields_of ((k, v) ∷ fields) key = rw (get-fields_of fields key) refl

parse-print : (t : Tree) → parse (123 ∷ print t) ≡ ok t
unfolding parse
parse-print t = rw (← append-nil (print t)) (
    ap whole (
      scan-print (length (print t ++ [])) t []
        (omega (arith, depth-print t, length-append (print t) []))))

pub tree_lib-IsJson : IsJson tree_lib
tree_lib-IsJson = record {
  parse-dump = parse-print;
  at_key-object = λ fields key v h. rw (get-fields_of fields key, h) refl;
  value_or-object = λ fields key v d h. rw (get-fields_of fields key, h) refl;
  value_or-absent = λ fields key d h. rw (get-fields_of fields key, h) refl;
  contains-object = λ fields key. rw (get-fields_of fields key) refl;
  get_string-text = λ s. refl;
  get_int-number = λ n. refl;
  is_null-null = refl;
  dump-object = λ fields. refl;
}
