-- ===== src/Crypto/Json/Laws.antt =====
-- What the program relies on of nlohmann::json: a value is read back as it was printed, an object has
-- the fields that it was made of, and the values of the kinds that the program makes are told apart.
use epic_1bit2qbit.Prelude.{
  ◌≡◌, Bool, true, false, List, [], ◌∷◌, Option, none, some, get_or, ◌==◌, bytes_eq, if◌then◌else◌,
}
use epic_1bit2qbit.Prelude.Int.{ℤ}
use epic_1bit2qbit.Prelude.Text.{Bytes}
use epic_1bit2qbit.Prelude.Result.{ok}
use epic_1bit2qbit.Crypto.Json.{JsonLib}

-- The field of a key in the list that an object is made of.
abbrev pub field_of : {J : Type 0} → Bytes → List (Bytes × J) → Option J
field_of key [] = none
field_of key ((k, v) ∷ fields) = if k == key then some v else field_of key fields

abbrev pub is_some : {J : Type 0} → Option J → Bool
is_some none = false
is_some (some j) = true

pub record IsJson {J : Type 0} (lib : JsonLib J) : Type 0 where
  pub parse-dump : (j : J) → lib.parse (lib.dump j) ≡ ok j
  pub at_key-object :
      (fields : List (Bytes × J)) (key : Bytes) (v : J)
      → field_of key fields ≡ some v
      → lib.at_key (lib.object fields) key ≡ ok v
  pub value_or-object :
      (fields : List (Bytes × J)) (key : Bytes) (v d : J)
      → field_of key fields ≡ some v
      → lib.value_or (lib.object fields) key d ≡ ok v
  pub value_or-absent :
      (fields : List (Bytes × J)) (key : Bytes) (d : J)
      → field_of key fields ≡ none
      → lib.value_or (lib.object fields) key d ≡ ok d
  pub contains-object :
      (fields : List (Bytes × J)) (key : Bytes)
      → lib.contains (lib.object fields) key ≡ is_some (field_of key fields)
  pub get_string-text : (s : Bytes) → lib.get_string (lib.text s) ≡ ok s
  pub get_int-number : (n : ℤ) → lib.get_int (lib.number n) ≡ ok n
  pub is_null-null : lib.is_null lib.null ≡ true
  -- the text of an object begins with '{'
  pub dump-object : (fields : List (Bytes × J)) → get_or (lib.dump (lib.object fields)) 0 0 ≡ 123
