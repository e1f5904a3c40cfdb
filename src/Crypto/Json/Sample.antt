-- ===== src/Crypto/Json/Sample.antt =====
-- An instance of the interface to nlohmann::json for the examples: every value is its text, and has
-- no keys of its own.
use epic_1bit2qbit.Prelude.{false, [], is_empty}
use epic_1bit2qbit.Prelude.Int.{pos}
use epic_1bit2qbit.Prelude.Text.{Bytes}
use epic_1bit2qbit.Prelude.Result.{ok}
use epic_1bit2qbit.Crypto.Json.{JsonLib}

abbrev pub plain : JsonLib Bytes
plain = record {
  text = λ b. b;
  number = λ n. [];
  object = λ fields. [];
  parse = λ b. ok b;
  dump = λ j. j;
  contains = λ j key. false;
  at_key = λ j key. ok j;
  value_or = λ j key d. ok j;
  get_string = λ j. ok j;
  get_int = λ j. ok (pos 0);
  null = [];
  is_null = λ j. is_empty j;
  array = λ js. [];
  is_vacant = λ j. is_empty j;
}
