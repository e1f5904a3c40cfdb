-- ===== src/Crypto/Json.antt =====
-- What the client uses of nlohmann::json. The library is not part of the program: its values and
-- operations are an interface, and a theorem that relies on one names what it relies on.
use epic_1bit2qbit.Prelude.{Bool, List}
pub mod Sample
pub mod Laws
pub mod Tree
use epic_1bit2qbit.Prelude.Int.{ℤ}
use epic_1bit2qbit.Prelude.Text.{Bytes}
use epic_1bit2qbit.Prelude.Result.{Result}

pub record JsonLib (J : Type 0) : Type 0 where
  pub text : Bytes → J
  pub number : ℤ → J
  pub object : List (Bytes × J) → J
  pub parse : Bytes → Result J
  pub dump : J → Bytes
  pub contains : J → Bytes → Bool
  -- j.at(key), which throws where the key is missing
  pub at_key : J → Bytes → Result J
  -- j.value(key, d), which throws where j is no object
  pub value_or : J → Bytes → J → Result J
  pub get_string : J → Result Bytes
  pub get_int : J → Result ℤ
  pub null : J
  pub is_null : J → Bool
  pub array : List J → J
  -- j.empty()
  pub is_vacant : J → Bool
