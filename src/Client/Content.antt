-- ===== src/Client/Content.antt =====
-- The contents of messages and of stored texts in client/src/client/Client.cpp. EVP_EncodeBlock and
-- EVP_DecodeBlock are OpenSSL's, and parameters.
pub mod Codec
pub mod RoundTrip
use epic_1bit2qbit.Prelude.{
  ℕ, ◌+◌, ◌-◌, not, ◌||◌, [], ◌∷◌, ◌++◌, Option, none, some, length, take, get_or, is_empty,
  nat_beq, leb, ◌&&◌, if◌then◌else◌,
}
use epic_1bit2qbit.Prelude.Int.{pos}
use epic_1bit2qbit.Prelude.Text.{Bytes, codes, to_string}
use epic_1bit2qbit.Prelude.Result.{Result, ok, err, Exec, pure, lift, ◌>>=◌}
use epic_1bit2qbit.Messaging.Message.{MessageType, to_int, of_int}
use epic_1bit2qbit.Crypto.Json.{JsonLib}
use epic_1bit2qbit.Crypto.Call.{encrypt_for_storage, decrypt_from_storage}
use epic_1bit2qbit.Client.State.{Client, on_crypto, try_catch, read_clock}

-- OpenSSL's codec; `none` is the negative answer of EVP_DecodeBlock.
pub record Base64 : Type 0 where
  pub encode_block : Bytes → Bytes
  pub decode_block : Bytes → Option Bytes

module _ (codec : Base64) where
  unfoldable pub b64_encode : Bytes → Bytes
  b64_encode text = if is_empty text then [] else codec.encode_block text

  -- One for each '=' in the last two places.
  abbrev pub padding : Bytes → ℕ
  padding text =
      (if nat_beq (get_or text (length text - 1) 0) 61 then 1 else 0)
      + (if leb 2 (length text) && nat_beq (get_or text (length text - 2) 0) 61 then 1 else 0)

  decoded : Bytes → Option Bytes → Result Bytes
  decoded text none = err (codes "base64 decode failed")
  decoded text (some out) = ok (take (length out - padding text) out)

  unfoldable pub b64_decode : Bytes → Result Bytes
  unfolding decoded
  b64_decode text = if is_empty text then ok [] else decoded text (codec.decode_block text)

pub record ParsedContent : Type 0 where
  pub type : MessageType
  pub body : Bytes
  pub target_mid : Bytes

module _ {J : Type 0} (lib : JsonLib J) (codec : Base64) where
  -- j.value(key, std::string{}) and j.at(key).get<std::string>()
  unfoldable pub value_string : J → Bytes → Result Bytes
  value_string j key = elim (lib.value_or j key (lib.text [])) [
    | err e ↦ err e
    | ok v ↦ lib.get_string v
  ]

  unfoldable pub string_at : J → Bytes → Result Bytes
  string_at j key = elim (lib.at_key j key) [ err e ↦ err e | ok v ↦ lib.get_string v ]

  unfoldable pub content_to_message : Bytes → MessageType → Bytes → Bytes
  content_to_message plaintext type target_mid =
      let fields =
        (codes "type", lib.number (to_int type)) ∷ (codes "body", lib.text plaintext) ∷ [] in
      b64_encode codec (
        lib.dump (
          lib.object (
            if is_empty target_mid
            then fields
            else fields ++ (codes "target_mid", lib.text target_mid) ∷ [])))

  unfoldable pub message_to_content : Bytes → Exec (Client J) ParsedContent
  message_to_content plaintext_b64 = do
    text ← lift (b64_decode codec plaintext_b64)
    j ← lift (lib.parse text)
    type ← lift (lib.value_or j (codes "type") (lib.number (pos 0)))
    n ← lift (lib.get_int type)
    body ← lift (value_string j (codes "body"))
    target_mid ← lift (value_string j (codes "target_mid"))
    pure (record { type = of_int n; body = body; target_mid = target_mid })

  unfoldable pub storage_encrypt : Bytes → Exec (Client J) Bytes
  storage_encrypt plaintext = do
    r ← on_crypto (encrypt_for_storage lib (b64_encode codec plaintext))
    pure (lib.dump r)

  decrypt_fields : J → Exec (Client J) Bytes
  decrypt_fields j = do
    r ← on_crypto (decrypt_from_storage lib j)
    plaintext ← lift (string_at r (codes "plaintext"))
    lift (b64_decode codec plaintext)

  decrypt_blob : Bytes → Exec (Client J) Bytes
  unfolding decrypt_fields
  decrypt_blob blob = lift (lib.parse blob) >>= λ j.
      (if not (lib.contains j (codes "nonce")) || not (lib.contains j (codes "ciphertext"))
        then pure blob
        else decrypt_fields j)

  -- A text that is no encrypted blob comes back as it is.
  unfoldable pub storage_decrypt : Bytes → Exec (Client J) Bytes
  unfolding decrypt_blob
  storage_decrypt text =
      if not (nat_beq (get_or text 0 0) 123)
      then pure text
      else try_catch (decrypt_blob text) (λ _. pure text)

  unfoldable pub new_mid : (ℕ → ℕ) → Bytes → Exec (Client J) Bytes
  new_mid time recipient c =
      (read_clock time >>= λ now.
      pure (c.current_user ++ codes ":" ++ recipient ++ codes ":" ++ to_string now))
        c
