-- ===== src/Client/Content/RoundTrip.antt =====
-- What content_to_message and storage_encrypt of Client.cpp make is read back by message_to_content and
-- storage_decrypt.
use epic_1bit2qbit.Prelude.{
  ◌≡◌, refl, ap, ◌∙◌, true, List, [], ◌∷◌, none, some, bytes_eq, bytes_beq,
}
use epic_1bit2qbit.Prelude.Int.{pos}
use epic_1bit2qbit.Prelude.Text.{Bytes, codes}
use epic_1bit2qbit.Prelude.Result.{ok}
use epic_1bit2qbit.Messaging.Message.{MessageType, to_int, of_int}
use epic_1bit2qbit.Crypto.Json.{JsonLib}
use epic_1bit2qbit.Crypto.Json.Laws.{IsJson, field_of, is_some}
use epic_1bit2qbit.Crypto.Call.{encrypt_for_storage, decrypt_from_storage}
use epic_1bit2qbit.Crypto.Pipe.{Pipe}
use epic_1bit2qbit.Client.State.{Client, on_crypto, try_catch, handled}
use epic_1bit2qbit.Client.Content.{
  Base64, b64_encode, value_string, string_at, content_to_message, message_to_content,
  storage_encrypt, storage_decrypt, decrypt_blob, decrypt_fields,
}
use epic_1bit2qbit.Client.Content.Codec.{IsBase64, b64_decode-b64_encode}

module _ {J : Type 0} (lib : JsonLib J) (codec : Base64) (json : IsJson lib)
    (base64 : IsBase64 codec) where
  pub value_string-text :
      (fields : List (Bytes × J)) (key s : Bytes)
      → field_of key fields ≡ some (lib.text s)
      → value_string lib codec (lib.object fields) key ≡ ok s
  unfolding value_string
  value_string-text fields key s h =
      rw (json.value_or-object fields key (lib.text s) (lib.text []) h, value_string)
        (json.get_string-text s)

  pub value_string-absent :
      (fields : List (Bytes × J)) (key : Bytes)
      → field_of key fields ≡ none
      → value_string lib codec (lib.object fields) key ≡ ok []
  unfolding value_string
  value_string-absent fields key h =
      rw (json.value_or-absent fields key (lib.text []) h, value_string) (json.get_string-text [])

  pub string_at-text :
      (fields : List (Bytes × J)) (key s : Bytes)
      → field_of key fields ≡ some (lib.text s)
      → string_at lib codec (lib.object fields) key ≡ ok s
  unfolding string_at
  string_at-text fields key s h =
      rw (json.at_key-object fields key (lib.text s) h, string_at) (json.get_string-text s)

  -- A content is read from its fields.
  content_of_fields :
      (fields : List (Bytes × J)) (body target_mid : Bytes) (type : MessageType) (c : Client J)
      → of_int (to_int type) ≡ type
      → field_of (codes "type") fields ≡ some (lib.number (to_int type))
      → value_string lib codec (lib.object fields) (codes "body") ≡ ok body
      → value_string lib codec (lib.object fields) (codes "target_mid") ≡ ok target_mid
      → message_to_content lib codec (b64_encode codec (lib.dump (lib.object fields))) c
        ≡ (ok (record { type = type; body = body; target_mid = target_mid }), c)
  unfolding message_to_content
  content_of_fields fields body target_mid type c listed has_type has_body has_target =
      rw
        (
          b64_decode-b64_encode codec base64 (lib.dump (lib.object fields)),
          json.parse-dump (lib.object fields),
          json.value_or-object fields (codes "type") (lib.number (to_int type)) (lib.number (pos 0))
              has_type,
          json.get_int-number (to_int type),
          has_body,
          has_target,
          listed,
        )
        refl

  -- message_to_content reads back the type, the text and the target that content_to_message wrote, for
  -- a type of the enumeration.
  pub message_to_content-content_to_message :
      (body target_mid : Bytes) (type : MessageType) (c : Client J)
      → of_int (to_int type) ≡ type
      → message_to_content lib codec (content_to_message lib codec body type target_mid) c
        ≡ (ok (record { type = type; body = body; target_mid = target_mid }), c)
  unfolding content_to_message bytes_beq
  message_to_content-content_to_message body [] type c listed =
      content_of_fields _ body [] type c listed refl (value_string-text _ (codes "body") body refl)
        (value_string-absent _ (codes "target_mid") refl)
  message_to_content-content_to_message body (b ∷ bs) type c listed =
      content_of_fields _ body (b ∷ bs) type c listed refl
        (value_string-text _ (codes "body") body refl)
        (value_string-text _ (codes "target_mid") (b ∷ bs) refl)

  -- A stored text is read back: where the subprocess has answered storage_encrypt with an object that
  -- has a nonce and a ciphertext, and later answers decrypt_from_storage for that object with the
  -- plaintext that it was given, storage_decrypt returns the text.
  pub storage_decrypt-storage_encrypt :
      (plaintext : Bytes) (sealed opened : List (Bytes × J)) (nonce ciphertext : J) (c d : Client J)
      (q : Pipe)
      → encrypt_for_storage lib (b64_encode codec plaintext) c.crypto ≡ (ok (lib.object sealed), q)
      → field_of (codes "nonce") sealed ≡ some nonce
      → field_of (codes "ciphertext") sealed ≡ some ciphertext
      → (p : Pipe)
      → decrypt_from_storage lib (lib.object sealed) d.crypto ≡ (ok (lib.object opened), p)
      → field_of (codes "plaintext") opened ≡ some (lib.text (b64_encode codec plaintext))
      → (blob : Bytes) × (storage_encrypt lib codec plaintext c
          ≡ (ok blob, record c { crypto = q }))
        × (storage_decrypt lib codec blob d ≡ (ok plaintext, record d { crypto = p }))
  unfolding storage_encrypt storage_decrypt decrypt_blob decrypt_fields on_crypto try_catch handled
  storage_decrypt-storage_encrypt plaintext sealed opened nonce ciphertext c d q enc has_nonce
        has_ciphertext p dec has_plaintext =
      let contains_nonce : lib.contains (lib.object sealed) (codes "nonce") ≡ true =
        json.contains-object sealed (codes "nonce") ∙ ap is_some has_nonce in
      let contains_ciphertext : lib.contains (lib.object sealed) (codes "ciphertext") ≡ true =
        json.contains-object sealed (codes "ciphertext") ∙ ap is_some has_ciphertext in
      (
        lib.dump (lib.object sealed),
        rw enc refl,
        rw
            (
              json.dump-object sealed,
              json.parse-dump (lib.object sealed),
              contains_nonce,
              contains_ciphertext,
              dec,
              string_at-text opened (codes "plaintext") (b64_encode codec plaintext) has_plaintext,
              b64_decode-b64_encode codec base64 plaintext,
            )
            refl,
      )
