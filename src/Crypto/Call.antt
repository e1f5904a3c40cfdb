-- ===== src/Crypto/Call.antt =====
-- CryptoProxy::call and the methods of client/src/crypto/CryptoProxy.cpp over it.
pub mod Replies
use epic_1bit2qbit.Prelude.{ℕ, Bool, true, false, List, [], ◌∷◌, ◌++◌, if◌then◌else◌}
use epic_1bit2qbit.Prelude.Int.{ℤ}
use epic_1bit2qbit.Prelude.Text.{Bytes, codes}
use epic_1bit2qbit.Prelude.Result.{Result, ok, err, Exec, pure, throw, lift, ◌>>=◌, ◌>>◌}
use epic_1bit2qbit.Crypto.Json.{JsonLib}
use epic_1bit2qbit.Crypto.Pipe.{Pipe, send_recv}

module _ {J : Type 0} (lib : JsonLib J) where
  abbrev pub request_of : Bytes → J → J
  request_of method params =
      lib.object ((codes "method", lib.text method) ∷ (codes "params", params) ∷ [])

  error_text : Result J → Result Bytes
  error_text (err e) = err e
  error_text (ok j) = lib.get_string j

  subprocess_error : Bytes → Result Bytes → Result J
  subprocess_error method (err e) = err e
  subprocess_error method (ok why) =
      err (codes "CryptoProxy: subprocess error for method '" ++ method ++ codes "': " ++ why)

  -- What the reply means.
  unfoldable pub unwrap : Bytes → Result J → Result J
  unfolding error_text subprocess_error
  unwrap method (err e) = err (
      codes "CryptoProxy: malformed response from subprocess for method '"
      ++ method
      ++ codes "': "
      ++ e)
  unwrap method (ok response) =
      if lib.contains response (codes "error")
      then subprocess_error method (error_text (lib.at_key response (codes "error")))
      else lib.value_or response (codes "result") (lib.object [])

  unfoldable pub call : Bytes → J → Exec Pipe J
  unfolding unwrap
  call method params = send_recv (lib.dump (request_of method params) ++ 10 ∷ []) >>= λ reply.
      lift (unwrap method (lib.parse reply))

  -- ── DEK lifecycle ──

  unfoldable pub create_dek : Bytes → Bytes → Exec Pipe J
  create_dek pin username =
      call (codes "create_dek")
        (lib.object ((codes "pin", lib.text pin) ∷ (codes "username", lib.text username) ∷ []))

  unfoldable pub unlock_dek : Bytes → Bytes → J → Exec Pipe (Unit {0})
  unlock_dek pin username encrypted_dek =
      call (codes "unlock_dek") (
        lib.object (
          (codes "pin", lib.text pin)
          ∷ (codes "username", lib.text username)
          ∷ (codes "encrypted_dek", encrypted_dek)
          ∷ []))
      >>= λ _. pure tt

  unfoldable pub rotate_dek : Bytes → Bytes → Bytes → J → Exec Pipe J
  rotate_dek old_pin new_pin username encrypted_dek = call (codes "rotate_dek") (
      lib.object (
        (codes "old_pin", lib.text old_pin)
        ∷ (codes "new_pin", lib.text new_pin)
        ∷ (codes "username", lib.text username)
        ∷ (codes "encrypted_dek", encrypted_dek)
        ∷ []))

  -- ── X3DH state ──

  unfoldable pub create_state : Exec Pipe J
  create_state = call (codes "create_state") (lib.object [])

  unfoldable pub get_bundle : J → Exec Pipe J
  get_bundle encrypted_state =
      call (codes "get_bundle") (lib.object ((codes "encrypted_state", encrypted_state) ∷ []))

  unfoldable pub generate_pre_keys : J → ℤ → Exec Pipe J
  generate_pre_keys encrypted_state count = call (codes "generate_pre_keys") (
      lib.object
        ((codes "encrypted_state", encrypted_state) ∷ (codes "count", lib.number count) ∷ []))

  unfoldable pub rotate_signed_pre_key : J → Exec Pipe J
  rotate_signed_pre_key encrypted_state =
      call (codes "rotate_signed_pre_key")
        (lib.object ((codes "encrypted_state", encrypted_state) ∷ []))

  unfoldable pub get_num_pre_keys : J → Exec Pipe ℤ
  get_num_pre_keys encrypted_state = do
    result ←
        call (codes "get_num_pre_keys")
          (lib.object ((codes "encrypted_state", encrypted_state) ∷ []))
    count ← lift (lib.at_key result (codes "num_pre_keys"))
    lift (lib.get_int count)

  unfoldable pub get_shared_secret_active : J → J → Exec Pipe J
  get_shared_secret_active encrypted_state bob_bundle = call (codes "get_shared_secret_active") (
      lib.object
        ((codes "encrypted_state", encrypted_state) ∷ (codes "bob_bundle", bob_bundle) ∷ []))

  unfoldable pub get_shared_secret_passive : J → J → Exec Pipe J
  get_shared_secret_passive encrypted_state header =
      call (codes "get_shared_secret_passive")
        (lib.object ((codes "encrypted_state", encrypted_state) ∷ (codes "header", header) ∷ []))

  unfoldable pub delete_hidden_pre_keys : J → Exec Pipe J
  delete_hidden_pre_keys encrypted_state =
      call (codes "delete_hidden_pre_keys")
        (lib.object ((codes "encrypted_state", encrypted_state) ∷ []))

  -- ── Double Ratchet ──

  unfoldable pub encrypt_initial_message : Bytes → Bytes → Bytes → Bytes → Exec Pipe J
  encrypt_initial_message shared_secret recipient_ratchet_pub message associated_data =
      call (codes "encrypt_initial_message") (
        lib.object (
          (codes "shared_secret", lib.text shared_secret)
          ∷ (codes "recipient_ratchet_pub", lib.text recipient_ratchet_pub)
          ∷ (codes "message", lib.text message)
          ∷ (codes "associated_data", lib.text associated_data)
          ∷ []))

  unfoldable pub decrypt_initial_message : Bytes → Bytes → J → Bytes → Exec Pipe J
  decrypt_initial_message shared_secret own_ratchet_priv encrypted_message associated_data =
      call (codes "decrypt_initial_message") (
        lib.object (
          (codes "shared_secret", lib.text shared_secret)
          ∷ (codes "own_ratchet_priv", lib.text own_ratchet_priv)
          ∷ (codes "encrypted_message", encrypted_message)
          ∷ (codes "associated_data", lib.text associated_data)
          ∷ []))

  unfoldable pub encrypt_message : J → Bytes → Bytes → Exec Pipe J
  encrypt_message ratchet_state message associated_data = call (codes "encrypt_message") (
      lib.object (
        (codes "ratchet_state", ratchet_state)
        ∷ (codes "message", lib.text message)
        ∷ (codes "associated_data", lib.text associated_data)
        ∷ []))

  unfoldable pub decrypt_message : J → J → Bytes → Exec Pipe J
  decrypt_message ratchet_state encrypted_message associated_data = call (codes "decrypt_message") (
      lib.object (
        (codes "ratchet_state", ratchet_state)
        ∷ (codes "encrypted_message", encrypted_message)
        ∷ (codes "associated_data", lib.text associated_data)
        ∷ []))

  -- ── Storage encryption ──

  unfoldable pub encrypt_for_storage : Bytes → Exec Pipe J
  encrypt_for_storage plaintext_b64 =
      call (codes "encrypt_with_dek")
        (lib.object ((codes "plaintext", lib.text plaintext_b64) ∷ []))

  unfoldable pub decrypt_from_storage : J → Exec Pipe J
  decrypt_from_storage encrypted = do
    nonce ← lift (lib.at_key encrypted (codes "nonce"))
    ciphertext ← lift (lib.at_key encrypted (codes "ciphertext"))
    call (codes "decrypt_with_dek")
        (lib.object ((codes "nonce", nonce) ∷ (codes "ciphertext", ciphertext) ∷ []))
