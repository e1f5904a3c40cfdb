-- ===== src/Client/Examples/Storage.antt =====
-- A concrete text that is sealed for the store and read back.
use epic_1bit2qbit.Prelude.{◌≡◌, refl, List, [], ◌∷◌, bytes_beq}
use epic_1bit2qbit.Prelude.Text.{Bytes, codes, find, starts_with}
use epic_1bit2qbit.Prelude.Result.{ok}
use epic_1bit2qbit.Crypto.Json.Tree.{Tree, tree_lib, tree_lib-IsJson, print, parse, scan, get}
use epic_1bit2qbit.Crypto.Pipe.{Pipe, send_recv, write_all, read_line, read_line_loop, split_line}
use epic_1bit2qbit.Crypto.Call.{call, unwrap, encrypt_for_storage, decrypt_from_storage}
use epic_1bit2qbit.Client.State.{Client}
use epic_1bit2qbit.Client.Content.{b64_encode, storage_encrypt, storage_decrypt}
use epic_1bit2qbit.Client.Content.Codec.{sample_codec, sample_codec-IsBase64}
use epic_1bit2qbit.Client.Content.RoundTrip.{storage_decrypt-storage_encrypt}
use epic_1bit2qbit.Client.Examples.Delivery.{client_of, pipe_with, word, blob}

-- The store's blob of a text, and what the subprocess later opens it to.
abbrev sealed_fields : List (Bytes × Tree)
sealed_fields = (codes "nonce", word) ∷ (codes "ciphertext", blob) ∷ []

abbrev sealer : Client Tree
sealer = client_of (codes "bob") (codes "ada") (pipe_with (tree_lib.object sealed_fields ∷ []))

abbrev opener : Client Tree
opener = client_of (codes "bob") (codes "ada") (
    pipe_with (
      tree_lib.object ((codes "plaintext", Tree.text (b64_encode sample_codec (codes "hi"))) ∷ [])
      ∷ []))

abbrev sealer_pipe : Pipe
sealer_pipe = (encrypt_for_storage tree_lib (b64_encode sample_codec (codes "hi")) sealer.crypto).1

abbrev opener_pipe : Pipe
opener_pipe = (decrypt_from_storage tree_lib (tree_lib.object sealed_fields) opener.crypto).1

seals_text :
    encrypt_for_storage tree_lib (b64_encode sample_codec (codes "hi")) sealer.crypto
    ≡ (ok (tree_lib.object sealed_fields), sealer_pipe)
unfolding b64_encode print parse scan get call unwrap encrypt_for_storage send_recv write_all
    read_line read_line_loop split_line find starts_with bytes_beq
seals_text = refl

opens_text : decrypt_from_storage tree_lib (tree_lib.object sealed_fields) opener.crypto ≡ (
  ok (tree_lib.object ((codes "plaintext", Tree.text (b64_encode sample_codec (codes "hi"))) ∷ [])),
  opener_pipe,
)
unfolding b64_encode print parse scan get call unwrap decrypt_from_storage send_recv write_all
    read_line read_line_loop split_line find starts_with bytes_beq
opens_text = refl

storage_decrypt-storage_encrypt_example :
    (stored : Bytes) × (storage_encrypt tree_lib sample_codec (codes "hi") sealer
      ≡ (ok stored, record sealer { crypto = sealer_pipe }))
    × (storage_decrypt tree_lib sample_codec stored opener
        ≡ (ok (codes "hi"), record opener { crypto = opener_pipe }))
storage_decrypt-storage_encrypt_example =
    storage_decrypt-storage_encrypt tree_lib sample_codec tree_lib-IsJson sample_codec-IsBase64
      (codes "hi") sealed_fields
      ((codes "plaintext", Tree.text (b64_encode sample_codec (codes "hi"))) ∷ []) word blob sealer
      opener sealer_pipe seals_text (unfold bytes_beq in refl) (unfold bytes_beq in refl)
      opener_pipe opens_text (unfold bytes_beq in refl)
