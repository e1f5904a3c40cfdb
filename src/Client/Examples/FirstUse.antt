-- ===== src/Client/Examples/FirstUse.antt =====
-- A concrete first message of a sender, over the sample parameters with the laws.
use epic_1bit2qbit.Prelude.{◌≡◌, refl, [], ◌∷◌, some, bytes_beq}
use epic_1bit2qbit.Prelude.Text.{codes, find, starts_with}
use epic_1bit2qbit.Prelude.Result.{ok}
use epic_1bit2qbit.Messaging.Conversation.{open_conversation}
use epic_1bit2qbit.Crypto.Json.Tree.{Tree, tree_lib, print, parse, scan, get}
use epic_1bit2qbit.Crypto.Pipe.{send_recv, write_all, read_line, read_line_loop, split_line}
use epic_1bit2qbit.Crypto.Call.{
  call, unwrap, encrypt_for_storage, get_shared_secret_passive, decrypt_initial_message,
}
use epic_1bit2qbit.Client.Maps.{lookup, assign}
use epic_1bit2qbit.Client.State.{Client, on_crypto, on_store, change_store}
use epic_1bit2qbit.Client.Content.{b64_encode, storage_encrypt, value_string, string_at}
use epic_1bit2qbit.Client.Session.{
  keep_session, change_conversation, conversation_of, conv_or_throw,
}
use epic_1bit2qbit.Client.Outbound.{has_session, has_session_in}
use epic_1bit2qbit.Client.Inbound.{decrypt_from, accept_session}
use epic_1bit2qbit.Client.Inbound.FirstUse.{Passes, IsPinned, decrypt_from-IsPinned}
use epic_1bit2qbit.Client.Examples.Delivery.{env, client_of, pipe_with, word, blob, next}

abbrev shared : Tree
shared = tree_lib.object (
    (codes "encrypted_state", next)
    ∷ (codes "shared_secret", word)
    ∷ (codes "own_ratchet_priv", word)
    ∷ (codes "associated_data", word)
    ∷ [])

abbrev opened : Tree
opened = tree_lib.object ((codes "ratchet_state", next) ∷ (codes "plaintext", word) ∷ [])

abbrev bob : Client Tree
bob =
    record (client_of (codes "bob") (codes "ada")
      (pipe_with (shared ∷ opened ∷ blob ∷ blob ∷ []))) { conversations = [] }

abbrev x3dh : Tree
x3dh = tree_lib.object ((codes "identity_key", Tree.text (codes "k1")) ∷ [])

abbrev after_bob : Client Tree
after_bob = (decrypt_from env (codes "ada") word (some x3dh) bob).1

decrypts_first :
    decrypt_from env (codes "ada") word (some x3dh) bob ≡ (ok (some (codes "ct")), after_bob)
unfolding decrypt_from accept_session keep_session change_conversation conversation_of conv_or_throw
    has_session has_session_in on_crypto on_store change_store storage_encrypt value_string
    string_at b64_encode lookup assign print parse scan get call unwrap encrypt_for_storage
    get_shared_secret_passive decrypt_initial_message send_recv write_all read_line read_line_loop
    split_line find starts_with bytes_beq
decrypts_first = refl

decrypt_from-IsPinned_example :
    Passes env (codes "ada") (codes "k1") [] × IsPinned env (codes "ada") (codes "k1") after_bob
decrypt_from-IsPinned_example =
    decrypt_from-IsPinned env (codes "ada") (codes "k1") word x3dh (codes "ct")
      (open_conversation (codes "ada")) bob after_bob (unfold lookup in refl) refl
      (unfold value_string get bytes_beq in refl) decrypts_first
