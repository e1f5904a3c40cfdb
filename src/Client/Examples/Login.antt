-- ===== src/Client/Examples/Login.antt =====
-- Concrete logins, registrations and exchanges over the sample parameters with the laws.
use epic_1bit2qbit.Prelude.{
  ℕ, ◌≡◌, ◌⊎◌, refl, inl, inr, true, [], ◌∷◌, ◌++◌, Option, some, none, arith, ◌==◌, bytes_eq,
  bytes_beq, bytes_ne_of_beq, if◌then◌else◌,
}
use epic_1bit2qbit.Prelude.Int.{pos}
use epic_1bit2qbit.Prelude.Text.{Bytes, codes, to_string, c_str}
use epic_1bit2qbit.Prelude.Result.{ok, err}
use epic_1bit2qbit.Messaging.Rows.{message_columns}
use epic_1bit2qbit.Messaging.Store.{
  MessageStore, load_dek, load_encrypted_state, load_server_cert, load_key,
}
use epic_1bit2qbit.Messaging.Table.{select}
use epic_1bit2qbit.Connection.Channel.{got, failed, wrote}
use epic_1bit2qbit.Connection.Channel.Reading.{flat}
use epic_1bit2qbit.Connection.Tls.{to_hex}
use epic_1bit2qbit.Connection.Connect.{Negotiation, Attempt}
use epic_1bit2qbit.Crypto.Json.Tree.{Tree, tree_lib, parse, scan, print}
use epic_1bit2qbit.Ui.App.{new_app, push_status}
use epic_1bit2qbit.Client.State.{Client}
use epic_1bit2qbit.Client.Session.{as_value}
use epic_1bit2qbit.Client.Login.{do_login, connecting}
use epic_1bit2qbit.Client.Login.Certificate.{do_login-changed_certificate, changed_text}
use epic_1bit2qbit.Client.Https.{Exchange, https_post, post_request, body_of}
use epic_1bit2qbit.Client.Https.Answers.{https_post_status, answer_of, ClosesAfter}
use epic_1bit2qbit.Client.Register.{do_register, same_secret}
use epic_1bit2qbit.Client.Register.Refused.{do_register-refused, refusal, answer_to}
use epic_1bit2qbit.Client.Examples.Delivery.{env, bob}

abbrev digest : Bytes → Option Bytes
digest cert = some cert

abbrev copy : Bytes → Bytes
copy b = b

abbrev negotiation : Negotiation Bytes
negotiation = record {
  allocated = true;
  sni_set = true;
  host_set = true;
  connected = true;
  errors = [];
  peer = record { verify_result = 0; verify_text = []; certificate = some (1 ∷ 255 ∷ []) };
}

abbrev attempt : Attempt Bytes
attempt = record {
  tcp = ok tt;
  negotiation = negotiation;
  random = none;
  channel = record { incoming = []; outgoing = []; random = []; sent = [] };
}

abbrev word : Tree
word = Tree.text (codes "w")

abbrev store : MessageStore
store = record {
  columns = message_columns;
  messages = [];
  conversations = [];
  pinned_keys = [];
  key_store =
      (codes "dek:ada", tree_lib.dump word)
      ∷ (codes "state:ada", tree_lib.dump word)
      ∷ (codes "cert:host", codes "aa")
      ∷ [];
}

abbrev fresh_client : Client Tree
fresh_client = record bob {
  encrypted_dek = none;
  encrypted_state = none;
  connection = none;
  store = none;
}

has_dek : load_dek (codes "ada") store ≡ some (tree_lib.dump word)
unfolding load_dek load_key bytes_beq print select c_str
has_dek = refl

has_state : load_encrypted_state (codes "ada") store ≡ some (tree_lib.dump word)
unfolding load_encrypted_state load_key bytes_beq print select c_str
has_state = refl

has_cert : load_server_cert (codes "host") store ≡ some (codes "aa")
unfolding load_server_cert load_key bytes_beq select c_str
has_cert = refl

do_login-changed_certificate_example :
    do_login env
      (codes "host")
      (ok store)
      (connecting env digest copy copy 443 attempt (codes "host"))
      (codes "ada")
      (codes "pw")
      (codes "1234")
      fresh_client
    ≡ (
      ok tt,
      record fresh_client {
        store = some store;
        encrypted_dek = as_value env word;
        pending_key_pin = codes "1234";
        encrypted_state = as_value env word;
        current_user = codes "ada";
        server_cert_pin = codes "aa";
        connection = none;
        app = push_status changed_text new_app;
      },
    )
do_login-changed_certificate_example =
    do_login-changed_certificate env digest copy copy (codes "host") (codes "ada") (codes "pw")
      (codes "1234") attempt store fresh_client (1 ∷ 255 ∷ []) (1 ∷ 255 ∷ []) (codes "aa")
      (tree_lib.dump word) (tree_lib.dump word) word word refl (refl, refl, refl, refl) refl refl
      refl has_cert refl
      (unfold to_hex in bytes_ne_of_beq (codes "01ff") (codes "aa") (unfold bytes_beq in refl))
      has_dek (unfold parse scan print in refl) has_state (unfold parse scan print in refl) refl
      refl refl

-- An exchange whose answer comes in two pieces.
abbrev exchanged : Exchange Bytes
exchanged = record {
  tcp = ok tt;
  negotiation = negotiation;
  incoming = got 72 (codes "TTP/1.1 40") ∷ got 57 (codes " Conflict") ∷ failed 6 ∷ [];
  outgoing = wrote 3 ∷ [];
}

https_post_status_example :
    let (sent, r) = https_post exchanged (codes "host") (codes "/p") (codes "{}") in
    let request = post_request (codes "host") (codes "/p") (codes "{}") in
    ((sent ≡ request)
      × (r
          ≡ ok (record {
            status = pos 409;
            body = body_of (answer_of (codes "HTTP/1.1") 409 (codes "Conflict"));
          })))
    ⊎ ((b : ℕ) × (back : Bytes) × (request ≡ sent ++ b ∷ back)
        × (r ≡ err (codes "SSL_write failed during registration")))
https_post_status_example =
    https_post_status exchanged (codes "host") (codes "/p") (codes "{}") (codes "HTTP/1.1")
      (codes "Conflict") 409 refl refl refl (ground arith) (omega arith)
      (unfold ClosesAfter in inl refl) (unfold flat to_string in refl)

abbrev unreachable : Exchange Bytes
unreachable = record exchanged { tcp = err (codes "refused") }

do_register-refused_example :
    do_register env
      (codes "host")
      unreachable
      (ok store)
      (λ pin. err (codes "refused"))
      (codes "ada")
      (codes "pw")
      (codes "1234")
      fresh_client
    ≡ (
      ok tt,
      record fresh_client {
        app =
            push_status
              (if codes "pw" == codes "1234"
                then same_secret
                else refusal (answer_to env unreachable (codes "host") (codes "ada") (codes "pw")))
              new_app;
      },
    )
do_register-refused_example =
    do_register-refused env unreachable (codes "host") (ok store) (λ pin. err (codes "refused"))
      (codes "ada") (codes "pw") (codes "1234") fresh_client (inr (unfold https_post in λ h. h))
