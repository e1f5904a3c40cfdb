-- ===== src/Client/Examples.antt =====
-- Concrete runs of Client.cpp over sample parameters.
mod Delivery
mod Login
mod Storage
mod FirstUse
use epic_1bit2qbit.Prelude.{
  ◌≡◌, refl, true, false, [], ◌∷◌, ◌++◌, some, none, arith, bytes_beq, bytes_ne_of_beq,
}
use epic_1bit2qbit.Prelude.Text.{Bytes, codes}
use epic_1bit2qbit.Prelude.Result.{ok, err}
use epic_1bit2qbit.Messaging.Conversation.{Conversation, open_conversation}
use epic_1bit2qbit.Messaging.Sqlite.Sample.{sample}
use epic_1bit2qbit.Messaging.Rows.{message_columns, row_of}
use epic_1bit2qbit.Messaging.Store
use epic_1bit2qbit.Messaging.Store.{MessageStore}
use epic_1bit2qbit.Crypto.Json.Sample.{plain}
use epic_1bit2qbit.Crypto.Pipe.{chunk}
use epic_1bit2qbit.Messaging.Message.{Message, blank_message}
use epic_1bit2qbit.Ui.App
use epic_1bit2qbit.Ui.App.{new_app, push_status}
use epic_1bit2qbit.Ui.Login.{start_lockout}
use epic_1bit2qbit.Client.Maps.{lookup, assign}
use epic_1bit2qbit.Client.State.{Client, online, is_online}
use epic_1bit2qbit.Client.Session.{Env}
use epic_1bit2qbit.Client.Content.{value_string}
use epic_1bit2qbit.Client.Login.{do_login}
use epic_1bit2qbit.Client.Unlock.{pin_rejected}
use epic_1bit2qbit.Client.Login.Secrets.{do_login-secrets, do_login-dek}
use epic_1bit2qbit.Client.Unlock.Lockout.{pin_rejected-delay, pin_rejected-overflow}
use epic_1bit2qbit.Client.Inbound.{decrypt_from, key_warning}
use epic_1bit2qbit.Client.Inbound.Identity.{decrypt_from-changed_key}
use epic_1bit2qbit.Client.Outbound.{has_session, has_session_in}
use epic_1bit2qbit.Client.Outbound.Pending.{Waiting, send_all, send_all-Waiting}

abbrev env : Env Bytes
env = record {
  lib = plain;
  codec = record { encode_block = λ b. b; decode_block = λ b. some b };
  db = sample;
  time = λ n. n;
}

abbrev store : MessageStore
store = record {
  columns = message_columns;
  messages = [];
  conversations = [];
  pinned_keys = [];
  key_store = [];
}

abbrev known : Conversation
known = record (open_conversation (codes "bob")) { pinned_ik_pub = codes "k1" }

abbrev client : Client Bytes
client = record {
  current_user = codes "me";
  pin_fail_count = 2;
  pending_key_pin = [];
  quit = false;
  encrypted_dek = some (codes "dek");
  encrypted_state = some (codes "state");
  server_cert_pin = [];
  conversations = (codes "bob", known) ∷ [];
  pending_sends = [];
  connection = some (record {
    connected = true;
    channel = record { incoming = []; outgoing = []; random = []; sent = [] };
  });
  crypto = record {
    is_open = true;
    read_buf = [];
    incoming = chunk 123 (10 ∷ []) ∷ [];
    outgoing = [];
    sent = [];
  };
  store = some store;
  app = new_app;
  readings = 0;
  abort_posted = false;
}

do_login-secrets_example :
    let after =
      (do_login env
        (codes "host")
        (ok store)
        (λ pin. err (codes "refused"))
        (codes "eve")
        (codes "pw")
        (codes "123456")
        client).1 in
    (after.crypto ≡ client.crypto) × (after.pin_fail_count ≡ 2)
do_login-secrets_example =
    do_login-secrets env (codes "host") (ok store) (λ pin. err (codes "refused")) (codes "eve")
      (codes "pw") (codes "123456") client

do_login-dek_example :
    (do_login env
      (codes "host")
      (ok store)
      (λ pin. err (codes "refused"))
      (codes "eve")
      (codes "pw")
      (codes "123456")
      client).1.encrypted_dek
    ≡ some (codes "dek")
do_login-dek_example =
    do_login-dek env (codes "host") (ok store) (λ pin. err (codes "refused")) (codes "eve")
      (codes "pw") (codes "123456") client (codes "dek") refl

pin_rejected-delay_example :
    let after = (pin_rejected env client).1 in
    (after.pin_fail_count ≡ 3) × (after.app ≡ start_lockout 5 new_app) × (after.abort_posted ≡ true)
pin_rejected-delay_example = pin_rejected-delay env client (omega arith) (omega arith)

decrypt_from-changed_key_example :
    decrypt_from env (codes "bob") (codes "dr") (some (codes "k2")) client ≡ (
      ok none,
      record client {
        conversations = assign (codes "bob") known client.conversations;
        app = push_status (key_warning (codes "bob")) new_app;
      },
    )
decrypt_from-changed_key_example =
    decrypt_from-changed_key env (codes "bob") (codes "k2") (codes "dr") (codes "k2") known client
      (unfold lookup bytes_beq in refl) refl refl
      (bytes_ne_of_beq (codes "k1") (codes "k2") (unfold bytes_beq in refl))
      (unfold value_string in refl)

waiting : Waiting env (codes "bob") [] client
waiting = record {
  live = unfold online is_online in refl;
  fresh = unfold has_session has_session_in lookup bytes_beq in refl;
  pending = unfold lookup in refl;
}

send_all-Waiting_example :
    Waiting env
      (codes "bob")
      ([] ++ codes "one" ∷ codes "two" ∷ [])
      (send_all env (codes "bob") (codes "one" ∷ codes "two" ∷ []) client)
send_all-Waiting_example =
    send_all-Waiting env (codes "bob") (codes "one" ∷ codes "two" ∷ []) [] client waiting

-- A message that bob has sent, stored and shown.
abbrev from_bob : Message
from_bob = record blank_message {
  id = 1;
  peer = codes "bob";
  sender = codes "bob";
  body = codes "old";
  mid = codes "bob:me:1";
}

abbrev mailbox : MessageStore
mailbox = record store { messages = row_of 1 from_bob ∷ [] }

abbrev reading : Client Bytes
reading = record client {
  store = some mailbox;
  app = record new_app { conversations = record known { messages = from_bob ∷ [] } ∷ [] };
}

abbrev after_encrypting : Client Bytes
after_encrypting = record reading {
  crypto = record { is_open = true; read_buf = []; incoming = []; outgoing = []; sent = 10 ∷ [] };
}
