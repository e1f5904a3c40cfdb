-- ===== src/Client/Examples/Delivery.antt =====
-- A concrete message from one client to another, over the sample parameters with the laws.
use epic_1bit2qbit.Prelude.{
  ℕ, ◌+◌, ◌≡◌, refl, ap, inl, true, false, List, [], ◌∷◌, ◌++◌, some, none, bytes_beq,
}
use epic_1bit2qbit.Prelude.Text.{Bytes, codes, find, starts_with}
use epic_1bit2qbit.Prelude.Result.{ok}
use epic_1bit2qbit.Messaging.Message.{standard, to_int}
use epic_1bit2qbit.Messaging.Conversation.{
  Conversation, open_conversation, add_message, set_ratchet_state,
}
use epic_1bit2qbit.Messaging.Rows.{message_columns}
use epic_1bit2qbit.Messaging.Sqlite.Sample.{sample}
use epic_1bit2qbit.Messaging.Store.{MessageStore}
use epic_1bit2qbit.Connection.Channel.{ssl_write_all, write_loop}
use epic_1bit2qbit.Connection.Frame.{
  send_text, ws_send_frame, ws_encode_frame, encode_with, encode_length, mask_payload, apply_mask,
  big_endian,
}
use epic_1bit2qbit.Crypto.Json.Tree.{Tree, tree_lib, tree_lib-IsJson, print, parse, scan, get}
use epic_1bit2qbit.Crypto.Pipe.{
  Pipe, Reading, chunk, send_recv, write_all, read_line, read_line_loop, split_line,
}
use epic_1bit2qbit.Crypto.Call.{call, unwrap, encrypt_for_storage, encrypt_message, decrypt_message}
use epic_1bit2qbit.Ui.App.{new_app, push_message}
use epic_1bit2qbit.Client.Maps.{lookup, assign}
use epic_1bit2qbit.Client.State
use epic_1bit2qbit.Client.State.{Client, on_crypto, on_store}
use epic_1bit2qbit.Client.Content.{b64_encode, content_to_message, storage_encrypt}
use epic_1bit2qbit.Client.Content.Codec.{sample_codec, sample_codec-IsBase64}
use epic_1bit2qbit.Client.Session.{
  Env, ratchet_encrypt, envelope, chat_frame, encrypt_and_send_typed, record_sent, conversation_of,
  conv_or_throw, change_conversation,
}
use epic_1bit2qbit.Client.Inbound.{on_deliver_message}
use epic_1bit2qbit.Client.Inbound.Delivery.{
  at_clock, shown_as, after_delivery, on_deliver_message-encrypt_and_send_typed,
}
use epic_1bit2qbit.Client.Inbound.Delivery.Frame.{delivered, relay, mid_of, with_sent}
use epic_1bit2qbit.Client.Inbound.Delivery.Ratchet.{Decrypts}

abbrev pub env : Env Tree
env = record { lib = tree_lib; codec = sample_codec; db = sample; time = λ n. n }

abbrev clock : ℕ → ℕ
clock n = n + 7

abbrev reply : Tree → List ℕ
reply result = print (tree_lib.object ((codes "result", result) ∷ [])) ++ 10 ∷ []

abbrev replies : List Tree → List Reading
replies [] = []
replies (result ∷ results) = chunk 123 (reply result) ∷ replies results

abbrev pub pipe_with : List Tree → Pipe
pipe_with results = record {
  is_open = true;
  read_buf = [];
  incoming = replies results;
  outgoing = [];
  sent = [];
}

abbrev store : MessageStore
store = record {
  columns = message_columns;
  messages = [];
  conversations = [];
  pinned_keys = [];
  key_store = [];
}

abbrev with_peer : Bytes → Conversation
with_peer peer = record (open_conversation peer) {
  ratchet_state = tree_lib.dump (Tree.text (codes "s1"));
}

abbrev session : State.Session
session = record {
  connected = true;
  channel = record {
    incoming = [];
    outgoing = [];
    random = record { m0 = 1; m1 = 2; m2 = 3; m3 = 4 } ∷ [];
    sent = [];
  };
}

abbrev pub client_of : Bytes → Bytes → Pipe → Client Tree
client_of me peer pipe = record {
  current_user = me;
  pin_fail_count = 0;
  pending_key_pin = [];
  quit = false;
  encrypted_dek = some (Tree.text (codes "dek"));
  encrypted_state = some (Tree.text (codes "state"));
  server_cert_pin = [];
  conversations = (peer, with_peer peer) ∷ [];
  pending_sends = [];
  connection = some session;
  crypto = pipe;
  store = some store;
  app = new_app;
  readings = 0;
  abort_posted = false;
}

abbrev pub word : Tree
word = Tree.text (codes "ct")

abbrev pub blob : Tree
blob = Tree.text (codes "blob")

abbrev pub next : Tree
next = Tree.text (codes "s2")

abbrev ada : Client Tree
ada = client_of (codes "ada") (codes "bob") (
    pipe_with (
      tree_lib.object ((codes "ratchet_state", next) ∷ (codes "encrypted_message", word) ∷ [])
      ∷ blob
      ∷ []))

abbrev content : Bytes
content = content_to_message tree_lib sample_codec (codes "hi") standard []

abbrev opened : List (Bytes × Tree)
opened = (codes "ratchet_state", next) ∷ (codes "plaintext", Tree.text content) ∷ []

abbrev pub bob : Client Tree
bob = client_of (codes "bob") (codes "ada") (pipe_with (tree_lib.object opened ∷ blob ∷ blob ∷ []))

ada_encrypts : (ratchet_encrypt (at_clock env clock) (codes "bob") content ada).0 ≡ ok word
unfolding ratchet_encrypt content_to_message b64_encode to_int print parse scan get call unwrap
    encrypt_message encrypt_for_storage storage_encrypt send_recv write_all read_line read_line_loop
    split_line find starts_with on_crypto on_store conversation_of conv_or_throw change_conversation
    lookup assign bytes_beq
ada_encrypts = refl

abbrev after_ada : Client Tree
after_ada = (ratchet_encrypt (at_clock env clock) (codes "bob") content ada).1

abbrev mid : Bytes
mid = mid_of (at_clock env clock) after_ada (codes "bob")

abbrev sending : Bytes
sending = tree_lib.dump (chat_frame env (codes "bob") word none mid)

abbrev p1 : Pipe
p1 = (decrypt_message tree_lib (Tree.text (codes "s1")) word [] bob.crypto).1

abbrev p2 : Pipe
p2 = (encrypt_for_storage tree_lib (b64_encode sample_codec (tree_lib.dump next)) p1).1

decrypts : Decrypts env word (with_peer (codes "ada")) content next blob bob.crypto p1 p2
unfolding content_to_message b64_encode to_int print parse scan get call unwrap decrypt_message
    encrypt_for_storage send_recv write_all read_line read_line_loop split_line find starts_with
    bytes_beq
decrypts = record {
  rstate = Tree.text (codes "s1");
  dec = opened;
  live = refl;
  state = refl;
  opens = refl;
  has_next = refl;
  has_content = refl;
  seals = refl;
}

sealed :
    encrypt_for_storage tree_lib (b64_encode sample_codec (codes "hi")) p2
    ≡ (ok blob, (encrypt_for_storage tree_lib (b64_encode sample_codec (codes "hi")) p2).1)
unfolding content_to_message b64_encode to_int print parse scan get call unwrap decrypt_message
    encrypt_for_storage send_recv write_all read_line read_line_loop split_line find starts_with
    bytes_beq
sealed = refl

sends : send_text true sending session.channel ≡ (ok tt, (send_text true sending session.channel).1)
unfolding print send_text ws_send_frame ws_encode_frame ssl_write_all write_loop encode_with
    encode_length to_int content_to_message mask_payload apply_mask big_endian
sends = refl

online : after_ada.connection ≡ some session
unfolding ratchet_encrypt content_to_message b64_encode to_int print parse scan get call unwrap
    encrypt_message encrypt_for_storage storage_encrypt send_recv write_all read_line read_line_loop
    split_line find starts_with on_crypto on_store conversation_of conv_or_throw change_conversation
    lookup assign bytes_beq
online = refl

on_deliver_message-encrypt_and_send_typed_example :
    let frame =
      delivered env
        (codes "ada")
        (tree_lib.text (tree_lib.dump (envelope env word none)))
        (tree_lib.text mid) in
    let shown = shown_as env (codes "ada") standard (codes "hi") mid word blob blob store bob in
    let bob' =
      after_delivery env
        (codes "ada")
        standard
        (codes "hi")
        mid
        word
        next
        blob
        blob
        (with_peer (codes "ada"))
        store
        (encrypt_for_storage tree_lib (b64_encode sample_codec (codes "hi")) p2).1
        bob in
    (encrypt_and_send_typed (at_clock env clock) (codes "bob") (codes "hi") standard ada
      ≡ record_sent
          (at_clock env clock)
          (codes "bob")
          (codes "hi")
          standard
          (tree_lib.dump (envelope env word none))
          mid
          (with_sent
            (at_clock env clock)
            session
            (send_text true sending session.channel).1
            after_ada))
    × (relay env (codes "ada") sending ≡ ok frame)
    × (on_deliver_message env frame bob ≡ (ok tt, bob'))
    × (bob'.app ≡ push_message shown bob.app)
    × (lookup (codes "ada") bob'.conversations
        ≡ some
            (add_message shown (set_ratchet_state (tree_lib.dump next) (with_peer (codes "ada")))))
on_deliver_message-encrypt_and_send_typed_example =
    on_deliver_message-encrypt_and_send_typed env tree_lib-IsJson sample_codec-IsBase64 clock
      (codes "ada") (codes "bob") (codes "hi") standard word next blob blob session
      (send_text true sending session.channel).1 ada after_ada (with_peer (codes "ada")) store p1 p2
      (encrypt_for_storage tree_lib (b64_encode sample_codec (codes "hi")) p2).1 bob (inl refl)
      (ap (λ r. (r, after_ada)) ada_encrypts) online sends decrypts sealed
      (unfold lookup bytes_beq in refl) refl
