-- ===== src/Messaging/Examples.antt =====
-- Concrete runs of MessageStore.cpp over the sample engine.
use epic_1bit2qbit.Prelude.{
  ◌≡◌, refl, ◌≢◌, ◌⊎◌, [], ◌∷◌, ◌++◌, some, none, arith, map, true, false, bytes_eq, bytes_beq,
}
use epic_1bit2qbit.Prelude.Text.{codes, c_str, Bytes}
use epic_1bit2qbit.Prelude.Int.{pos}
use epic_1bit2qbit.Prelude.Result.{ok}
use epic_1bit2qbit.Messaging.Message.{blank_message}
use epic_1bit2qbit.Messaging.Conversation.{
  Conversation, update_first, has_id, has_mid, edit_message,
}
use epic_1bit2qbit.Messaging.Sqlite.{Row}
use epic_1bit2qbit.Messaging.Sqlite.Sample.{sample}
use epic_1bit2qbit.Messaging.Rows.{message_columns, has_column, has_columns, rows_of}
use epic_1bit2qbit.Messaging.Store
use epic_1bit2qbit.Messaging.Store.{
  MessageStore, save_message, load_conversation, list_peers, save_dek, load_dek,
  load_encrypted_state, save_encrypted_state, load_server_cert, save_server_cert,
  save_ratchet_state, save_associated_data,
}
use epic_1bit2qbit.Messaging.Store.Refinement
use epic_1bit2qbit.Messaging.Store.Refinement.{Trace, perform_all-Trace}
use epic_1bit2qbit.Messaging.Store.Ids.{
  save, update, delete, perform_all, perform_all-IsWellFormed, IsWellFormed,
}
use epic_1bit2qbit.Messaging.Store.Loading.{load_conversation-Loaded, Loaded}
use epic_1bit2qbit.Messaging.Store.Updates.{edits_agree, edits_by_mid_differ, stored}
use epic_1bit2qbit.Messaging.Schema.{
  Disk, open_store, close_store, store_of, reordered_columns, undelete,
}
use epic_1bit2qbit.Messaging.Schema.Legacy.{open_store_legacy, first_columns}

abbrev ada : Bytes
ada = codes "ada"

abbrev hello : Row
hello = record {
  id = 1;
  peer = ada;
  sender = ada;
  recipient = codes "me";
  timestamp_ms = pos 5;
  type = pos 0;
  body = codes "x";
  edited = false;
  deleted = false;
  target_id = none;
  wire_ciphertext = [];
  mid = codes "ada:me:5";
}

abbrev again : Row
again = record hello { id = 2 }

abbrev two_rows : MessageStore
two_rows = record {
  columns = message_columns;
  messages = hello ∷ again ∷ [];
  conversations = [];
  pinned_keys = [];
  key_store = [];
}

full_schema : has_columns message_columns message_columns ≡ true
unfolding has_columns
full_schema = unfold bytes_beq in refl

two_rows-IsWellFormed : IsWellFormed two_rows.messages
two_rows-IsWellFormed = record {
  distinct = (((λ e. absurd (omega arith)), tt), (tt, tt));
  positive = omega arith;
}

perform_all-IsWellFormed_example :
    IsWellFormed
      (perform_all sample (save blank_message ∷ delete 1 ∷ update 2 ada ∷ []) two_rows).messages
perform_all-IsWellFormed_example =
    perform_all-IsWellFormed sample (save blank_message ∷ delete 1 ∷ update 2 ada ∷ []) two_rows
      two_rows-IsWellFormed

load_conversation-Loaded_example :
    ((rows_of ada two_rows.messages ≡ []) × (load_conversation sample ada two_rows ≡ none))
    ⊎ ((rows_of ada two_rows.messages ≢ [])
        × ((c : Conversation) × (load_conversation sample ada two_rows ≡ some c)
            × Loaded sample ada two_rows c))
load_conversation-Loaded_example = load_conversation-Loaded sample ada two_rows full_schema

edits_agree_example :
    stored ada (Store.update_message_body 2 (codes "y") two_rows)
    ≡ update_first (has_id 2) (edit_message (c_str (codes "y"))) (stored ada two_rows)
edits_agree_example =
    (edits_agree 2 (codes "y") ada two_rows full_schema two_rows-IsWellFormed.distinct).0

edits_by_mid_differ_example :
    stored ada (Store.update_message_body_by_mid hello.mid (codes "y") two_rows)
    ≢ update_first (has_mid hello.mid) (edit_message (c_str (codes "y"))) (stored ada two_rows)
edits_by_mid_differ_example =
    edits_by_mid_differ hello.mid (codes "y") ada hello again [] two_rows full_schema
      (unfold rows_of c_str bytes_beq in refl) (unfold c_str in (refl, refl, refl)) refl

abbrev new_file : Disk
new_file = record {
  columns = none;
  messages = [];
  conversations = [];
  pinned_keys = [];
  key_store = [];
}

abbrev old_file : Disk
old_file = record new_file { columns = some first_columns; messages = hello ∷ [] }

open_store_legacy_example :
    (s : MessageStore) × (open_store sample (some old_file) ≡ ok s)
    × (has_columns message_columns s.columns ≡ false)
    × ((save_message sample blank_message s).1 ≡ s)
    × (load_conversation sample ada s ≡ none)
    × (open_store sample (some (close_store s))
        ≡ ok (
            store_of
              (reordered_columns ++ codes "deleted" ∷ [])
              (map undelete (hello ∷ []))
              old_file))
    × (has_columns message_columns (reordered_columns ++ codes "deleted" ∷ []) ≡ true)
open_store_legacy_example =
    open_store_legacy sample first_columns old_file blank_message ada refl
      (unfold has_columns bytes_beq in refl) (unfold has_column bytes_beq in refl) (omega arith)

perform_all-Trace_example :
    Trace (save blank_message ∷ delete 1 ∷ update 2 ada ∷ []) (Refinement.stored two_rows) (
      Refinement.stored
        (perform_all sample (save blank_message ∷ delete 1 ∷ update 2 ada ∷ []) two_rows))
perform_all-Trace_example =
    perform_all-Trace sample (save blank_message ∷ delete 1 ∷ update 2 ada ∷ []) two_rows
      full_schema
