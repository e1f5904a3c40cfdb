-- ===== src/Messaging/Store.antt =====
-- client/src/messaging/MessageStore.h and MessageStore.cpp. The store is the database that the
-- object holds open; a statement that cannot be prepared, for want of a column, does nothing,
-- since the source looks at no result of sqlite3_prepare_v2 or sqlite3_step.
pub mod Keys
pub mod Ids
pub mod Loading
pub mod Updates
pub mod Peers
pub mod Refinement
use epic_1bit2qbit.Prelude.{
  ℕ, not, List, [], ◌∷◌, ◌++◌, Option, none, some, ◌==◌, nat_eq, bytes_eq, if◌then◌else◌, keep, map,
  is_empty,
}
use epic_1bit2qbit.Prelude.Text.{Bytes, codes, c_str}
use epic_1bit2qbit.Messaging.Message.{Message}
use epic_1bit2qbit.Messaging.Conversation.{
  Conversation, open_conversation, set_ratchet_state, set_associated_data, set_pinned_ik_pub,
}
use epic_1bit2qbit.Messaging.Table.{Table, select, replace}
use epic_1bit2qbit.Messaging.Sqlite.{Sqlite, Row}
use epic_1bit2qbit.Messaging.Rows.{
  message_columns, has_columns, row_of, row_ids, insert_row, update_rows, row_has_id, row_has_mid,
  edit_row, delete_row, rows_of, add_rows, groups,
}

pub record CryptoState : Type 0 where
  pub ratchet_state : Bytes
  pub associated_data : Bytes

pub record MessageStore : Type 0 where
  -- the columns of the messages table, in their order
  pub columns : List Bytes
  pub messages : List Row
  pub conversations : Table CryptoState
  pub pinned_keys : Table Bytes
  pub key_store : Table Bytes

-- ── Messages ──

abbrev pub with_columns : List Bytes → (List Row → List Row) → MessageStore → MessageStore
with_columns names change s =
    if has_columns names s.columns then record s { messages = change s.messages } else s

unfoldable pub save_message : Sqlite → Message → MessageStore → ℕ × MessageStore
unfolding insert_row row_of
save_message db msg s =
    let id : ℕ = if msg.id == 0 then db.new_rowid (row_ids s.messages) else msg.id in
    if has_columns message_columns s.columns
    then (id, record s { messages = insert_row (row_of id msg) s.messages })
    else (db.stale_rowid s.messages, s)

unfoldable pub delete_message : ℕ → MessageStore → MessageStore
delete_message id = with_columns (codes "id" ∷ []) (keep (λ r. not (row_has_id id r)))

unfoldable pub update_message_body : ℕ → Bytes → MessageStore → MessageStore
unfolding update_rows
update_message_body id body =
    with_columns (codes "body" ∷ codes "edited" ∷ codes "id" ∷ [])
      (update_rows (row_has_id id) (edit_row body))

unfoldable pub update_message_body_by_mid : Bytes → Bytes → MessageStore → MessageStore
unfolding update_rows
update_message_body_by_mid mid body =
    with_columns (codes "body" ∷ codes "edited" ∷ codes "mid" ∷ [])
      (update_rows (row_has_mid mid) (edit_row body))

unfoldable pub mark_message_deleted : ℕ → MessageStore → MessageStore
unfolding update_rows
mark_message_deleted id =
    with_columns (codes "deleted" ∷ codes "body" ∷ codes "id" ∷ [])
      (update_rows (row_has_id id) delete_row)

unfoldable pub mark_message_deleted_by_mid : Bytes → MessageStore → MessageStore
unfolding update_rows
mark_message_deleted_by_mid mid =
    with_columns (codes "deleted" ∷ codes "body" ∷ codes "mid" ∷ [])
      (update_rows (row_has_mid mid) delete_row)

-- ── Conversation crypto state ──

abbrev pub no_crypto_state : CryptoState
no_crypto_state = record { ratchet_state = []; associated_data = [] }

-- INSERT ... ON CONFLICT(peer) DO UPDATE SET one column
unfoldable pub upsert : Bytes → (CryptoState → CryptoState) → Table CryptoState → Table CryptoState
upsert peer change t =
    replace peer (change (elim (select peer t) [ none ↦ no_crypto_state | some cs ↦ cs ])) t

unfoldable pub save_ratchet_state : Bytes → Bytes → MessageStore → MessageStore
unfolding upsert
save_ratchet_state peer state s = record s {
  conversations =
      upsert (c_str peer) (λ cs. record cs { ratchet_state = c_str state }) s.conversations;
}

unfoldable pub save_associated_data : Bytes → Bytes → MessageStore → MessageStore
unfolding upsert
save_associated_data peer ad s = record s {
  conversations =
      upsert (c_str peer) (λ cs. record cs { associated_data = c_str ad }) s.conversations;
}

-- ── Identity key pins ──

unfoldable pub pin_identity_key : Bytes → Bytes → MessageStore → MessageStore
pin_identity_key username ik_pub s = record s {
  pinned_keys = replace (c_str username) (c_str ik_pub) s.pinned_keys;
}

unfoldable pub load_pinned_identity_key : Bytes → MessageStore → Option Bytes
load_pinned_identity_key username s = select (c_str username) s.pinned_keys

-- ── The key store: one table, three prefixes ──

unfoldable pub save_key : Bytes → Bytes → Bytes → MessageStore → MessageStore
save_key prefix name value s = record s {
  key_store = replace (c_str (prefix ++ name)) (c_str value) s.key_store;
}

unfoldable pub load_key : Bytes → Bytes → MessageStore → Option Bytes
load_key prefix name s = select (c_str (prefix ++ name)) s.key_store

unfoldable pub save_dek : Bytes → Bytes → MessageStore → MessageStore
unfolding save_key
save_dek = save_key (codes "dek:")

unfoldable pub load_dek : Bytes → MessageStore → Option Bytes
unfolding load_key
load_dek = load_key (codes "dek:")

unfoldable pub save_encrypted_state : Bytes → Bytes → MessageStore → MessageStore
unfolding save_key
save_encrypted_state = save_key (codes "state:")

unfoldable pub load_encrypted_state : Bytes → MessageStore → Option Bytes
unfolding load_key
load_encrypted_state = load_key (codes "state:")

unfoldable pub save_server_cert : Bytes → Bytes → MessageStore → MessageStore
unfolding save_key
save_server_cert = save_key (codes "cert:")

unfoldable pub load_server_cert : Bytes → MessageStore → Option Bytes
unfolding load_key
load_server_cert = load_key (codes "cert:")

-- ── Loading ──

add_crypto_state : Option CryptoState → Conversation → Conversation
add_crypto_state none conv = conv
add_crypto_state (some cs) conv =
    set_associated_data cs.associated_data (set_ratchet_state cs.ratchet_state conv)

add_pin : Option Bytes → Conversation → Conversation
add_pin none conv = conv
add_pin (some ik) conv = set_pinned_ik_pub ik conv

unfoldable pub load_conversation : Sqlite → Bytes → MessageStore → Option Conversation
unfolding rows_of add_rows add_crypto_state add_pin load_pinned_identity_key
load_conversation db peer s =
    let rows : List Row =
      if has_columns message_columns s.columns then db.by_time (rows_of peer s.messages) else [] in
    if is_empty rows
    then none
    else some (
        add_pin (load_pinned_identity_key peer s) (
          add_crypto_state (select (c_str peer) s.conversations)
            (add_rows rows (open_conversation peer))))

unfoldable pub list_peers : Sqlite → MessageStore → List Bytes
unfolding groups
list_peers db s = map (λ g. g.0) (db.by_recency (groups s.messages))
