-- ===== src/Messaging/Store/Loading.antt =====
-- What `load_conversation` and `list_peers` of MessageStore.cpp return.
use mathlib.Core.List.{Perm}
use mathlib.Core.List.Perm
use mathlib.Core.Path.{subst}
use epic_1bit2qbit.Prelude.{
  ◌≡◌, refl, ◌≢◌, ◌⊎◌, ap, sym, ◌∙◌, true, false, List, [], ◌∷◌, ◌++◌, none, some, bytes_eq, arith,
  map, inl, inr, append-nil, append_assoc, is_empty,
}
use epic_1bit2qbit.Prelude.Text.{Bytes, c_str}
use epic_1bit2qbit.Messaging.Conversation.{Conversation, open_conversation, add_message}
use epic_1bit2qbit.Messaging.Table.{select}
use epic_1bit2qbit.Messaging.Sqlite.{Sqlite, Row, Ascending}
use epic_1bit2qbit.Messaging.Rows.{message_columns, has_columns, message_of, rows_of, add_rows}
use epic_1bit2qbit.Messaging.Store.{
  MessageStore, load_conversation, load_pinned_identity_key, add_pin, add_crypto_state,
}
use epic_1bit2qbit.Messaging.Store.Keys.{crypto_state, state_in}

messages-add_rows :
    (rs : List Row) (c : Conversation)
    → add_rows rs c ≡ record c { messages = c.messages ++ map message_of rs }
unfolding add_rows
messages-add_rows [] c = ap (λ ms. record c { messages = ms }) (sym (append-nil c.messages))
messages-add_rows (r ∷ rs) c =
    messages-add_rows rs (add_message (message_of r) c)
    ∙ unfold add_message in
      ap (λ ms. record c { messages = ms })
        (append_assoc c.messages (message_of r ∷ []) (map message_of rs))

-- The stored pin of a peer, as a conversation holds it: empty where there is none.
abbrev pub pin_of : Bytes → MessageStore → Bytes
pin_of peer s = elim (load_pinned_identity_key peer s) [ none ↦ [] | some ik ↦ ik ]

-- A loaded conversation: the peer's rows in the order of time, and its keys.
pub record Loaded (db : Sqlite) (peer : Bytes) (s : MessageStore) (c : Conversation) : Type 0 where
  pub names : c.peer ≡ peer
  pub ordered : List Row
  pub all_rows : Perm ordered (rows_of peer s.messages)
  pub in_time : Ascending ordered
  pub reads : c.messages ≡ map message_of ordered
  pub ratchet : c.ratchet_state ≡ (crypto_state peer s).ratchet_state
  pub associated : c.associated_data ≡ (crypto_state peer s).associated_data
  pub pinned : c.pinned_ik_pub ≡ pin_of peer s

List-cases : (l : List Row) → (l ≡ []) ⊎ (l ≢ [])
List-cases [] = inl refl
List-cases (x ∷ l) = inr (λ e. cc)

loaded : Sqlite → Bytes → MessageStore → Conversation
loaded db peer s = record {
  peer = peer;
  messages = map message_of (db.by_time (rows_of peer s.messages));
  ratchet_state = (crypto_state peer s).ratchet_state;
  associated_data = (crypto_state peer s).associated_data;
  pinned_ik_pub = pin_of peer s;
}

loaded-Loaded :
    (db : Sqlite) (peer : Bytes) (s : MessageStore) → Loaded db peer s (loaded db peer s)
unfolding loaded
loaded-Loaded db peer s = record {
  names = refl;
  ordered = db.by_time (rows_of peer s.messages);
  all_rows = db.by_time_perm (rows_of peer s.messages);
  in_time = db.by_time_sorted (rows_of peer s.messages);
  reads = refl;
  ratchet = refl;
  associated = refl;
  pinned = refl;
}

decorate :
    (peer : Bytes) (s : MessageStore) (rows : List Row)
    → add_pin (load_pinned_identity_key peer s) (
        add_crypto_state
          (select (c_str peer) s.conversations)
          (add_rows rows (open_conversation peer)))
      ≡ record {
        peer = peer;
        messages = map message_of rows;
        ratchet_state = (crypto_state peer s).ratchet_state;
        associated_data = (crypto_state peer s).associated_data;
        pinned_ik_pub = pin_of peer s;
      }
unfolding add_pin add_crypto_state state_in
decorate peer s rows = ground (arith, messages-add_rows rows (open_conversation peer))

nonempty_sorted : (db : Sqlite) (rows : List Row) → rows ≢ [] → is_empty (db.by_time rows) ≡ false
nonempty_sorted db rows h = go (db.by_time rows) refl
  where
    go : (l : List Row) → db.by_time rows ≡ l → is_empty l ≡ false
    go [] e = absurd (h (sym (Perm.nil-eq (subst (λ l. Perm l rows) e (db.by_time_perm rows)))))
    go (x ∷ l) e = refl

empty_sorted : (db : Sqlite) (rows : List Row) → rows ≡ [] → is_empty (db.by_time rows) ≡ true
empty_sorted db rows h = rw (Perm.eq-nil (subst (Perm (db.by_time rows)) h (db.by_time_perm rows)))

-- With the full schema a load finds nothing exactly when no row has the peer; otherwise it returns
-- exactly the peer's rows, oldest first, with the saved crypto state and identity pin.
pub load_conversation-Loaded :
    (db : Sqlite) (peer : Bytes) (s : MessageStore)
    → has_columns message_columns s.columns ≡ true
    → ((rows_of peer s.messages ≡ []) × (load_conversation db peer s ≡ none))
      ⊎ ((rows_of peer s.messages ≢ [])
          × ((c : Conversation) × (load_conversation db peer s ≡ some c) × Loaded db peer s c))
unfolding load_conversation
load_conversation-Loaded db peer s schema = elim (List-cases (rows_of peer s.messages)) [
  | inl h ↦ inl (h, rw (schema, empty_sorted db (rows_of peer s.messages) h))
  | inr h ↦ inr (
    h,
    (
      loaded db peer s,
      rw (schema, nonempty_sorted db (rows_of peer s.messages) h)
          (unfold loaded in ap some (decorate peer s (db.by_time (rows_of peer s.messages)))),
      loaded-Loaded db peer s,
    ),
  )
]
