-- ===== src/Messaging/Store/Keys.antt =====
-- The key-value side of MessageStore.cpp: the three families of key_store, the identity pins and
-- the crypto state of a conversation do not disturb one another.
use epic_1bit2qbit.Prelude.{
  ◌≡◌, refl, false, none, some, ◌++◌, ◌==◌, bytes_eq, if◌then◌else◌, arith, bytes_beq,
  bytes_beq-append, bytes_beq_refl, bytes_beq_iff, ◌≢◌,
}
use epic_1bit2qbit.Prelude.Text.{Bytes, codes, c_str, c_str-append}
use epic_1bit2qbit.Messaging.Table.{Table, select, select-replace}
use epic_1bit2qbit.Messaging.Store.{
  MessageStore, CryptoState, no_crypto_state, upsert, save_key, load_key, save_dek, load_dek,
  save_encrypted_state, load_encrypted_state, save_server_cert, load_server_cert,
  save_ratchet_state, save_associated_data,
}

load_key-save_key :
    (p q u w v : Bytes) (s : MessageStore)
    → load_key q w (save_key p u v s)
      ≡ (if c_str (p ++ u) == c_str (q ++ w) then some (c_str v) else load_key q w s)
unfolding load_key save_key
load_key-save_key p q u w v s =
    select-replace (c_str (p ++ u)) (c_str (q ++ w)) (c_str v) s.key_store

load_key-save_key_same :
    (p u w v : Bytes) (s : MessageStore)
    → c_str p ≡ p
    → load_key p w (save_key p u v s)
      ≡ (if c_str u == c_str w then some (c_str v) else load_key p w s)
load_key-save_key_same p u w v s h = rw (
  load_key-save_key p p u w v s,
  c_str-append p u h,
  c_str-append p w h,
  bytes_beq-append p (c_str u) (c_str w),
)

load_key-save_key_other :
    (p q u w v : Bytes) (s : MessageStore)
    → c_str p ≡ p
    → c_str q ≡ q
    → bytes_beq (p ++ c_str u) (q ++ c_str w) ≡ false
    → load_key q w (save_key p u v s) ≡ load_key q w s
load_key-save_key_other p q u w v s hp hq differ =
    rw (load_key-save_key p q u w v s, c_str-append p u hp, c_str-append q w hq, differ)

-- Saving a DEK answers a later load of that user's DEK (names are compared up to their first NUL),
-- and never touches a DEK of another user, an X3DH state or a server certificate.
pub save_dek-loads :
    (user value other : Bytes) (s : MessageStore)
    → (load_dek other (save_dek user value s)
        ≡ (if c_str user == c_str other then some (c_str value) else load_dek other s))
      × (load_encrypted_state other (save_dek user value s) ≡ load_encrypted_state other s)
      × (load_server_cert other (save_dek user value s) ≡ load_server_cert other s)
unfolding save_dek load_dek load_encrypted_state load_server_cert
save_dek-loads user value other s = (
  load_key-save_key_same (codes "dek:") user other value s (unfold c_str in refl),
  load_key-save_key_other (codes "dek:") (codes "state:") user other value s (unfold c_str in refl)
      (unfold c_str in refl) (unfold bytes_beq in refl),
  load_key-save_key_other (codes "dek:") (codes "cert:") user other value s (unfold c_str in refl)
      (unfold c_str in refl) (unfold bytes_beq in refl),
)

-- So do saves of an X3DH state and of a server certificate, each in its own family.
pub save_state-cert-loads :
    (user value other : Bytes) (s : MessageStore)
    → (load_encrypted_state other (save_encrypted_state user value s)
        ≡ (if c_str user == c_str other then some (c_str value) else load_encrypted_state other s))
      × (load_dek other (save_encrypted_state user value s) ≡ load_dek other s)
      × (load_server_cert other (save_encrypted_state user value s) ≡ load_server_cert other s)
      × (load_server_cert other (save_server_cert user value s)
          ≡ (if c_str user == c_str other then some (c_str value) else load_server_cert other s))
      × (load_dek other (save_server_cert user value s) ≡ load_dek other s)
      × (load_encrypted_state other (save_server_cert user value s) ≡ load_encrypted_state other s)
unfolding save_encrypted_state save_server_cert load_dek load_encrypted_state load_server_cert
save_state-cert-loads user value other s = (
  load_key-save_key_same (codes "state:") user other value s (unfold c_str in refl),
  load_key-save_key_other (codes "state:") (codes "dek:") user other value s (unfold c_str in refl)
      (unfold c_str in refl) (unfold bytes_beq in refl),
  load_key-save_key_other (codes "state:") (codes "cert:") user other value s (unfold c_str in refl)
      (unfold c_str in refl) (unfold bytes_beq in refl),
  load_key-save_key_same (codes "cert:") user other value s (unfold c_str in refl),
  load_key-save_key_other (codes "cert:") (codes "dek:") user other value s (unfold c_str in refl)
      (unfold c_str in refl) (unfold bytes_beq in refl),
  load_key-save_key_other (codes "cert:") (codes "state:") user other value s (unfold c_str in refl)
      (unfold c_str in refl) (unfold bytes_beq in refl),
)

-- The crypto state that a table holds for a key, with the column defaults where it holds none.
unfoldable pub state_in : Bytes → Table CryptoState → CryptoState
state_in k t = elim (select k t) [ none ↦ no_crypto_state | some cs ↦ cs ]

state_in-upsert :
    (k j : Bytes) (change : CryptoState → CryptoState) (t : Table CryptoState)
    → state_in j (upsert k change t) ≡ (if k == j then change (state_in k t) else state_in j t)
unfolding state_in upsert
state_in-upsert k j change t = ground (
  arith,
  select-replace k j (change (elim (select k t) [ none ↦ no_crypto_state | some cs ↦ cs ])) t,
)

-- The crypto state that a load of the peer's conversation reads.
abbrev pub crypto_state : Bytes → MessageStore → CryptoState
crypto_state peer s = state_in (c_str peer) s.conversations

-- The two upserts of a conversation's crypto state commute with each other's column: after both,
-- in either order, the peer has both values, whatever the row held before; each alone keeps the
-- other column, and neither touches another peer.
pub crypto_upserts :
    (peer other state ad : Bytes) (s : MessageStore)
    → c_str peer ≢ c_str other
    → (crypto_state peer (save_ratchet_state peer state s)
        ≡ record (crypto_state peer s) { ratchet_state = c_str state })
      × (crypto_state peer (save_associated_data peer ad s)
          ≡ record (crypto_state peer s) { associated_data = c_str ad })
      × (crypto_state peer (save_ratchet_state peer state (save_associated_data peer ad s))
          ≡ record { ratchet_state = c_str state; associated_data = c_str ad })
      × (crypto_state other (save_ratchet_state peer state (save_associated_data peer ad s))
          ≡ crypto_state other s)
unfolding save_ratchet_state save_associated_data
crypto_upserts peer other state ad s apart =
    let k = c_str peer in
    let set_state = λ (cs : CryptoState). record cs { ratchet_state = c_str state } in
    let set_ad = λ (cs : CryptoState). record cs { associated_data = c_str ad } in
    let t = upsert k set_ad s.conversations in
    ground (
      arith,
      bytes_beq_refl k,
      bytes_beq_iff k (c_str other),
      state_in-upsert k k set_state s.conversations,
      state_in-upsert k k set_ad s.conversations,
      state_in-upsert k k set_state t,
      state_in-upsert k (c_str other) set_state t,
      state_in-upsert k (c_str other) set_ad s.conversations,
    )
