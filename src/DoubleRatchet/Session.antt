-- ===== src/DoubleRatchet/Session.antt =====
-- crates/vaultex-crypto/src/double_ratchet.rs: the methods of `RatchetState`. What `gen_keypair` and
-- `gen_nonce` draw are the arguments `fresh` and `nonce`.
use vaultex.Base.{
  ℕ, zero, suc, ◌-◌, Option, none, some, [], ◌++◌, Bool, true, false, not, ltb, bytes_eq, Bytes,
  text, length, take, drop, if◌then◌else◌,
}
use vaultex.Base.HashMap
use vaultex.Errors.{Result, ok, err, ok_or, ratchet_error, decryption_failed, CryptoError}
use vaultex.Crates.Sodium.{Sodium}
use vaultex.Crates.Kdf.{Kdf}
use vaultex.AesGcm
use vaultex.DoubleRatchet.State.{
  max_skip, MessageHeader, RatchetState, KeyPair, SkippedId, Method, ◌>>=◌, ◌>>◌, lift, gets,
  modify, pure, next_u32, skipped_id,
}
use vaultex.DoubleRatchet.Keys.{kdf_rk, kdf_ck, dh_exchange}

-- `return Err(e)` under a test.
abbrev pub fail_if : Bool → CryptoError → Method (Unit {0})
fail_if true e s = (err e, s)
fail_if false e s = (ok tt, s)

-- XChaCha20-Poly1305 nonce size.
abbrev pub nonce_len : ℕ
nonce_len = 24

unfoldable pub init_receiver : Bytes → KeyPair → RatchetState
init_receiver shared_secret our_ratchet_keypair = record {
  root_key = shared_secret;
  sending_chain_key = none;
  receiving_chain_key = none;
  sending_keypair = some our_ratchet_keypair;
  remote_ratchet_key = none;
  send_message_number = 0;
  recv_message_number = 0;
  previous_chain_length = 0;
  skipped_keys = [];
}

unfoldable pub decrypt_with_key : Sodium → Bytes → Bytes → Bytes → Result Bytes
decrypt_with_key na msg_key ciphertext associated_data =
    if ltb (length ciphertext) nonce_len
    then err decryption_failed
    else AesGcm.decrypt na msg_key (take nonce_len ciphertext) (drop nonce_len ciphertext)
        (some associated_data)

-- A header that carries another ratchet key than the last one seen.
unfoldable pub needs_ratchet : Option Bytes → Bytes → Bool
needs_ratchet none their_pk = true
needs_ratchet (some remote) their_pk = not (bytes_eq remote their_pk)

module _ (kdf : Kdf) where
  -- `for n in first..first + count`: stores a key for each message, and returns the last chain key.
  unfoldable pub skip_loop : ℕ → Bytes → ℕ → Bytes → Method Bytes
  skip_loop zero remote_pk n current_ck = pure current_ck
  skip_loop (suc count) remote_pk n current_ck = do
    (new_ck, mk) ← lift (kdf_ck kdf current_ck)
    modify (λ s. record s { skipped_keys = HashMap.insert (remote_pk, n) mk s.skipped_keys })
    skip_loop count remote_pk (suc n) new_ck

  -- Called before a DH ratchet step, to keep the keys of messages of the old chain on the way.
  unfoldable pub skip_message_keys_for_current_chain : ℕ → Method (Unit {0})
  skip_message_keys_for_current_chain until s = elim s.receiving_chain_key [
    | none ↦ (ok tt, s)
    | some first_ck ↦ elim s.remote_ratchet_key [
      | none ↦ (ok tt, s)
      | some remote_pk ↦
          if ltb until s.recv_message_number
          then (ok tt, s)
          else if ltb max_skip (until - s.recv_message_number)
          then (err (ratchet_error (text "too many skipped messages")), s)
          else (do
            current_ck ←
                skip_loop (until - s.recv_message_number) remote_pk s.recv_message_number first_ck
            modify (λ t. record t {
              receiving_chain_key = some current_ck;
              recv_message_number = until;
            }))
              s
    ]
  ]

  -- Stores the keys of the current chain up to, and not including, the target message.
  unfoldable pub skip_message_keys : ℕ → Method (Unit {0})
  skip_message_keys until = do
    recv ← gets (λ s. s.recv_message_number)
    fail_if (ltb until recv) (ratchet_error (text "message number already consumed"))
    fail_if (ltb max_skip (until - recv)) (ratchet_error (text "too many skipped messages"))
    remote ← gets (λ s. s.remote_ratchet_key)
    remote_pk ← lift (ok_or remote (ratchet_error (text "no remote ratchet key")))
    receiving ← gets (λ s. s.receiving_chain_key)
    first_ck ← lift (ok_or receiving (ratchet_error (text "no receiving chain key")))
    current_ck ← skip_loop (until - recv) remote_pk recv first_ck
    modify (λ s. record s { receiving_chain_key = some current_ck })

module _ (na : Sodium) (kdf : Kdf) where
  unfoldable pub encrypt : Bytes → Bytes → Bytes → Method (MessageHeader × Bytes)
  encrypt nonce plaintext associated_data = do
    sending ← gets (λ s. s.sending_chain_key)
    ck ← lift (ok_or sending (ratchet_error (text "no sending chain key")))
    (new_ck, msg_key) ← lift (kdf_ck kdf ck)
    modify (λ s. record s { sending_chain_key = some new_ck })
    keypair ← gets (λ s. s.sending_keypair)
    (sending_pk, _) ← lift (ok_or keypair (ratchet_error (text "no sending keypair")))
    header ← gets (λ s.
        let h : MessageHeader = record {
          ratchet_public_key = sending_pk;
          previous_chain_length = s.previous_chain_length;
          message_number = s.send_message_number;
        } in
        h)
    modify (λ s. record s { send_message_number = next_u32 s.send_message_number })
    (used_nonce, ciphertext) ←
        lift (AesGcm.encrypt na nonce msg_key plaintext (some associated_data))
    pure (header, used_nonce ++ ciphertext)

  -- `fresh` is the pair that `gen_keypair` draws.
  unfoldable pub dh_ratchet_step : KeyPair → Bytes → Method (Unit {0})
  dh_ratchet_step (new_pk, new_sk) their_new_pk = do
    modify (λ s. record s {
      previous_chain_length = s.send_message_number;
      send_message_number = 0;
      recv_message_number = 0;
      remote_ratchet_key = some their_new_pk;
    })
    keypair ← gets (λ s. s.sending_keypair)
    (_, our_sk) ← lift (ok_or keypair (ratchet_error (text "no sending keypair")))
    dh_recv ← lift (dh_exchange na our_sk their_new_pk)
    old_root ← gets (λ s. s.root_key)
    (recv_root, recv_ck) ← lift (kdf_rk kdf old_root dh_recv)
    modify (λ s. record s { root_key = recv_root; receiving_chain_key = some recv_ck })
    dh_send ← lift (dh_exchange na new_sk their_new_pk)
    (send_root, send_ck) ← lift (kdf_rk kdf recv_root dh_send)
    modify (λ s. record s {
      root_key = send_root;
      sending_chain_key = some send_ck;
      sending_keypair = some (new_pk, new_sk);
    })

  unfoldable pub ratchet_to : KeyPair → MessageHeader → Bytes → Method (Unit {0})
  ratchet_to fresh header their_pk = do
    skip_message_keys_for_current_chain kdf header.previous_chain_length
    dh_ratchet_step fresh their_pk

  -- Steps 2 and 3 of `decrypt`, for a message whose key is not stored.
  unfoldable pub decrypt_on_chain : KeyPair → MessageHeader → Bytes → Bytes → Method Bytes
  decrypt_on_chain fresh header ciphertext associated_data = do
    their_pk ← lift (
        ok_or (na.public_key_from_slice header.ratchet_public_key)
          (ratchet_error (text "invalid ratchet key in header")))
    remote ← gets (λ s. s.remote_ratchet_key)
    if needs_ratchet remote their_pk then ratchet_to fresh header their_pk else pure tt
    skip_message_keys kdf header.message_number
    receiving ← gets (λ s. s.receiving_chain_key)
    ck ← lift (ok_or receiving (ratchet_error (text "no receiving chain key")))
    (new_ck, msg_key) ← lift (kdf_ck kdf ck)
    modify (λ s. record s {
      receiving_chain_key = some new_ck;
      recv_message_number = next_u32 header.message_number;
    })
    lift (decrypt_with_key na msg_key ciphertext associated_data)

  unfoldable pub decrypt : KeyPair → MessageHeader → Bytes → Bytes → Method Bytes
  decrypt fresh header ciphertext associated_data s =
      let id : SkippedId = (header.ratchet_public_key, header.message_number) in
      elim (HashMap.lookup id s.skipped_keys) [
        | some msg_key ↦ (
          decrypt_with_key na msg_key ciphertext associated_data,
          record s { skipped_keys = HashMap.remove id s.skipped_keys },
        )
        | none ↦ decrypt_on_chain fresh header ciphertext associated_data s
      ]
