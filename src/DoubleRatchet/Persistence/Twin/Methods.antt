-- ===== src/DoubleRatchet/Persistence/Twin/Methods.antt =====
-- crates/vaultex-crypto/src/double_ratchet.rs: `encrypt` and `decrypt` do not depend on the order of the
-- stored keys.
use mathlib.Core.Path.{subst}
use vaultex.Base.{ℕ, zero, suc, ◌-◌, ◌≡◌, none, some, Bytes, Option, ltb, if◌then◌else◌, text}
use vaultex.Base.HashMap
use vaultex.Errors.{ok, err, ratchet_error}
use vaultex.Crates.Sodium.{Sodium}
use vaultex.Crates.Kdf.{Kdf}
use vaultex.DoubleRatchet.State.{
  max_skip, MessageHeader, RatchetState, KeyPair, SkippedId, skipped_id, Method, ◌>>=◌, lift,
  modify, pure,
}
use vaultex.DoubleRatchet.Keys.{kdf_ck}
use vaultex.DoubleRatchet.Session.{
  skip_loop, skip_message_keys, skip_message_keys_for_current_chain, dh_ratchet_step, ratchet_to,
  decrypt_on_chain, decrypt, encrypt, decrypt_with_key,
}
use vaultex.DoubleRatchet.Persistence.Twin.{
  Twin, Agree, Agree-lift, Agree-pure, Agree-bind, Agree-insert, Agree-cond, Agree-remove,
  agree_rules,
}

module _ (kdf : Kdf) where
  Agree-skip_loop :
      (count : ℕ) (pk : Bytes) (n : ℕ) (ck : Bytes) → Agree (skip_loop kdf count pk n ck)
  unfolding skip_loop
  Agree-skip_loop zero pk n ck = Agree-pure ck
  Agree-skip_loop (suc count) pk n ck =
      Agree-bind (lift (kdf_ck kdf ck)) _ (Agree-lift _) λ (ck', mk).
        Agree-bind (modify _) _ (Agree-insert (pk, n) mk) λ _. Agree-skip_loop count pk (suc n) ck'

  Agree-skip_message_keys : (until : ℕ) → Agree (skip_message_keys kdf until)
  unfolding skip_message_keys
  Agree-skip_message_keys until = search (agree_rules, Agree-skip_loop) depth 20

  -- `skip_message_keys_for_current_chain` for given fields.
  abbrev current : ℕ → ℕ → Option Bytes → Option Bytes → Method (Unit {0})
  current until recv receiving remote s = elim receiving [
    | none ↦ (ok tt, s)
    | some ck ↦ elim remote [
      | none ↦ (ok tt, s)
      | some pk ↦
          if ltb until recv
          then (ok tt, s)
          else if ltb max_skip (until - recv)
          then (err (ratchet_error (text "too many skipped messages")), s)
          else (do
            current_ck ← skip_loop kdf (until - recv) pk recv ck
            modify (λ t. record t {
              receiving_chain_key = some current_ck;
              recv_message_number = until;
            }))
              s
    ]
  ]

  Agree-advance :
      (until recv : ℕ) (pk ck : Bytes)
      → Agree (do
        current_ck ← skip_loop kdf (until - recv) pk recv ck
        modify
            (λ t. record t { receiving_chain_key = some current_ck; recv_message_number = until }))
  Agree-advance until recv pk ck = search (agree_rules, Agree-skip_loop)

  Agree-current :
      (until recv : ℕ) (receiving remote : Option Bytes)
      → Agree (current until recv receiving remote)
  Agree-current until recv none remote = Agree-pure tt
  Agree-current until recv (some ck) none = Agree-pure tt
  Agree-current until recv (some ck) (some pk) =
      Agree-cond (ltb until recv) (pure tt) _ (Agree-pure tt) (
        Agree-cond (ltb max_skip (until - recv)) (lift (err _)) _ (Agree-lift _)
          (Agree-advance until recv pk ck))

  Agree-skip_for_current_chain : (until : ℕ) → Agree (skip_message_keys_for_current_chain kdf until)
  unfolding skip_message_keys_for_current_chain
  Agree-skip_for_current_chain until = record {
    at = λ s t w.
        let body : RatchetState → Method (Unit {0}) =
          λ u. current until u.recv_message_number u.receiving_chain_key u.remote_ratchet_key in
        subst (λ u. ((body s s).0 ≡ (body u t).0) × Twin (body s s).1 (body u t).1) w.rest
          ((Agree-current until s.recv_message_number s.receiving_chain_key s.remote_ratchet_key).at
            s t w);
  }

module _ (na : Sodium) (kdf : Kdf) where
  Agree-dh_ratchet_step :
      (fresh : KeyPair) (their_pk : Bytes) → Agree (dh_ratchet_step na kdf fresh their_pk)
  unfolding dh_ratchet_step
  Agree-dh_ratchet_step fresh their_pk = search agree_rules depth 30

  Agree-ratchet_to :
      (fresh : KeyPair) (header : MessageHeader) (their_pk : Bytes)
      → Agree (ratchet_to na kdf fresh header their_pk)
  unfolding ratchet_to
  Agree-ratchet_to fresh header their_pk =
      search (agree_rules, Agree-skip_for_current_chain, Agree-dh_ratchet_step)

  Agree-decrypt_on_chain :
      (fresh : KeyPair) (header : MessageHeader) (ct ad : Bytes)
      → Agree (decrypt_on_chain na kdf fresh header ct ad)
  unfolding decrypt_on_chain
  Agree-decrypt_on_chain fresh header ct ad =
      search (agree_rules, Agree-skip_message_keys, Agree-ratchet_to) depth 30

  pub Agree-encrypt : (nonce plaintext ad : Bytes) → Agree (encrypt na kdf nonce plaintext ad)
  unfolding encrypt
  Agree-encrypt nonce plaintext ad = search agree_rules depth 30

  -- `decrypt` for a given entry of the stored keys.
  abbrev opened_by : KeyPair → MessageHeader → Bytes → Bytes → Option Bytes → Method Bytes
  opened_by fresh header ct ad entry s =
      let id : SkippedId = (header.ratchet_public_key, header.message_number) in
      elim entry [
        | some msg_key ↦ (
          decrypt_with_key na msg_key ct ad,
          record s { skipped_keys = HashMap.remove id s.skipped_keys },
        )
        | none ↦ decrypt_on_chain na kdf fresh header ct ad s
      ]

  Agree-opened_by :
      (fresh : KeyPair) (header : MessageHeader) (ct ad : Bytes) (entry : Option Bytes)
      → Agree (opened_by fresh header ct ad entry)
  Agree-opened_by fresh header ct ad none = Agree-decrypt_on_chain fresh header ct ad
  Agree-opened_by fresh header ct ad (some key) =
      Agree-remove (header.ratchet_public_key, header.message_number)
        (decrypt_with_key na key ct ad)

  pub Agree-decrypt :
      (fresh : KeyPair) (header : MessageHeader) (ct ad : Bytes)
      → Agree (decrypt na kdf fresh header ct ad)
  unfolding decrypt
  Agree-decrypt fresh header ct ad = record {
    at = λ s t w.
        let id : SkippedId = (header.ratchet_public_key, header.message_number) in
        let body = opened_by fresh header ct ad in
        let entry = HashMap.lookup id s.skipped_keys in
        subst (λ o. ((body entry s).0 ≡ (body o t).0) × Twin (body entry s).1 (body o t).1)
          (w.keys id) ((Agree-opened_by fresh header ct ad entry).at s t w);
  }
