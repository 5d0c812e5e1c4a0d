-- ===== src/DoubleRatchet/Keypairs.antt =====
-- crates/vaultex-crypto/src/double_ratchet.rs: the key pair and the counter that a call of `decrypt`
-- leaves, on every outcome.
use vaultex.Base.{
  ℕ, zero, suc, ◌+◌, ◌-◌, ◌≤◌, ◌≡◌, ◌⊎◌, inl, inr, refl, some, arith, Bytes, Option-cases,
}
use vaultex.Base.HashMap
use vaultex.Errors.{Either-cases}
use vaultex.Crates.Sodium.{Sodium}
use vaultex.Crates.Kdf.{Kdf}
use vaultex.DoubleRatchet.State.{MessageHeader, RatchetState, KeyPair, skipped_id, Method}
use vaultex.DoubleRatchet.Keys.{kdf_ck}
use vaultex.DoubleRatchet.Session.{
  skip_loop, skip_message_keys, skip_message_keys_for_current_chain, dh_ratchet_step, ratchet_to,
  decrypt_on_chain, decrypt, encrypt,
}

-- A method leaves the sending side as it is.
abbrev Leaves {ℓ} : {A : Type ℓ} → Method A → RatchetState → Type 0
Leaves m s =
    ((m s).1.sending_keypair ≡ s.sending_keypair)
    × ((m s).1.send_message_number ≡ s.send_message_number)

-- A method keeps the key pair or takes the drawn one, and does not raise the counter.
abbrev pub Takes {ℓ} : {A : Type ℓ} → KeyPair → Method A → RatchetState → Type 0
Takes fresh m s =
    (((m s).1.sending_keypair ≡ s.sending_keypair) ⊎ ((m s).1.sending_keypair ≡ some fresh))
    × ((m s).1.send_message_number ≤ s.send_message_number)

module _ (kdf : Kdf) where
  skip_loop-Leaves :
      (count : ℕ) (pk : Bytes) (n : ℕ) (ck : Bytes) (s : RatchetState)
      → Leaves (skip_loop kdf count pk n ck) s
  unfolding skip_loop
  skip_loop-Leaves zero pk n ck s = (refl, refl)
  skip_loop-Leaves (suc count) pk n ck s = elim (Either-cases (kdf_ck kdf ck)) [
    | inr (e, failed) ↦ ground arith
    | inl ((ck', mk), done) ↦
        let t = record s { skipped_keys = HashMap.insert (pk, n) mk s.skipped_keys } in
        ground (arith, skip_loop-Leaves count pk (suc n) ck' t)
  ]

  skip_message_keys-Leaves : (until : ℕ) (s : RatchetState) → Leaves (skip_message_keys kdf until) s
  unfolding skip_message_keys
  skip_message_keys-Leaves until s = elim (Option-cases s.remote_ratchet_key) [
    | inl absent ↦ ground arith
    | inr (pk, e) ↦ elim (Option-cases s.receiving_chain_key) [
      | inl absent ↦ ground arith
      | inr (ck, e') ↦
          ground
            (arith, skip_loop-Leaves (until - s.recv_message_number) pk s.recv_message_number ck s)
    ]
  ]

  skip_for_current_chain-Leaves :
      (until : ℕ) (s : RatchetState) → Leaves (skip_message_keys_for_current_chain kdf until) s
  unfolding skip_message_keys_for_current_chain
  skip_for_current_chain-Leaves until s = elim (Option-cases s.receiving_chain_key) [
    | inl absent ↦ ground arith
    | inr (ck, e) ↦ elim (Option-cases s.remote_ratchet_key) [
      | inl absent ↦ ground arith
      | inr (pk, e') ↦
          ground
            (arith, skip_loop-Leaves (until - s.recv_message_number) pk s.recv_message_number ck s)
    ]
  ]

module _ (na : Sodium) (kdf : Kdf) where
  dh_ratchet_step-Takes :
      (fresh : KeyPair) (their_pk : Bytes) (s : RatchetState)
      → Takes fresh (dh_ratchet_step na kdf fresh their_pk) s
  unfolding dh_ratchet_step
  dh_ratchet_step-Takes fresh their_pk s = ground arith

  ratchet_to-Takes :
      (fresh : KeyPair) (header : MessageHeader) (their_pk : Bytes) (s : RatchetState)
      → Takes fresh (ratchet_to na kdf fresh header their_pk) s
  unfolding ratchet_to
  ratchet_to-Takes fresh header their_pk s =
      let skip = skip_message_keys_for_current_chain kdf header.previous_chain_length in
      ground (
        arith,
        skip_for_current_chain-Leaves kdf header.previous_chain_length s,
        dh_ratchet_step-Takes fresh their_pk (skip s).1,
      )

  decrypt_on_chain-Takes :
      (fresh : KeyPair) (header : MessageHeader) (ct ad : Bytes) (s : RatchetState)
      → Takes fresh (decrypt_on_chain na kdf fresh header ct ad) s
  unfolding decrypt_on_chain
  decrypt_on_chain-Takes fresh header ct ad s =
      elim (Option-cases (na.public_key_from_slice header.ratchet_public_key)) [
        | inl absent ↦ ground arith
        | inr (their_pk, e) ↦
            let t = (ratchet_to na kdf fresh header their_pk s).1 in
            ground (
              arith,
              ratchet_to-Takes fresh header their_pk s,
              skip_message_keys-Leaves kdf header.message_number t,
              skip_message_keys-Leaves kdf header.message_number s,
            )
      ]

  pub decrypt-Takes :
      (fresh : KeyPair) (header : MessageHeader) (ct ad : Bytes) (s : RatchetState)
      → Takes fresh (decrypt na kdf fresh header ct ad) s
  unfolding decrypt
  decrypt-Takes fresh header ct ad s = ground (arith, decrypt_on_chain-Takes fresh header ct ad s)

  pub encrypt-Leaves :
      (nonce plaintext ad : Bytes) (s : RatchetState)
      → ((encrypt na kdf nonce plaintext ad s).1.sending_keypair ≡ s.sending_keypair)
        × ((encrypt na kdf nonce plaintext ad s).1.send_message_number ≤ s.send_message_number + 1)
  unfolding encrypt
  encrypt-Leaves nonce plaintext ad s = ground arith
