-- ===== src/DoubleRatchet/Storage.antt =====
-- crates/vaultex-crypto/src/double_ratchet.rs: how many skipped keys one call adds.
use vaultex.Base.{ℕ, zero, suc, ◌+◌, ◌-◌, ◌*◌, ◌≤◌, inl, inr, arith, Bytes, length, Option-cases}
use vaultex.Base.HashMap
use vaultex.Errors.{Either-cases}
use vaultex.Crates.Sodium.{Sodium}
use vaultex.Crates.Kdf.{Kdf}
use vaultex.DoubleRatchet.State.{max_skip, MessageHeader, RatchetState, KeyPair, skipped_id, Method}
use vaultex.DoubleRatchet.Keys.{kdf_ck}
use vaultex.DoubleRatchet.Session.{
  skip_loop, skip_message_keys, skip_message_keys_for_current_chain, dh_ratchet_step, ratchet_to,
  decrypt_on_chain, decrypt,
}

-- A method adds at most n keys, on every outcome.
abbrev pub Adds {ℓ} : {A : Type ℓ} → ℕ → Method A → RatchetState → Type 0
Adds n m s = length (m s).1.skipped_keys ≤ length s.skipped_keys + n

module _ (kdf : Kdf) where
  skip_loop-Adds :
      (count : ℕ) (pk : Bytes) (n : ℕ) (ck : Bytes) (s : RatchetState)
      → Adds count (skip_loop kdf count pk n ck) s
  unfolding skip_loop
  skip_loop-Adds zero pk n ck s = omega arith
  skip_loop-Adds (suc count) pk n ck s = elim (Either-cases (kdf_ck kdf ck)) [
    | inr (e, failed) ↦ ground arith
    | inl ((ck', mk), done) ↦
        let t = record s { skipped_keys = HashMap.insert (pk, n) mk s.skipped_keys } in
        ground (
          arith,
          HashMap.length-insert (pk, n) mk s.skipped_keys,
          skip_loop-Adds count pk (suc n) ck' t,
        )
  ]

  skip_message_keys-Adds :
      (until : ℕ) (s : RatchetState) → Adds max_skip (skip_message_keys kdf until) s
  unfolding skip_message_keys
  skip_message_keys-Adds until s = elim (Option-cases s.remote_ratchet_key) [
    | inl absent ↦ ground arith
    | inr (pk, e) ↦ elim (Option-cases s.receiving_chain_key) [
      | inl absent ↦ ground arith
      | inr (ck, e') ↦
          ground
            (arith, skip_loop-Adds (until - s.recv_message_number) pk s.recv_message_number ck s)
    ]
  ]

  skip_for_current_chain-Adds :
      (until : ℕ) (s : RatchetState)
      → Adds max_skip (skip_message_keys_for_current_chain kdf until) s
  unfolding skip_message_keys_for_current_chain
  skip_for_current_chain-Adds until s = elim (Option-cases s.receiving_chain_key) [
    | inl absent ↦ ground arith
    | inr (ck, e) ↦ elim (Option-cases s.remote_ratchet_key) [
      | inl absent ↦ ground arith
      | inr (pk, e') ↦
          ground
            (arith, skip_loop-Adds (until - s.recv_message_number) pk s.recv_message_number ck s)
    ]
  ]

module _ (na : Sodium) (kdf : Kdf) where
  dh_ratchet_step-Adds :
      (fresh : KeyPair) (their_pk : Bytes) (s : RatchetState)
      → Adds 0 (dh_ratchet_step na kdf fresh their_pk) s
  unfolding dh_ratchet_step
  dh_ratchet_step-Adds fresh their_pk s = ground arith

  ratchet_to-Adds :
      (fresh : KeyPair) (header : MessageHeader) (their_pk : Bytes) (s : RatchetState)
      → Adds max_skip (ratchet_to na kdf fresh header their_pk) s
  unfolding ratchet_to
  ratchet_to-Adds fresh header their_pk s =
      let skip = skip_message_keys_for_current_chain kdf header.previous_chain_length in
      ground (
        arith,
        skip_for_current_chain-Adds kdf header.previous_chain_length s,
        dh_ratchet_step-Adds fresh their_pk (skip s).1,
      )

  decrypt_on_chain-Adds :
      (fresh : KeyPair) (header : MessageHeader) (ct ad : Bytes) (s : RatchetState)
      → Adds (2 * max_skip) (decrypt_on_chain na kdf fresh header ct ad) s
  unfolding decrypt_on_chain
  decrypt_on_chain-Adds fresh header ct ad s =
      elim (Option-cases (na.public_key_from_slice header.ratchet_public_key)) [
        | inl absent ↦ ground arith
        | inr (their_pk, e) ↦
            let t = (ratchet_to na kdf fresh header their_pk s).1 in
            ground (
              arith,
              ratchet_to-Adds fresh header their_pk s,
              skip_message_keys-Adds kdf header.message_number t,
              skip_message_keys-Adds kdf header.message_number s,
            )
      ]

  -- One call of `decrypt` stores at most 2000 message keys more than there were, in any state, for
  -- any header and text, whether it succeeds or fails.
  pub decrypt-Adds :
      (fresh : KeyPair) (header : MessageHeader) (ct ad : Bytes) (s : RatchetState)
      → length (decrypt na kdf fresh header ct ad s).1.skipped_keys
        ≤ length s.skipped_keys + 2 * max_skip
  unfolding decrypt
  decrypt-Adds fresh header ct ad s = ground (
    arith,
    HashMap.length-remove (header.ratchet_public_key, header.message_number) s.skipped_keys,
    decrypt_on_chain-Adds fresh header ct ad s,
  )
