-- ===== src/DoubleRatchet/Adoption.antt =====
-- crates/vaultex-crypto/src/double_ratchet.rs: what a header with a new ratchet key does to a session.
mod Tests
use vaultex.Base.{
  ℕ, zero, suc, ◌-◌, ◌≤◌, ◌≡◌, refl, sym, ◌∙◌, ap, inl, inr, arith, true, none, some, Bytes, length,
  Option-cases,
}
use vaultex.Base.HashMap
use vaultex.Errors.{ok, Either-cases}
use vaultex.Crates.Sodium.{Sodium, CurveLaws}
use vaultex.Crates.Kdf.{Kdf}
use vaultex.DoubleRatchet.State.{MessageHeader, RatchetState, KeyPair, skipped_id, Method}
use vaultex.DoubleRatchet.Keys.{kdf_ck}
use vaultex.DoubleRatchet.Session.{
  skip_loop, skip_message_keys, skip_message_keys_for_current_chain, dh_ratchet_step, ratchet_to,
  needs_ratchet, decrypt_on_chain, decrypt,
}

-- A method leaves the peer's ratchet key, on every outcome.
abbrev pub KeepsRemote {ℓ} : {A : Type ℓ} → Method A → RatchetState → Type 0
KeepsRemote m s = (m s).1.remote_ratchet_key ≡ s.remote_ratchet_key

module _ (kdf : Kdf) where
  skip_loop-KeepsRemote :
      (count : ℕ) (pk : Bytes) (n : ℕ) (ck : Bytes) (s : RatchetState)
      → KeepsRemote (skip_loop kdf count pk n ck) s
  unfolding skip_loop
  skip_loop-KeepsRemote zero pk n ck s = refl
  skip_loop-KeepsRemote (suc count) pk n ck s = elim (Either-cases (kdf_ck kdf ck)) [
    | inr (e, failed) ↦ ground arith
    | inl ((ck', mk), done) ↦
        let t = record s { skipped_keys = HashMap.insert (pk, n) mk s.skipped_keys } in
        ground (arith, skip_loop-KeepsRemote count pk (suc n) ck' t)
  ]

  skip_message_keys-KeepsRemote :
      (until : ℕ) (s : RatchetState) → KeepsRemote (skip_message_keys kdf until) s
  unfolding skip_message_keys
  skip_message_keys-KeepsRemote until s = elim (Option-cases s.remote_ratchet_key) [
    | inl absent ↦ ground arith
    | inr (pk, e) ↦ elim (Option-cases s.receiving_chain_key) [
      | inl absent ↦ ground arith
      | inr (ck, e') ↦ ground (
        arith,
        skip_loop-KeepsRemote (until - s.recv_message_number) pk s.recv_message_number ck s,
      )
    ]
  ]

  skip_loop_none :
      (count : ℕ) (pk : Bytes) (n : ℕ) (ck : Bytes) (s : RatchetState)
      → count ≡ 0
      → skip_loop kdf count pk n ck s ≡ (ok ck, s)
  unfolding skip_loop
  skip_loop_none zero pk n ck s h = refl
  skip_loop_none (suc count) pk n ck s h = absurd (omega arith)

  -- Where the announced end of the chain is not ahead, the step before a ratchet succeeds.
  skip_for_current_chain_ok :
      (until : ℕ) (s : RatchetState)
      → until ≤ s.recv_message_number
      → (skip_message_keys_for_current_chain kdf until s).0 ≡ ok tt
  unfolding skip_message_keys_for_current_chain
  skip_for_current_chain_ok until s h = elim (Option-cases s.receiving_chain_key) [
    | inl absent ↦ ground arith
    | inr (ck, e) ↦ elim (Option-cases s.remote_ratchet_key) [
      | inl absent ↦ ground arith
      | inr (pk, e') ↦ ground (
        arith,
        skip_loop_none (until - s.recv_message_number) pk s.recv_message_number ck s (omega arith),
      )
    ]
  ]

module _ (na : Sodium) (kdf : Kdf) where
  dh_ratchet_step_adopts :
      (fresh : KeyPair) (pk : Bytes) (s : RatchetState)
      → (dh_ratchet_step na kdf fresh pk s).1.remote_ratchet_key ≡ some pk
  unfolding dh_ratchet_step
  dh_ratchet_step_adopts fresh pk s = ground arith

  ratchet_to_adopts :
      (fresh : KeyPair) (header : MessageHeader) (pk : Bytes) (s : RatchetState)
      → header.previous_chain_length ≤ s.recv_message_number
      → (ratchet_to na kdf fresh header pk s).1.remote_ratchet_key ≡ some pk
  unfolding ratchet_to
  ratchet_to_adopts fresh header pk s h =
      let skip = skip_message_keys_for_current_chain kdf header.previous_chain_length in
      ground (
        arith,
        skip_for_current_chain_ok kdf header.previous_chain_length s h,
        dh_ratchet_step_adopts fresh pk (skip s).1,
      )

  -- A header with a ratchet key that is not the peer's, whose chain length is not ahead and whose message
  -- key is not stored, makes its key the peer's key, with any text and on every outcome: also where the
  -- text does not authenticate.
  pub decrypt_adopts :
      (curve : CurveLaws na) (fresh : KeyPair) (header : MessageHeader) (forged ad : Bytes)
      (s : RatchetState)
      → length header.ratchet_public_key ≡ 32
      → needs_ratchet s.remote_ratchet_key header.ratchet_public_key ≡ true
      → header.previous_chain_length ≤ s.recv_message_number
      → HashMap.lookup (header.ratchet_public_key, header.message_number) s.skipped_keys ≡ none
      → (decrypt na kdf fresh header forged ad s).1.remote_ratchet_key
        ≡ some header.ratchet_public_key
  unfolding decrypt decrypt_on_chain
  decrypt_adopts curve fresh header forged ad s sized new behind unseen =
      let pk = header.ratchet_public_key in
      let t = (ratchet_to na kdf fresh header pk s).1 in
      ground (
        arith,
        unseen,
        curve.public_length.fits pk sized,
        new,
        ratchet_to_adopts fresh header pk s behind,
        skip_message_keys-KeepsRemote kdf header.message_number t,
      )
