-- ===== src/DoubleRatchet/Persistence/Fit.antt =====
-- crates/vaultex-crypto/src/double_ratchet.rs: every method keeps what `to_bytes` needs of a session, also
-- where it fails.
use vaultex.Base.{
  length, ==_iff, ◌==◌, Option, some-eq, ℕ, zero, suc, ◌-◌, ◌≡◌, sym, ap, ◌∙◌, inl, inr, arith,
  none, some, [], ◌∷◌, Bool-cases, Bytes, Option-cases,
}
use vaultex.Base.HashMap.{HashMap, lookup, remove, insert, lookup-remove_self, lookup-remove_ne}
use vaultex.Errors.{Either-cases}
use vaultex.Crates.Sodium.{Sodium, CurveLaws}
use vaultex.Crates.Kdf.{Kdf}
use vaultex.DoubleRatchet.State.{
  MessageHeader, RatchetState, KeyPair, SkippedId, skipped_id, skipped_id_eq, skipped_id_eq_iff,
  Method,
}
use vaultex.DoubleRatchet.Session.{
  skip_loop, skip_message_keys, skip_message_keys_for_current_chain, dh_ratchet_step, ratchet_to,
  decrypt_on_chain, decrypt, encrypt,
}
use vaultex.DoubleRatchet.Persistence.{Distinct, IsSized}
use vaultex.DoubleRatchet.Keys.{kdf_ck}

-- Taking an identifier out adds none.
lookup-remove-none :
    (j k : SkippedId) (m : HashMap SkippedId Bytes)
    → lookup j m ≡ none
    → lookup j (remove k m) ≡ none
lookup-remove-none j k m h = elim (Bool-cases (skipped_id_eq j k)) [
  | inl same ↦
      ap (λ i. lookup i (remove k m)) ((skipped_id_eq_iff j k).0 same) ∙ lookup-remove_self k m
  | inr other ↦ lookup-remove_ne j k m other ∙ h
]

pub Distinct-remove :
    (k : SkippedId) (m : HashMap SkippedId Bytes) → Distinct m → Distinct (remove k m)
unfolding remove
Distinct-remove k [] d = tt
Distinct-remove k ((j, v) ∷ m) (once, d) = elim (Bool-cases (skipped_id_eq k j)) [
  | inl same ↦ rw same (Distinct-remove k m d)
  | inr other ↦ rw other (lookup-remove-none j k m once, Distinct-remove k m d)
]

pub Distinct-insert :
    (k : SkippedId) (v : Bytes) (m : HashMap SkippedId Bytes) → Distinct m → Distinct (insert k v m)
unfolding insert
Distinct-insert k v m d = (lookup-remove_self k m, Distinct-remove k m d)

-- What `to_bytes` needs of a session.
abbrev pub Fit : RatchetState → Type 0
Fit s = Distinct s.skipped_keys × IsSized s.sending_keypair s.remote_ratchet_key

-- A method keeps a session fit, on every outcome.
abbrev pub Keeps {ℓ} : {A : Type ℓ} → Method A → RatchetState → Type 0
Keeps m s = Fit s → Fit (m s).1

pub IsSized-remote :
    (o : Option KeyPair) (r : Option Bytes) (pk : Bytes)
    → IsSized o r
    → length pk ≡ 32
    → IsSized o (some pk)
IsSized-remote o r pk (pair, remote) sized = (pair, λ b e. ap length (sym (some-eq e)) ∙ sized)

pub IsSized-pair :
    (k : KeyPair) (r : Option Bytes)
    → length k.0 ≡ 32
    → length k.1 ≡ 32
    → ((b : Bytes) → r ≡ some b → length b ≡ 32)
    → IsSized (some k) r
IsSized-pair k r public secret remote = (
  λ j e.
      let same : k ≡ j = some-eq e in
      (
        ap (λ (p : KeyPair). length p.0) (sym same) ∙ public,
        ap (λ (p : KeyPair). length p.1) (sym same) ∙ secret,
      ),
  remote,
)

module _ (kdf : Kdf) where
  skip_loop-Keeps :
      (count : ℕ) (pk : Bytes) (n : ℕ) (ck : Bytes) (s : RatchetState)
      → Keeps (skip_loop kdf count pk n ck) s
  unfolding skip_loop
  skip_loop-Keeps zero pk n ck s d = d
  skip_loop-Keeps (suc count) pk n ck s d = elim (Either-cases (kdf_ck kdf ck)) [
    | inr (e, failed) ↦ rw failed d
    | inl ((ck', mk), done) ↦
        let t = record s { skipped_keys = insert (pk, n) mk s.skipped_keys } in
        rw done (
          skip_loop-Keeps count pk (suc n) ck' t
            (Distinct-insert (pk, n) mk s.skipped_keys d.0, d.1))
  ]

  skip_message_keys-Keeps : (until : ℕ) (s : RatchetState) → Keeps (skip_message_keys kdf until) s
  unfolding skip_message_keys
  skip_message_keys-Keeps until s d = elim (Option-cases s.remote_ratchet_key) [
    | inl absent ↦ ground arith
    | inr (pk, e) ↦ elim (Option-cases s.receiving_chain_key) [
      | inl absent ↦ ground arith
      | inr (ck, e') ↦
          ground
            (arith, skip_loop-Keeps (until - s.recv_message_number) pk s.recv_message_number ck s)
    ]
  ]

  skip_for_current_chain-Keeps :
      (until : ℕ) (s : RatchetState) → Keeps (skip_message_keys_for_current_chain kdf until) s
  unfolding skip_message_keys_for_current_chain
  skip_for_current_chain-Keeps until s d = elim (Option-cases s.receiving_chain_key) [
    | inl absent ↦ ground arith
    | inr (ck, e) ↦ elim (Option-cases s.remote_ratchet_key) [
      | inl absent ↦ ground arith
      | inr (pk, e') ↦
          ground
            (arith, skip_loop-Keeps (until - s.recv_message_number) pk s.recv_message_number ck s)
    ]
  ]

module _ (na : Sodium) (kdf : Kdf) where
  dh_ratchet_step-Keeps :
      (fresh : KeyPair) (their_pk : Bytes) (s : RatchetState)
      → length fresh.0 ≡ 32
      → length fresh.1 ≡ 32
      → length their_pk ≡ 32
      → Keeps (dh_ratchet_step na kdf fresh their_pk) s
  unfolding dh_ratchet_step
  dh_ratchet_step-Keeps fresh their_pk s public secret sized (d, fit) =
      let heard = IsSized-remote s.sending_keypair s.remote_ratchet_key their_pk fit sized in
      let renewed = IsSized-pair fresh (some their_pk) public secret heard.1 in
      ground (arith, d, heard, renewed)

  -- `from_slice` accepts 32 bytes, and gives them back.
  read_size :
      (curve : CurveLaws na) (b pk : Bytes) → na.public_key_from_slice b ≡ some pk → length pk ≡ 32
  read_size curve b pk e = elim (Bool-cases (length b == 32)) [
    | inl fits ↦
        let sized : length b ≡ 32 = (==_iff (length b) 32).0 fits in
        ap length (some-eq (sym e ∙ curve.public_length.fits b sized)) ∙ sized
    | inr other ↦
        absurd (
          ground (arith, e, curve.public_length.misfits b (λ q. absurd (ground (arith, other, q)))))
  ]

  ratchet_to-Keeps :
      (fresh : KeyPair) (header : MessageHeader) (their_pk : Bytes) (s : RatchetState)
      → length fresh.0 ≡ 32
      → length fresh.1 ≡ 32
      → length their_pk ≡ 32
      → Keeps (ratchet_to na kdf fresh header their_pk) s
  unfolding ratchet_to
  ratchet_to-Keeps fresh header their_pk s public secret sized d =
      let skip = skip_message_keys_for_current_chain kdf header.previous_chain_length in
      let kept = skip_for_current_chain-Keeps kdf header.previous_chain_length s d in
      let stepped = dh_ratchet_step-Keeps fresh their_pk (skip s).1 public secret sized kept in
      ground (arith, kept, stepped)

  decrypt_on_chain-Keeps :
      (curve : CurveLaws na) (fresh : KeyPair) (header : MessageHeader) (ct ad : Bytes)
      (s : RatchetState)
      → length fresh.0 ≡ 32
      → length fresh.1 ≡ 32
      → Keeps (decrypt_on_chain na kdf fresh header ct ad) s
  unfolding decrypt_on_chain
  decrypt_on_chain-Keeps curve fresh header ct ad s public secret d =
      elim (Option-cases (na.public_key_from_slice header.ratchet_public_key)) [
        | inl absent ↦ ground arith
        | inr (their_pk, e) ↦
            let sized = read_size curve header.ratchet_public_key their_pk e in
            let t = (ratchet_to na kdf fresh header their_pk s).1 in
            let ratcheted = ratchet_to-Keeps fresh header their_pk s public secret sized d in
            ground (
              arith,
              ratcheted,
              skip_message_keys-Keeps kdf header.message_number t ratcheted,
              skip_message_keys-Keeps kdf header.message_number s d,
            )
      ]

  pub decrypt-Keeps :
      (curve : CurveLaws na) (fresh : KeyPair) (header : MessageHeader) (ct ad : Bytes)
      (s : RatchetState)
      → length fresh.0 ≡ 32
      → length fresh.1 ≡ 32
      → Keeps (decrypt na kdf fresh header ct ad) s
  unfolding decrypt
  decrypt-Keeps curve fresh header ct ad s public secret d =
      let id : SkippedId = (header.ratchet_public_key, header.message_number) in
      ground (
        arith,
        decrypt_on_chain-Keeps curve fresh header ct ad s public secret d,
        Distinct-remove id s.skipped_keys d.0,
      )

  pub encrypt-Keeps :
      (nonce plaintext ad : Bytes) (s : RatchetState) → Keeps (encrypt na kdf nonce plaintext ad) s
  unfolding encrypt
  encrypt-Keeps nonce plaintext ad s d = ground arith
