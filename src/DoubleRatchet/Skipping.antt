-- ===== src/DoubleRatchet/Skipping.antt =====
-- What the skipping methods of crates/vaultex-crypto/src/double_ratchet.rs store, and what they
-- leave alone.
use vaultex.Base.{
  ℕ, zero, suc, ◌+◌, ◌-◌, ◌≤◌, ◌<◌, ◌≡◌, ◌≢◌, refl, ◌∙◌, ap, inl, inr, none, some, false, arith,
  Bytes, text, length, Option-cases,
}
use vaultex.Base.HashMap
use vaultex.Base.HashMap.{HashMap}
use vaultex.Errors.{ok, err, ratchet_error}
use vaultex.Crates.Kdf.{Kdf, KdfLaws}
use vaultex.DoubleRatchet.State.{
  max_skip, RatchetState, SkippedId, skipped_id, skipped_id_eq, skipped_id_eq_iff,
}
use vaultex.DoubleRatchet.Keys.{next_chain_key, message_key, chain_key_after, kdf_ck_lem}
use vaultex.DoubleRatchet.Session.{
  skip_loop, skip_message_keys, skip_message_keys_for_current_chain,
}

skipped_id_ne : (a b : SkippedId) → a ≢ b → skipped_id_eq a b ≡ false
skipped_id_ne a b h = ground (arith, (skipped_id_eq_iff a b).0)

pub number_ne :
    (pk : Bytes) (i j : ℕ) (pk' : Bytes) → i ≢ j → skipped_id_eq (pk, i) (pk', j) ≡ false
number_ne pk i j pk' h = ground arith

module _ (kdf : Kdf) (laws : KdfLaws kdf) where
  -- The map after the keys of `count` messages from number n on, with chain key ck, were stored.
  pub stored : ℕ → Bytes → ℕ → Bytes → HashMap SkippedId Bytes → HashMap SkippedId Bytes
  stored zero pk n ck m = m
  stored (suc count) pk n ck m =
      stored count pk (suc n) (next_chain_key kdf laws ck)
        (HashMap.insert (pk, n) (message_key kdf laws ck) m)

  pub skip_loop_lem :
      (count : ℕ) (pk : Bytes) (n : ℕ) (ck : Bytes) (s : RatchetState)
      → skip_loop kdf count pk n ck s ≡ (
        ok (chain_key_after kdf laws count ck),
        record s { skipped_keys = stored count pk n ck s.skipped_keys },
      )
  unfolding skip_loop stored chain_key_after
  skip_loop_lem zero pk n ck s = refl
  skip_loop_lem (suc count) pk n ck s =
      rw (kdf_ck_lem kdf laws ck) (skip_loop_lem count pk (suc n) (next_chain_key kdf laws ck) _)

  pub lookup-stored_before :
      (count : ℕ) (pk : Bytes) (n : ℕ) (ck : Bytes) (m : HashMap SkippedId Bytes) (pk' : Bytes)
      (j : ℕ)
      → j < n
      → HashMap.lookup (pk', j) (stored count pk n ck m) ≡ HashMap.lookup (pk', j) m
  unfolding stored
  lookup-stored_before zero pk n ck m pk' j h = refl
  lookup-stored_before (suc count) pk n ck m pk' j h =
      lookup-stored_before count pk (suc n) _ _ pk' j (omega arith)
      ∙ HashMap.lookup-insert_ne (pk', j) (pk, n) _ m (number_ne pk' j n pk (omega arith))

  -- Exactly the keys of the messages in between are stored, each the key of its message.
  pub lookup-stored :
      (count : ℕ) (pk : Bytes) (n : ℕ) (ck : Bytes) (m : HashMap SkippedId Bytes) (i : ℕ)
      → i < count
      → HashMap.lookup (pk, n + i) (stored count pk n ck m)
        ≡ some (message_key kdf laws (chain_key_after kdf laws i ck))
  unfolding stored chain_key_after
  lookup-stored zero pk n ck m i h = elim h [ ]
  lookup-stored (suc count) pk n ck m zero h =
      let at : n + 0 ≡ n = omega arith in
      rw (at, lookup-stored_before count pk (suc n) _ _ pk n (omega arith))
        (HashMap.lookup-insert_self (pk, n) _ m)
  lookup-stored (suc count) pk n ck m (suc i) h =
      let at : n + suc i ≡ suc n + i = omega arith in
      rw at (lookup-stored count pk (suc n) _ _ i (omega arith))

  pub lookup-stored_after :
      (count : ℕ) (pk : Bytes) (n : ℕ) (ck : Bytes) (m : HashMap SkippedId Bytes) (pk' : Bytes)
      (j : ℕ)
      → n + count ≤ j
      → HashMap.lookup (pk', j) (stored count pk n ck m) ≡ HashMap.lookup (pk', j) m
  unfolding stored
  lookup-stored_after zero pk n ck m pk' j h = refl
  lookup-stored_after (suc count) pk n ck m pk' j h =
      lookup-stored_after count pk (suc n) _ _ pk' j (omega arith)
      ∙ HashMap.lookup-insert_ne (pk', j) (pk, n) _ m (number_ne pk' j n pk (omega arith))

  pub lookup-stored_other :
      (count : ℕ) (pk : Bytes) (n : ℕ) (ck : Bytes) (m : HashMap SkippedId Bytes) (pk' : Bytes)
      (j : ℕ)
      → pk' ≢ pk
      → HashMap.lookup (pk', j) (stored count pk n ck m) ≡ HashMap.lookup (pk', j) m
  unfolding stored
  lookup-stored_other zero pk n ck m pk' j h = refl
  lookup-stored_other (suc count) pk n ck m pk' j h =
      lookup-stored_other count pk (suc n) _ _ pk' j h
      ∙ HashMap.lookup-insert_ne (pk', j) (pk, n) _ m
          (skipped_id_ne (pk', j) (pk, n) (λ e. h (ap (λ (p : SkippedId). p.0) e)))

  pub length-stored :
      (count : ℕ) (pk : Bytes) (n : ℕ) (ck : Bytes) (m : HashMap SkippedId Bytes)
      → length (stored count pk n ck m) ≤ length m + count
  unfolding stored
  length-stored zero pk n ck m = omega arith
  length-stored (suc count) pk n ck m = omega (
    arith,
    length-stored count pk (suc n) (next_chain_key kdf laws ck)
        (HashMap.insert (pk, n) (message_key kdf laws ck) m),
    HashMap.length-insert (pk, n) (message_key kdf laws ck) m,
  )

  -- A skip that is within the limit.
  pub skip_message_keys_ok :
      (until : ℕ) (s : RatchetState) {pk ck : Bytes}
      → s.remote_ratchet_key ≡ some pk
      → s.receiving_chain_key ≡ some ck
      → s.recv_message_number ≤ until
      → until - s.recv_message_number ≤ max_skip
      → skip_message_keys kdf until s ≡ (
        ok tt,
        record s {
          receiving_chain_key = some (chain_key_after kdf laws (until - s.recv_message_number) ck);
          skipped_keys =
              stored (until - s.recv_message_number) pk s.recv_message_number ck s.skipped_keys;
        },
      )
  unfolding skip_message_keys
  skip_message_keys_ok until s {pk} {ck} remote receiving lo hi =
      ground (arith, skip_loop_lem (until - s.recv_message_number) pk s.recv_message_number ck s)

  pub skip_message_keys_consumed :
      (until : ℕ) (s : RatchetState)
      → until < s.recv_message_number
      → skip_message_keys kdf until s
        ≡ (err (ratchet_error (text "message number already consumed")), s)
  unfolding skip_message_keys
  skip_message_keys_consumed until s h = ground arith

  pub skip_message_keys_too_many :
      (until : ℕ) (s : RatchetState)
      → s.recv_message_number + max_skip < until
      → skip_message_keys kdf until s ≡ (err (ratchet_error (text "too many skipped messages")), s)
  unfolding skip_message_keys
  skip_message_keys_too_many until s h = ground arith

  pub skip_for_current_chain_ok :
      (until : ℕ) (s : RatchetState) {pk ck : Bytes}
      → s.remote_ratchet_key ≡ some pk
      → s.receiving_chain_key ≡ some ck
      → s.recv_message_number ≤ until
      → until - s.recv_message_number ≤ max_skip
      → skip_message_keys_for_current_chain kdf until s ≡ (
        ok tt,
        record s {
          receiving_chain_key = some (chain_key_after kdf laws (until - s.recv_message_number) ck);
          recv_message_number = until;
          skipped_keys =
              stored (until - s.recv_message_number) pk s.recv_message_number ck s.skipped_keys;
        },
      )
  unfolding skip_message_keys_for_current_chain
  skip_for_current_chain_ok until s {pk} {ck} remote receiving lo hi =
      ground (arith, skip_loop_lem (until - s.recv_message_number) pk s.recv_message_number ck s)

  pub skip_for_current_chain_none :
      (until : ℕ) (s : RatchetState)
      → s.receiving_chain_key ≡ none
      → skip_message_keys_for_current_chain kdf until s ≡ (ok tt, s)
  unfolding skip_message_keys_for_current_chain
  skip_for_current_chain_none until s h = ground arith

  pub stored-zero :
      (n : ℕ) (pk : Bytes) (k : ℕ) (ck : Bytes) (m : HashMap SkippedId Bytes)
      → n ≡ 0
      → stored n pk k ck m ≡ m
  unfolding stored
  stored-zero zero pk k ck m h = refl
  stored-zero (suc n) pk k ck m h = absurd (omega arith)

skip_loop_zero :
    (kdf : Kdf) (n : ℕ) (pk : Bytes) (k : ℕ) (ck : Bytes) (s : RatchetState)
    → n ≡ 0
    → skip_loop kdf n pk k ck s ≡ (ok ck, s)
unfolding skip_loop
skip_loop_zero kdf zero pk k ck s h = refl
skip_loop_zero kdf (suc n) pk k ck s h = absurd (omega arith)

-- Where no message of the old chain is missing, nothing is stored and nothing changes.
pub skip_for_current_chain_level :
    (kdf : Kdf) (until : ℕ) (s : RatchetState)
    → until ≡ s.recv_message_number
    → skip_message_keys_for_current_chain kdf until s ≡ (ok tt, s)
unfolding skip_message_keys_for_current_chain
skip_for_current_chain_level kdf until s h = elim (Option-cases s.receiving_chain_key) [
  | inl absent ↦ ground arith
  | inr (ck, e) ↦ elim (Option-cases s.remote_ratchet_key) [
    | inl absent ↦ ground arith
    | inr (pk, e') ↦ ground (
      arith,
      skip_loop_zero kdf (until - s.recv_message_number) pk s.recv_message_number ck s
          (omega arith),
    )
  ]
]
