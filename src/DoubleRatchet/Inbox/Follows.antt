-- ===== src/DoubleRatchet/Inbox/Follows.antt =====
-- A session of crates/vaultex-crypto/src/double_ratchet.rs that receives a chain, and the inbox that its
-- counter and its stored keys make.
use vaultex.Base.{
  ℕ, zero, suc, ◌+◌, ◌-◌, ◌≤◌, ◌==◌, ◌≡◌, ◌≢◌, sym, ap, ◌∙◌, inl, inr, Option, none, some, not,
  ◌&&◌, ◌||◌, if◌then◌else◌, Bytes, arith, Bool-cases, ==_iff,
}
use native.Mathlib.Decide.{dec_lt}
use vaultex.Base.HashMap
use vaultex.Crates.Kdf.{Kdf, KdfLaws}
use vaultex.DoubleRatchet.State.{RatchetState, skipped_id}
use vaultex.DoubleRatchet.Keys.{next_chain_key, message_key, chain_key_after}
use vaultex.DoubleRatchet.Skipping.{
  number_ne, stored, lookup-stored, lookup-stored_before, lookup-stored_after,
}
use vaultex.DoubleRatchet.Inbox.{Inbox, within, IsOrdered}

module _ (kdf : Kdf) (laws : KdfLaws kdf) where
  -- The key of message n of the chain with first key `first`.
  abbrev pub key_of : Bytes → ℕ → Bytes
  key_of first n = message_key kdf laws (chain_key_after kdf laws n first)

  -- What is stored for message n.
  abbrev pub kept : Bytes → Inbox → ℕ → Option Bytes
  kept first i n = if i.waiting n then some (key_of first n) else none

  -- The session receives the chain of the ratchet key, and its numbers are the inbox.
  pub record Follows (public first : Bytes) (b : RatchetState) (i : Inbox) : Type 0 where
    pub remote : b.remote_ratchet_key ≡ some public
    pub receiving : b.receiving_chain_key ≡ some (chain_key_after kdf laws i.next first)
    pub number : b.recv_message_number ≡ i.next
    pub keys : (j : ℕ) → HashMap.lookup (public, j) b.skipped_keys ≡ kept first i j
    pub ordered : IsOrdered i

  pub chain_key_after-add :
      (m n : ℕ) (ck : Bytes)
      → chain_key_after kdf laws m (chain_key_after kdf laws n ck)
        ≡ chain_key_after kdf laws (n + m) ck
  unfolding chain_key_after
  chain_key_after-add m zero ck =
      let count : m ≡ 0 + m = omega arith in ap (λ k. chain_key_after kdf laws k ck) count
  chain_key_after-add m (suc n) ck =
      let count : suc (n + m) ≡ suc n + m = omega arith in
      chain_key_after-add m n (next_chain_key kdf laws ck)
      ∙ ap (λ k. chain_key_after kdf laws k ck) count

  -- Taking a waiting number out.
  pub kept-remove :
      (public first : Bytes) (b : RatchetState) (i : Inbox) (n : ℕ)
      → Follows public first b i
      → (j : ℕ)
      → HashMap.lookup (public, j) (HashMap.remove (public, n) b.skipped_keys)
        ≡ kept first (record i { waiting = λ k. i.waiting k && not (k == n) }) j
  kept-remove public first b i n f j = elim (Bool-cases (j == n)) [
    | inl same ↦
        let at : j ≡ n = (==_iff j n).0 same in
        ap (λ k. HashMap.lookup (public, k) (HashMap.remove (public, n) b.skipped_keys)) at
        ∙ HashMap.lookup-remove_self (public, n) b.skipped_keys
        ∙ ground arith
    | inr other ↦
        let apart : j ≢ n = λ e. ground arith in
        HashMap.lookup-remove_ne (public, j) (public, n) b.skipped_keys
          (number_ne public j n public apart)
        ∙ f.keys j
        ∙ ground arith
  ]

  -- Passing the numbers up to n.
  pub kept-stored :
      (public first : Bytes) (b : RatchetState) (i : Inbox) (n : ℕ)
      → Follows public first b i
      → i.next ≤ n
      → (j : ℕ)
      → HashMap.lookup
          (public, j)
          (stored kdf laws
            (n - i.next)
            public
            i.next
            (chain_key_after kdf laws i.next first)
            b.skipped_keys)
        ≡ kept first (record { next = n + 1; waiting = λ k. i.waiting k || within i.next n k }) j
  kept-stored public first b i n f le j =
      let m = b.skipped_keys in
      let ck = chain_key_after kdf laws i.next first in
      elim (dec_lt j i.next) [
        | yes before ↦
            lookup-stored_before kdf laws (n - i.next) public i.next ck m public j (omega arith)
            ∙ f.keys j
            ∙ ground arith
        | no passed ↦ elim (dec_lt j n) [
          | yes between ↦
              let at : i.next + (j - i.next) ≡ j = omega arith in
              ap (λ k. HashMap.lookup (public, k) (stored kdf laws (n - i.next) public i.next ck m))
                (sym at)
              ∙ lookup-stored kdf laws (n - i.next) public i.next ck m (j - i.next) (omega arith)
              ∙ ap (λ k. some (message_key kdf laws k))
                  (chain_key_after-add (j - i.next) i.next first
                    ∙ ap (λ k. chain_key_after kdf laws k first) at)
              ∙ ground arith
          | no ahead ↦
              lookup-stored_after kdf laws (n - i.next) public i.next ck m public j (omega arith)
              ∙ f.keys j
              ∙ ground arith
        ]
      ]
