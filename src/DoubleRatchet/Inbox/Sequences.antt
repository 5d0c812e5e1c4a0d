-- ===== src/DoubleRatchet/Inbox/Sequences.antt =====
-- crates/vaultex-crypto/src/double_ratchet.rs: all that arrives on one chain, in any order, with
-- losses, repetitions and forgeries.
use mathlib.Core.Path.{subst}
use vaultex.Base.{
  ℕ, suc, ◌+◌, ◌^◌, ◌≤◌, ◌<◌, ◌==◌, ◌≡◌, ◌≢◌, refl, sym, ap, ◌∙◌, inl, inr, Bool, true, false, ◌&&◌,
  &&-eq-true, if◌then◌else◌, List, [], ◌∷◌, All, Bytes, length, arith, Bool-cases, ==_iff,
}
use vaultex.Errors.{Result, ok, err}
use vaultex.Crates.Sodium.{Sodium, AeadLaws, CurveLaws}
use vaultex.Crates.Kdf.{Kdf, KdfLaws}
use vaultex.DoubleRatchet.State.{MessageHeader, RatchetState, KeyPair, Method}
use vaultex.DoubleRatchet.Session.{decrypt, decrypt_with_key}
use vaultex.DoubleRatchet.Inbox.{
  Inbox, Outcome, opened, consumed, too_far, arrive, reply, IsSpent, arrive-opened-IsSpent,
  arrive-spent, arrive-IsSpent,
}
use vaultex.DoubleRatchet.Inbox.Follows.{key_of, Follows}
use vaultex.DoubleRatchet.Inbox.Refines.{decrypt_refines}

-- What one call of `decrypt` is given.
pub record Wire : Type 0 where
  pub fresh : KeyPair
  pub header : MessageHeader
  pub ciphertext : Bytes
  pub associated_data : Bytes

abbrev pub is_ok : Result Bytes → Bool
is_ok (ok text) = true
is_ok (err e) = false

module _ (na : Sodium) (kdf : Kdf) where
  abbrev pub receive : Wire → Method Bytes
  receive w = decrypt na kdf w.fresh w.header w.ciphertext w.associated_data

  -- The answers of the calls of `decrypt`, one after the other.
  unfoldable pub receive_all : List Wire → RatchetState → List (Result Bytes)
  receive_all [] b = []
  receive_all (w ∷ ws) b = let (r, b') = receive w b in r ∷ receive_all ws b'

  -- How many of the calls open a text under message number n.
  unfoldable pub count_opened : ℕ → List Wire → RatchetState → ℕ
  count_opened n [] b = 0
  count_opened n (w ∷ ws) b =
      let (r, b') = receive w b in
      let rest = count_opened n ws b' in
      if (w.header.message_number == n) && is_ok r then suc rest else rest

-- A header of the chain, before the counter's end.
abbrev pub OnChain : Bytes → Wire → Type 0
OnChain public w = (w.header.ratchet_public_key ≡ public) × (w.header.message_number + 1 < 2 ^ 32)

consumed_ne : consumed ≢ opened
consumed_ne e = cc

is_ok-reply : (o : Outcome) (r : Result Bytes) → is_ok (reply o r) ≡ true → o ≡ opened
is_ok-reply opened r h = refl
is_ok-reply consumed r h = ground arith
is_ok-reply too_far r h = ground arith

module _ (na : Sodium) (kdf : Kdf) (aead : AeadLaws na) (curve : CurveLaws na)
    (laws : KdfLaws kdf) where
  -- `decrypt_refines` for a header given by its chain.
  pub receive_refines :
      (w : Wire) (public first : Bytes) (b : RatchetState) (i : Inbox)
      → length public ≡ 32
      → OnChain public w
      → Follows kdf laws public first b i
      → let n = w.header.message_number in
        ((receive na kdf w b).0
          ≡ reply
              (arrive n i).0
              (decrypt_with_key na (key_of kdf laws first n) w.ciphertext w.associated_data))
        × Follows kdf laws public first (receive na kdf w b).1 (arrive n i).1
  receive_refines w public first b i sized (same, no_wrap) f =
      let (answer, f') =
        decrypt_refines na kdf aead curve laws w.fresh w.header w.ciphertext w.associated_data first
          b i (ap length same ∙ sized) no_wrap
          (subst (λ p. Follows kdf laws p first b i) (sym same) f) in
      (
        answer,
        subst
            (λ p.
              Follows kdf laws p first (receive na kdf w b).1 (arrive w.header.message_number i).1)
            same f',
      )

  receive-opened :
      (n : ℕ) (w : Wire) (b : RatchetState) (i : Inbox) (r : Result Bytes)
      → (receive na kdf w b).0 ≡ reply (arrive w.header.message_number i).0 r
      → ((w.header.message_number == n) && is_ok (receive na kdf w b).0) ≡ true
      → (w.header.message_number ≡ n) × ((arrive n i).0 ≡ opened)
  receive-opened n w b i r answer both =
      let m = w.header.message_number in
      let (same, fine) = &&-eq-true (m == n) (is_ok (receive na kdf w b).0) both in
      let at : m ≡ n = (==_iff m n).0 same in
      (
        at,
        ap (λ k. (arrive k i).0) (sym at)
            ∙ is_ok-reply (arrive m i).0 r (ap is_ok (sym answer) ∙ fine),
      )

  count_opened-spent :
      (n : ℕ) (ws : List Wire) (public first : Bytes) (b : RatchetState) (i : Inbox)
      → length public ≡ 32
      → All (OnChain public) ws
      → Follows kdf laws public first b i
      → IsSpent n i
      → count_opened na kdf n ws b ≡ 0
  unfolding count_opened
  count_opened-spent n [] public first b i sized on f s = refl
  count_opened-spent n (w ∷ ws) public first b i sized (on, more) f s =
      let m = w.header.message_number in
      let (answer, f') = receive_refines w public first b i sized on f in
      let rest =
        count_opened-spent n ws public first (receive na kdf w b).1 (arrive m i).1 sized more f'
          (arrive-IsSpent m n i s) in
      elim (Bool-cases ((m == n) && is_ok (receive na kdf w b).0)) [
        | inl both ↦
            let (_, at) = receive-opened n w b i _ answer both in
            absurd (consumed_ne (ap (λ (r : Outcome × Inbox). r.0) (sym (arrive-spent n i s)) ∙ at))
        | inr other ↦ rw other rest
      ]

  -- On a chain that a session receives, no number is opened twice, whatever arrives under the
  -- chain's headers with message numbers below 2^32 - 1, in any order, with repetitions and forged
  -- texts: of all the calls with one message number at most one gives a text.
  pub opens_once :
      (n : ℕ) (ws : List Wire) (public first : Bytes) (b : RatchetState) (i : Inbox)
      → length public ≡ 32
      → All (OnChain public) ws
      → Follows kdf laws public first b i
      → count_opened na kdf n ws b ≤ 1
  unfolding count_opened
  opens_once n [] public first b i sized on f = omega arith
  opens_once n (w ∷ ws) public first b i sized (on, more) f =
      let m = w.header.message_number in
      let (answer, f') = receive_refines w public first b i sized on f in
      let b' = (receive na kdf w b).1 in
      elim (Bool-cases ((m == n) && is_ok (receive na kdf w b).0)) [
        | inl both ↦
            let (same, at) = receive-opened n w b i _ answer both in
            let spent = arrive-opened-IsSpent n i f.ordered at in
            let none_left =
              count_opened-spent n ws public first b' (arrive m i).1 sized more f'
                (subst (λ k. IsSpent n (arrive k i).1) (sym same) spent) in
            rw (both, none_left) (omega arith)
        | inr other ↦ rw other (opens_once n ws public first b' (arrive m i).1 sized more f')
      ]
