-- ===== src/DoubleRatchet/Inbox.antt =====
-- What a receiving chain of crates/vaultex-crypto/src/double_ratchet.rs promises, without its
-- cryptography: which message numbers it still opens.
pub mod Follows
pub mod Refines
pub mod Sequences
pub mod Batches
pub mod AnyOrder
pub mod NextChain
pub mod FirstBatch
pub mod Replies
mod Tests
use vaultex.Base.{
  ℕ, ◌+◌, ◌-◌, ◌^◌, ◌≤◌, ◌<◌, ◌==◌, ◌≡◌, ◌≢◌, inl, inr, Bool, true, false, not, ◌&&◌, ◌||◌, ltb,
  leb, ◌⊎◌, if◌then◌else◌, Bytes, text, arith, Bool-cases,
}
use vaultex.Errors.{Result, ok, err, ratchet_error}
use vaultex.DoubleRatchet.State.{max_skip}

-- The next number of the chain, and the numbers before it that have not come yet.
pub record Inbox : Type 0 where
  pub next : ℕ
  pub waiting : ℕ → Bool

pub data Outcome : Type 0 where
  opened : Outcome
  consumed : Outcome
  too_far : Outcome

abbrev pub within : ℕ → ℕ → ℕ → Bool
within first until j = leb first j && ltb j until

-- A number is taken once, and at most 1000 numbers are left out by one message.
unfoldable pub arrive : ℕ → Inbox → Outcome × Inbox
arrive n i =
    if i.waiting n
    then (opened, record i { waiting = λ j. i.waiting j && not (j == n) })
    else if ltb n i.next
    then (consumed, i)
    else if ltb max_skip (n - i.next)
    then (too_far, i)
    else (opened, record i { next = n + 1; waiting = λ j. i.waiting j || within i.next n j })

-- The answer of `decrypt` at an outcome, where the text under the number's own key opens as `r`.
abbrev pub reply : Outcome → Result Bytes → Result Bytes
reply opened r = r
reply consumed r = err (ratchet_error (text "message number already consumed"))
reply too_far r = err (ratchet_error (text "too many skipped messages"))

-- Only numbers that were passed are waited for.
abbrev pub IsOrdered : Inbox → Type 0
IsOrdered i = (j : ℕ) → i.waiting j ≡ true → j < i.next

-- A number that is never opened again.
abbrev pub IsSpent : ℕ → Inbox → Type 0
IsSpent n i = (i.waiting n ≡ false) × (n < i.next)

-- A number that the inbox opens when it comes.
abbrev pub IsDue : ℕ → Inbox → Type 0
IsDue n i = (i.waiting n ≡ true) ⊎ ((i.next ≤ n) × (n - i.next ≤ max_skip))

pub arrive-IsOrdered : (n : ℕ) (i : Inbox) → IsOrdered i → IsOrdered (arrive n i).1
unfolding arrive
arrive-IsOrdered n i o j = elim (Bool-cases (i.waiting n)) [
  | inl there ↦ λ h. ground (arith, o j)
  | inr absent ↦ λ h. ground (arith, o j)
]

pub arrive-due : (n : ℕ) (i : Inbox) → IsOrdered i → IsDue n i → (arrive n i).0 ≡ opened
unfolding arrive
arrive-due n i o (inl there) = rw there
arrive-due n i o (inr (ahead, near)) = ground (arith, o n)

-- An opened number is spent.
pub arrive-opened-IsSpent :
    (n : ℕ) (i : Inbox) → IsOrdered i → (arrive n i).0 ≡ opened → IsSpent n (arrive n i).1
unfolding arrive
arrive-opened-IsSpent n i o h = ground (arith, o n)

pub arrive-spent : (n : ℕ) (i : Inbox) → IsSpent n i → arrive n i ≡ (consumed, i)
unfolding arrive
arrive-spent n i (gone, passed) = ground arith

pub arrive-waiting :
    (n : ℕ) (i : Inbox)
    → i.waiting n ≡ true
    → arrive n i ≡ (opened, record i { waiting = λ j. i.waiting j && not (j == n) })
unfolding arrive
arrive-waiting n i h = rw h

pub arrive-far :
    (n : ℕ) (i : Inbox) → i.waiting n ≡ false → max_skip < n - i.next → arrive n i ≡ (too_far, i)
unfolding arrive
arrive-far n i absent far = ground arith

pub arrive-ahead :
    (n : ℕ) (i : Inbox)
    → i.waiting n ≡ false
    → i.next ≤ n
    → n - i.next ≤ max_skip
    → arrive n i
      ≡ (opened, record i { next = n + 1; waiting = λ j. i.waiting j || within i.next n j })
unfolding arrive
arrive-ahead n i absent ahead near = ground arith

-- What is spent stays spent, whatever comes.
pub arrive-IsSpent : (m n : ℕ) (i : Inbox) → IsSpent n i → IsSpent n (arrive m i).1
unfolding arrive
arrive-IsSpent m n i (gone, passed) = ground arith

-- What is due stays due until it comes.
pub arrive-IsDue : (m n : ℕ) (i : Inbox) → m ≢ n → IsDue n i → IsDue n (arrive m i).1
unfolding arrive
arrive-IsDue m n i h d = ground arith
