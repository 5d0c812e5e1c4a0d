-- ===== src/Padding/Suffix.antt =====
-- The four bytes at the end of a padded message, as crates/vaultex-crypto/src/padding.rs writes and
-- reads them.
use native.Mathlib.Nat.{add-zero}
use vaultex.Base.{
  ℕ, ◌+◌, ◌-◌, ◌/◌, ◌%◌, ◌^◌, ◌≤◌, ◌<◌, ◌≡◌, refl, sym, ◌∙◌, ap, arith, [], ◌∷◌, ◌++◌, length,
  length-append, get_or-append, Bytes,
}
use vaultex.Padding.{to_le_bytes, from_le_bytes, byte_at, pad_len_bytes}

-- The number that the last four bytes spell.
abbrev pub stored_length : Bytes → ℕ
stored_length padded =
    let offset = length padded - pad_len_bytes in
    from_le_bytes (byte_at padded offset) (byte_at padded (offset + 1))
      (byte_at padded (offset + 2)) (byte_at padded (offset + 3))

pub byte_at-suffix : (xs ys : Bytes) (i : ℕ) → byte_at (xs ++ ys) (length xs + i) ≡ byte_at ys i
byte_at-suffix xs ys i = get_or-append xs ys i 0

byte_at-suffix_first : (xs ys : Bytes) → byte_at (xs ++ ys) (length xs) ≡ byte_at ys 0
byte_at-suffix_first xs ys =
    ap (byte_at (xs ++ ys)) (sym (add-zero (length xs))) ∙ byte_at-suffix xs ys 0

-- Behind a body, the last four bytes are the suffix.
pub stored_length-append :
    (xs : Bytes) (a b c d : ℕ) → stored_length (xs ++ a ∷ b ∷ c ∷ d ∷ []) ≡ from_le_bytes a b c d
stored_length-append xs a b c d =
    let ys : Bytes = a ∷ b ∷ c ∷ d ∷ [] in
    let offset : length (xs ++ ys) - 4 ≡ length xs = rw (length-append xs ys) (omega arith) in
    rw (
      offset,
      byte_at-suffix_first xs ys,
      byte_at-suffix xs ys 1,
      byte_at-suffix xs ys 2,
      byte_at-suffix xs ys 3,
    )

from_le-to_le :
    (n : ℕ)
    → n < 2 ^ 32
    → from_le_bytes (n % 256) ((n / 256) % 256) ((n / 65536) % 256) ((n / 16777216) % 256) ≡ n
unfolding from_le_bytes
from_le-to_le n h = omega arith

pub stored_length-to_le :
    (xs : Bytes) (n : ℕ) → n < 2 ^ 32 → stored_length (xs ++ to_le_bytes n) ≡ n
unfolding to_le_bytes
stored_length-to_le xs n h = stored_length-append xs _ _ _ _ ∙ from_le-to_le n h

-- A byte string of four or more bytes is a body and a suffix of four.
abbrev pub EndsInFour : Bytes → Type 0
EndsInFour padded =
    (xs : Bytes) × (a : ℕ) × (b : ℕ) × (c : ℕ) × (d : ℕ) × (padded ≡ xs ++ a ∷ b ∷ c ∷ d ∷ [])

pub ends_in_four : (padded : Bytes) → 4 ≤ length padded → EndsInFour padded
ends_in_four [] h = absurd (omega arith)
ends_in_four (a ∷ []) h = absurd (omega arith)
ends_in_four (a ∷ b ∷ []) h = absurd (omega arith)
ends_in_four (a ∷ b ∷ c ∷ []) h = absurd (omega arith)
ends_in_four (a ∷ b ∷ c ∷ d ∷ []) h = ([], a, b, c, d, refl)
ends_in_four (a ∷ b ∷ c ∷ d ∷ e ∷ r) h =
    let (xs, a', b', c', d', q) = ends_in_four (b ∷ c ∷ d ∷ e ∷ r) (omega arith) in
    (a ∷ xs, a', b', c', d', ap (λ t. a ∷ t) q)

-- The two encodings are inverse on bytes.
pub to_le-from_le :
    (a b c d : ℕ)
    → a < 256
    → b < 256
    → c < 256
    → d < 256
    → to_le_bytes (from_le_bytes a b c d) ≡ a ∷ b ∷ c ∷ d ∷ []
unfolding to_le_bytes from_le_bytes
to_le-from_le a b c d ha hb hc hd = ground arith
