-- ===== src/SafetyNumber.antt =====
-- crates/vaultex-crypto/src/safety_number.rs: the number that two users compare out of band.
pub mod Agreement
mod Tests
use vaultex.Base.{
  ℕ, zero, suc, ◌+◌, ◌*◌, ◌/◌, ◌%◌, Bool, true, false, not, ◌||◌, ◌&&◌, ltb, ◌==◌, if◌then◌else◌,
  List, [], ◌∷◌, ◌++◌, map, Bytes, length, get_or,
}
use vaultex.Errors.{Result, ok, ◌>>=◌, ◌>>◌, ok_or, reject_if, invalid_key_length}
use vaultex.Crates.Encoding.{Hex}
use vaultex.Identity.{join}

abbrev pub num_groups : ℕ
num_groups = 12

abbrev pub bytes_per_group : ℕ
bytes_per_group = 2

-- `<=` on slices: lexicographic, a prefix first.
unfoldable pub slice_le : Bytes → Bytes → Bool
slice_le [] ys = true
slice_le (x ∷ xs) [] = false
slice_le (x ∷ xs) (y ∷ ys) = ltb x y || x == y && slice_le xs ys

-- `{:05}` of a number below 100000.
unfoldable pub five_digits : ℕ → Bytes
five_digits n =
    (48 + n / 10000 % 10)
    ∷ (48 + n / 1000 % 10)
    ∷ (48 + n / 100 % 10)
    ∷ (48 + n / 10 % 10)
    ∷ (48 + n % 10)
    ∷ []

-- `u16::from_be_bytes` of the two bytes of group i.
unfoldable pub group_value : Bytes → ℕ → ℕ
group_value hash i =
    let offset = i * bytes_per_group in get_or hash offset 0 * 256 + get_or hash (offset + 1) 0

-- The range `i .. i + n`.
abbrev pub range : ℕ → ℕ → List ℕ
range i zero = []
range i (suc n) = i ∷ range (i + 1) n

unfoldable pub groups_of : Bytes → List Bytes
unfolding five_digits group_value
groups_of hash = map (λ i. five_digits (group_value hash i % 100000)) (range 0 num_groups)

module _ (sha256 : Bytes → Bytes) where
  -- The hash of both keys in order.
  unfoldable pub ordered_hash : Bytes → Bytes → Bytes
  unfolding slice_le
  ordered_hash our_identity_key their_identity_key =
      if slice_le our_identity_key their_identity_key
      then sha256 (our_identity_key ++ their_identity_key)
      else sha256 (their_identity_key ++ our_identity_key)

  unfoldable pub generate_safety_number : Bytes → Bytes → Bytes
  unfolding ordered_hash groups_of
  generate_safety_number our_identity_key their_identity_key =
      join (32 ∷ []) (groups_of (ordered_hash our_identity_key their_identity_key))

  unfoldable pub generate_safety_number_from_hex : Hex → Bytes → Bytes → Result Bytes
  unfolding generate_safety_number
  generate_safety_number_from_hex hex our_identity_key_hex their_identity_key_hex = do
    our_key ← ok_or (hex.decode our_identity_key_hex) (invalid_key_length 32 0)
    their_key ← ok_or (hex.decode their_identity_key_hex) (invalid_key_length 32 0)
    reject_if (not (length our_key == 32)) (invalid_key_length 32 (length our_key))
    reject_if (not (length their_key == 32)) (invalid_key_length 32 (length their_key))
    ok (generate_safety_number our_key their_key)
