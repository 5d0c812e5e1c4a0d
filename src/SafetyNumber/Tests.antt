-- ===== src/SafetyNumber/Tests.antt =====
-- Concrete keys through crates/vaultex-crypto/src/safety_number.rs.
use vaultex.Base.Decimal.{is_digit, parse_u64}
use vaultex.Base.{
  true, ◌++◌, ◌*◌, ◌+◌, if◌then◌else◌, get_or, All, some, ◌≡◌, arith, Bytes, AreBytes, length,
  replicate, map, ◌%◌, [], ◌∷◌,
}
use vaultex.Crates.Toy.{resized}
use vaultex.SafetyNumber.{slice_le, generate_safety_number}
use vaultex.SafetyNumber.Agreement.{
  group_at, generate_safety_number_comm, generate_safety_number_groups,
}

-- The low byte of everything, filled up to 32 bytes.
abbrev toy_sha256 : Bytes → Bytes
toy_sha256 m = map (λ b. b % 256) (resized 32 m)

map-AreBytes : (m : Bytes) → AreBytes (map (λ b. b % 256) m)
map-AreBytes [] = tt
map-AreBytes (b ∷ m) = (omega arith, map-AreBytes m)

abbrev alice_key : Bytes
alice_key = replicate 32 200

abbrev bob_key : Bytes
bob_key = replicate 32 100

alice-AreBytes : AreBytes alice_key
alice-AreBytes = ground arith

generate_safety_number_comm_example :
    generate_safety_number toy_sha256 alice_key bob_key
    ≡ generate_safety_number toy_sha256 bob_key alice_key
generate_safety_number_comm_example = generate_safety_number_comm toy_sha256 alice_key bob_key

generate_safety_number_groups_example :
    let number = generate_safety_number toy_sha256 alice_key bob_key in
    let hash =
      toy_sha256
        (if slice_le alice_key bob_key then alice_key ++ bob_key else bob_key ++ alice_key) in
    (length number ≡ 71)
    × (get_or number 47 0 ≡ 32)
    × All (λ c. is_digit c ≡ true) (group_at number 7)
    × (parse_u64 (group_at number 7) ≡ some (get_or hash 14 0 * 256 + get_or hash 15 0))
generate_safety_number_groups_example =
    generate_safety_number_groups toy_sha256 alice_key bob_key 7 (λ m. map-AreBytes (resized 32 m))
      (omega arith)
