-- ===== src/SafetyNumber/Agreement.antt =====
-- Both users see one number, of twelve groups of five digits: safety_number.rs in
-- crates/vaultex-crypto/src.
use vaultex.Base.{
  ℕ, zero, suc, ◌+◌, ◌*◌, ◌/◌, ◌%◌, ◌<◌, ◌≡◌, refl, sym, ap, ap₂, arith, true, false, inl, inr, [],
  ◌∷◌, ◌++◌, Bytes, AreBytes, length, get_or, Bool-cases, ltb, if◌then◌else◌, take, drop, All, some,
  ◌∙◌,
}
use vaultex.Base.Decimal.{is_digit, parse_digits, parse_u64, parse_more, parse_u64-digits}
use vaultex.Errors.{ok}
use vaultex.Crates.Encoding.{Hex, HexLaws}
use vaultex.Identity.{join}
use vaultex.SafetyNumber.{
  slice_le, five_digits, group_value, groups_of, ordered_hash, generate_safety_number,
  generate_safety_number_from_hex,
}

-- The order on slices is total, and both ways only for equal slices.
slice_le_total : (a b : Bytes) → slice_le a b ≡ false → slice_le b a ≡ true
unfolding slice_le
slice_le_total [] b h = ground arith
slice_le_total (x ∷ xs) [] h = refl
slice_le_total (x ∷ xs) (y ∷ ys) h = ground (arith, slice_le_total xs ys)

slice_le_antisym : (a b : Bytes) → slice_le a b ≡ true → slice_le b a ≡ true → a ≡ b
unfolding slice_le
slice_le_antisym [] [] h k = refl
slice_le_antisym [] (y ∷ ys) h k = ground arith
slice_le_antisym (x ∷ xs) [] h k = ground arith
slice_le_antisym (x ∷ xs) (y ∷ ys) h k = ground (arith, slice_le_antisym xs ys)

module _ (sha256 : Bytes → Bytes) where
  ordered_hash_comm : (a b : Bytes) → ordered_hash sha256 a b ≡ ordered_hash sha256 b a
  unfolding ordered_hash
  ordered_hash_comm a b = elim (Bool-cases (slice_le a b)) [
    | inl le ↦ elim (Bool-cases (slice_le b a)) [
      | inl ge ↦
          let same : a ≡ b = slice_le_antisym a b le ge in
          rw (le, ge) (ap₂ (λ x y. sha256 (x ++ y)) same (sym same))
      | inr lt ↦ rw (le, lt) refl
    ]
    | inr gt ↦ rw (gt, slice_le_total a b gt) refl
  ]

  -- Both users compute the same number, whichever key is theirs.
  pub generate_safety_number_comm :
      (a b : Bytes) → generate_safety_number sha256 a b ≡ generate_safety_number sha256 b a
  unfolding generate_safety_number
  generate_safety_number_comm a b = ap (λ h. join (32 ∷ []) (groups_of h)) (ordered_hash_comm a b)

-- What the text says at group i: five characters, six apart.
abbrev pub group_at : Bytes → ℕ → Bytes
group_at number i = take 5 (drop (6 * i) number)

pick_digit : (n : ℕ) → is_digit (48 + n % 10) ≡ true
pick_digit n = ground arith

AreDigits-five_digits : (n : ℕ) → All (λ c. is_digit c ≡ true) (five_digits n)
unfolding five_digits
AreDigits-five_digits n =
    let d = pick_digit in (d (n / 10000), (d (n / 1000), (d (n / 100), (d (n / 10), (d n, tt)))))

digit : (n : ℕ) → n % 10 < 10
digit n = omega arith

parse_digits-five_digits :
    (n : ℕ)
    → parse_digits 0 (five_digits n)
      ≡ some (
          n / 10000 % 10 * 10000
          + n / 1000 % 10 * 1000
          + n / 100 % 10 * 100
          + n / 10 % 10 * 10
          + n % 10)
unfolding five_digits parse_digits
parse_digits-five_digits n =
    let a = n / 10000 % 10 in
    let b = n / 1000 % 10 in
    let c = n / 100 % 10 in
    let d = n / 10 % 10 in
    let last = (48 + n % 10) ∷ [] in
    parse_more 0 a ((48 + b) ∷ (48 + c) ∷ (48 + d) ∷ last) (digit (n / 10000)) (omega arith)
    ∙ parse_more (0 * 10 + a) b ((48 + c) ∷ (48 + d) ∷ last) (digit (n / 1000)) (omega arith)
    ∙ parse_more ((0 * 10 + a) * 10 + b) c ((48 + d) ∷ last) (digit (n / 100)) (omega arith)
    ∙ parse_more (((0 * 10 + a) * 10 + b) * 10 + c) d last (digit (n / 10)) (omega arith)
    ∙ parse_more ((((0 * 10 + a) * 10 + b) * 10 + c) * 10 + d) (n % 10) [] (digit n) (omega arith)
    ∙ ap some (omega arith)

parse-five_digits : (n : ℕ) → n < 100000 → parse_u64 (five_digits n) ≡ some n
parse-five_digits n h =
    parse_u64-digits (five_digits n) n (AreDigits-five_digits n)
      (parse_digits-five_digits n ∙ ap some (omega arith)) (unfold five_digits in λ e. cc)

get_or_byte : (b : Bytes) (i : ℕ) → AreBytes b → get_or b i 0 < 256
get_or_byte [] i h = omega arith
get_or_byte (x ∷ xs) zero (small, rest) = small
get_or_byte (x ∷ xs) (suc i) (small, rest) = get_or_byte xs i rest

group_value_small : (hash : Bytes) (i : ℕ) → AreBytes hash → group_value hash i < 65536
unfolding group_value
group_value_small hash i h =
    omega (arith, get_or_byte hash (i * 2) h, get_or_byte hash (i * 2 + 1) h)

length-groups : (hash : Bytes) → length (join (32 ∷ []) (groups_of hash)) ≡ 71
unfolding groups_of five_digits join
length-groups hash = refl

group_at-join :
    (hash : Bytes) (i : ℕ)
    → i < 12
    → group_at (join (32 ∷ []) (groups_of hash)) i ≡ five_digits (group_value hash i % 100000)
unfolding groups_of five_digits join
group_at-join hash zero lt = refl
group_at-join hash (suc zero) lt = refl
group_at-join hash (suc (suc zero)) lt = refl
group_at-join hash (suc (suc (suc zero))) lt = refl
group_at-join hash (suc (suc (suc (suc zero)))) lt = refl
group_at-join hash (suc (suc (suc (suc (suc zero))))) lt = refl
group_at-join hash (suc (suc (suc (suc (suc (suc zero)))))) lt = refl
group_at-join hash (suc (suc (suc (suc (suc (suc (suc zero))))))) lt = refl
group_at-join hash (suc (suc (suc (suc (suc (suc (suc (suc zero)))))))) lt = refl
group_at-join hash (suc (suc (suc (suc (suc (suc (suc (suc (suc zero))))))))) lt = refl
group_at-join hash (suc (suc (suc (suc (suc (suc (suc (suc (suc (suc zero)))))))))) lt = refl
group_at-join hash (suc (suc (suc (suc (suc (suc (suc (suc (suc (suc (suc zero))))))))))) lt = refl
group_at-join hash (suc (suc (suc (suc (suc (suc (suc (suc (suc (suc (suc (suc i)))))))))))) lt =
    absurd (omega arith)

separator-join :
    (hash : Bytes) (i : ℕ)
    → i < 12
    → get_or (join (32 ∷ []) (groups_of hash)) (6 * i + 5) 0 ≡ (if ltb i 11 then 32 else 0)
unfolding groups_of five_digits join
separator-join hash zero lt = refl
separator-join hash (suc zero) lt = refl
separator-join hash (suc (suc zero)) lt = refl
separator-join hash (suc (suc (suc zero))) lt = refl
separator-join hash (suc (suc (suc (suc zero)))) lt = refl
separator-join hash (suc (suc (suc (suc (suc zero))))) lt = refl
separator-join hash (suc (suc (suc (suc (suc (suc zero)))))) lt = refl
separator-join hash (suc (suc (suc (suc (suc (suc (suc zero))))))) lt = refl
separator-join hash (suc (suc (suc (suc (suc (suc (suc (suc zero)))))))) lt = refl
separator-join hash (suc (suc (suc (suc (suc (suc (suc (suc (suc zero))))))))) lt = refl
separator-join hash (suc (suc (suc (suc (suc (suc (suc (suc (suc (suc zero)))))))))) lt = refl
separator-join hash (suc (suc (suc (suc (suc (suc (suc (suc (suc (suc (suc zero))))))))))) lt = refl
separator-join hash (suc (suc (suc (suc (suc (suc (suc (suc (suc (suc (suc (suc i)))))))))))) lt =
    absurd (omega arith)

-- The two bytes of a group.
group_value_lem :
    (hash : Bytes) (i : ℕ)
    → AreBytes hash
    → group_value hash i % 100000 ≡ get_or hash (2 * i) 0 * 256 + get_or hash (2 * i + 1) 0
unfolding group_value
group_value_lem hash i h =
    let twice : i * 2 ≡ 2 * i = omega arith in
    rw twice (omega (arith, get_or_byte hash (2 * i) h, get_or_byte hash (2 * i + 1) h))

group_at_lem :
    (hash : Bytes) (i : ℕ)
    → AreBytes hash
    → i < 12
    → let group = group_at (join (32 ∷ []) (groups_of hash)) i in
      All (λ c. is_digit c ≡ true) group
      × (parse_u64 group ≡ some (get_or hash (2 * i) 0 * 256 + get_or hash (2 * i + 1) 0))
group_at_lem hash i h lt =
    let n = group_value hash i % 100000 in
    rw (group_at-join hash i lt) (
      AreDigits-five_digits n,
      parse-five_digits n (omega arith) ∙ ap some (group_value_lem hash i h),
    )

module _ (sha256 : Bytes → Bytes) where
  ordered_hash_lem :
      (a b : Bytes) → ordered_hash sha256 a b ≡ sha256 (if slice_le a b then a ++ b else b ++ a)
  unfolding ordered_hash
  ordered_hash_lem a b = ground arith

  -- Where the hash gives bytes, the number has 71 characters: twelve groups of five decimal digits,
  -- with a space behind each but the last. Group i reads as the 16-bit number, high byte first, of the
  -- bytes 2 * i and 2 * i + 1 of the hash of both keys, the smaller key first.
  pub generate_safety_number_groups :
      (a b : Bytes) (i : ℕ)
      → ((m : Bytes) → AreBytes (sha256 m))
      → i < 12
      → let number = generate_safety_number sha256 a b in
        let hash = sha256 (if slice_le a b then a ++ b else b ++ a) in
        (length number ≡ 71)
        × (get_or number (6 * i + 5) 0 ≡ (if ltb i 11 then 32 else 0))
        × All (λ c. is_digit c ≡ true) (group_at number i)
        × (parse_u64 (group_at number i)
            ≡ some (get_or hash (2 * i) 0 * 256 + get_or hash (2 * i + 1) 0))
  unfolding generate_safety_number
  generate_safety_number_groups a b i bytes lt =
      let hash = sha256 (if slice_le a b then a ++ b else b ++ a) in
      let read = group_at_lem hash i (bytes (if slice_le a b then a ++ b else b ++ a)) lt in
      rw (ordered_hash_lem a b) (length-groups hash, separator-join hash i lt, read.0, read.1)

  -- From the hexadecimal forms of two keys of 32 bytes, both users get one and the same result:
  -- the safety number of the keys.
  pub generate_safety_number_from_hex_lem :
      (hex : Hex) (laws : HexLaws hex) (a b : Bytes)
      → AreBytes a
      → AreBytes b
      → length a ≡ 32
      → length b ≡ 32
      → (generate_safety_number_from_hex sha256 hex (hex.encode a) (hex.encode b)
          ≡ ok (generate_safety_number sha256 a b))
        × (generate_safety_number_from_hex sha256 hex (hex.encode b) (hex.encode a)
            ≡ ok (generate_safety_number sha256 a b))
  unfolding generate_safety_number_from_hex
  generate_safety_number_from_hex_lem hex laws a b bytes_a bytes_b size_a size_b = (
    ground (arith, laws.decode-encode a bytes_a, laws.decode-encode b bytes_b),
    ground (
      arith,
      laws.decode-encode a bytes_a,
      laws.decode-encode b bytes_b,
      generate_safety_number_comm sha256 b a,
    ),
  )
