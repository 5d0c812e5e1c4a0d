-- ===== src/Padding/RoundTrip.antt =====
-- `pad_message` and `unpad_message` of crates/vaultex-crypto/src/padding.rs, together.
use vaultex.Base.{
  ℕ, zero, suc, ◌<◌, ◌+◌, ◌-◌, ◌%◌, ◌^◌, ◌≤◌, ◌≡◌, refl, ◌∙◌, ap, arith, [], ◌∷◌, ◌++◌,
  append_assoc, append-nil, ltb, lt→ltb, le→ltb, length, length-append, take, take-append,
  take-append-drop, drop, length-drop, Bytes, AreBytes, text, Bool-cases, inl, inr,
}
use vaultex.Errors.{ok, err, ◌>>=◌, padding_error}
use vaultex.Padding.{to_le_bytes, from_le_bytes, pad_message, unpad_message, bucket_size}
use vaultex.Padding.Bucket.{
  IsBucket, bucket_size_room, bucket_size_excess, bucket_size-IsBucket, bucket_size_least,
}
use vaultex.Padding.Suffix.{
  stored_length, stored_length-to_le, stored_length-append, to_le-from_le, ends_in_four,
}

-- `randombytes_into` fills the buffer that it is given.
abbrev pub Fills : (ℕ → Bytes) → Type 0
Fills random = (n : ℕ) → length (random n) ≡ n

-- What is sent for a message: the text, its padding, and the number of bytes added.
pub record Padded (random : ℕ → Bytes) (m : Bytes) : Type 0 where
  pub fill : Bytes
  pub pad_len : ℕ
  pub sent : pad_message random m ≡ ok ((m ++ fill) ++ to_le_bytes pad_len)
  pub counted : pad_len ≡ length fill + 4
  pub filled : length m + pad_len ≡ bucket_size (length m)
  pub short : pad_len ≤ 65540

pub padded_lem : (random : ℕ → Bytes) (m : Bytes) → Fills random → Padded random m
padded_lem random m fills =
    let room = bucket_size_room (length m) in
    let excess = bucket_size_excess (length m) in
    let pad_len = bucket_size (length m) - length m in
    elim (Bool-cases (ltb 0 (pad_len - 4))) [
      | inl some_fill ↦ record {
        fill = random (pad_len - 4);
        pad_len = pad_len;
        sent =
            unfold pad_message in
            rw (le→ltb pad_len 4 (omega arith), some_fill, wraps pad_len (omega arith));
        counted = rw (fills (pad_len - 4)) (omega arith);
        filled = omega arith;
        short = omega arith;
      }
      | inr no_fill ↦ record {
        fill = [];
        pad_len = pad_len;
        sent =
            unfold pad_message in
            rw (le→ltb pad_len 4 (omega arith), no_fill, wraps pad_len (omega arith), append-nil);
        counted = ground arith;
        filled = omega arith;
        short = omega arith;
      }
    ]
  where
    wraps : (n : ℕ) → n ≤ 65540 → n % 2 ^ 32 ≡ n
    wraps n h = omega arith

-- The function by what its tests say, on the number in the last four bytes.
pub unpad_message_ok :
    (padded : Bytes)
    → 4 ≤ stored_length padded
    → stored_length padded ≤ length padded
    → unpad_message padded ≡ ok (take (length padded - stored_length padded) padded)
unfolding unpad_message
unpad_message_ok padded lo hi = rw (
  le→ltb (length padded) 4 (omega arith),
  le→ltb (stored_length padded) 4 lo,
  le→ltb (length padded) (stored_length padded) hi,
)

-- A length that the suffix announces and that does not fit is refused.
pub unpad_message_too_long :
    (padded : Bytes)
    → 4 ≤ length padded
    → length padded < stored_length padded
    → unpad_message padded ≡ err (padding_error (text "invalid padding length"))
unfolding unpad_message
unpad_message_too_long padded lo hi = rw (
  le→ltb (length padded) 4 lo,
  le→ltb (stored_length padded) 4 (omega arith),
  lt→ltb (length padded) (stored_length padded) hi,
)

pub unpad_message_inversion :
    (padded m : Bytes)
    → unpad_message padded ≡ ok m
    → (4 ≤ stored_length padded)
      × (stored_length padded ≤ length padded)
      × (m ≡ take (length padded - stored_length padded) padded)
unfolding unpad_message
unpad_message_inversion padded m h = ground arith

length-to_le_bytes : (n : ℕ) → length (to_le_bytes n) ≡ 4
unfolding to_le_bytes
length-to_le_bytes n = refl

pub padded_size :
    (m fill : Bytes) (pad_len : ℕ)
    → pad_len ≡ length fill + 4
    → length ((m ++ fill) ++ to_le_bytes pad_len) ≡ length m + pad_len
padded_size m fill pad_len e = omega (
  arith,
  length-append (m ++ fill) (to_le_bytes pad_len),
  length-append m fill,
  length-to_le_bytes pad_len,
)

-- Cutting the padding off leaves the message.
body :
    (m fill : Bytes) (pad_len : ℕ) (suffix : Bytes)
    → take (length m + pad_len - pad_len) ((m ++ fill) ++ suffix) ≡ m
body m fill pad_len suffix =
    let size : length m + pad_len - pad_len ≡ length m = omega arith in
    rw (size, append_assoc m fill suffix) (take-append m (fill ++ suffix))

-- Padding any message succeeds, and unpadding the result gives the message back, whatever the
-- random fill is.
pub unpad_message-pad_message :
    (random : ℕ → Bytes) (m : Bytes)
    → Fills random
    → (pad_message random m >>= unpad_message) ≡ ok m
unpad_message-pad_message random m fills =
    let p = padded_lem random m fills in
    let padded = (m ++ p.fill) ++ to_le_bytes p.pad_len in
    let stored : stored_length padded ≡ p.pad_len =
      stored_length-to_le (m ++ p.fill) p.pad_len (omega (arith, p.short)) in
    let size : length padded ≡ length m + p.pad_len = padded_size m p.fill p.pad_len p.counted in
    rw
      (
        p.sent,
        unpad_message_ok padded (rw stored (omega (arith, p.counted)))
            (rw (stored, size) (omega arith)),
        stored,
        size,
      )
      (ap ok (body m p.fill p.pad_len (to_le_bytes p.pad_len)))

-- Padding any message succeeds, and the bytes that are sent fill a bucket with room for the message
-- and the four length bytes.
pub pad_message-IsBucket :
    (random : ℕ → Bytes) (m : Bytes)
    → Fills random
    → (padded : Bytes) × (pad_message random m ≡ ok padded)
      × IsBucket (length padded)
      × (length m + 4 ≤ length padded)
pad_message-IsBucket random m fills =
    let p = padded_lem random m fills in
    let padded = (m ++ p.fill) ++ to_le_bytes p.pad_len in
    let size : length padded ≡ bucket_size (length m) =
      padded_size m p.fill p.pad_len p.counted ∙ p.filled in
    (
      padded,
      p.sent,
      rw size (bucket_size-IsBucket (length m)),
      rw size (bucket_size_room (length m)),
    )

-- The number of bytes sent depends on the message's length alone.
pub length-pad_message :
    (random : ℕ → Bytes) (m : Bytes) (padded : Bytes)
    → Fills random
    → pad_message random m ≡ ok padded
    → length padded ≡ bucket_size (length m)
length-pad_message random m padded fills e =
    let p = padded_lem random m fills in
    let same : padded ≡ (m ++ p.fill) ++ to_le_bytes p.pad_len = cc (e, p.sent) in
    rw same (padded_size m p.fill p.pad_len p.counted ∙ p.filled)

-- Where the random source gives as many bytes as it is asked for: no allowed bucket size with room for
-- the message and the four length bytes is smaller than the padded message.
pub length-pad_message_least :
    (random : ℕ → Bytes) (m padded : Bytes) (b : ℕ)
    → Fills random
    → pad_message random m ≡ ok padded
    → IsBucket b
    → length m + 4 ≤ b
    → length padded ≤ b
length-pad_message_least random m padded b fills e is_bucket room =
    rw (length-pad_message random m padded fills e) (bucket_size_least (length m) b is_bucket room)

all_four :
    (xs : Bytes) (a b c d : ℕ) → AreBytes (xs ++ a ∷ b ∷ c ∷ d ∷ []) → AreBytes (a ∷ b ∷ c ∷ d ∷ [])
all_four [] a b c d h = h
all_four (x ∷ xs) a b c d h = all_four xs a b c d h.1

take-append_le : (n : ℕ) (xs ys : Bytes) → n ≤ length xs → take n (xs ++ ys) ≡ take n xs
take-append_le zero xs ys h = refl
take-append_le (suc n) [] ys h = absurd (omega arith)
take-append_le (suc n) (x ∷ xs) ys h = ap (λ t. x ∷ t) (take-append_le n xs ys (omega arith))

sound :
    (xs : Bytes) (a b c d : ℕ) (m padded : Bytes)
    → padded ≡ xs ++ a ∷ b ∷ c ∷ d ∷ []
    → AreBytes padded
    → 4 ≤ stored_length padded
    → stored_length padded ≤ length padded
    → m ≡ take (length padded - stored_length padded) padded
    → (fill : Bytes) × (padded ≡ (m ++ fill) ++ to_le_bytes (length fill + 4))
sound xs a b c d m padded whole bytes lo hi cut =
    let stored : stored_length padded ≡ from_le_bytes a b c d =
      rw whole (stored_length-append xs a b c d) in
    let size : length padded ≡ length xs + 4 = rw whole (length-append xs _) in
    let n = length padded - stored_length padded in
    let front : m ≡ take n xs =
      cut ∙ ap (take n) whole ∙ take-append_le n xs (a ∷ b ∷ c ∷ d ∷ []) (omega arith) in
    let rest : length (drop n xs) + 4 ≡ from_le_bytes a b c d = omega (arith, length-drop n xs) in
    let four = all_four xs a b c d (rw whole at bytes) in
    (
      drop n xs,
      rw
          (
            rest,
            to_le-from_le a b c d four.0 four.1.0 four.1.1.0 four.1.1.1.0,
            front,
            take-append-drop n xs,
          )
          whole,
    )

-- A byte string that is accepted is the message that comes back, some fill, and the four
-- little-endian bytes of the number of bytes behind the message.
pub unpad_message_sound :
    (padded m : Bytes)
    → AreBytes padded
    → unpad_message padded ≡ ok m
    → (fill : Bytes) × (padded ≡ (m ++ fill) ++ to_le_bytes (length fill + 4))
unpad_message_sound padded m bytes accepted =
    let (lo, hi, cut) = unpad_message_inversion padded m accepted in
    let (xs, a, b, c, d, whole) = ends_in_four padded (omega arith) in
    sound xs a b c d m padded whole bytes lo hi cut
