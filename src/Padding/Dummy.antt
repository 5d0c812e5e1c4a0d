-- ===== src/Padding/Dummy.antt =====
-- Cover traffic: `generate_dummy_message` and `is_dummy_message` of
-- crates/vaultex-crypto/src/padding.rs, beside real messages.
use Prim.Native.Nat.{max}
use vaultex.Base.{
  zero, suc, refl, [], ◌∷◌, ℕ, ◌+◌, ◌-◌, ◌^◌, ◌≤◌, ◌<◌, ◌≡◌, ◌∙◌, ap, arith, ◌++◌, ltb, le→ltb,
  if◌then◌else◌, true, false, length, length-set, get_or-set_self, set, Bytes, text, Bool-cases,
  inl, inr,
}
use vaultex.Errors.{ok, err, padding_error}
use vaultex.Padding.{
  to_le_bytes, from_le_bytes, byte_at, min_bucket, pad_message, unpad_message,
  generate_dummy_message, is_dummy_message,
}
use vaultex.Padding.Suffix.{stored_length, stored_length-to_le}
use vaultex.Padding.RoundTrip.{Fills, padded_lem, unpad_message_too_long}

-- The marker spells the largest 32-bit length.
dummy-stored_length :
    (bytes : Bytes) → is_dummy_message bytes ≡ true → stored_length bytes ≡ 4294967295
unfolding is_dummy_message from_le_bytes
dummy-stored_length bytes h = ground arith

holds_mark : (bytes : Bytes) → is_dummy_message bytes ≡ true → 4 ≤ length bytes
unfolding is_dummy_message
holds_mark bytes h = ground arith

-- No message that was padded is taken for cover traffic.
pub is_dummy_message-pad_message :
    (random : ℕ → Bytes) (m padded : Bytes)
    → Fills random
    → pad_message random m ≡ ok padded
    → is_dummy_message padded ≡ false
is_dummy_message-pad_message random m padded fills e =
    let p = padded_lem random m fills in
    let same : padded ≡ (m ++ p.fill) ++ to_le_bytes p.pad_len = cc (e, p.sent) in
    let stored : stored_length padded ≡ p.pad_len =
      ap stored_length same
      ∙ stored_length-to_le (m ++ p.fill) p.pad_len (omega (arith, p.short)) in
    elim (Bool-cases (is_dummy_message padded)) [
      | inr real ↦ real
      | inl dummy ↦ absurd (omega (arith, dummy-stored_length padded dummy, p.short))
    ]

abbrev mark_at : Bytes → ℕ → Bytes
mark_at xs i = set xs i 0xff

abbrev marked : Bytes → ℕ → Bytes
marked xs k = mark_at (mark_at (mark_at (mark_at xs k) (k + 1)) (k + 2)) (k + 3)

mark_at_keeps : (xs : Bytes) (i j : ℕ) → byte_at xs i ≡ 0xff → byte_at (mark_at xs j) i ≡ 0xff
mark_at_keeps [] i j h = h
mark_at_keeps (x ∷ xs) zero zero h = refl
mark_at_keeps (x ∷ xs) (suc i) zero h = h
mark_at_keeps (x ∷ xs) zero (suc j) h = h
mark_at_keeps (x ∷ xs) (suc i) (suc j) h = mark_at_keeps xs i j h

mark_at_marks : (xs : Bytes) (i n : ℕ) → length xs ≡ n → i < n → byte_at (mark_at xs i) i ≡ 0xff
mark_at_marks xs i n e h = get_or-set_self xs i 0xff 0 (omega arith)

length-marked : (xs : Bytes) (k : ℕ) → length (marked xs k) ≡ length xs
length-marked xs k =
    length-set _ (k + 3) 0xff
    ∙ length-set _ (k + 2) 0xff
    ∙ length-set _ (k + 1) 0xff
    ∙ length-set xs k 0xff

-- After the four writes the four bytes hold the marker.
marked_lem :
    (xs : Bytes) (k : ℕ)
    → length xs ≡ k + 4
    → (byte_at (marked xs k) k ≡ 0xff)
      × (byte_at (marked xs k) (k + 1) ≡ 0xff)
      × (byte_at (marked xs k) (k + 2) ≡ 0xff)
      × (byte_at (marked xs k) (k + 3) ≡ 0xff)
marked_lem xs k size =
    let one = mark_at xs k in
    let two = mark_at one (k + 1) in
    let three = mark_at two (k + 2) in
    let size1 : length one ≡ k + 4 = length-set xs k 0xff ∙ size in
    let size2 : length two ≡ k + 4 = length-set one (k + 1) 0xff ∙ size1 in
    let size3 : length three ≡ k + 4 = length-set two (k + 2) 0xff ∙ size2 in
    (
      mark_at_keeps three k (k + 3) (
          mark_at_keeps two k (k + 2)
            (mark_at_keeps one k (k + 1) (mark_at_marks xs k (k + 4) size (omega arith)))),
      mark_at_keeps three (k + 1) (k + 3) (
          mark_at_keeps two (k + 1) (k + 2)
            (mark_at_marks one (k + 1) (k + 4) size1 (omega arith))),
      mark_at_keeps three (k + 2) (k + 3) (mark_at_marks two (k + 2) (k + 4) size2 (omega arith)),
      mark_at_marks three (k + 3) (k + 4) size3 (omega arith),
    )

marked_dummy :
    (xs : Bytes) (k n : ℕ) → length xs ≡ n → n ≡ k + 4 → is_dummy_message (marked xs k) ≡ true
unfolding is_dummy_message
marked_dummy xs k n e e' =
    let size : length (marked xs k) ≡ k + 4 = length-marked xs k ∙ e ∙ e' in
    let offset : k + 4 - 4 ≡ k = omega arith in
    let (a, b, c, d) = marked_lem xs k (e ∙ e') in
    rw (size, offset, le→ltb (k + 4) 4 (omega arith), a, b, c, d)

-- The size of cover traffic: the requested one, raised to the smallest bucket.
abbrev pub dummy_size : ℕ → ℕ
dummy_size size = if ltb size min_bucket then min_bucket else size

-- Cover traffic has the requested size, raised to 256, and is recognised as such.
pub generate_dummy_message_lem :
    (random : ℕ → Bytes) (size : ℕ)
    → Fills random
    → let dummy = generate_dummy_message random size in
      (length dummy ≡ max size 256) × (is_dummy_message dummy ≡ true)
unfolding generate_dummy_message
generate_dummy_message_lem random size fills =
    let n = dummy_size size in
    let big : 256 ≤ n = ground arith in
    let is_max : n ≡ max size 256 = ground arith in
    (
      length-marked (random n) (n - 4) ∙ fills n ∙ is_max,
      marked_dummy (random n) (n - 4) n (fills n) (omega arith),
    )

-- What is recognised as cover traffic and is shorter than 2^32 - 1 bytes never comes back as a
-- message: `unpad_message` refuses it.
pub unpad_message-dummy :
    (bytes : Bytes)
    → is_dummy_message bytes ≡ true
    → length bytes < 2 ^ 32 - 1
    → unpad_message bytes ≡ err (padding_error (text "invalid padding length"))
unpad_message-dummy bytes dummy small =
    unpad_message_too_long bytes (holds_mark bytes dummy)
      (omega (arith, dummy-stored_length bytes dummy))
