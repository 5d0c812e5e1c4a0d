-- ===== src/Padding.antt =====
-- crates/vaultex-crypto/src/padding.rs: messages are padded to buckets, so that a ciphertext does
-- not show the length of its message.
pub mod Bucket
pub mod Suffix
pub mod RoundTrip
pub mod Dummy
mod Tests
use vaultex.Base.{
  ℕ, zero, suc, ◌+◌, ◌-◌, ◌*◌, ◌/◌, ◌%◌, ◌^◌, Bool, false, ◌&&◌, ◌||◌, [], ◌∷◌, ◌++◌, ltb, leb,
  ◌==◌, if◌then◌else◌, length, take, get_or, set, Bytes, text,
}
use vaultex.Errors.{Result, ok, err, padding_error}

abbrev pub min_bucket : ℕ
min_bucket = 256

abbrev pub max_bucket : ℕ
max_bucket = 65536

abbrev pub pad_len_bytes : ℕ
pad_len_bytes = 4

-- `usize::next_power_of_two`, up to 2^63: the first power of two that is not below n, by doubling. Above
-- 2^63 the standard library's function overflows; `bucket_size` calls it up to 65536.
doubled : ℕ → ℕ → ℕ → ℕ
doubled zero p n = p
doubled (suc fuel) p n = let next = doubled fuel (2 * p) n in if ltb p n then next else p

pub next_power_of_two : ℕ → ℕ
unfolding doubled
next_power_of_two n = doubled 64 1 n

-- `usize::div_ceil`.
pub div_ceil : ℕ → ℕ → ℕ
div_ceil a b = if a % b == 0 then a / b else a / b + 1

pub bucket_size : ℕ → ℕ
unfolding next_power_of_two div_ceil
bucket_size len =
    let needed = len + pad_len_bytes in
    if leb needed min_bucket
    then min_bucket
    else if leb needed max_bucket
    then next_power_of_two needed
    else div_ceil needed max_bucket * max_bucket

-- `u32::to_le_bytes` and `u32::from_le_bytes`.
unfoldable pub to_le_bytes : ℕ → Bytes
to_le_bytes n = n % 256 ∷ (n / 256) % 256 ∷ (n / 65536) % 256 ∷ (n / 16777216) % 256 ∷ []

unfoldable pub from_le_bytes : ℕ → ℕ → ℕ → ℕ → ℕ
from_le_bytes a b c d = a + 256 * b + 65536 * c + 16777216 * d

-- `randombytes_into` a buffer of n bytes is the argument `random n`.
pub pad_message : (ℕ → Bytes) → Bytes → Result Bytes
pad_message random plaintext =
    let target = bucket_size (length plaintext) in
    let pad_len = target - length plaintext in
    if ltb pad_len pad_len_bytes
    then err (padding_error (text "computed padding too small for length encoding"))
    else let fill_len = pad_len - pad_len_bytes in
      let filled = if ltb 0 fill_len then plaintext ++ random fill_len else plaintext in
      ok (filled ++ to_le_bytes (pad_len % 2 ^ 32))

-- `data[i]`. Every index of the code is in range: where one were not, Rust would panic.
abbrev pub byte_at : Bytes → ℕ → ℕ
byte_at data_bytes i = get_or data_bytes i 0

pub unpad_message : Bytes → Result Bytes
unpad_message padded =
    if ltb (length padded) pad_len_bytes
    then err (padding_error (text "padded message too short"))
    else let offset = length padded - pad_len_bytes in
      let pad_len =
        from_le_bytes (byte_at padded offset) (byte_at padded (offset + 1))
          (byte_at padded (offset + 2)) (byte_at padded (offset + 3)) in
      if ltb pad_len pad_len_bytes || ltb (length padded) pad_len
      then err (padding_error (text "invalid padding length"))
      else ok (take (length padded - pad_len) padded)

-- The bytes of the buffer are those of `randombytes_into`, then the last four are overwritten.
pub generate_dummy_message : (ℕ → Bytes) → ℕ → Bytes
generate_dummy_message random size =
    let actual_size = if ltb size min_bucket then min_bucket else size in
    let mark = actual_size - pad_len_bytes in
    set (set (set (set (random actual_size) mark 0xff) (mark + 1) 0xff) (mark + 2) 0xff) (mark + 3)
      0xff

pub is_dummy_message : Bytes → Bool
is_dummy_message bytes =
    if ltb (length bytes) pad_len_bytes
    then false
    else let offset = length bytes - pad_len_bytes in
      byte_at bytes offset == 0xff
      && byte_at bytes (offset + 1) == 0xff
      && byte_at bytes (offset + 2) == 0xff
      && byte_at bytes (offset + 3) == 0xff
