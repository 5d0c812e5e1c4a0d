-- ===== src/Padding/Tests.antt =====
-- Concrete messages through crates/vaultex-crypto/src/padding.rs.
use vaultex.Base.{
  ℕ, ◌+◌, ◌≤◌, ◌≡◌, refl, Bytes, text, length, replicate, length-replicate, arith, true, ◌++◌, [],
  ◌∷◌, inl,
}
use vaultex.Errors.{ok, err, ◌>>=◌, padding_error}
use vaultex.Padding.{
  pad_message, unpad_message, bucket_size, to_le_bytes, from_le_bytes, is_dummy_message,
}
use vaultex.Padding.Bucket.{IsBucket}
use vaultex.Padding.RoundTrip.{
  Fills, unpad_message-pad_message, pad_message-IsBucket, unpad_message_sound,
  length-pad_message_least,
}
use vaultex.Padding.Dummy.{unpad_message-dummy}

abbrev letters : ℕ → Bytes
letters n = replicate n 65

letters-Fills : Fills letters
letters-Fills n = length-replicate n 65

abbrev hello : Bytes
hello = 104 ∷ 101 ∷ 108 ∷ 108 ∷ 111 ∷ []

abbrev sent_hello : Bytes
sent_hello = hello ++ replicate 247 65 ++ (251 ∷ 0 ∷ 0 ∷ 0 ∷ [])

pads_hello : pad_message letters hello ≡ ok sent_hello
unfolding pad_message bucket_size to_le_bytes
pads_hello = refl

unpads_hello : unpad_message sent_hello ≡ ok hello
unfolding unpad_message from_le_bytes
unpads_hello = refl

unpad_message-pad_message_example : (pad_message letters hello >>= unpad_message) ≡ ok hello
unpad_message-pad_message_example = unpad_message-pad_message letters hello letters-Fills

pad_message-IsBucket_example :
    (padded : Bytes) × (pad_message letters hello ≡ ok padded)
    × IsBucket (length padded)
    × (length hello + 4 ≤ length padded)
pad_message-IsBucket_example = pad_message-IsBucket letters hello letters-Fills

small-IsBucket : IsBucket 512
small-IsBucket = inl (9, omega arith, omega arith, refl)

length-pad_message_least_example : length sent_hello ≤ 512
length-pad_message_least_example =
    length-pad_message_least letters hello sent_hello 512 letters-Fills pads_hello small-IsBucket
      (omega arith)

unpad_message_sound_example :
    (fill : Bytes) × (sent_hello ≡ (hello ++ fill) ++ to_le_bytes (length fill + 4))
unpad_message_sound_example = unpad_message_sound sent_hello hello (ground arith) unpads_hello

abbrev cover : Bytes
cover = replicate 252 65 ++ replicate 4 0xff

cover_marked : is_dummy_message cover ≡ true
unfolding is_dummy_message
cover_marked = refl

unpad_message-dummy_example :
    unpad_message cover ≡ err (padding_error (text "invalid padding length"))
unpad_message-dummy_example = unpad_message-dummy cover cover_marked (omega arith)
