-- ===== src/Media/Tests.antt =====
-- Concrete files through crates/vaultex-crypto/src/media.rs.
use vaultex.Base.{◌≡◌, refl, arith, Bytes, length, replicate, [], ◌∷◌}
use vaultex.Errors.{ok}
use vaultex.Crates.Toy.{toy, toy-SecretBoxLaws}
use vaultex.Media.{encrypt_file, decrypt_file, decrypt_file-encrypt_file}

abbrev key : Bytes
key = replicate 32 5

abbrev nonce : Bytes
nonce = replicate 24 6

abbrev photo : Bytes
photo = 255 ∷ 216 ∷ 255 ∷ []

decrypt_file-encrypt_file_example :
    (ciphertext : Bytes) × (encrypt_file toy key nonce photo ≡ ok (ciphertext, key))
    × (length ciphertext ≡ 43)
    × (decrypt_file toy ciphertext key ≡ ok photo)
decrypt_file-encrypt_file_example =
    decrypt_file-encrypt_file toy toy-SecretBoxLaws key nonce photo refl refl (omega arith)
