-- ===== src/Media.antt =====
-- crates/vaultex-crypto/src/media.rs: the encryption of attachments. The key and the nonce that
-- `gen_key` and `gen_nonce` draw are arguments.
mod Tests
use vaultex.Base.{
  ℕ, ◌+◌, ◌-◌, ◌*◌, ◌≤◌, ◌<◌, ◌≡◌, refl, sym, ap, ◌∙◌, arith, not, ltb, le→ltb, lt→ltb, Bool, true,
  false, ◌++◌, [], Bytes, length, take, drop, replicate, take-append, drop-append, length-append,
  Option-cases, inl, inr, Option, none, some,
}
use vaultex.Errors.{
  Result, ok, err, ◌>>=◌, ◌>>◌, ok_or, reject_if, init_failed, encryption_failed, decryption_failed,
  invalid_key_length,
}
use vaultex.Crates.Memory.{Memory}
use vaultex.Crates.Sodium.{Sodium, SecretBoxLaws}

abbrev pub max_file_size : ℕ
max_file_size = 100 * 1024 * 1024

abbrev pub nonce_bytes : ℕ
nonce_bytes = 24

abbrev pub mac_bytes : ℕ
mac_bytes = 16

module _ (na : Sodium) where
  -- The ciphertext, with the nonce in front, and the file key.
  unfoldable pub encrypt_file : Bytes → Bytes → Bytes → Result (Bytes × Bytes)
  encrypt_file key nonce plaintext = do
    reject_if (ltb max_file_size (length plaintext)) encryption_failed
    reject_if (not na.init) init_failed
    let ciphertext = na.secretbox_seal plaintext nonce key
    ok (nonce ++ ciphertext, key)

  unfoldable pub decrypt_file : Bytes → Bytes → Result Bytes
  decrypt_file ciphertext key = do
    reject_if (ltb (length ciphertext) (nonce_bytes + mac_bytes)) decryption_failed
    nonce ← ok_or (na.secretbox_nonce_from_slice (take nonce_bytes ciphertext)) decryption_failed
    secret_key ← ok_or (na.secretbox_key_from_slice key) (invalid_key_length 32 (length key))
    ok_or (na.secretbox_open (drop nonce_bytes ciphertext) nonce secret_key) decryption_failed

  module _ (laws : SecretBoxLaws na) where
    take-nonce : (nonce rest : Bytes) → length nonce ≡ 24 → take 24 (nonce ++ rest) ≡ nonce
    take-nonce nonce rest h = ap (λ n. take n (nonce ++ rest)) (sym h) ∙ take-append nonce rest

    drop-nonce : (nonce rest : Bytes) → length nonce ≡ 24 → drop 24 (nonce ++ rest) ≡ rest
    drop-nonce nonce rest h = ap (λ n. drop n (nonce ++ rest)) (sym h) ∙ drop-append nonce rest

    -- A file of at most 100 MiB is encrypted, with a key of 32 bytes and a nonce of 24, to 40
    -- bytes more than it has, and decrypts under the key that is returned.
    pub decrypt_file-encrypt_file :
        (key nonce plaintext : Bytes)
        → length key ≡ 32
        → length nonce ≡ 24
        → length plaintext ≤ max_file_size
        → (ciphertext : Bytes) × (encrypt_file key nonce plaintext ≡ ok (ciphertext, key))
          × (length ciphertext ≡ length plaintext + 40)
          × (decrypt_file ciphertext key ≡ ok plaintext)
    unfolding encrypt_file decrypt_file
    decrypt_file-encrypt_file key nonce plaintext key_size nonce_size small =
        let sealed = na.secretbox_seal plaintext nonce key in
        let size : length (nonce ++ sealed) ≡ length plaintext + 40 =
          omega
            (arith, length-append nonce sealed, laws.length-secretbox_seal plaintext nonce key) in
        (
          nonce ++ sealed,
          ground (arith, laws.ready, le→ltb max_file_size (length plaintext) small),
          size,
          ground (
            arith,
            le→ltb (length (nonce ++ sealed)) 40 (omega arith),
            take-nonce nonce sealed nonce_size,
            drop-nonce nonce sealed nonce_size,
            laws.secretbox_nonce_length.fits nonce nonce_size,
            laws.secretbox_key_length.fits key key_size,
            laws.secretbox_open-seal plaintext nonce key,
          ),
        )

-- What is sent about a file, inside an encrypted message.
pub record FileMetadata : Type 0 where
  pub filename : Bytes
  pub mime_type : Bytes
  pub size : ℕ
  pub thumbnail : Option Bytes

pub record FileEncryptionKey : Type 0 where
  pub key : Bytes

unfoldable pub new : Bytes → FileEncryptionKey
new key = record { key = key }

unfoldable pub as_bytes : FileEncryptionKey → Bytes
as_bytes self = self.key

module _ (memory : Memory) where
  unfoldable pub zeroize : FileEncryptionKey → FileEncryptionKey
  zeroize self = record { key = memory.zeroize self.key }

  unfoldable pub wipe_on_drop : FileEncryptionKey → FileEncryptionKey
  unfolding zeroize
  wipe_on_drop self = zeroize self
