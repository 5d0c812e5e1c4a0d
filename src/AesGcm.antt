-- ===== src/AesGcm.antt =====
-- crates/vaultex-crypto/src/aes_gcm.rs: authenticated encryption under a 256-bit key. The nonce that
-- `gen_nonce` draws is an argument.
mod Tests
use vaultex.Base.{ℕ, arith, ◌≡◌, Option, some, Bytes, length, if◌then◌else◌, ◌==◌, not}
use vaultex.Errors.{
  Result, ok, ◌>>=◌, ◌>>◌, ok_or, reject_if, init_failed, invalid_key_length, decryption_failed,
}
use vaultex.Crates.Memory.{Memory}
use vaultex.Crates.Sodium.{Sodium, AeadLaws}

abbrev pub key_bytes : ℕ
key_bytes = 32

abbrev pub nonce_bytes : ℕ
nonce_bytes = 24

module _ (na : Sodium) where
  unfoldable pub encrypt : Bytes → Bytes → Bytes → Option Bytes → Result (Bytes × Bytes)
  encrypt nonce key plaintext associated_data = do
    reject_if (not na.init) init_failed
    aead_key ← ok_or (na.aead_key_from_slice key) (invalid_key_length key_bytes (length key))
    ok (nonce, na.aead_seal plaintext associated_data nonce aead_key)

  unfoldable pub decrypt : Bytes → Bytes → Bytes → Option Bytes → Result Bytes
  decrypt key nonce ciphertext associated_data = do
    aead_key ← ok_or (na.aead_key_from_slice key) (invalid_key_length key_bytes (length key))
    aead_nonce ←
        ok_or (na.aead_nonce_from_slice nonce) (invalid_key_length nonce_bytes (length nonce))
    ok_or (na.aead_open ciphertext associated_data aead_nonce aead_key) decryption_failed

  module _ (laws : AeadLaws na) (nonce key plaintext : Bytes) (ad : Option Bytes) where
    pub encrypt_lem :
        length key ≡ 32
        → encrypt nonce key plaintext ad ≡ ok (nonce, na.aead_seal plaintext ad nonce key)
    unfolding encrypt
    encrypt_lem h = rw (laws.initialised, laws.key_length.fits key h)

    -- What was encrypted decrypts under the same key and associated data.
    pub decrypt-seal :
        length key ≡ 32
        → length nonce ≡ 24
        → decrypt key nonce (na.aead_seal plaintext ad nonce key) ad ≡ ok plaintext
    unfolding decrypt
    decrypt-seal h k = rw (
      laws.key_length.fits key h,
      laws.nonce_length.fits nonce k,
      laws.open-seal plaintext ad nonce key,
    )

-- `EncryptionKey`: the bytes of its key.
pub record EncryptionKey : Type 0 where
  pub key : Bytes

unfoldable pub new : Bytes → EncryptionKey
new key = record { key = key }

unfoldable pub as_bytes : EncryptionKey → Bytes
as_bytes self = self.key

module _ (memory : Memory) where
  unfoldable pub zeroize : EncryptionKey → EncryptionKey
  zeroize self = record { key = memory.zeroize self.key }

  unfoldable pub wipe_on_drop : EncryptionKey → EncryptionKey
  unfolding zeroize
  wipe_on_drop self = zeroize self

unfoldable pub from_slice : Bytes → Result EncryptionKey
from_slice slice = do
  reject_if (not (length slice == 32)) (invalid_key_length 32 (length slice))
  let wrapper : EncryptionKey = record { key = slice }
  ok wrapper

module _ (na : Sodium) where
  unfoldable pub encrypt_with :
      EncryptionKey → Bytes → Bytes → Option Bytes → Result (Bytes × Bytes)
  unfolding encrypt
  encrypt_with self nonce plaintext ad = encrypt na nonce self.key plaintext ad

  unfoldable pub decrypt_with : EncryptionKey → Bytes → Bytes → Option Bytes → Result Bytes
  unfolding decrypt
  decrypt_with self nonce ciphertext ad = decrypt na self.key nonce ciphertext ad

  -- A slice of 32 bytes is a key, and what the key encrypts under a nonce of 24 bytes, it decrypts under
  -- the same associated data.
  pub decrypt_with-encrypt_with :
      (laws : AeadLaws na) (slice nonce plaintext : Bytes) (ad : Option Bytes)
      → length slice ≡ 32
      → length nonce ≡ 24
      → (k : EncryptionKey) × (from_slice slice ≡ ok k)
        × ((encrypt_with k nonce plaintext ad >>= λ (sealed : Bytes × Bytes).
              decrypt_with k sealed.0 sealed.1 ad)
            ≡ ok plaintext)
  unfolding from_slice encrypt_with decrypt_with
  decrypt_with-encrypt_with laws slice nonce plaintext ad sized nonce_sized = (
    record { key = slice },
    ground arith,
    rw (encrypt_lem na laws nonce slice plaintext ad sized)
        (decrypt-seal na laws nonce slice plaintext ad sized nonce_sized),
  )
