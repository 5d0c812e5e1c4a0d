-- ===== src/Crates/Kdf.antt =====
-- The crates hkdf and hmac over SHA-256.
use vaultex.Base.{ℕ, ◌*◌, ◌≤◌, ◌≡◌, Option, some, Bytes, length}

pub record Kdf : Type 0 where
  -- `HmacSha256::new_from_slice(key)`, `update(msg)`, `finalize()`; `none` where the key is refused.
  pub hmac : Bytes → Bytes → Option Bytes
  -- `Hkdf::<Sha256>::new(salt, ikm)` and `expand(info, n bytes)`; `none` where it is refused.
  pub hkdf : Option Bytes → Bytes → Bytes → ℕ → Option Bytes

pub record KdfLaws (kdf : Kdf) : Type 0 where
  -- HMAC takes keys of any length, and gives 32 bytes.
  pub hmac_total :
      (key msg : Bytes) → (mac : Bytes) × (length mac ≡ 32) × (kdf.hmac key msg ≡ some mac)
  -- HKDF refuses only an output of more than 255 blocks.
  pub hkdf_total :
      (salt : Option Bytes) (ikm info : Bytes) (n : ℕ)
      → n ≤ 255 * 32
      → (okm : Bytes) × (length okm ≡ n) × (kdf.hkdf salt ikm info n ≡ some okm)
