-- ===== src/Identity.antt =====
-- crates/vaultex-crypto/src/identity.rs: the long-term Ed25519 key pair. What `gen_keypair` draws is
-- an argument; the debug assertions on the draw are not modelled. What a wiped key pair holds is the
-- value of `zeroize`.
pub mod Laws
pub mod Fingerprint
mod Tests
use vaultex.Base.{
  ℕ, zero, suc, ◌+◌, ◌/◌, ◌%◌, Bool, not, ltb, if◌then◌else◌, List, [], ◌∷◌, ◌++◌, map, Bytes,
  length, take,
}
use vaultex.Errors.{Result, ok, ◌>>=◌, ◌>>◌, ok_or, reject_if, init_failed, invalid_key_length}
use vaultex.Crates.Memory.{Memory}
use vaultex.Crates.Sodium.{Sodium}

pub record IdentityKeyPair : Type 0 where
  pub public_key : Bytes
  pub secret_key : Bytes

module _ (na : Sodium) where
  unfoldable pub generate : Bytes × Bytes → Result IdentityKeyPair
  generate (pk, sk) = do
    reject_if (not na.init) init_failed
    let pair : IdentityKeyPair = record { public_key = pk; secret_key = sk }
    ok pair

  unfoldable pub from_bytes : Bytes → Bytes → Result IdentityKeyPair
  from_bytes public_key secret_key = do
    pk ←
        ok_or (na.sign_public_key_from_slice public_key) (invalid_key_length 32 (length public_key))
    sk ←
        ok_or (na.sign_secret_key_from_slice secret_key) (invalid_key_length 64 (length secret_key))
    let pair : IdentityKeyPair = record { public_key = pk; secret_key = sk }
    ok pair

  unfoldable pub sign : IdentityKeyPair → Bytes → Bytes
  sign identity message = na.sign_detached message identity.secret_key

  unfoldable pub verify : Bytes → Bytes → Bytes → Bool
  verify public_key message signature = na.verify_detached signature message public_key

unfoldable pub secret_key : IdentityKeyPair → Bytes
secret_key self = self.secret_key

-- The bytes are a copy, whose wiping is left to the caller.
unfoldable pub secret_key_bytes : IdentityKeyPair → Bytes
secret_key_bytes self = self.secret_key

module _ (memory : Memory) where
  -- `SecretKeyWrapper::zeroize`, in its key pair.
  unfoldable pub zeroize : IdentityKeyPair → IdentityKeyPair
  zeroize self = record self { secret_key = memory.zeroize self.secret_key }

  unfoldable pub wipe_on_drop : IdentityKeyPair → IdentityKeyPair
  unfolding zeroize
  wipe_on_drop self = zeroize self

-- A digit of `{:X}`.
abbrev pub hex_digit : ℕ → ℕ
hex_digit d = if ltb d 10 then b'0' + d else b'7' + d

-- `format!("{:02X}", byte)`.
unfoldable pub upper_hex : ℕ → Bytes
upper_hex byte = hex_digit (byte / 16) ∷ hex_digit (byte % 16) ∷ []

-- `chunks(2)`, on a slice of even length.
unfoldable pub chunks_of_two : Bytes → List (ℕ × ℕ)
chunks_of_two (a ∷ b ∷ rest) = (a, b) ∷ chunks_of_two rest
chunks_of_two _ = []

-- `join` of a slice of strings.
unfoldable pub join : Bytes → List Bytes → Bytes
join separator [] = []
join separator (x ∷ []) = x
join separator (x ∷ y ∷ xs) = x ++ separator ++ join separator (y ∷ xs)

-- The middle dot in UTF-8.
abbrev pub middle_dot : Bytes
middle_dot = 0xc2 ∷ 0xb7 ∷ []

unfoldable pub public_key_fingerprint : IdentityKeyPair → Bytes
public_key_fingerprint identity = join middle_dot (
    map (λ (chunk : ℕ × ℕ). upper_hex chunk.0 ++ upper_hex chunk.1)
      (chunks_of_two (take 8 identity.public_key)))
