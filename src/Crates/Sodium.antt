-- ===== src/Crates/Sodium.antt =====
-- The operations of the crate sodiumoxide (and of libsodium_sys) that the program calls. A key, a
-- nonce or a signature is its bytes. What a call draws at random is an argument of the caller.
use vaultex.Base.{ℕ, ◌+◌, ◌≡◌, Bool, true, Option, none, some, ◌≢◌, Bytes, length}

pub record Sodium : Type 0 where
  -- `sodiumoxide::init().is_ok()`
  pub init : Bool
  -- crypto::aead::xchacha20poly1305_ietf
  pub aead_key_from_slice : Bytes → Option Bytes
  pub aead_nonce_from_slice : Bytes → Option Bytes
  pub aead_seal : Bytes → Option Bytes → Bytes → Bytes → Bytes
  pub aead_open : Bytes → Option Bytes → Bytes → Bytes → Option Bytes
  -- crypto::box_ keys, and crypto::scalarmult::curve25519
  pub public_key_from_slice : Bytes → Option Bytes
  pub secret_key_from_slice : Bytes → Option Bytes
  pub scalar_from_slice : Bytes → Option Bytes
  pub group_element_from_slice : Bytes → Option Bytes
  pub scalarmult : Bytes → Bytes → Option Bytes
  -- crypto::sign
  pub sign_public_key_from_slice : Bytes → Option Bytes
  pub sign_secret_key_from_slice : Bytes → Option Bytes
  pub signature_from_bytes : Bytes → Option Bytes
  pub sign_detached : Bytes → Bytes → Bytes
  pub verify_detached : Bytes → Bytes → Bytes → Bool
  -- libsodium_sys: `none` where the function does not return 0
  pub ed25519_pk_to_curve25519 : Bytes → Option Bytes
  pub ed25519_sk_to_curve25519 : Bytes → Option Bytes
  -- crypto::sealedbox: the first argument of `seal` is its ephemeral draw
  pub sealedbox_seal : Bytes → Bytes → Bytes → Bytes
  pub sealedbox_open : Bytes → Bytes → Bytes → Option Bytes
  -- crypto::box_
  pub box_nonce_from_slice : Bytes → Option Bytes
  pub box_seal : Bytes → Bytes → Bytes → Bytes → Bytes
  pub box_open : Bytes → Bytes → Bytes → Bytes → Option Bytes
  -- crypto::secretbox
  pub secretbox_nonce_from_slice : Bytes → Option Bytes
  pub secretbox_key_from_slice : Bytes → Option Bytes
  pub secretbox_seal : Bytes → Bytes → Bytes → Bytes
  pub secretbox_open : Bytes → Bytes → Bytes → Option Bytes

-- `from_slice` gives a value exactly when the slice has the length of the type.
pub record TakesLength (n : ℕ) (from_slice : Bytes → Option Bytes) : Type 0 where
  pub fits : (b : Bytes) → length b ≡ n → from_slice b ≡ some b
  pub misfits : (b : Bytes) → length b ≢ n → from_slice b ≡ none

pub record AeadLaws (na : Sodium) : Type 0 where
  pub initialised : na.init ≡ true
  pub key_length : TakesLength 32 na.aead_key_from_slice
  pub nonce_length : TakesLength 24 na.aead_nonce_from_slice
  -- What was sealed opens under the same key, nonce and associated data.
  pub open-seal :
      (plaintext : Bytes) (ad : Option Bytes) (nonce key : Bytes)
      → na.aead_open (na.aead_seal plaintext ad nonce key) ad nonce key ≡ some plaintext

pub record CurveLaws (na : Sodium) : Type 0 where
  pub public_length : TakesLength 32 na.public_key_from_slice
  pub secret_length : TakesLength 32 na.secret_key_from_slice
  pub scalar_length : TakesLength 32 na.scalar_from_slice
  pub group_length : TakesLength 32 na.group_element_from_slice
  -- The public key of a secret key (`crypto_scalarmult_base`).
  pub public_of : Bytes → Bytes
  pub length-public_of : (sk : Bytes) → length sk ≡ 32 → length (public_of sk) ≡ 32
  -- Both sides of an exchange between key pairs get the same 32 bytes.
  pub agree :
      (a b : Bytes)
      → length a ≡ 32
      → length b ≡ 32
      → (shared : Bytes) × (length shared ≡ 32)
        × (na.scalarmult a (public_of b) ≡ some shared)
        × (na.scalarmult b (public_of a) ≡ some shared)

-- What `gen_keypair` returns.
pub record IsKeyPair (na : Sodium) (laws : CurveLaws na) (pair : Bytes × Bytes) : Type 0 where
  pub length_secret : length pair.1 ≡ 32
  pub public_eq : pair.0 ≡ laws.public_of pair.1

pub record SignLaws (na : Sodium) (curve : CurveLaws na) : Type 0 where
  pub sign_public_length : TakesLength 32 na.sign_public_key_from_slice
  pub sign_secret_length : TakesLength 64 na.sign_secret_key_from_slice
  pub signature_length : TakesLength 64 na.signature_from_bytes
  -- The public key of a signing key.
  pub verifying_key : Bytes → Bytes
  pub length-verifying_key : (sk : Bytes) → length sk ≡ 64 → length (verifying_key sk) ≡ 32
  pub length-sign_detached : (m sk : Bytes) → length (na.sign_detached m sk) ≡ 64
  pub verify-sign :
      (m sk : Bytes)
      → length sk ≡ 64
      → na.verify_detached (na.sign_detached m sk) m (verifying_key sk) ≡ true
  -- A signing key pair converts to a key pair of the curve.
  pub converts :
      (sk : Bytes)
      → length sk ≡ 64
      → (x : Bytes) × (length x ≡ 32)
        × (na.ed25519_sk_to_curve25519 sk ≡ some x)
        × (na.ed25519_pk_to_curve25519 (verifying_key sk) ≡ some (curve.public_of x))

pub record BoxLaws (na : Sodium) (curve : CurveLaws na) : Type 0 where
  pub box_nonce_length : TakesLength 24 na.box_nonce_from_slice
  pub sealedbox_open-seal :
      (draw m sk : Bytes)
      → length sk ≡ 32
      → na.sealedbox_open (na.sealedbox_seal draw m (curve.public_of sk)) (curve.public_of sk) sk
        ≡ some m
  -- A box from a to b opens at b, as one from a.
  pub box_open-seal :
      (m nonce a b : Bytes)
      → length a ≡ 32
      → length b ≡ 32
      → na.box_open (na.box_seal m nonce (curve.public_of b) a) nonce (curve.public_of a) b ≡ some m

pub record SecretBoxLaws (na : Sodium) : Type 0 where
  pub ready : na.init ≡ true
  pub secretbox_nonce_length : TakesLength 24 na.secretbox_nonce_from_slice
  pub secretbox_key_length : TakesLength 32 na.secretbox_key_from_slice
  -- A ciphertext is 16 bytes longer than its text.
  pub length-secretbox_seal :
      (m nonce key : Bytes) → length (na.secretbox_seal m nonce key) ≡ length m + 16
  pub secretbox_open-seal :
      (m nonce key : Bytes) → na.secretbox_open (na.secretbox_seal m nonce key) nonce key ≡ some m
