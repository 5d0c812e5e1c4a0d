-- ===== src/Auth.antt =====
-- crates/vaultex-crypto/src/auth.rs: the headers that a client signs a request with. The clock and
-- SHA-256 are arguments.
pub mod Message
use vaultex.Base.{ℕ, ◌++◌, ◌∷◌, [], Bytes}
use vaultex.Base.Decimal.{decimal}
use vaultex.Crates.Sodium.{Sodium}
use vaultex.Crates.Encoding.{Hex}
use vaultex.Identity.{IdentityKeyPair, sign}

pub record AuthHeader : Type 0 where
  pub account_id : Bytes
  pub timestamp : ℕ
  pub signature_hex : Bytes

-- The character `:`.
abbrev pub colon : ℕ
colon = 58

module _ (sha256 : Bytes → Bytes) (hex : Hex) where
  unfoldable pub build_signed_message : Bytes → Bytes → ℕ → Bytes → Bytes
  build_signed_message method path timestamp body =
      let body_hash = hex.encode (sha256 body) in
      method ++ colon ∷ path ++ colon ∷ decimal timestamp ++ colon ∷ body_hash

  unfoldable pub sign_request_with_timestamp :
      Sodium → IdentityKeyPair → Bytes → Bytes → Bytes → Bytes → ℕ → AuthHeader
  sign_request_with_timestamp na identity account_id method path body timestamp =
      let message = build_signed_message method path timestamp body in
      let signature = sign na identity message in
      record {
        account_id = account_id;
        timestamp = timestamp;
        signature_hex = hex.encode signature;
      }

  -- `timestamp` is the clock's value.
  unfoldable pub sign_request :
      Sodium → ℕ → IdentityKeyPair → Bytes → Bytes → Bytes → Bytes → AuthHeader
  unfolding sign_request_with_timestamp
  sign_request na timestamp identity account_id method path body =
      sign_request_with_timestamp na identity account_id method path body timestamp
