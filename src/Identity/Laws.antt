-- ===== src/Identity/Laws.antt =====
-- Properties of crates/vaultex-crypto/src/identity.rs.
use vaultex.Base.{◌≡◌, length}
use vaultex.Crates.Sodium.{Sodium, CurveLaws, SignLaws}
use vaultex.Identity.{IdentityKeyPair}

-- A key pair for signing.
pub record IsIdentity (na : Sodium) (curve : CurveLaws na) (signs : SignLaws na curve)
    (identity : IdentityKeyPair) : Type 0 where
  pub length_secret : length identity.secret_key ≡ 64
  pub public_eq : identity.public_key ≡ signs.verifying_key identity.secret_key

module _ (na : Sodium) (curve : CurveLaws na) (signs : SignLaws na curve) where
  pub length-public_key :
      (identity : IdentityKeyPair)
      → IsIdentity na curve signs identity
      → length identity.public_key ≡ 32
  length-public_key identity i =
      rw i.public_eq (signs.length-verifying_key identity.secret_key i.length_secret)
