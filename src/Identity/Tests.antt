-- ===== src/Identity/Tests.antt =====
-- A concrete identity: crates/vaultex-crypto/src/identity.rs.
use vaultex.Base.{◌≡◌, refl, some, replicate, AreBytes, length, take, arith}
use vaultex.Identity.{IdentityKeyPair, public_key_fingerprint}
use vaultex.Identity.Fingerprint.{read_fingerprint, read_fingerprint-public_key_fingerprint}

abbrev alice : IdentityKeyPair
alice = record { public_key = replicate 32 4; secret_key = replicate 64 4 }

alice-AreBytes : AreBytes alice.public_key
alice-AreBytes = ground arith

read_fingerprint-public_key_fingerprint_example :
    (length (public_key_fingerprint alice) ≡ 22)
    × (read_fingerprint (public_key_fingerprint alice) ≡ some (take 8 alice.public_key))
read_fingerprint-public_key_fingerprint_example =
    read_fingerprint-public_key_fingerprint alice refl alice-AreBytes
