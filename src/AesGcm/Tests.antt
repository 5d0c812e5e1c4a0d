-- ===== src/AesGcm/Tests.antt =====
-- A concrete key through crates/vaultex-crypto/src/aes_gcm.rs.
use vaultex.Base.{[], ◌∷◌, Bytes, replicate}

abbrev nonce : Bytes
nonce = replicate 24 9

abbrev plaintext : Bytes
plaintext = 104 ∷ 105 ∷ []
