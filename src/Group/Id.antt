-- ===== src/Group/Id.antt =====
-- Group identifiers as hexadecimal text: crates/vaultex-crypto/src/group.rs.
use vaultex.Base.{◌≡◌, Bytes, AreBytes, length, Option-cases, inl, inr, some, arith}
use vaultex.Errors.{ok}
use vaultex.Crates.Encoding.{Hex, HexLaws}
use vaultex.Group.{GroupId, to_hex, from_hex}

module _ (hex : Hex) where
  -- An identifier of 32 bytes is written with 64 characters and read back.
  pub from_hex-to_hex :
      (laws : HexLaws hex) (id : GroupId)
      → length id ≡ 32
      → AreBytes id
      → (length (to_hex hex id) ≡ 64) × (from_hex hex (to_hex hex id) ≡ ok id)
  unfolding to_hex from_hex
  from_hex-to_hex laws id sized bytes =
      (omega (arith, laws.length-encode id), ground (arith, laws.decode-encode id bytes))

  -- A text is accepted exactly when it is the hexadecimal form of 32 bytes, and those are the answer.
  pub from_hex_sound :
      (s : Bytes) (id : GroupId)
      → from_hex hex s ≡ ok id
      → (hex.decode s ≡ some id) × (length id ≡ 32)
  unfolding from_hex
  from_hex_sound s id h = elim (Option-cases (hex.decode s)) [
    | inl refused ↦ absurd (ground (arith, h, refused))
    | inr (bytes, decoded) ↦ ground (arith, h, decoded)
  ]
