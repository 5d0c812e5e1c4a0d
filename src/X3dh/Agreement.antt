-- ===== src/X3dh/Agreement.antt =====
-- Both sides of crates/vaultex-crypto/src/x3dh.rs derive one secret, and a prekey that the recipient
-- did not sign is refused.
use vaultex.Base.{
  ℕ, ◌≡◌, refl, arith, true, false, Option, none, some, ◌++◌, Bytes, length, take, take_all,
}
use vaultex.Errors.{ok, err, invalid_prekey_signature}
use vaultex.Crates.Sodium.{Sodium, AeadLaws, CurveLaws, SignLaws, IsKeyPair}
use vaultex.Crates.Kdf.{Kdf, KdfLaws}
use vaultex.Identity.{IdentityKeyPair}
use vaultex.Identity.Laws.{IsIdentity}
use vaultex.X3dh.{
  RecipientPreKeyBundle, ed25519_pk_to_curve25519, ed25519_sk_to_curve25519, dh, kdf, x3dh_info,
  with_one_time, with_one_time_secret, initiate_x3dh, accept_x3dh,
}

-- A one-time prekey of the recipient, if there is one: its identifier and its key pair.
abbrev pub OneTime : Type 0
OneTime = Option (ℕ × (Bytes × Bytes))

abbrev pub in_bundle : OneTime → Option (ℕ × Bytes)
in_bundle none = none
in_bundle (some (id, pair)) = some (id, pair.0)

abbrev pub secret_of : OneTime → Option Bytes
secret_of none = none
secret_of (some (id, pair)) = some pair.1

abbrev pub id_of : OneTime → Option ℕ
id_of none = none
id_of (some (id, pair)) = some id

module _ (na : Sodium) (curve : CurveLaws na) where
  abbrev pub AreKeyPair : OneTime → Type 0
  AreKeyPair none = Unit
  AreKeyPair (some (id, pair)) = IsKeyPair na curve pair

  length-public : (pair : Bytes × Bytes) → IsKeyPair na curve pair → length pair.0 ≡ 32
  length-public pair k = rw k.public_eq (curve.length-public_of pair.1 k.length_secret)

  -- An exchange between two key pairs, from both sides.
  dh_agree :
      (a b : Bytes × Bytes)
      → IsKeyPair na curve a
      → IsKeyPair na curve b
      → (shared : Bytes) × (dh na a.1 b.0 ≡ ok shared) × (dh na b.1 a.0 ≡ ok shared)
  unfolding dh
  dh_agree a b ka kb =
      let (shared, _, ab, ba) = curve.agree a.1 b.1 ka.length_secret kb.length_secret in
      (shared, rw (kb.public_eq, ab), rw (ka.public_eq, ba))

  -- `from_slice` accepts the keys of a pair.
  scalar_ok :
      (pair : Bytes × Bytes)
      → IsKeyPair na curve pair
      → na.scalar_from_slice (take 32 pair.1) ≡ some pair.1
  scalar_ok pair k =
      rw (take_all 32 pair.1 k.length_secret) (curve.scalar_length.fits pair.1 k.length_secret)

  group_ok :
      (pair : Bytes × Bytes)
      → IsKeyPair na curve pair
      → na.group_element_from_slice pair.0 ≡ some pair.0
  group_ok pair k = curve.group_length.fits pair.0 (length-public pair k)

  -- Both sides add the same fourth exchange, or none.
  one_time_agree :
      (ek : Bytes × Bytes) (otpk : OneTime) (dh_concat : Bytes) (hk : Kdf)
      → IsKeyPair na curve ek
      → AreKeyPair otpk
      → (whole : Bytes) × (with_one_time na hk ek.1 dh_concat (in_bundle otpk)
          ≡ ok (whole, id_of otpk))
        × (with_one_time_secret na hk ek.0 dh_concat (secret_of otpk) ≡ ok whole)
  unfolding with_one_time with_one_time_secret
  one_time_agree ek none dh_concat hk ke ko = (dh_concat, refl, refl)
  one_time_agree ek (some (id, pair)) dh_concat hk ke ko =
      let (shared, there, back) = dh_agree ek pair ke ko in
      (dh_concat ++ shared, rw (group_ok pair ko, there), rw (scalar_ok pair ko, back))

  -- The curve key pair of an identity.
  curve_pair :
      (signs : SignLaws na curve) (identity : IdentityKeyPair)
      → IsIdentity na curve signs identity
      → (pair : Bytes × Bytes) × IsKeyPair na curve pair
        × (ed25519_sk_to_curve25519 na identity.secret_key ≡ ok pair.1)
        × (ed25519_pk_to_curve25519 na identity.public_key ≡ ok pair.0)
  unfolding ed25519_sk_to_curve25519 ed25519_pk_to_curve25519
  curve_pair signs identity i =
      let (x, sized, secret, public) = signs.converts identity.secret_key i.length_secret in
      let public_sized = curve.length-public_of x sized in
      (
        (curve.public_of x, x),
        record { length_secret = sized; public_eq = refl },
        rw (secret, curve.scalar_length.fits x sized),
        rw (i.public_eq, public, curve.group_length.fits (curve.public_of x) public_sized),
      )

module _ (na : Sodium) (hk : Kdf) (aead : AeadLaws na) (curve : CurveLaws na)
    (signs : SignLaws na curve) (laws : KdfLaws hk) where
  -- With key pairs on both sides and a prekey whose signature verifies under the recipient's
  -- identity key, the initiator succeeds, and the recipient derives the same secret from the
  -- ephemeral key that it is sent, with a one-time prekey or without; the initiator's result names
  -- the one-time prekey that was used.
  pub accept_x3dh-initiate_x3dh :
      (alice bob : IdentityKeyPair) (ek spk : Bytes × Bytes) (otpk : OneTime) (signature : Bytes)
      → IsIdentity na curve signs alice
      → IsIdentity na curve signs bob
      → IsKeyPair na curve ek
      → IsKeyPair na curve spk
      → AreKeyPair na curve otpk
      → na.verify_detached signature spk.0 bob.public_key ≡ true
      → (secret : Bytes) × (initiate_x3dh na hk ek alice (record {
        identity_key = bob.public_key;
        signed_prekey = spk.0;
        signed_prekey_signature = signature;
        one_time_prekey = in_bundle otpk;
      })
          ≡ ok (record {
            shared_secret = secret;
            ephemeral_public_key = ek.0;
            used_one_time_prekey_id = id_of otpk;
          }))
        × (accept_x3dh na hk bob spk.1 (secret_of otpk) alice.public_key ek.0 ≡ ok secret)
  unfolding initiate_x3dh accept_x3dh kdf
  accept_x3dh-initiate_x3dh alice bob ek spk otpk signature ia ib ke ks ko signed =
      let (a, ka, a_secret, a_public) = curve_pair na curve signs alice ia in
      let (b, kb, b_secret, b_public) = curve_pair na curve signs bob ib in
      let (dh1, dh1_there, dh1_back) = dh_agree na curve a spk ka ks in
      let (dh2, dh2_there, dh2_back) = dh_agree na curve ek b ke kb in
      let (dh3, dh3_there, dh3_back) = dh_agree na curve ek spk ke ks in
      let (whole, whole_there, whole_back) =
        one_time_agree na curve ek otpk (dh1 ++ dh2 ++ dh3) hk ke ko in
      let (okm, _, derived) = laws.hkdf_total none whole x3dh_info 32 (omega arith) in
      (
        okm,
        ground (
          arith,
          aead.initialised,
          signed,
          a_secret,
          b_public,
          scalar_ok na curve ek ke,
          group_ok na curve spk ks,
          dh1_there,
          dh2_there,
          dh3_there,
          whole_there,
          derived,
        ),
        ground (
          arith,
          aead.initialised,
          b_secret,
          a_public,
          scalar_ok na curve spk ks,
          group_ok na curve ek ke,
          dh1_back,
          dh2_back,
          dh3_back,
          whole_back,
          derived,
        ),
      )

-- A bundle whose prekey signature does not verify under its identity key is refused before any
-- exchange, with no secret derived.
pub initiate_x3dh-forged :
    (na : Sodium) (hk : Kdf) (ek : Bytes × Bytes) (alice : IdentityKeyPair)
    (bundle : RecipientPreKeyBundle)
    → na.init ≡ true
    → na.verify_detached bundle.signed_prekey_signature bundle.signed_prekey bundle.identity_key
      ≡ false
    → initiate_x3dh na hk ek alice bundle ≡ err invalid_prekey_signature
unfolding initiate_x3dh
initiate_x3dh-forged na hk ek alice bundle ready forged = rw (ready, forged)
