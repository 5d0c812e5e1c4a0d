-- ===== src/X3dh/Refusal.antt =====
-- What crates/vaultex-crypto/src/x3dh.rs has checked when it gives a secret.
use mathlib.Core.Option
use vaultex.Base.{
  ℕ, ◌≡◌, sym, ap, ◌∙◌, arith, true, not, Option, none, some, ◌++◌, Bytes, length, take, some-eq,
}
use vaultex.Errors.{
  ok, reject_if, >>=-eq-ok, reject_if-eq-ok, ok_or-eq-ok, ok-eq, init_failed,
  invalid_prekey_signature,
}
use vaultex.Crates.Sodium.{Sodium}
use vaultex.Crates.Kdf.{Kdf, KdfLaws}
use vaultex.Identity.{IdentityKeyPair}
use vaultex.X3dh.{
  RecipientPreKeyBundle, X3dhInitResult, initiate_x3dh, with_one_time, ed25519_sk_to_curve25519,
  ed25519_pk_to_curve25519, or_invalid, dh, kdf, x3dh_info,
}

abbrev pub id_of_bundle : RecipientPreKeyBundle → Option ℕ
id_of_bundle bundle = Option.map (λ (k : ℕ × Bytes). k.0) bundle.one_time_prekey

module _ (na : Sodium) (hk : Kdf) (laws : KdfLaws hk) where
  with_one_time_id :
      (ek whole : Bytes) (o : Option (ℕ × Bytes)) (r : Bytes × Option ℕ)
      → with_one_time na hk ek whole o ≡ ok r
      → r.1 ≡ Option.map (λ (k : ℕ × Bytes). k.0) o
  unfolding with_one_time
  with_one_time_id ek whole none r e = ap (λ (x : Bytes × Option ℕ). x.1) (sym (ok-eq e))
  with_one_time_id ek whole (some (id, pk)) r e =
      let (ge, _, e1) = >>=-eq-ok (or_invalid (na.group_element_from_slice pk)) _ e in
      let (dh4, _, e2) = >>=-eq-ok (dh na ek ge) _ e1 in
      ap (λ (x : Bytes × Option ℕ). x.1) (sym (ok-eq e2))

  kdf_sized : (m secret : Bytes) → kdf hk m ≡ ok secret → length secret ≡ 32
  unfolding kdf
  kdf_sized m secret e =
      let (okm, sized, derived) = laws.hkdf_total none m x3dh_info 32 (omega arith) in
      let same = some-eq (sym derived ∙ ok_or-eq-ok _ _ e) in ap length (sym same) ∙ sized

  -- Whatever the bundle holds, a secret is derived only from a signed prekey whose signature verifies
  -- under the bundle's identity key; it has 32 bytes, and the answer names the ephemeral key that was
  -- drawn and the one-time prekey of the bundle, or none where the bundle has none.
  pub initiate_x3dh_sound :
      (ek : Bytes × Bytes) (alice : IdentityKeyPair) (bundle : RecipientPreKeyBundle)
      (r : X3dhInitResult)
      → initiate_x3dh na hk ek alice bundle ≡ ok r
      → (na.verify_detached bundle.signed_prekey_signature bundle.signed_prekey bundle.identity_key
          ≡ true)
        × (length r.shared_secret ≡ 32)
        × (r.ephemeral_public_key ≡ ek.0)
        × (r.used_one_time_prekey_id ≡ id_of_bundle bundle)
  unfolding initiate_x3dh
  initiate_x3dh_sound (ek_pk, ek_sk) alice bundle r e =
      let signed =
        na.verify_detached bundle.signed_prekey_signature bundle.signed_prekey
          bundle.identity_key in
      let (_, _, e1) = >>=-eq-ok (reject_if (not na.init) init_failed) _ e in
      let (_, checked, e2) = >>=-eq-ok (reject_if (not signed) invalid_prekey_signature) _ e1 in
      let (ik_a, _, e3) = >>=-eq-ok (ed25519_sk_to_curve25519 na alice.secret_key) _ e2 in
      let (ik_b, _, e4) = >>=-eq-ok (ed25519_pk_to_curve25519 na bundle.identity_key) _ e3 in
      let (ek, _, e5) = >>=-eq-ok (or_invalid (na.scalar_from_slice (take 32 ek_sk))) _ e4 in
      let (spk, _, e6) =
        >>=-eq-ok (or_invalid (na.group_element_from_slice bundle.signed_prekey)) _ e5 in
      let (dh1, _, e7) = >>=-eq-ok (dh na ik_a spk) _ e6 in
      let (dh2, _, e8) = >>=-eq-ok (dh na ek ik_b) _ e7 in
      let (dh3, _, e9) = >>=-eq-ok (dh na ek spk) _ e8 in
      let (whole, used, e10) =
        >>=-eq-ok (with_one_time na hk ek (dh1 ++ dh2 ++ dh3) bundle.one_time_prekey) _ e9 in
      let (secret, derived, e11) = >>=-eq-ok (kdf hk whole.0) _ e10 in
      let made = sym (ok-eq e11) in
      (
        ground (arith, reject_if-eq-ok (not signed) invalid_prekey_signature checked),
        ap (λ (x : X3dhInitResult). length x.shared_secret) made ∙ kdf_sized whole.0 secret derived,
        ap (λ (x : X3dhInitResult). x.ephemeral_public_key) made,
        ap (λ (x : X3dhInitResult). x.used_one_time_prekey_id) made
            ∙ with_one_time_id ek (dh1 ++ dh2 ++ dh3) bundle.one_time_prekey whole used,
      )
