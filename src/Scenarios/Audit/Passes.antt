-- ===== src/Scenarios/Audit/Passes.antt =====
-- crates/vaultex-crypto/tests/security_audit_tests.rs: sessions are set up, and secrets agreed on without
-- one-time prekeys, whatever is drawn.
use vaultex.Base.{◌≡◌, some, none, arith, bytes_eq_refl}
use vaultex.Crates.Sodium.{Sodium, AeadLaws, CurveLaws, SignLaws}
use vaultex.Crates.Kdf.{Kdf, KdfLaws}
use vaultex.Identity.{generate, sign}
use vaultex.Prekeys.{verify}
use vaultex.X3dh.Agreement.{accept_x3dh-initiate_x3dh}
use vaultex.Flow.Prekeys.{generate_signed_lem}
use vaultex.Scenarios.{SetupDraws, setup_session, unwrap, assert}
use vaultex.Scenarios.Setup.{AreDrawn, identity_of, steps}
use vaultex.Scenarios.Audit.{audit_session, x3dh_without_one_time_prekey}

module _ (na : Sodium) (hk : Kdf) (aead : AeadLaws na) (curve : CurveLaws na)
    (signs : SignLaws na curve) (laws : KdfLaws hk) where
  -- Both sides agree where the bundle has no one-time prekey, whatever key pairs are drawn.
  pub x3dh_without_one_time_prekey_lem :
      (draws : SetupDraws)
      → AreDrawn na curve signs draws
      → x3dh_without_one_time_prekey na hk draws ≡ some tt
  unfolding x3dh_without_one_time_prekey unwrap assert generate
  x3dh_without_one_time_prekey_lem draws d =
      let alice = identity_of draws.alice in
      let bob = identity_of draws.bob in
      let spk = draws.signed_prekey in
      let (made, verifies) = generate_signed_lem na hk aead curve signs laws spk bob 1 d.bob in
      let (secret, initiated, accepted) =
        accept_x3dh-initiate_x3dh na hk aead curve signs laws alice bob draws.ephemeral spk none
          (sign na bob spk.0) d.alice d.bob d.ephemeral d.signed_prekey tt verifies in
      ground (arith, aead.initialised, made, initiated, accepted, bytes_eq_refl secret)

  -- The two files set up a session alike.
  pub audit_session_eq :
      (draws : SetupDraws)
      → AreDrawn na curve signs draws
      → audit_session na hk draws ≡ setup_session na hk draws
  unfolding audit_session setup_session unwrap assert generate verify
  audit_session_eq draws d =
      let run = steps na hk aead curve signs laws draws d in
      ground (
        arith,
        aead.initialised,
        run.made,
        run.verifies,
        run.batch,
        run.there,
        run.initiated,
        run.accepted,
        run.started,
        bytes_eq_refl run.secret,
      )
