-- ===== src/Scenarios/Setup.antt =====
-- crates/vaultex-crypto/tests/e2e_message_flow.rs: `setup_session` with whatever it draws.
use vaultex.Base.{ℕ, ◌+◌, ◌≡◌, true, some, List, Bytes, arith, get_elem?, bytes_eq_refl}
use vaultex.Errors.{ok}
use vaultex.Crates.Sodium.{Sodium, AeadLaws, CurveLaws, SignLaws, IsKeyPair}
use vaultex.Crates.Kdf.{Kdf, KdfLaws}
use vaultex.Identity.{IdentityKeyPair, generate, sign}
use vaultex.Identity.Laws.{IsIdentity}
use vaultex.Prekeys.{OneTimePreKey, verify, generate_signed, generate_one_time_prekeys}
use vaultex.X3dh.{initiate_x3dh, accept_x3dh}
use vaultex.Prekeys.Laws.{generate_one_time_prekeys_lem}
use vaultex.DoubleRatchet.State.{RatchetState}
use vaultex.DoubleRatchet.Session.{init_receiver}
use vaultex.DoubleRatchet.Init.{init_sender}
use vaultex.DoubleRatchet.Turn.{init_sender_ok}
use vaultex.X3dh.Agreement.{accept_x3dh-initiate_x3dh}
use vaultex.Flow.Prekeys.{generate_signed_lem, prekey_at}
use vaultex.Scenarios.{SetupDraws, setup_session, unwrap, assert}

abbrev pub identity_of : Bytes × Bytes → IdentityKeyPair
identity_of (pk, sk) = record { public_key = pk; secret_key = sk }

-- Everything that is drawn is a key pair.
pub record AreDrawn (na : Sodium) (curve : CurveLaws na) (signs : SignLaws na curve)
    (draws : SetupDraws) : Type 0 where
  pub alice : IsIdentity na curve signs (identity_of draws.alice)
  pub bob : IsIdentity na curve signs (identity_of draws.bob)
  pub signed_prekey : IsKeyPair na curve draws.signed_prekey
  pub one_time_prekeys : (n : ℕ) → IsKeyPair na curve (draws.one_time_prekeys n)
  pub ephemeral : IsKeyPair na curve draws.ephemeral
  pub ratchet : IsKeyPair na curve draws.ratchet

module _ (na : Sodium) (hk : Kdf) (aead : AeadLaws na) (curve : CurveLaws na)
    (signs : SignLaws na curve) (laws : KdfLaws hk) where
  -- What the calls of the set-up return, in their order.
  pub record Steps (draws : SetupDraws) : Type 0 where
    pub keys : List OneTimePreKey
    pub secret : Bytes
    pub a : RatchetState
    pub made :
        generate_signed na draws.signed_prekey (identity_of draws.bob) 1
        ≡ ok (record {
          prekey_id = 1;
          public_key = draws.signed_prekey.0;
          secret_key = draws.signed_prekey.1;
          signature = sign na (identity_of draws.bob) draws.signed_prekey.0;
        })
    pub verifies :
        na.verify_detached
          (sign na (identity_of draws.bob) draws.signed_prekey.0)
          draws.signed_prekey.0
          draws.bob.0
        ≡ true
    pub batch : generate_one_time_prekeys na draws.one_time_prekeys 5 100 ≡ ok keys
    pub there :
        get_elem? keys 0
        ≡ some (record {
          prekey_id = 100 + 0;
          public_key = (draws.one_time_prekeys 0).0;
          secret_key = (draws.one_time_prekeys 0).1;
        })
    pub initiated :
        initiate_x3dh na hk draws.ephemeral (identity_of draws.alice) (record {
          identity_key = draws.bob.0;
          signed_prekey = draws.signed_prekey.0;
          signed_prekey_signature = sign na (identity_of draws.bob) draws.signed_prekey.0;
          one_time_prekey = some (100, (draws.one_time_prekeys 0).0);
        })
        ≡ ok (record {
          shared_secret = secret;
          ephemeral_public_key = draws.ephemeral.0;
          used_one_time_prekey_id = some 100;
        })
    pub accepted :
        accept_x3dh na hk
          (identity_of draws.bob)
          draws.signed_prekey.1
          (some (draws.one_time_prekeys 0).1)
          draws.alice.0
          draws.ephemeral.0
        ≡ ok secret
    pub started : init_sender na hk draws.ratchet secret draws.signed_prekey.0 ≡ ok a
    pub unsent : a.send_message_number ≡ 0

  pub steps : (draws : SetupDraws) → AreDrawn na curve signs draws → Steps draws
  steps draws d =
      let alice = identity_of draws.alice in
      let bob = identity_of draws.bob in
      let spk = draws.signed_prekey in
      let (made, verifies) = generate_signed_lem na hk aead curve signs laws spk bob 1 d.bob in
      let (keys, batch, ids, pairs) =
        generate_one_time_prekeys_lem na draws.one_time_prekeys 5 100 aead.initialised
          (omega arith) in
      let there = prekey_at draws.one_time_prekeys 100 5 0 keys ids pairs (omega arith) in
      let (secret, initiated, accepted) =
        accept_x3dh-initiate_x3dh na hk aead curve signs laws alice bob draws.ephemeral spk
          (some (100, draws.one_time_prekeys 0)) (sign na bob spk.0) d.alice d.bob d.ephemeral
          d.signed_prekey (d.one_time_prekeys 0) verifies in
      let (a, started, unsent) =
        init_sender_ok na hk aead curve laws draws.ratchet spk secret d.ratchet d.signed_prekey in
      record {
        keys = keys;
        secret = secret;
        a = a;
        made = made;
        verifies = verifies;
        batch = batch;
        there = there;
        initiated = initiated;
        accepted = accepted;
        started = started;
        unsent = unsent;
      }

  -- With whatever key pairs are drawn, setting up a session panics nowhere: no `unwrap` meets an
  -- error, the signed prekey verifies, both sides derive the same secret, and the two sessions are
  -- those of the two initialisations with it, with the identities that were drawn.
  pub setup_session_lem :
      (draws : SetupDraws)
      → AreDrawn na curve signs draws
      → (secret : Bytes) × (a : RatchetState) × (setup_session na hk draws
          ≡ some (
            a,
            init_receiver secret draws.signed_prekey,
            identity_of draws.alice,
            identity_of draws.bob,
          ))
        × (init_sender na hk draws.ratchet secret draws.signed_prekey.0 ≡ ok a)
        × (a.send_message_number ≡ 0)
  unfolding setup_session unwrap assert generate verify
  setup_session_lem draws d =
      let run = steps draws d in
      (
        run.secret,
        run.a,
        ground (
          arith,
          aead.initialised,
          run.made,
          run.verifies,
          run.batch,
          run.there,
          run.initiated,
          run.accepted,
          run.started,
          bytes_eq_refl run.secret,
        ),
        run.started,
        run.unsent,
      )
