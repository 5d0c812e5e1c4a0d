-- ===== src/Scenarios/Audit.antt =====
-- crates/vaultex-crypto/tests/security_audit_tests.rs: the tests of replays, of skipped keys and of an
-- agreement without one-time prekeys, as programs that panic (`none`) where an assertion fails or
-- `unwrap` meets an error.
pub mod Passes
pub mod Replays
pub mod Bidirectional
use vaultex.Base.{ℕ, Bool, true, false, not, Option, some, none, Bytes, text, bytes_eq, get_elem?}
use vaultex.Errors.{Result, ok, err}
use vaultex.Crates.Sodium.{Sodium}
use vaultex.Crates.Kdf.{Kdf}
use vaultex.Identity.{IdentityKeyPair, generate}
use vaultex.Prekeys.{generate_signed, generate_one_time_prekeys}
use vaultex.X3dh.{RecipientPreKeyBundle, initiate_x3dh, accept_x3dh}
use vaultex.DoubleRatchet.State.{RatchetState}
use vaultex.DoubleRatchet.Session.{encrypt, decrypt, init_receiver}
use vaultex.DoubleRatchet.Init.{init_sender}
use vaultex.Scenarios.{SetupDraws, TurnDraws, Users, ◌>>=◌, ◌>>◌, unwrap, unwrap_call, assert}

-- The constant AD.
abbrev pub audit_ad : Bytes
audit_ad = text "security-audit-test"

abbrev pub is_err : Result Bytes → Bool
is_err (ok pt) = false
is_err (err e) = true

module _ (na : Sodium) (hk : Kdf) where
  -- `setup_session` of this file.
  unfoldable pub audit_session : SetupDraws → Option Users
  unfolding unwrap assert
  audit_session draws = do
    assert na.init
    alice ← unwrap (generate na draws.alice)
    bob ← unwrap (generate na draws.bob)
    bob_spk ← unwrap (generate_signed na draws.signed_prekey bob 1)
    bob_otpks ← unwrap (generate_one_time_prekeys na draws.one_time_prekeys 5 100)
    otpk ← get_elem? bob_otpks 0
    let bundle : RecipientPreKeyBundle = record {
      identity_key = bob.public_key;
      signed_prekey = bob_spk.public_key;
      signed_prekey_signature = bob_spk.signature;
      one_time_prekey = some (otpk.prekey_id, otpk.public_key);
    }
    init ← unwrap (initiate_x3dh na hk draws.ephemeral alice bundle)
    bob_secret ← unwrap (
        accept_x3dh na hk bob bob_spk.secret_key (some otpk.secret_key) alice.public_key
          init.ephemeral_public_key)
    assert (bytes_eq init.shared_secret bob_secret)
    alice_ratchet ← unwrap (init_sender na hk draws.ratchet init.shared_secret bob_spk.public_key)
    let bob_ratchet = init_receiver bob_secret (bob_spk.public_key, bob_spk.secret_key)
    some (alice_ratchet, bob_ratchet, alice, bob)

  -- The calls on message i draw `turns.nonce i` and `turns.fresh i`.
  unfoldable pub skipped_keys_deleted_after_use : SetupDraws → TurnDraws → Option (Unit {0})
  unfolding audit_session unwrap_call assert
  skipped_keys_deleted_after_use setup turns = do
    (alice, bob, _, _) ← audit_session setup
    ((h1, ct1), alice1) ← unwrap_call (encrypt na hk (turns.nonce 0) (text "msg 1") audit_ad alice)
    ((h2, ct2), alice2) ← unwrap_call (encrypt na hk (turns.nonce 1) (text "msg 2") audit_ad alice1)
    ((h3, ct3), alice3) ← unwrap_call (encrypt na hk (turns.nonce 2) (text "msg 3") audit_ad alice2)
    (pt3, bob1) ← unwrap_call (decrypt na hk (turns.fresh 2) h3 ct3 audit_ad bob)
    assert (bytes_eq pt3 (text "msg 3"))
    (pt1, bob2) ← unwrap_call (decrypt na hk (turns.fresh 0) h1 ct1 audit_ad bob1)
    assert (bytes_eq pt1 (text "msg 1"))
    let (replay_result, bob3) = decrypt na hk (turns.fresh 0) h1 ct1 audit_ad bob2
    assert (is_err replay_result)
    (pt2, bob4) ← unwrap_call (decrypt na hk (turns.fresh 1) h2 ct2 audit_ad bob3)
    assert (bytes_eq pt2 (text "msg 2"))
    some tt

  unfoldable pub replay_attack_prevention : SetupDraws → TurnDraws → Option (Unit {0})
  unfolding audit_session unwrap_call assert
  replay_attack_prevention setup turns = do
    (alice, bob, _, _) ← audit_session setup
    ((header, ct), alice1) ←
        unwrap_call (encrypt na hk (turns.nonce 0) (text "one time message") audit_ad alice)
    (pt, bob1) ← unwrap_call (decrypt na hk (turns.fresh 0) header ct audit_ad bob)
    assert (bytes_eq pt (text "one time message"))
    let (replay, bob2) = decrypt na hk (turns.fresh 0) header ct audit_ad bob1
    assert (is_err replay)
    some tt

  unfoldable pub x3dh_without_one_time_prekey : SetupDraws → Option (Unit {0})
  unfolding unwrap assert
  x3dh_without_one_time_prekey draws = do
    assert na.init
    alice ← unwrap (generate na draws.alice)
    bob ← unwrap (generate na draws.bob)
    bob_spk ← unwrap (generate_signed na draws.signed_prekey bob 1)
    let bundle : RecipientPreKeyBundle = record {
      identity_key = bob.public_key;
      signed_prekey = bob_spk.public_key;
      signed_prekey_signature = bob_spk.signature;
      one_time_prekey = none;
    }
    init ← unwrap (initiate_x3dh na hk draws.ephemeral alice bundle)
    bob_secret ←
        unwrap
          (accept_x3dh na hk bob bob_spk.secret_key none alice.public_key init.ephemeral_public_key)
    assert (bytes_eq init.shared_secret bob_secret)
    some tt
