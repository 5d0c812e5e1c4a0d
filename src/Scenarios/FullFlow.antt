-- ===== src/Scenarios/FullFlow.antt =====
-- crates/vaultex-crypto/tests/e2e_message_flow.rs: the test of the full message flow passes whatever is
-- drawn.
use vaultex.Base.{ℕ, ◌≡◌, ◌≢◌, inl, inr, sym, ap, ◌∙◌, some, some-eq, Bytes, arith, text, false}
use vaultex.Errors.{ok}
use vaultex.Crates.Sodium.{Sodium, AeadLaws, CurveLaws, SignLaws}
use vaultex.Crates.Kdf.{Kdf, KdfLaws}
use vaultex.DoubleRatchet.State.{RatchetState, KeyPair}
use vaultex.DoubleRatchet.Session.{init_receiver}
use vaultex.DoubleRatchet.Init.{init_sender}
use vaultex.DoubleRatchet.Turns.{Session}
use vaultex.Scenarios.{
  SetupDraws, TurnDraws, setup_session, messages, test_full_message_flow_alice_to_bob,
}
use vaultex.Scenarios.Setup.{AreDrawn, identity_of, setup_session_lem}
use vaultex.Scenarios.Exchange.{AreTurns, IsReady, message_lem, exchange_lem}

-- The ratchet key pairs of the turns are none of those that the session starts with.
pub record AreNew (setup : SetupDraws) (draws : TurnDraws) : Type 0 where
  pub not_signed_prekey : (n : ℕ) → (draws.fresh n).0 ≢ setup.signed_prekey.0
  pub not_first : (n : ℕ) → (draws.fresh n).0 ≢ setup.ratchet.0

module _ (na : Sodium) (hk : Kdf) (aead : AeadLaws na) (curve : CurveLaws na)
    (signs : SignLaws na curve) (laws : KdfLaws hk) where
  sender_keypair :
      (pair : KeyPair) (secret pk : Bytes) (a : RatchetState)
      → init_sender na hk pair secret pk ≡ ok a
      → a.sending_keypair ≡ some pair
  unfolding init_sender
  sender_keypair pair secret pk a e = ground (arith, e)

  -- A session that was just set up.
  pub started_lem :
      (setup : SetupDraws) (draws : TurnDraws)
      → AreDrawn na curve signs setup
      → AreNew setup draws
      → (a : RatchetState) × (b : RatchetState) × (setup_session na hk setup
          ≡ some (a, b, identity_of setup.alice, identity_of setup.bob))
        × Session na hk aead curve laws false a b
        × IsReady draws 0 a
        × IsReady draws 0 b
  unfolding init_receiver
  started_lem setup draws d new =
      let (secret, a, runs, started, unsent) =
        setup_session_lem na hk aead curve signs laws setup d in
      let own = sender_keypair setup.ratchet secret setup.signed_prekey.0 a started in
      (
        a,
        init_receiver secret setup.signed_prekey,
        runs,
        Session.opened setup.ratchet setup.signed_prekey secret d.ratchet d.signed_prekey started,
        record {
          counter = omega (arith, unsent);
          unused = λ m le k e q.
              new.not_first m
                (q ∙ ap (λ (p : KeyPair). p.0) (sym (some-eq {A = KeyPair} (sym own ∙ e))));
        },
        record {
          counter = omega arith;
          unused = λ m le k e q.
              new.not_signed_prekey m
                (q ∙ ap (λ (p : KeyPair). p.0) (sym (some-eq {A = KeyPair} e)));
        },
      )

  -- The test passes whatever the users draw: from setting up the session to the last of its seven
  -- messages no `unwrap` meets an error and no assertion fails. What is drawn are key pairs, and
  -- nonces of 24 bytes, and no ratchet key pair is drawn twice.
  pub test_full_message_flow_alice_to_bob_lem :
      (setup : SetupDraws) (draws : TurnDraws)
      → AreDrawn na curve signs setup
      → AreTurns na curve draws
      → AreNew setup draws
      → test_full_message_flow_alice_to_bob na hk setup draws ≡ some tt
  unfolding test_full_message_flow_alice_to_bob
  test_full_message_flow_alice_to_bob_lem setup draws d t new =
      let ad = text "e2e-session" in
      let (a, b, runs, s, ra, rb) = started_lem setup draws d new in
      let (a1, b1, first, s1, ra1, rb1) =
        message_lem na hk aead curve laws draws 0 (text "Hello Bob!") ad a b t (inl (false, s)) ra
          rb (omega arith) in
      let (b2, a2, second, s2, rb2, ra2) =
        message_lem na hk aead curve laws draws 1 (text "Hi Alice!") ad b1 a1 t (inr s1) rb1 ra1
          (omega arith) in
      let (a3, b3, rest, _) =
        exchange_lem na hk aead curve laws draws 2 messages ad a2 b2 t (inr s2) ra2 rb2
          (omega arith) in
      ground (arith, runs, first, second, rest)
