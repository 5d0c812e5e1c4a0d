-- ===== src/Scenarios/SealedSender.antt =====
-- crates/vaultex-crypto/tests/e2e_message_flow.rs: the test of a message in a sealed sender envelope.
use vaultex.Base.{
  ◌≡◌, refl, ◌<◌, ◌≤◌, false, true, some, Option, Bytes, AreBytes, All, [], ◌∷◌, arith, text,
  bytes_eq, bytes_eq_refl,
}
use vaultex.Base.Utf8.{is_utf8, well_formed}
use vaultex.Errors.{>>=-eq-ok}
use vaultex.Crates.Sodium.{Sodium, AeadLaws, CurveLaws, SignLaws, BoxLaws, IsKeyPair}
use vaultex.Crates.Kdf.{Kdf, KdfLaws}
use vaultex.Crates.Encoding.{Hex, HexLaws, Json, JsonLaws, AreHex}
use vaultex.DoubleRatchet.State.{MessageHeader, KeyPair}
use vaultex.DoubleRatchet.Session.{encrypt, decrypt}
use vaultex.DoubleRatchet.Turns.{Session-delivers}
use vaultex.SealedSender.{SealedSenderEnvelope, seal, unseal}
use vaultex.SealedSender.RoundTrip.{unseal-seal}
use vaultex.Scenarios.{
  SetupDraws, TurnDraws, setup_session, ◌>>=◌, ◌>>◌, unwrap, unwrap_call, assert,
}
use vaultex.Scenarios.Setup.{AreDrawn}
use vaultex.Scenarios.Exchange.{AreTurns}
use vaultex.Scenarios.FullFlow.{AreNew, started_lem}

module _ (na : Sodium) (hk : Kdf) (hex : Hex) (packets : Json (MessageHeader × Bytes))
    (envelopes : Json SealedSenderEnvelope) (utf8_error : Bytes → Bytes) where
  -- `box` is the pair for envelopes, and `draws` are those of the two sealed boxes.
  unfoldable pub test_full_flow_with_sealed_sender :
      SetupDraws → TurnDraws → KeyPair → Bytes × Bytes → Option (Unit {0})
  unfolding setup_session unwrap unwrap_call assert
  test_full_flow_with_sealed_sender setup turns (bob_ss_pk, bob_ss_sk) draws = do
    assert na.init
    (alice, bob, alice_id, _) ← setup_session na hk setup
    let ad = text "sealed-session"
    let words = text "Secret sealed message"
    let alice_identity_hex = hex.encode alice_id.public_key
    (packet, alice') ← unwrap_call (encrypt na hk (turns.nonce 0) words ad alice)
    payload ← unwrap (packets.to_vec packet)
    envelope_bytes ← unwrap (seal na envelopes draws alice_identity_hex payload bob_ss_pk)
    (recovered_sender_hex, recovered_payload) ←
        unwrap (unseal na envelopes utf8_error envelope_bytes bob_ss_pk bob_ss_sk)
    assert (bytes_eq recovered_sender_hex alice_identity_hex)
    (recovered_header, recovered_ct) ← unwrap (packets.from_slice recovered_payload)
    (plaintext, bob') ←
        unwrap_call (decrypt na hk (turns.fresh 0) recovered_header recovered_ct ad bob)
    assert (bytes_eq plaintext words)
    some tt

-- ASCII text is UTF-8.
is_utf8-ascii : (b : Bytes) → All (λ c. c < 128) b → is_utf8 b ≡ true
unfolding is_utf8 well_formed
is_utf8-ascii [] ascii = refl
is_utf8-ascii (c ∷ b) (low, ascii) = ground (arith, is_utf8-ascii b ascii)

hex-ascii : (b : Bytes) → AreHex b → All (λ c. c < 128) b
hex-ascii [] digits = tt
hex-ascii (c ∷ b) (digit, digits) = (ground (arith, digit), hex-ascii b digits)

module _ (na : Sodium) (hk : Kdf) (aead : AeadLaws na) (curve : CurveLaws na)
    (signs : SignLaws na curve) (laws : KdfLaws hk) (box : BoxLaws na curve) (hex : Hex)
    (hex_laws : HexLaws hex) (packets : Json (MessageHeader × Bytes))
    (packet_laws : JsonLaws (MessageHeader × Bytes) packets) (envelopes : Json SealedSenderEnvelope)
    (envelope_laws : JsonLaws SealedSenderEnvelope envelopes) (utf8_error : Bytes → Bytes) where
  -- The test passes whatever is drawn: the encrypted message, serialized with its header and sealed to
  -- the recipient's key, is unsealed with the sender's identity, and decrypted to its text. What is
  -- drawn are key pairs and nonces of 24 bytes, and no ratchet key pair is drawn twice.
  pub test_full_flow_with_sealed_sender_lem :
      (setup : SetupDraws) (turns : TurnDraws) (recipient : KeyPair) (draws : Bytes × Bytes)
      → AreDrawn na curve signs setup
      → AreTurns na curve turns
      → AreNew setup turns
      → IsKeyPair na curve recipient
      → AreBytes setup.alice.0
      → test_full_flow_with_sealed_sender na hk hex packets envelopes utf8_error setup turns
          recipient draws
        ≡ some tt
  unfolding test_full_flow_with_sealed_sender unwrap unwrap_call assert
  test_full_flow_with_sealed_sender_lem setup turns recipient draws d t new k sized =
      let ad = text "sealed-session" in
      let words = text "Secret sealed message" in
      let name = hex.encode setup.alice.0 in
      let (a, b, runs, s, ra, rb) = started_lem na hk aead curve signs laws setup turns d new in
      let counted : a.send_message_number ≤ 0 = ra.counter in
      let (header, ct, a', b', sent, read, _) =
        Session-delivers na hk aead curve laws false (turns.fresh 0) (turns.nonce 0) words ad a b s
          (t.length_nonce 0) (omega (arith, counted)) (t.is_pair 0) (rb.unused 0 (omega arith)) in
      let (bytes, written, parsed) = packet_laws.from_slice-to_vec (header, ct) in
      let valid =
        is_utf8-ascii name (hex-ascii name (hex_laws.encode-AreHex setup.alice.0 sized)) in
      let opens =
        unseal-seal na curve box envelopes envelope_laws utf8_error draws name bytes recipient
          aead.initialised valid k in
      let (envelope, seals, unseals) =
        >>=-eq-ok (seal na envelopes draws name bytes recipient.0) _ opens in
      ground (
        arith,
        aead.initialised,
        runs,
        sent,
        written,
        seals,
        unseals,
        bytes_eq_refl name,
        parsed,
        read,
        bytes_eq_refl words,
      )
