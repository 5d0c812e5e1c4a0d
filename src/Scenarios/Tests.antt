-- ===== src/Scenarios/Tests.antt =====
-- The integration tests with concrete keys: crates/vaultex-crypto/tests/e2e_message_flow.rs.
use vaultex.Base.{◌+◌, ◌≡◌, refl, inl, false, some, [], AreBytes, replicate, text, arith}
use vaultex.Crates.Toy.{
  toy, toy_kdf, toy-AeadLaws, toy-CurveLaws, toy-SignLaws, toy-KdfLaws, toy-BoxLaws,
}
use vaultex.Crates.ToyHex.{toy_hex, toy_hex-HexLaws}
use vaultex.DoubleRatchet.State.{RatchetState}
use vaultex.DoubleRatchet.Tests as RatchetTests
use vaultex.Flow.Tests as FlowTests
use vaultex.X3dh.Tests as AgreementTests
use vaultex.Scenarios.{
  SetupDraws, TurnDraws, messages, exchange, test_full_message_flow_alice_to_bob,
}
use vaultex.Scenarios.Setup.{AreDrawn}
use vaultex.Scenarios.Exchange.{AreTurns, Joined, message_lem, exchange_lem}
use vaultex.Scenarios.FullFlow.{AreNew, started_lem, test_full_message_flow_alice_to_bob_lem}
use vaultex.Scenarios.SealedSender.{
  test_full_flow_with_sealed_sender, test_full_flow_with_sealed_sender_lem,
}
use vaultex.Scenarios.Audit.{skipped_keys_deleted_after_use}
use vaultex.Scenarios.Audit.Replays.{skipped_keys_deleted_after_use_lem}
use vaultex.Scenarios.OutOfOrder.{test_out_of_order_delivery, test_out_of_order_delivery_lem}

abbrev setup : SetupDraws
setup = record {
  alice = (replicate 32 1, replicate 64 1);
  bob = (replicate 32 2, replicate 64 2);
  signed_prekey = RatchetTests.pair_of 4;
  one_time_prekeys = RatchetTests.pair_of;
  ephemeral = RatchetTests.pair_of 3;
  ratchet = RatchetTests.pair_of 8;
}

setup-AreDrawn : AreDrawn toy toy-CurveLaws toy-SignLaws setup
setup-AreDrawn = record {
  alice = AgreementTests.identity-IsIdentity 1;
  bob = AgreementTests.identity-IsIdentity 2;
  signed_prekey = RatchetTests.pair_of-IsKeyPair 4;
  one_time_prekeys = RatchetTests.pair_of-IsKeyPair;
  ephemeral = RatchetTests.pair_of-IsKeyPair 3;
  ratchet = RatchetTests.pair_of-IsKeyPair 8;
}

abbrev turns : TurnDraws
turns = record { nonce = λ n. replicate 24 n; fresh = λ n. RatchetTests.pair_of (n + 20) }

turns-AreTurns : AreTurns toy toy-CurveLaws turns
turns-AreTurns = record {
  length_nonce = λ n. refl;
  is_pair = λ n. RatchetTests.pair_of-IsKeyPair (n + 20);
  apart = λ m n lt. RatchetTests.head_ne (m + 20) (n + 20) (λ e. absurd (omega (arith, e)));
}

turns-AreNew : AreNew setup turns
turns-AreNew = record {
  not_signed_prekey = λ n. RatchetTests.head_ne (n + 20) 4 (λ e. absurd (omega (arith, e)));
  not_first = λ n. RatchetTests.head_ne (n + 20) 8 (λ e. absurd (omega (arith, e)));
}

-- The five messages of the loop, behind a first one.
exchange_lem_example :
    (a : RatchetState) × (b : RatchetState) × ((a' : RatchetState) × (b' : RatchetState) × (exchange
          toy toy_kdf turns 1 messages [] a b
        ≡ some (a', b'))
      × Joined toy toy_kdf toy-AeadLaws toy-CurveLaws toy-KdfLaws turns a' b')
exchange_lem_example =
    let (a, b, _, s, ra, rb) =
      started_lem toy toy_kdf toy-AeadLaws toy-CurveLaws toy-SignLaws toy-KdfLaws setup turns
        setup-AreDrawn turns-AreNew in
    let (a1, b1, _, s1, ra1, rb1) =
      message_lem toy toy_kdf toy-AeadLaws toy-CurveLaws toy-KdfLaws turns 0 (text "hello") [] a b
        turns-AreTurns (inl (false, s)) ra rb (omega arith) in
    (
      a1,
      b1,
      exchange_lem toy toy_kdf toy-AeadLaws toy-CurveLaws toy-KdfLaws turns 1 messages [] a1 b1
          turns-AreTurns (inl s1) ra1 rb1 (omega arith),
    )

test_full_message_flow_alice_to_bob_lem_example :
    test_full_message_flow_alice_to_bob toy toy_kdf setup turns ≡ some tt
test_full_message_flow_alice_to_bob_lem_example =
    test_full_message_flow_alice_to_bob_lem toy toy_kdf toy-AeadLaws toy-CurveLaws toy-SignLaws
      toy-KdfLaws setup turns setup-AreDrawn turns-AreTurns turns-AreNew

test_out_of_order_delivery_lem_example :
    test_out_of_order_delivery toy toy_kdf setup turns ≡ some tt
test_out_of_order_delivery_lem_example =
    test_out_of_order_delivery_lem toy toy_kdf toy-AeadLaws toy-CurveLaws toy-SignLaws toy-KdfLaws
      setup turns setup-AreDrawn turns-AreTurns turns-AreNew

alice-AreBytes : AreBytes setup.alice.0
alice-AreBytes = ground arith

test_full_flow_with_sealed_sender_lem_example :
    test_full_flow_with_sealed_sender toy toy_kdf toy_hex FlowTests.formats.packets
      FlowTests.formats.envelopes
      (λ b. b)
      setup
      turns
      (RatchetTests.pair_of 5)
      ([], [])
    ≡ some tt
test_full_flow_with_sealed_sender_lem_example =
    test_full_flow_with_sealed_sender_lem toy toy_kdf toy-AeadLaws toy-CurveLaws toy-SignLaws
      toy-KdfLaws toy-BoxLaws toy_hex toy_hex-HexLaws FlowTests.formats.packets
      FlowTests.formats-FormatLaws.packet_laws FlowTests.formats.envelopes
      FlowTests.formats-FormatLaws.envelope_laws (λ b. b) setup turns (RatchetTests.pair_of 5)
      ([], []) setup-AreDrawn turns-AreTurns turns-AreNew (RatchetTests.pair_of-IsKeyPair 5)
      alice-AreBytes

skipped_keys_deleted_after_use_lem_example :
    skipped_keys_deleted_after_use toy toy_kdf setup turns ≡ some tt
skipped_keys_deleted_after_use_lem_example =
    skipped_keys_deleted_after_use_lem toy toy_kdf toy-AeadLaws toy-CurveLaws toy-SignLaws
      toy-KdfLaws setup turns setup-AreDrawn turns-AreTurns turns-AreNew
