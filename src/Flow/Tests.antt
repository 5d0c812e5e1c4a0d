-- ===== src/Flow/Tests.antt =====
-- Whole flows with concrete keys, as in crates/vaultex-crypto/tests/e2e_message_flow.rs.
use vaultex.Base.{
  ℕ, ◌≡◌, refl, true, false, some, [], ◌∷◌, List, Bytes, length, replicate, get_elem?, arith,
}
use vaultex.Errors.{ok}
use vaultex.Crates.Toy.{
  toy, toy_kdf, toy-AeadLaws, toy-CurveLaws, toy-SignLaws, toy-KdfLaws, toy-BoxLaws,
}
use vaultex.Crates.Codec.{Codec, str, num, both, json_of, json_of-JsonLaws}
use vaultex.DoubleRatchet.State.{RatchetState, MessageHeader, KeyPair}
use vaultex.DoubleRatchet.Keys.{message_key}
use vaultex.DoubleRatchet.Session.{encrypt, decrypt, init_receiver}
use vaultex.DoubleRatchet.Init.{init_sender}
use vaultex.DoubleRatchet.Delivery.{sealed, encrypt_lem}
use vaultex.DoubleRatchet.Turns.{Session}
use vaultex.DoubleRatchet.Tests as RatchetTests
use vaultex.MessagePayload.Tests as PayloadTests
use vaultex.MessagePayload.{in_group}
use vaultex.Prekeys.{SignedPreKey, OneTimePreKey, generate_signed, generate_one_time_prekeys}
use vaultex.X3dh.{initiate_x3dh, accept_x3dh}
use vaultex.X3dh.Tests as AgreementTests
use vaultex.SealedSender.Tests as EnvelopeTests
use vaultex.Flow.{Formats, send, receive}
use vaultex.Flow.Delivery.{FormatLaws, Draws, receive-send}
use vaultex.Flow.Lengths.{AeadOverhead, length-encrypt-in_group}
use vaultex.Flow.Prekeys.{first_message_to_prekeys}

abbrev PacketParts : Type 0
PacketParts = (Bytes × (ℕ × ℕ)) × Bytes

abbrev parts : MessageHeader × Bytes → PacketParts
parts (h, ct) = ((h.ratchet_public_key, (h.previous_chain_length, h.message_number)), ct)

abbrev whole : PacketParts → MessageHeader × Bytes
whole ((pk, (previous, number)), ct) = (
  record { ratchet_public_key = pk; previous_chain_length = previous; message_number = number },
  ct,
)

abbrev packet_codec : Codec PacketParts
packet_codec = both (both str (both num num)) str

abbrev pub formats : Formats
formats = record {
  payloads = PayloadTests.toy_json;
  packets = json_of packet_codec parts whole;
  envelopes = EnvelopeTests.toy_json;
}

pub formats-FormatLaws : FormatLaws formats
formats-FormatLaws = record {
  payload_laws = PayloadTests.toy_json-JsonLaws;
  packet_laws = json_of-JsonLaws packet_codec parts whole (λ p. refl);
  envelope_laws = EnvelopeTests.toy_json-JsonLaws;
}

abbrev bob_state : RatchetState
bob_state = init_receiver RatchetTests.secret RatchetTests.bob_pair

bob-Draws : Draws toy toy-CurveLaws bob_state
unfolding init_receiver
bob-Draws = record {
  random = PayloadTests.letters;
  nonce = RatchetTests.a_nonce;
  boxes = ([], []);
  fresh = RatchetTests.pair_of 5;
  random_fills = PayloadTests.letters-Fills;
  length_nonce = refl;
  fresh_is_pair = RatchetTests.pair_of-IsKeyPair 5;
  fresh_is_new = RatchetTests.pair_of-IsNew 5 2 bob_state (omega arith) refl;
}

receive-send_example :
    (envelope : Bytes) × (a' : RatchetState) × (b' : RatchetState) × (send toy toy_kdf formats
        PayloadTests.letters RatchetTests.a_nonce
        ([], [])
        []
        EnvelopeTests.sender
        (RatchetTests.pair_of 4).0
        PayloadTests.hello
        RatchetTests.alice
      ≡ (ok envelope, a'))
    × (receive toy toy_kdf formats
          (λ b. b)
          (RatchetTests.pair_of 5)
          []
          (RatchetTests.pair_of 4)
          envelope
          bob_state
        ≡ (ok (EnvelopeTests.sender, PayloadTests.hello), b'))
    × Session toy toy_kdf toy-AeadLaws toy-CurveLaws toy-KdfLaws true a' b'
unfolding bob-Draws
receive-send_example =
    receive-send toy toy_kdf toy-AeadLaws toy-CurveLaws toy-KdfLaws toy-BoxLaws formats
      formats-FormatLaws (λ b. b) false PayloadTests.hello EnvelopeTests.sender []
      (RatchetTests.pair_of 4) RatchetTests.alice bob_state bob-Draws RatchetTests.opened
      (omega arith) tt EnvelopeTests.sender-utf8 (RatchetTests.pair_of-IsKeyPair 4)

toy-AeadOverhead : AeadOverhead toy
toy-AeadOverhead = record { overhead = 1; length-aead_seal = λ m ad nonce key. omega arith }

abbrev direct_text : Bytes
direct_text = (PayloadTests.sent PayloadTests.hello).0

abbrev group_text : Bytes
group_text = (PayloadTests.sent (in_group PayloadTests.hello PayloadTests.the_group)).0

abbrev first_key : Bytes
first_key = message_key toy_kdf toy-KdfLaws (replicate 32 0)

length-encrypt-in_group_example :
    length (sealed toy first_key RatchetTests.a_nonce direct_text [])
    ≡ length (sealed toy first_key (replicate 24 8) group_text [])
length-encrypt-in_group_example =
    length-encrypt-in_group toy toy_kdf toy-AeadLaws toy-KdfLaws toy-AeadOverhead formats
      PayloadTests.letters PayloadTests.toy_json-SameSize PayloadTests.hello PayloadTests.the_group
      RatchetTests.a_nonce (replicate 24 8) [] [] direct_text group_text _ _ _ _ RatchetTests.alice
      _ RatchetTests.alice _ PayloadTests.letters-Fills refl refl refl
      PayloadTests.the_group-IsGroupId (PayloadTests.sent PayloadTests.hello).1
      (PayloadTests.sent (in_group PayloadTests.hello PayloadTests.the_group)).1
      (encrypt_lem toy toy_kdf toy-AeadLaws toy-KdfLaws RatchetTests.a_nonce direct_text []
        RatchetTests.alice refl refl)
      (encrypt_lem toy toy_kdf toy-AeadLaws toy-KdfLaws (replicate 24 8) group_text []
        RatchetTests.alice refl refl)

abbrev batch_draws : ℕ → KeyPair
batch_draws n = AgreementTests.pair_of n

-- The second prekey of a batch of five, from number 100 on.
first_message_to_prekeys_example :
    (k : SignedPreKey) × (keys : List OneTimePreKey) × (o : OneTimePreKey) × (secret : Bytes)
    × (a : RatchetState) × (header : MessageHeader) × (ct : Bytes) × (a' : RatchetState)
    × (b' : RatchetState) × (generate_signed toy
          (AgreementTests.pair_of 4)
          (AgreementTests.identity 2)
          1
        ≡ ok k)
    × (generate_one_time_prekeys toy batch_draws 5 100 ≡ ok keys)
    × (get_elem? keys 1 ≡ some o)
    × (initiate_x3dh toy toy_kdf (AgreementTests.pair_of 3) (AgreementTests.identity 1) (record {
      identity_key = (AgreementTests.identity 2).public_key;
      signed_prekey = k.public_key;
      signed_prekey_signature = k.signature;
      one_time_prekey = some (o.prekey_id, o.public_key);
    })
        ≡ ok (record {
          shared_secret = secret;
          ephemeral_public_key = (AgreementTests.pair_of 3).0;
          used_one_time_prekey_id = some 101;
        }))
    × (accept_x3dh toy toy_kdf
          (AgreementTests.identity 2)
          k.secret_key
          (some o.secret_key)
          (AgreementTests.identity 1).public_key
          (AgreementTests.pair_of 3).0
        ≡ ok secret)
    × (init_sender toy toy_kdf AgreementTests.sending secret k.public_key ≡ ok a)
    × (encrypt toy toy_kdf (replicate 24 9) (104 ∷ 105 ∷ []) [] a ≡ (ok (header, ct), a'))
    × (decrypt toy toy_kdf AgreementTests.fresh header ct []
          (init_receiver secret (k.public_key, k.secret_key))
        ≡ (ok (104 ∷ 105 ∷ []), b'))
    × Session toy toy_kdf toy-AeadLaws toy-CurveLaws toy-KdfLaws true a' b'
first_message_to_prekeys_example =
    first_message_to_prekeys toy toy_kdf toy-AeadLaws toy-CurveLaws toy-SignLaws toy-KdfLaws
      (AgreementTests.identity 1) (AgreementTests.identity 2) (AgreementTests.pair_of 3)
      (AgreementTests.pair_of 4) AgreementTests.sending AgreementTests.fresh batch_draws 1 100 5 1
      (replicate 24 9) (104 ∷ 105 ∷ []) [] (AgreementTests.identity-IsIdentity 1)
      (AgreementTests.identity-IsIdentity 2) (AgreementTests.pair_of-IsKeyPair 3)
      (AgreementTests.pair_of-IsKeyPair 4) (AgreementTests.pair_of-IsKeyPair 8)
      (AgreementTests.pair_of-IsKeyPair 9) AgreementTests.pair_of-IsKeyPair
      AgreementTests.fresh-IsNew refl (omega arith) (omega arith)
