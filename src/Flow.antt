-- ===== src/Flow.antt =====
-- The calls that bring a message from one user to another, in the order of
-- crates/vaultex-crypto/tests/e2e_message_flow.rs (`test_full_flow_with_sealed_sender`), with the padded
-- payload of message_payload.rs as the plaintext. The JSON of the header and the ciphertext is a
-- parameter.
pub mod Delivery
pub mod Lengths
pub mod Prekeys
pub mod Tests
use vaultex.Base.{ℕ, Bytes}
use vaultex.Errors.{Result, serialization_error, map_err}
use vaultex.Crates.Sodium.{Sodium}
use vaultex.Crates.Kdf.{Kdf}
use vaultex.Crates.Encoding.{Json}
use vaultex.MessagePayload.{MessagePayload, to_padded_bytes, from_padded_bytes}
use vaultex.DoubleRatchet.State.{MessageHeader, KeyPair, Method, ◌>>=◌, lift, pure}
use vaultex.DoubleRatchet.Session.{encrypt, decrypt}
use vaultex.SealedSender.{SealedSenderEnvelope, seal, unseal}

-- The three serializers of a message on its way.
pub record Formats : Type 0 where
  pub payloads : Json MessagePayload
  pub packets : Json (MessageHeader × Bytes)
  pub envelopes : Json SealedSenderEnvelope

module _ (na : Sodium) (kdf : Kdf) (formats : Formats) where
  -- Pads, encrypts and seals a payload. The draws are the padding's, the nonce, and the sealed boxes'.
  unfoldable pub send :
      (ℕ → Bytes) → Bytes → Bytes × Bytes → Bytes → Bytes → Bytes → MessagePayload → Method Bytes
  send random nonce draws ad sender recipient_pk payload = do
    padded ← lift (to_padded_bytes formats.payloads random payload)
    packet ← encrypt na kdf nonce padded ad
    bytes ← lift (map_err (formats.packets.to_vec packet) serialization_error)
    lift (seal na formats.envelopes draws sender bytes recipient_pk)

  -- Opens an envelope, decrypts its message and takes the padding off: the sender and the payload.
  unfoldable pub receive :
      (Bytes → Bytes) → KeyPair → Bytes → KeyPair → Bytes → Method (Bytes × MessagePayload)
  receive utf8_error fresh ad (recipient_pk, recipient_sk) envelope = do
    (sender, bytes) ←
        lift (unseal na formats.envelopes utf8_error envelope recipient_pk recipient_sk)
    (header, ciphertext) ← lift (map_err (formats.packets.from_slice bytes) serialization_error)
    padded ← decrypt na kdf fresh header ciphertext ad
    payload ← lift (from_padded_bytes formats.payloads padded)
    pure (sender, payload)
