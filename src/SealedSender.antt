-- ===== src/SealedSender.antt =====
-- crates/vaultex-crypto/src/sealed_sender.rs: envelopes that hide the sender from the server, and the
-- box between two identities for call signalling. What `seal` and `gen_nonce` draw are arguments.
pub mod RoundTrip
pub mod Tests
use vaultex.Base.{ℕ, Bool, not, ltb, ◌++◌, Bytes, text, length, take, drop}
use vaultex.Base.Utf8.{is_utf8}
use vaultex.Errors.{
  Result, ok, ◌>>=◌, ◌>>◌, ok_or, map_err, reject_if, init_failed, sealed_sender_error,
}
use vaultex.Crates.Sodium.{Sodium}
use vaultex.Crates.Encoding.{Json}
use vaultex.Identity.{IdentityKeyPair}

pub record SealedSenderEnvelope : Type 0 where
  pub encrypted_sender : Bytes
  pub encrypted_message : Bytes

module _ (na : Sodium) (json : Json SealedSenderEnvelope) where
  -- The two draws are those of the two sealed boxes.
  unfoldable pub seal : Bytes × Bytes → Bytes → Bytes → Bytes → Result Bytes
  seal (sender_draw, message_draw) sender_identity_key_hex message recipient_public_key = do
    reject_if (not na.init) init_failed
    let encrypted_sender =
        na.sealedbox_seal sender_draw sender_identity_key_hex recipient_public_key
    let encrypted_message = na.sealedbox_seal message_draw message recipient_public_key
    let envelope : SealedSenderEnvelope = record {
      encrypted_sender = encrypted_sender;
      encrypted_message = encrypted_message;
    }
    map_err (json.to_vec envelope) sealed_sender_error

  -- `utf8_error` is the text of the error of `from_utf8`.
  unfoldable pub unseal : (Bytes → Bytes) → Bytes → Bytes → Bytes → Result (Bytes × Bytes)
  unseal utf8_error envelope_bytes recipient_pk recipient_sk = do
    envelope ← map_err (json.from_slice envelope_bytes) sealed_sender_error
    sender_bytes ←
        ok_or (na.sealedbox_open envelope.encrypted_sender recipient_pk recipient_sk)
          (sealed_sender_error (text "failed to decrypt sender identity"))
    reject_if (not (is_utf8 sender_bytes)) (sealed_sender_error (utf8_error sender_bytes))
    message ←
        ok_or (na.sealedbox_open envelope.encrypted_message recipient_pk recipient_sk)
          (sealed_sender_error (text "failed to decrypt message"))
    ok (sender_bytes, message)

abbrev pub nonce_bytes : ℕ
nonce_bytes = 24

module _ (na : Sodium) where
  unfoldable pub ed25519_pk_to_box : Bytes → Result Bytes
  ed25519_pk_to_box pk = do
    curve ←
        ok_or (na.ed25519_pk_to_curve25519 pk)
          (sealed_sender_error (text "ed25519->x25519 public key conversion failed"))
    ok_or (na.public_key_from_slice curve)
        (sealed_sender_error (text "invalid converted x25519 public key"))

  unfoldable pub ed25519_sk_to_box : Bytes → Result Bytes
  ed25519_sk_to_box sk = do
    curve ←
        ok_or (na.ed25519_sk_to_curve25519 sk)
          (sealed_sender_error (text "ed25519->x25519 secret key conversion failed"))
    ok_or (na.secret_key_from_slice curve)
        (sealed_sender_error (text "invalid converted x25519 secret key"))

  unfoldable pub encrypt_to_identity : Bytes → IdentityKeyPair → Bytes → Bytes → Result Bytes
  unfolding ed25519_pk_to_box ed25519_sk_to_box
  encrypt_to_identity nonce sender_identity recipient_identity_pk plaintext = do
    reject_if (not na.init) init_failed
    sender_sk ← ed25519_sk_to_box sender_identity.secret_key
    recipient_pk ← ed25519_pk_to_box recipient_identity_pk
    let ciphertext = na.box_seal plaintext nonce recipient_pk sender_sk
    ok (nonce ++ ciphertext)

  unfoldable pub decrypt_from_identity : IdentityKeyPair → Bytes → Bytes → Result Bytes
  unfolding ed25519_pk_to_box ed25519_sk_to_box
  decrypt_from_identity recipient_identity sender_identity_pk sealed = do
    reject_if (not na.init) init_failed
    reject_if (ltb (length sealed) nonce_bytes)
        (sealed_sender_error (text "sealed call payload too short for nonce"))
    nonce ←
        ok_or (na.box_nonce_from_slice (take nonce_bytes sealed))
          (sealed_sender_error (text "invalid nonce"))
    sender_pk ← ed25519_pk_to_box sender_identity_pk
    recipient_sk ← ed25519_sk_to_box recipient_identity.secret_key
    ok_or (na.box_open (drop nonce_bytes sealed) nonce sender_pk recipient_sk)
        (sealed_sender_error (text "failed to authenticate/decrypt call payload"))
