-- ===== src/SealedSender/RoundTrip.antt =====
-- What is sealed in crates/vaultex-crypto/src/sealed_sender.rs is opened.
use vaultex.Base.{
  ◌≡◌, sym, ap, ◌∙◌, arith, true, le→ltb, ◌++◌, Bytes, length, length-append, take, drop,
  take-append, drop-append, some,
}
use vaultex.Base.Utf8.{is_utf8}
use vaultex.Errors.{ok, ◌>>=◌}
use vaultex.Crates.Sodium.{Sodium, CurveLaws, SignLaws, BoxLaws, IsKeyPair}
use vaultex.Crates.Encoding.{Json, JsonLaws}
use vaultex.Identity.{IdentityKeyPair}
use vaultex.Identity.Laws.{IsIdentity}
use vaultex.SealedSender.{
  SealedSenderEnvelope, seal, unseal, ed25519_pk_to_box, ed25519_sk_to_box, encrypt_to_identity,
  decrypt_from_identity,
}

module _ (na : Sodium) (curve : CurveLaws na) where
  -- With the library initialised, the recipient learns from the envelope the sender, whose text is
  -- UTF-8, and the message that were sealed to its public key.
  pub unseal-seal :
      (box : BoxLaws na curve) (json : Json SealedSenderEnvelope)
      (laws : JsonLaws SealedSenderEnvelope json) (utf8_error : Bytes → Bytes)
      (draws : Bytes × Bytes) (sender message : Bytes) (recipient : Bytes × Bytes)
      → na.init ≡ true
      → is_utf8 sender ≡ true
      → IsKeyPair na curve recipient
      → (seal na json draws sender message recipient.0 >>= λ envelope.
          unseal na json utf8_error envelope recipient.0 recipient.1)
        ≡ ok (sender, message)
  unfolding seal unseal
  unseal-seal box json laws utf8_error draws sender message recipient ready valid k =
      let envelope : SealedSenderEnvelope = record {
        encrypted_sender = na.sealedbox_seal draws.0 sender recipient.0;
        encrypted_message = na.sealedbox_seal draws.1 message recipient.0;
      } in
      let (bytes, written, read) = laws.from_slice-to_vec envelope in
      let sender_back : na.sealedbox_open (na.sealedbox_seal draws.0 sender recipient.0) recipient.0
            recipient.1
          ≡ some sender =
        rw k.public_eq (box.sealedbox_open-seal draws.0 sender recipient.1 k.length_secret) in
      let message_back : na.sealedbox_open (na.sealedbox_seal draws.1 message recipient.0)
            recipient.0 recipient.1
          ≡ some message =
        rw k.public_eq (box.sealedbox_open-seal draws.1 message recipient.1 k.length_secret) in
      ground (arith, ready, written, read, sender_back, message_back, valid)

  -- The box keys of an identity.
  box_pair :
      (signs : SignLaws na curve) (identity : IdentityKeyPair)
      → IsIdentity na curve signs identity
      → (x : Bytes) × (length x ≡ 32)
        × (ed25519_sk_to_box na identity.secret_key ≡ ok x)
        × (ed25519_pk_to_box na identity.public_key ≡ ok (curve.public_of x))
  unfolding ed25519_sk_to_box ed25519_pk_to_box
  box_pair signs identity i =
      let (x, sized, secret, public) = signs.converts identity.secret_key i.length_secret in
      let public_sized = curve.length-public_of x sized in
      (
        x,
        sized,
        rw (secret, curve.secret_length.fits x sized),
        rw (i.public_eq, public, curve.public_length.fits (curve.public_of x) public_sized),
      )

  take-nonce : (nonce rest : Bytes) → length nonce ≡ 24 → take 24 (nonce ++ rest) ≡ nonce
  take-nonce nonce rest h = ap (λ n. take n (nonce ++ rest)) (sym h) ∙ take-append nonce rest

  drop-nonce : (nonce rest : Bytes) → length nonce ≡ 24 → drop 24 (nonce ++ rest) ≡ rest
  drop-nonce nonce rest h = ap (λ n. drop n (nonce ++ rest)) (sym h) ∙ drop-append nonce rest

  -- With the library initialised and a nonce of 24 bytes, a payload that one identity encrypts to
  -- another decrypts there, as one from the first.
  pub decrypt_from_identity-encrypt_to_identity :
      (signs : SignLaws na curve) (box : BoxLaws na curve) (alice bob : IdentityKeyPair)
      (nonce plaintext : Bytes)
      → na.init ≡ true
      → IsIdentity na curve signs alice
      → IsIdentity na curve signs bob
      → length nonce ≡ 24
      → (encrypt_to_identity na nonce alice bob.public_key plaintext
          >>= decrypt_from_identity na bob alice.public_key)
        ≡ ok plaintext
  unfolding encrypt_to_identity decrypt_from_identity
  decrypt_from_identity-encrypt_to_identity signs box alice bob nonce plaintext ready ia ib sized =
      let (a, size_a, secret_a, public_a) = box_pair signs alice ia in
      let (b, size_b, secret_b, public_b) = box_pair signs bob ib in
      let ciphertext = na.box_seal plaintext nonce (curve.public_of b) a in
      ground (
        arith,
        ready,
        secret_a,
        public_b,
        secret_b,
        public_a,
        le→ltb (length (nonce ++ ciphertext)) 24 (omega (arith, length-append nonce ciphertext)),
        take-nonce nonce ciphertext sized,
        drop-nonce nonce ciphertext sized,
        box.box_nonce_length.fits nonce sized,
        box.box_open-seal plaintext nonce a b size_a size_b,
      )
