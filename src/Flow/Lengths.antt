-- ===== src/Flow/Lengths.antt =====
-- What a message's size tells: crates/vaultex-crypto/src/message_payload.rs, padding.rs and
-- double_ratchet.rs together.
use vaultex.Base.{
  ℕ, ◌+◌, ◌≡◌, sym, ap, ◌∙◌, inl, inr, Option, none, some, Bytes, length, length-append, arith,
  Option-cases,
}
use vaultex.Errors.{Result, ok, ok-eq}
use vaultex.Crates.Sodium.{Sodium, AeadLaws}
use vaultex.Crates.Kdf.{Kdf, KdfLaws}
use vaultex.MessagePayload.{MessagePayload, in_group, to_padded_bytes}
use vaultex.MessagePayload.RoundTrip.{SameSize, IsGroupId, length-to_padded_bytes}
use vaultex.Padding.RoundTrip.{Fills}
use vaultex.DoubleRatchet.State.{RatchetState, MessageHeader}
use vaultex.DoubleRatchet.Keys.{kdf_ck_lem, message_key}
use vaultex.DoubleRatchet.Session.{encrypt}
use vaultex.Flow.{Formats}
use vaultex.DoubleRatchet.Delivery.{sealed, next_header, encrypt_lem}

-- A ciphertext is longer than its text by a constant, 16 bytes for XChaCha20-Poly1305.
pub record AeadOverhead (na : Sodium) : Type 0 where
  pub overhead : ℕ
  pub length-aead_seal :
      (m : Bytes) (ad : Option Bytes) (nonce key : Bytes)
      → length (na.aead_seal m ad nonce key) ≡ length m + overhead

module _ (na : Sodium) (kdf : Kdf) (aead : AeadLaws na) (laws : KdfLaws kdf)
    (over : AeadOverhead na) where
  -- Where `encrypt` gives a message, its size is that of the text and a constant.
  pub length-encrypt :
      (nonce plaintext ad ct : Bytes) (header : MessageHeader) (a a' : RatchetState)
      → length nonce ≡ 24
      → encrypt na kdf nonce plaintext ad a ≡ (ok (header, ct), a')
      → length ct ≡ 24 + (length plaintext + over.overhead)
  unfolding encrypt
  length-encrypt nonce plaintext ad ct header a a' hn e = elim (Option-cases a.sending_chain_key) [
    | inl absent ↦ ground (arith, e)
    | inr (ck, chain) ↦ elim (Option-cases a.sending_keypair) [
      | inl absent ↦ ground (arith, e, kdf_ck_lem kdf laws ck)
      | inr ((pk, sk), keypair) ↦
          let sent = encrypt_lem na kdf aead laws nonce plaintext ad a chain keypair in
          let key = message_key kdf laws ck in
          let made : (header, ct) ≡ (next_header a pk, sealed na key nonce plaintext ad) =
            ok-eq
              (ap (λ (r : Result (MessageHeader × Bytes) × RatchetState). r.0) (sym e ∙ sent)) in
          let body = na.aead_seal plaintext (some ad) nonce key in
          ap (λ (m : MessageHeader × Bytes). length m.1) made
          ∙ omega (
            arith,
            length-append nonce body,
            over.length-aead_seal plaintext (some ad) nonce key,
            hn,
          )
    ]
  ]

  -- A direct message and the same message to a group, padded and encrypted, each by whatever session,
  -- have equally long ciphertexts, where both are encrypted, the nonces have 24 bytes, and the JSON of
  -- equally long groups has one size.
  pub length-encrypt-in_group :
      (formats : Formats) (random : ℕ → Bytes) (size : SameSize formats.payloads random)
      (p : MessagePayload) (id nonce nonce' ad ad' x y ct ct' : Bytes)
      (header header' : MessageHeader) (a a' b b' : RatchetState)
      → Fills random
      → length nonce ≡ 24
      → length nonce' ≡ 24
      → p.group_id ≡ none
      → IsGroupId id
      → to_padded_bytes formats.payloads random p ≡ ok x
      → to_padded_bytes formats.payloads random (in_group p id) ≡ ok y
      → encrypt na kdf nonce x ad a ≡ (ok (header, ct), a')
      → encrypt na kdf nonce' y ad' b ≡ (ok (header', ct'), b')
      → length ct ≡ length ct'
  length-encrypt-in_group formats random size p id nonce nonce' ad ad' x y ct ct' header header' a
        a' b b' fills hn hn' direct is_id px py ex ey =
      let padded =
        length-to_padded_bytes formats.payloads random size p id x y fills direct is_id px py in
      length-encrypt nonce x ad ct header a a' hn ex
      ∙ ap (λ n. 24 + (n + over.overhead)) padded
      ∙ sym (length-encrypt nonce' y ad' ct' header' b b' hn' ey)
