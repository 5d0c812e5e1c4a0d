-- ===== src/X3dh/FirstMessage.antt =====
-- From a bundle to the first message: crates/vaultex-crypto/src/x3dh.rs and double_ratchet.rs together.
use vaultex.Base.{◌≡◌, ◌≢◌, sym, ap, ◌∙◌, some-eq, true, false, Option, some, Bytes, length, arith}
use vaultex.Errors.{ok}
use vaultex.Crates.Sodium.{Sodium, AeadLaws, CurveLaws, SignLaws, IsKeyPair}
use vaultex.Crates.Kdf.{Kdf, KdfLaws}
use vaultex.Identity.{IdentityKeyPair}
use vaultex.Identity.Laws.{IsIdentity}
use vaultex.DoubleRatchet.State.{RatchetState, KeyPair, MessageHeader}
use vaultex.DoubleRatchet.Session.{encrypt, decrypt, init_receiver}
use vaultex.DoubleRatchet.Init.{init_sender}
use vaultex.DoubleRatchet.Turn.{init_sender_ok}
use vaultex.DoubleRatchet.Turns.{Session, Session-delivers}
use vaultex.X3dh.{initiate_x3dh, accept_x3dh}
use vaultex.X3dh.Agreement.{
  OneTime, in_bundle, secret_of, id_of, AreKeyPair, accept_x3dh-initiate_x3dh,
}

module _ (na : Sodium) (hk : Kdf) (aead : AeadLaws na) (curve : CurveLaws na)
    (signs : SignLaws na curve) (laws : KdfLaws hk) where
  -- With key pairs on both sides and a prekey whose signature verifies under the recipient's
  -- identity key, the initiator agrees on a secret with the bundle, starts a session with it, and
  -- encrypts a message; the recipient derives the secret from the initiator's public keys, starts
  -- its side with its signed prekey, and decrypts the message to its text, and the session goes on
  -- from there. The nonce has 24 bytes, and the pair that the recipient draws is not its signed
  -- prekey.
  pub first_message :
      (alice bob : IdentityKeyPair) (ek spk sending fresh : KeyPair) (otpk : OneTime)
      (signature nonce plaintext ad : Bytes)
      → IsIdentity na curve signs alice
      → IsIdentity na curve signs bob
      → IsKeyPair na curve ek
      → IsKeyPair na curve spk
      → IsKeyPair na curve sending
      → IsKeyPair na curve fresh
      → AreKeyPair na curve otpk
      → fresh.0 ≢ spk.0
      → length nonce ≡ 24
      → na.verify_detached signature spk.0 bob.public_key ≡ true
      → (secret : Bytes) × (a : RatchetState) × (header : MessageHeader) × (ct : Bytes)
        × (a' : RatchetState) × (b' : RatchetState) × (initiate_x3dh na hk ek alice (record {
          identity_key = bob.public_key;
          signed_prekey = spk.0;
          signed_prekey_signature = signature;
          one_time_prekey = in_bundle otpk;
        })
            ≡ ok (record {
              shared_secret = secret;
              ephemeral_public_key = ek.0;
              used_one_time_prekey_id = id_of otpk;
            }))
        × (accept_x3dh na hk bob spk.1 (secret_of otpk) alice.public_key ek.0 ≡ ok secret)
        × (init_sender na hk sending secret spk.0 ≡ ok a)
        × (encrypt na hk nonce plaintext ad a ≡ (ok (header, ct), a'))
        × (decrypt na hk fresh header ct ad (init_receiver secret spk) ≡ (ok plaintext, b'))
        × Session na hk aead curve laws true a' b'
  unfolding init_receiver
  first_message alice bob ek spk sending fresh otpk signature nonce plaintext ad ia ib ke ks kn kf
        ko new sized signed =
      let (secret, there, back) =
        accept_x3dh-initiate_x3dh na hk aead curve signs laws alice bob ek spk otpk signature ia ib
          ke ks ko signed in
      let (a, started, unsent) = init_sender_ok na hk aead curve laws sending spk secret kn ks in
      let session = Session.opened sending spk secret kn ks started in
      let (header, ct, a', b', sent, read, goes_on) =
        Session-delivers na hk aead curve laws false fresh nonce plaintext ad a
          (init_receiver secret spk) session sized (omega (arith, unsent)) kf (λ k e. unused k e) in
      (secret, a, header, ct, a', b', there, back, started, sent, read, goes_on)
    where
      unused : (k : KeyPair) → ◌≡◌ {A = Option KeyPair} (some spk) (some k) → fresh.0 ≢ k.0
      unused k e same = new (same ∙ ap (λ (p : KeyPair). p.0) (sym (some-eq e)))
