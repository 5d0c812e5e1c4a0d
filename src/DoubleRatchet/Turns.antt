-- ===== src/DoubleRatchet/Turns.antt =====
-- crates/vaultex-crypto/src/double_ratchet.rs: every session that two sides reach from the start by
-- sending messages that each arrive before the next is sent, in whatever order they take turns.
use mathlib.Core.Path.{subst, subst₂}
use vaultex.Base.{◌+◌, ◌^◌, ◌<◌, ◌≡◌, sym, ◌∙◌, ap, Bool, true, false, Bytes, length}
use vaultex.Errors.{Result, ok, ok-eq, same_state, same_value}
use vaultex.Crates.Sodium.{Sodium, AeadLaws, CurveLaws, IsKeyPair}
use vaultex.Crates.Kdf.{Kdf, KdfLaws}
use vaultex.DoubleRatchet.State.{MessageHeader, RatchetState, KeyPair}
use vaultex.DoubleRatchet.Session.{encrypt, decrypt, init_receiver}
use vaultex.DoubleRatchet.Init.{init_sender}
use vaultex.DoubleRatchet.Conversation.{Offer, Talk}
use vaultex.DoubleRatchet.Turn.{IsNew, Delivered, Talk-delivers, offer_delivers, started}

module _ (na : Sodium) (kdf : Kdf) (aead : AeadLaws na) (curve : CurveLaws na)
    (laws : KdfLaws kdf) where
  -- The sessions that are reached: `false` before the first message, `true` after it; the first
  -- state is of the side that spoke last. All draws are key pairs that are not in use, and nonces.
  pub data Session : Bool → RatchetState → RatchetState → Type 0 where
    opened :
        (pair bob : KeyPair) (secret : Bytes) {a : RatchetState}
        → IsKeyPair na curve pair
        → IsKeyPair na curve bob
        → init_sender na kdf pair secret bob.0 ≡ ok a
        → Session false a (init_receiver secret bob)
    spoke :
        {p : Bool} {a b a' b' : RatchetState} {header : MessageHeader} {ct : Bytes}
        {r : Result Bytes} (fresh : KeyPair) (nonce plaintext ad : Bytes)
        → Session p a b
        → length nonce ≡ 24
        → a.send_message_number + 1 < 2 ^ 32
        → IsKeyPair na curve fresh
        → IsNew fresh b
        → encrypt na kdf nonce plaintext ad a ≡ (ok (header, ct), a')
        → decrypt na kdf fresh header ct ad b ≡ (r, b')
        → Session true a' b'
    answered :
        {a b a' b' : RatchetState} {header : MessageHeader} {ct : Bytes} {r : Result Bytes}
        (fresh : KeyPair) (nonce plaintext ad : Bytes)
        → Session true a b
        → length nonce ≡ 24
        → IsKeyPair na curve fresh
        → IsNew fresh a
        → encrypt na kdf nonce plaintext ad b ≡ (ok (header, ct), b')
        → decrypt na kdf fresh header ct ad a ≡ (r, a')
        → Session true b' a'

  -- What holds of a session, by its phase.
  abbrev pub Holds : Bool → RatchetState → RatchetState → Type 0
  Holds false a b = Offer na kdf aead curve laws a b
  Holds true a b = Talk na kdf aead curve laws a b

  held_delivers :
      (p : Bool) (fresh : KeyPair) (nonce plaintext ad : Bytes) (a b : RatchetState)
      → Holds p a b
      → length nonce ≡ 24
      → a.send_message_number + 1 < 2 ^ 32
      → IsKeyPair na curve fresh
      → IsNew fresh b
      → Delivered na kdf aead curve laws fresh nonce plaintext ad a b
  held_delivers false fresh nonce plaintext ad a b o hn no_wrap is_pair new =
      offer_delivers na kdf aead curve laws fresh nonce plaintext ad a b o hn is_pair new
  held_delivers true fresh nonce plaintext ad a b t hn no_wrap is_pair new =
      Talk-delivers na kdf aead curve laws fresh nonce plaintext ad a b t hn no_wrap

  -- The code's own outcome is the one that was computed.
  Delivered-Talk :
      {header : MessageHeader} {ct : Bytes} {r : Result Bytes} {a' b' : RatchetState}
      (fresh : KeyPair) (nonce plaintext ad : Bytes) (a b : RatchetState)
      (d : Delivered na kdf aead curve laws fresh nonce plaintext ad a b)
      → encrypt na kdf nonce plaintext ad a ≡ (ok (header, ct), a')
      → decrypt na kdf fresh header ct ad b ≡ (r, b')
      → Talk na kdf aead curve laws a' b'
  Delivered-Talk {header} {ct} fresh nonce plaintext ad a b d sent received =
      let same : ◌≡◌ {A = MessageHeader × Bytes} (d.header, d.ct) (header, ct) =
        ok-eq (same_value d.encrypted sent) in
      let reads =
        ap (λ (m : MessageHeader × Bytes). decrypt na kdf fresh m.0 m.1 ad b) (sym same)
        ∙ d.decrypted in
      subst₂ (λ x y. Talk na kdf aead curve laws x y) (same_state d.encrypted sent)
        (same_state reads received) d.goes_on

  pub Session-Holds : {p : Bool} {a b : RatchetState} → Session p a b → Holds p a b
  Session-Holds (opened pair bob secret is_pair bob_is_pair e) =
      let (a', e', o) = started na kdf aead curve laws pair bob secret is_pair bob_is_pair in
      subst (λ x. Offer na kdf aead curve laws x (init_receiver secret bob)) (ok-eq (sym e' ∙ e)) o
  Session-Holds
        (spoke {p} {a} {b} fresh nonce plaintext ad s hn no_wrap is_pair new sent received) =
      Delivered-Talk fresh nonce plaintext ad a b
        (held_delivers p fresh nonce plaintext ad a b (Session-Holds s) hn no_wrap is_pair new) sent
        received
  Session-Holds (answered {a} {b} fresh nonce plaintext ad s hn is_pair new sent received) =
      Delivered-Talk fresh nonce plaintext ad b a
        (offer_delivers na kdf aead curve laws fresh nonce plaintext ad b a (Session-Holds s).answer
          hn is_pair new)
        sent received

  -- In every session that is reached from both initialisations by messages that each arrive before the
  -- next is sent, whatever the turns were, the next message of the side that spoke last (at the start: of the initiator)
  -- is encrypted, and decrypted to its text, and the session goes on. The nonce has 24 bytes, the
  -- drawn key pair is not the one that the receiver uses, and the sender's counter does not reach
  -- 2^32.
  pub Session-delivers :
      (p : Bool) (fresh : KeyPair) (nonce plaintext ad : Bytes) (a b : RatchetState)
      → Session p a b
      → length nonce ≡ 24
      → a.send_message_number + 1 < 2 ^ 32
      → IsKeyPair na curve fresh
      → IsNew fresh b
      → (header : MessageHeader) × (ct : Bytes) × (a' : RatchetState) × (b' : RatchetState)
        × (encrypt na kdf nonce plaintext ad a ≡ (ok (header, ct), a'))
        × (decrypt na kdf fresh header ct ad b ≡ (ok plaintext, b'))
        × Session true a' b'
  Session-delivers p fresh nonce plaintext ad a b s hn no_wrap is_pair new =
      let d =
        held_delivers p fresh nonce plaintext ad a b (Session-Holds s) hn no_wrap is_pair new in
      (
        d.header,
        d.ct,
        d.a',
        d.b',
        d.encrypted,
        d.decrypted,
        spoke fresh nonce plaintext ad s hn no_wrap is_pair new d.encrypted d.decrypted,
      )

  -- In every such session after its first message, the answer of the side that did not speak last,
  -- which makes the other side take a ratchet step, is encrypted, and decrypted to its text, and
  -- the session goes on. The nonce has 24 bytes, and the drawn key pair is not the one that the
  -- receiver uses.
  pub Session-answers :
      (fresh : KeyPair) (nonce plaintext ad : Bytes) (a b : RatchetState)
      → Session true a b
      → length nonce ≡ 24
      → IsKeyPair na curve fresh
      → IsNew fresh a
      → (header : MessageHeader) × (ct : Bytes) × (b' : RatchetState) × (a' : RatchetState)
        × (encrypt na kdf nonce plaintext ad b ≡ (ok (header, ct), b'))
        × (decrypt na kdf fresh header ct ad a ≡ (ok plaintext, a'))
        × Session true b' a'
  Session-answers fresh nonce plaintext ad a b s hn is_pair new =
      let talk : Talk na kdf aead curve laws a b = Session-Holds s in
      let d =
        offer_delivers na kdf aead curve laws fresh nonce plaintext ad b a talk.answer hn is_pair
          new in
      (
        d.header,
        d.ct,
        d.a',
        d.b',
        d.encrypted,
        d.decrypted,
        answered fresh nonce plaintext ad s hn is_pair new d.encrypted d.decrypted,
      )
