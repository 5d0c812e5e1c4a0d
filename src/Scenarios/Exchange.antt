-- ===== src/Scenarios/Exchange.antt =====
-- crates/vaultex-crypto/tests/e2e_message_flow.rs: messages to and fro with whatever they draw.
use vaultex.Base.{
  ℕ, suc, ◌+◌, ◌^◌, ◌≤◌, ◌<◌, ◌≡◌, ◌≢◌, ◌⊎◌, inl, inr, refl, sym, ap, ◌∙◌, Bool, true, some,
  some-eq, List, [], ◌∷◌, Bytes, text, length, arith, bytes_eq, bytes_eq_refl, Bool-cases,
}
use vaultex.Errors.{ok}
use vaultex.Crates.Sodium.{Sodium, AeadLaws, CurveLaws, IsKeyPair}
use vaultex.Crates.Kdf.{Kdf, KdfLaws}
use vaultex.DoubleRatchet.State.{MessageHeader, RatchetState, KeyPair}
use vaultex.DoubleRatchet.Session.{encrypt, decrypt}
use vaultex.DoubleRatchet.Turn.{IsNew}
use vaultex.DoubleRatchet.Turns.{Session, Session-delivers, Session-answers}
use vaultex.DoubleRatchet.Keypairs.{decrypt-Takes, encrypt-Leaves}
use vaultex.Scenarios.{TurnDraws, message, exchange, unwrap_call, assert}

-- Nonces have their size, and no ratchet key pair is drawn twice.
pub record AreTurns (na : Sodium) (curve : CurveLaws na) (draws : TurnDraws) : Type 0 where
  pub length_nonce : (n : ℕ) → length (draws.nonce n) ≡ 24
  pub is_pair : (n : ℕ) → IsKeyPair na curve (draws.fresh n)
  pub apart : (m n : ℕ) → n < m → (draws.fresh m).0 ≢ (draws.fresh n).0

-- The counter is at most the number of messages so far, and no later draw is the key pair in use.
pub record IsReady (draws : TurnDraws) (n : ℕ) (s : RatchetState) : Type 0 where
  pub counter : s.send_message_number ≤ n
  pub unused : (m : ℕ) → n ≤ m → IsNew (draws.fresh m) s

module _ (na : Sodium) (hk : Kdf) (aead : AeadLaws na) (curve : CurveLaws na) (laws : KdfLaws hk)
    (draws : TurnDraws) where
  IsReady-encrypt :
      (n : ℕ) (nonce plaintext ad : Bytes) (s : RatchetState)
      → IsReady draws n s
      → IsReady draws (suc n) (encrypt na hk nonce plaintext ad s).1
  IsReady-encrypt n nonce plaintext ad s r =
      let (same, counted) = encrypt-Leaves na hk nonce plaintext ad s in
      let bound : s.send_message_number ≤ n = r.counter in
      record {
        counter = omega (arith, counted, bound);
        unused = λ m le k e. r.unused m (omega arith) k (sym same ∙ e);
      }

  IsReady-decrypt :
      (n : ℕ) (header : MessageHeader) (ct ad : Bytes) (s : RatchetState)
      → AreTurns na curve draws
      → IsReady draws n s
      → IsReady draws (suc n) (decrypt na hk (draws.fresh n) header ct ad s).1
  IsReady-decrypt n header ct ad s t r =
      let (taken, counted) = decrypt-Takes na hk (draws.fresh n) header ct ad s in
      let bound : s.send_message_number ≤ n = r.counter in
      record {
        counter = omega (arith, counted, bound);
        unused = λ m le k e. elim taken [
          | inl same ↦ r.unused m (omega arith) k (sym same ∙ e)
          | inr drawn ↦
              let pair : ◌≡◌ {A = KeyPair} (draws.fresh n) k = some-eq (sym drawn ∙ e) in
              λ q. t.apart m n (omega arith) (q ∙ ap (λ (p : KeyPair). p.0) (sym pair))
        ];
      }

  -- The side that may speak: the one that spoke last, also at the start, or the other one.
  abbrev pub MaySpeak : RatchetState → RatchetState → Type 0
  MaySpeak a b =
      ((p : Bool) × Session na hk aead curve laws p a b) ⊎ Session na hk aead curve laws true b a

  -- The calls of one message, in both cases.
  calls :
      (n : ℕ) (plaintext ad : Bytes) (a b : RatchetState)
      → AreTurns na curve draws
      → MaySpeak a b
      → IsReady draws n a
      → IsReady draws n b
      → n + 1 < 2 ^ 32
      → (header : MessageHeader) × (ct : Bytes) × (a' : RatchetState) × (b' : RatchetState)
        × (encrypt na hk (draws.nonce n) plaintext ad a ≡ (ok (header, ct), a'))
        × (decrypt na hk (draws.fresh n) header ct ad b ≡ (ok plaintext, b'))
        × Session na hk aead curve laws true a' b'
  calls n plaintext ad a b t (inl (p, s)) ra rb room =
      let bound : a.send_message_number ≤ n = ra.counter in
      Session-delivers na hk aead curve laws p (draws.fresh n) (draws.nonce n) plaintext ad a b s
        (t.length_nonce n) (omega (arith, bound)) (t.is_pair n) (rb.unused n (omega arith))
  calls n plaintext ad a b t (inr s) ra rb room =
      Session-answers na hk aead curve laws (draws.fresh n) (draws.nonce n) plaintext ad b a s
        (t.length_nonce n) (t.is_pair n) (rb.unused n (omega arith))

  pub message_lem :
      (n : ℕ) (plaintext ad : Bytes) (a b : RatchetState)
      → AreTurns na curve draws
      → MaySpeak a b
      → IsReady draws n a
      → IsReady draws n b
      → n + 1 < 2 ^ 32
      → (a' : RatchetState) × (b' : RatchetState) × (message na hk draws n plaintext ad a b
          ≡ some (a', b'))
        × Session na hk aead curve laws true a' b'
        × IsReady draws (suc n) a'
        × IsReady draws (suc n) b'
  unfolding message unwrap_call assert
  message_lem n plaintext ad a b t s ra rb room =
      let (header, ct, a', b', sent, read, goes_on) = calls n plaintext ad a b t s ra rb room in
      let ready_a = IsReady-encrypt n (draws.nonce n) plaintext ad a ra in
      let ready_b = IsReady-decrypt n header ct ad b t rb in
      (
        a',
        b',
        ground (arith, sent, read, bytes_eq_refl plaintext),
        goes_on,
        rw sent at ready_a,
        rw read at ready_b,
      )

  abbrev pub Joined : RatchetState → RatchetState → Type 0
  Joined alice bob =
      Session na hk aead curve laws true alice bob ⊎ Session na hk aead curve laws true bob alice

  -- Once a session stands, any messages with any texts, from either side in any order, are
  -- encrypted, decrypted and equal to what was sent: the loop panics nowhere, and the session
  -- stands after it. The counters and key pairs are such as n messages leave, nonces have 24
  -- bytes, no ratchet key pair is drawn twice, and there are less than 2^32 messages in all.
  pub exchange_lem :
      (n : ℕ) (messages : List (Bytes × Bytes)) (ad : Bytes) (alice bob : RatchetState)
      → AreTurns na curve draws
      → Joined alice bob
      → IsReady draws n alice
      → IsReady draws n bob
      → n + length messages < 2 ^ 32
      → (alice' : RatchetState) × (bob' : RatchetState) × (exchange na hk draws n messages ad alice
            bob
          ≡ some (alice', bob'))
        × Joined alice' bob'
  unfolding exchange
  exchange_lem n [] ad alice bob t j ra rb room = (alice, bob, refl, j)
  exchange_lem n ((sender, words) ∷ messages) ad alice bob t j ra rb room =
      elim (Bool-cases (bytes_eq sender (text "alice"))) [
        | inl from_alice ↦
            let speaks : MaySpeak alice bob = elim j [ inl s ↦ inl (true, s) | inr s ↦ inr s ] in
            let (alice', bob', passed, s, ra', rb') =
              message_lem n words ad alice bob t speaks ra rb (omega arith) in
            let (alice'', bob'', rest, k) =
              exchange_lem (suc n) messages ad alice' bob' t (inl s) ra' rb' (omega arith) in
            (alice'', bob'', ground (arith, from_alice, passed, rest), k)
        | inr from_bob ↦
            let speaks : MaySpeak bob alice = elim j [ inl s ↦ inr s | inr s ↦ inl (true, s) ] in
            let (bob', alice', passed, s, rb', ra') =
              message_lem n words ad bob alice t speaks rb ra (omega arith) in
            let (alice'', bob'', rest, k) =
              exchange_lem (suc n) messages ad alice' bob' t (inr s) ra' rb' (omega arith) in
            (alice'', bob'', ground (arith, from_bob, passed, rest), k)
      ]
