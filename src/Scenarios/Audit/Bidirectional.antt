-- ===== src/Scenarios/Audit/Bidirectional.antt =====
-- crates/vaultex-crypto/tests/security_audit_tests.rs: the test of a conversation with several ratchet
-- steps.
use vaultex.Base.{
  ℕ, zero, suc, ◌+◌, ◌≤◌, ◌<◌, ◌^◌, ◌≡◌, inl, inr, Option, some, true, false, Bytes, ◌++◌, arith,
  text,
}
use vaultex.Base.Decimal.{decimal}
use vaultex.Crates.Sodium.{Sodium, AeadLaws, CurveLaws, SignLaws}
use vaultex.Crates.Kdf.{Kdf, KdfLaws}
use vaultex.DoubleRatchet.State.{RatchetState}
use vaultex.DoubleRatchet.Turns.{Session}
use vaultex.Scenarios.{SetupDraws, TurnDraws, ◌>>=◌, message}
use vaultex.Scenarios.Setup.{AreDrawn}
use vaultex.Scenarios.Exchange.{AreTurns, IsReady, MaySpeak, message_lem}
use vaultex.Scenarios.FullFlow.{AreNew, started_lem}
use vaultex.Scenarios.Audit.{audit_ad, audit_session}
use vaultex.Scenarios.Audit.Passes.{audit_session_eq}

module _ (na : Sodium) (hk : Kdf) where
  -- The turns of a loop from i on, whose texts are `name` and the number; n messages came before.
  unfoldable pub message_loop :
      TurnDraws
      → ℕ
      → Bytes
      → ℕ
      → ℕ
      → RatchetState
      → RatchetState
      → Option (RatchetState × RatchetState)
  unfolding message
  message_loop draws n name i zero sender receiver = some (sender, receiver)
  message_loop draws n name i (suc count) sender receiver = do
    (sender', receiver') ← message na hk draws n (name ++ decimal i) audit_ad sender receiver
    message_loop draws (suc n) name (suc i) count sender' receiver'

  unfoldable pub bidirectional_multi_ratchet_conversation :
      SetupDraws → TurnDraws → Option (Unit {0})
  unfolding audit_session message message_loop
  bidirectional_multi_ratchet_conversation setup draws = do
    (alice, bob, _, _) ← audit_session na hk setup
    (alice1, bob1) ← message_loop draws 0 (text "alice msg ") 0 3 alice bob
    (bob2, alice2) ← message_loop draws 3 (text "bob msg ") 0 2 bob1 alice1
    (alice3, bob3) ← message_loop draws 5 (text "alice msg ") 3 3 alice2 bob2
    _ ← message na hk draws 8 (text "final bob") audit_ad bob3 alice3
    some tt

module _ (na : Sodium) (hk : Kdf) (aead : AeadLaws na) (curve : CurveLaws na) (laws : KdfLaws hk)
    (draws : TurnDraws) where
  IsReady-later : (n m : ℕ) (s : RatchetState) → n ≤ m → IsReady draws n s → IsReady draws m s
  IsReady-later n m s le r =
      let bound : s.send_message_number ≤ n = r.counter in
      record {
        counter = omega (arith, bound, le);
        unused = λ k later. r.unused k (omega (arith, le, later));
      }

  -- A loop with at least one turn passes, and its sender spoke last.
  message_loop_lem :
      (n m : ℕ) (name : Bytes) (i count : ℕ) (a b : RatchetState)
      → AreTurns na curve draws
      → MaySpeak na hk aead curve laws draws a b
      → IsReady draws n a
      → IsReady draws n b
      → n + suc count ≤ m
      → m < 2 ^ 32
      → (a' : RatchetState) × (b' : RatchetState) × (message_loop na hk draws n name i
            (suc count)
            a
            b
          ≡ some (a', b'))
        × Session na hk aead curve laws true a' b'
        × IsReady draws m a'
        × IsReady draws m b'
  unfolding message_loop
  message_loop_lem n m name i zero a b t s ra rb le small =
      let (a', b', passed, goes_on, ra', rb') =
        message_lem na hk aead curve laws draws n (name ++ decimal i) audit_ad a b t s ra rb
          (omega arith) in
      (
        a',
        b',
        ground (arith, passed),
        goes_on,
        IsReady-later (suc n) m a' (omega arith) ra',
        IsReady-later (suc n) m b' (omega arith) rb',
      )
  message_loop_lem n m name i (suc count) a b t s ra rb le small =
      let (a1, b1, passed, s1, ra1, rb1) =
        message_lem na hk aead curve laws draws n (name ++ decimal i) audit_ad a b t s ra rb
          (omega arith) in
      let (a', b', rest, goes_on, ra', rb') =
        message_loop_lem (suc n) m name (suc i) count a1 b1 t (inl (true, s1)) ra1 rb1 (omega arith)
          small in
      (a', b', ground (arith, passed, rest), goes_on, ra', rb')

module _ (na : Sodium) (hk : Kdf) (aead : AeadLaws na) (curve : CurveLaws na)
    (signs : SignLaws na curve) (laws : KdfLaws hk) where
  -- The test passes whatever is drawn: nine messages in four turns are decrypted to their texts. What
  -- is drawn are key pairs, and nonces of 24 bytes, and no ratchet key pair is drawn twice.
  pub bidirectional_multi_ratchet_conversation_lem :
      (setup : SetupDraws) (draws : TurnDraws)
      → AreDrawn na curve signs setup
      → AreTurns na curve draws
      → AreNew setup draws
      → bidirectional_multi_ratchet_conversation na hk setup draws ≡ some tt
  unfolding bidirectional_multi_ratchet_conversation
  bidirectional_multi_ratchet_conversation_lem setup draws d t new =
      let loop = message_loop_lem na hk aead curve laws draws in
      let (a, b, runs, s, ra, rb) = started_lem na hk aead curve signs laws setup draws d new in
      let (a1, b1, first, s1, ra1, rb1) =
        loop 0 3 (text "alice msg ") 0 2 a b t (inl (false, s)) ra rb (omega arith) (omega arith) in
      let (b2, a2, second, s2, rb2, ra2) =
        loop 3 5 (text "bob msg ") 0 1 b1 a1 t (inr s1) rb1 ra1 (omega arith) (omega arith) in
      let (a3, b3, third, s3, ra3, rb3) =
        loop 5 8 (text "alice msg ") 3 2 a2 b2 t (inr s2) ra2 rb2 (omega arith) (omega arith) in
      let (b4, a4, last, _, _, _) =
        message_lem na hk aead curve laws draws 8 (text "final bob") audit_ad b3 a3 t (inr s3) rb3
          ra3 (omega arith) in
      ground (
        arith,
        audit_session_eq na hk aead curve signs laws setup d,
        runs,
        first,
        second,
        third,
        last,
      )
