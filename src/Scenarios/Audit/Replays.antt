-- ===== src/Scenarios/Audit/Replays.antt =====
-- crates/vaultex-crypto/tests/security_audit_tests.rs: the tests of replays and of skipped keys pass
-- whatever is drawn.
use vaultex.Base.{
  ℕ, ◌+◌, ◌≡◌, refl, sym, ap, ap₂, ◌∙◌, get_elem?, inl, some, List, [], ◌∷◌, map, Bytes, arith,
  text, bytes_eq_refl,
}
use vaultex.Errors.{Result, ok, err, ratchet_error}
use vaultex.Crates.Sodium.{Sodium, AeadLaws, CurveLaws, SignLaws}
use vaultex.Crates.Kdf.{Kdf, KdfLaws}
use vaultex.Scenarios.{SetupDraws, TurnDraws, unwrap_call, assert}
use vaultex.DoubleRatchet.State.{RatchetState, KeyPair}
use vaultex.DoubleRatchet.Session.{encrypt, decrypt}
use vaultex.DoubleRatchet.Inbox.{arrive}
use vaultex.DoubleRatchet.Inbox.Batches.{Letter, Packet, wire, number, send_all}
use vaultex.DoubleRatchet.Inbox.Sequences.{receive_all}
use vaultex.DoubleRatchet.Inbox.NextChain.{empty}
use vaultex.DoubleRatchet.Inbox.Replies.{replies}
use vaultex.DoubleRatchet.Inbox.FirstBatch.{first_batch_replies}
use vaultex.Scenarios.Exchange.{AreTurns}
use vaultex.Scenarios.FullFlow.{AreNew, started_lem}
use vaultex.Scenarios.Setup.{AreDrawn}
use vaultex.Scenarios.Audit.{audit_ad, replay_attack_prevention, skipped_keys_deleted_after_use}
use vaultex.Scenarios.Audit.Passes.{audit_session_eq}

-- A letter of this file, and the draw for a packet.
abbrev letter : TurnDraws → ℕ → Bytes → Letter
letter turns i plaintext = record {
  nonce = turns.nonce i;
  plaintext = plaintext;
  associated_data = audit_ad;
}

abbrev draw_of : TurnDraws → Packet → KeyPair
draw_of turns p = turns.fresh (number p)

one_sent :
    (sent : List Packet) (l : Letter)
    → map (λ p. p.letter) sent ≡ l ∷ []
    → (p : Packet) × (sent ≡ p ∷ []) × (p.letter ≡ l)
one_sent [] l e = absurd (ground arith)
one_sent (p ∷ []) l e = (p, refl, cc)
one_sent (p ∷ q ∷ ps) l e = absurd (ground arith)

three_sent :
    (sent : List Packet) (l m n : Letter)
    → map (λ p. p.letter) sent ≡ l ∷ m ∷ n ∷ []
    → (p : Packet) × (q : Packet) × (r : Packet) × (sent ≡ p ∷ q ∷ r ∷ [])
      × (p.letter ≡ l)
      × (q.letter ≡ m)
      × (r.letter ≡ n)
three_sent [] l m n e = absurd (ground arith)
three_sent (p ∷ []) l m n e = absurd (ground arith)
three_sent (p ∷ q ∷ []) l m n e = absurd (ground arith)
three_sent (p ∷ q ∷ r ∷ []) l m n e = (p, q, r, refl, cc, cc, cc)
three_sent (p ∷ q ∷ r ∷ x ∷ ps) l m n e = absurd (ground arith)

abbrev consumed_error : Result Bytes
consumed_error = err (ratchet_error (text "message number already consumed"))

-- An inbox refuses a number the second time.
replies_again :
    (p : Packet)
    → number p ≡ 0
    → replies (p ∷ p ∷ []) empty ≡ ok p.letter.plaintext ∷ consumed_error ∷ []
unfolding arrive
replies_again p own = ground (arith, own)

-- The third number, the first one twice, and the second one.
replies_skipped :
    (p q r : Packet)
    → number p ≡ 0
    → number q ≡ 1
    → number r ≡ 2
    → replies (r ∷ p ∷ p ∷ q ∷ []) empty
      ≡ ok r.letter.plaintext ∷ ok p.letter.plaintext ∷ consumed_error ∷ ok q.letter.plaintext ∷ []
unfolding arrive
replies_skipped p q r own_p own_q own_r = ground (arith, own_p, own_q, own_r)

-- The first call of a batch, and the others.
peel :
    (na : Sodium) (hk : Kdf) (l : Letter) (ls : List Letter) (p : Packet) (ps : List Packet)
    (a a' : RatchetState)
    → send_all na hk (l ∷ ls) a ≡ (ok (p ∷ ps), a')
    → (a1 : RatchetState) × (encrypt na hk l.nonce l.plaintext l.associated_data a
        ≡ (ok (p.header, p.ciphertext), a1))
      × (send_all na hk ls a1 ≡ (ok ps, a'))
unfolding send_all
peel na hk l ls p ps a a' e =
    let a1 = (encrypt na hk l.nonce l.plaintext l.associated_data a).1 in
    (a1, ground (arith, e), ground (arith, e))

module _ (na : Sodium) (hk : Kdf) (aead : AeadLaws na) (curve : CurveLaws na)
    (signs : SignLaws na curve) (laws : KdfLaws hk) where
  -- The test passes whatever is drawn: the message opens, and its repetition is refused. What is drawn
  -- are key pairs, and nonces of 24 bytes, and no ratchet key pair is drawn twice.
  pub replay_attack_prevention_lem :
      (setup : SetupDraws) (turns : TurnDraws)
      → AreDrawn na curve signs setup
      → AreTurns na curve turns
      → AreNew setup turns
      → replay_attack_prevention na hk setup turns ≡ some tt
  unfolding replay_attack_prevention unwrap_call assert send_all receive_all arrive
  replay_attack_prevention_lem setup turns d t new =
      let words = text "one time message" in
      let (a, b, runs, s, _, _) = started_lem na hk aead curve signs laws setup turns d new in
      let (sent, a', sends, same, numbers, reads) =
        first_batch_replies na hk aead curve laws (draw_of turns) (letter turns 0 words ∷ [])
          (0 ∷ 0 ∷ []) a b (inl s) (λ p. t.is_pair (number p)) (t.length_nonce 0, tt)
          (omega arith) in
      let (p, only, own) = one_sent sent (letter turns 0 words) same in
      let sends_p : send_all na hk (letter turns 0 words ∷ []) a ≡ (ok (p ∷ []), a') =
        rw only at sends in
      let first_number : number p ≡ 0 = numbers 0 p (ap (λ ps. get_elem? ps 0) only) in
      let (a1, sent_it, _) = peel na hk (letter turns 0 words) [] p [] a a' sends_p in
      let hears : RatchetState → Result Bytes × RatchetState =
        λ s. decrypt na hk (turns.fresh 0) p.header p.ciphertext audit_ad s in
      let all : ℕ → Letter → List (Result Bytes) = λ k l.
        let at : RatchetState → Result Bytes × RatchetState =
          λ s. decrypt na hk (turns.fresh k) p.header p.ciphertext l.associated_data s in
        (at b).0 ∷ (at (at b).1).0 ∷ [] in
      let answers : all 0 (letter turns 0 words) ≡ ok words ∷ consumed_error ∷ [] =
        ap₂ all (sym first_number) (sym own)
        ∙ (rw only at reads)
        ∙ replies_again p first_number
        ∙ ap (λ (l : Letter). ok l.plaintext ∷ consumed_error ∷ []) own in
      let opened : (hears b).0 ≡ ok words = cc in
      let refused : (hears (hears b).1).0 ≡ consumed_error = cc in
      ground (
        arith,
        audit_session_eq na hk aead curve signs laws setup d,
        runs,
        sent_it,
        opened,
        refused,
        bytes_eq_refl words,
      )

  -- The answers, as calls with the draws and the associated data of the test.
  abbrev at : TurnDraws → Packet → ℕ → Letter → RatchetState → Result Bytes × RatchetState
  at turns x k l s = decrypt na hk (turns.fresh k) x.header x.ciphertext l.associated_data s

  abbrev texts : Letter → Letter → Letter → List (Result Bytes)
  texts x y z = ok z.plaintext ∷ ok x.plaintext ∷ consumed_error ∷ ok y.plaintext ∷ []

  -- The answers to the third message, twice the first one, and the second.
  abbrev four :
      (RatchetState → Result Bytes × RatchetState)
      → (RatchetState → Result Bytes × RatchetState)
      → (RatchetState → Result Bytes × RatchetState)
      → RatchetState
      → List (Result Bytes)
  four hr hp hq b =
      let b1 = (hr b).1 in
      let b2 = (hp b1).1 in let b3 = (hp b2).1 in (hr b).0 ∷ (hp b1).0 ∷ (hp b2).0 ∷ (hq b3).0 ∷ []

  skipped_answers :
      (turns : TurnDraws) (p q r : Packet) (l0 l1 l2 : Letter) (b : RatchetState)
      → number p ≡ 0
      → number q ≡ 1
      → number r ≡ 2
      → p.letter ≡ l0
      → q.letter ≡ l1
      → r.letter ≡ l2
      → receive_all na hk (map (wire (draw_of turns)) (r ∷ p ∷ p ∷ q ∷ [])) b
        ≡ replies (r ∷ p ∷ p ∷ q ∷ []) empty
      → four (at turns r 2 l2) (at turns p 0 l0) (at turns q 1 l1) b ≡ texts l0 l1 l2
  unfolding receive_all
  skipped_answers turns p q r l0 l1 l2 b number_p number_q number_r own_p own_q own_r reads =
      ap (λ h. four h (at turns p 0 l0) (at turns q 1 l1) b)
        (ap₂ (at turns r) (sym number_r) (sym own_r))
      ∙ ap (λ h. four (at turns r (number r) r.letter) h (at turns q 1 l1) b)
          (ap₂ (at turns p) (sym number_p) (sym own_p))
      ∙ ap (λ h. four (at turns r (number r) r.letter) (at turns p (number p) p.letter) h b)
          (ap₂ (at turns q) (sym number_q) (sym own_q))
      ∙ reads
      ∙ replies_skipped p q r number_p number_q number_r
      ∙ ap (λ x. texts x q.letter r.letter) own_p
      ∙ ap (λ x. texts l0 x r.letter) own_q
      ∙ ap (λ x. texts l0 l1 x) own_r

  -- The test passes whatever is drawn: of three messages the last comes first, then the first one,
  -- whose repetition is refused, and the second one still opens. What is drawn are key pairs, and
  -- nonces of 24 bytes, and no ratchet key pair is drawn twice.
  pub skipped_keys_deleted_after_use_lem :
      (setup : SetupDraws) (turns : TurnDraws)
      → AreDrawn na curve signs setup
      → AreTurns na curve turns
      → AreNew setup turns
      → skipped_keys_deleted_after_use na hk setup turns ≡ some tt
  unfolding skipped_keys_deleted_after_use unwrap_call assert
  skipped_keys_deleted_after_use_lem setup turns d t new =
      let l0 = letter turns 0 (text "msg 1") in
      let l1 = letter turns 1 (text "msg 2") in
      let l2 = letter turns 2 (text "msg 3") in
      let (a, b, runs, s, _, _) = started_lem na hk aead curve signs laws setup turns d new in
      let (sent, a', sends, same, numbers, reads) =
        first_batch_replies na hk aead curve laws (draw_of turns) (l0 ∷ l1 ∷ l2 ∷ [])
          (2 ∷ 0 ∷ 0 ∷ 1 ∷ []) a b (inl s) (λ p. t.is_pair (number p))
          (t.length_nonce 0, (t.length_nonce 1, (t.length_nonce 2, tt))) (omega arith) in
      let (p, q, r, only, own_p, own_q, own_r) = three_sent sent l0 l1 l2 same in
      let (a1, sent_p, more) =
        peel na hk l0 (l1 ∷ l2 ∷ []) p (q ∷ r ∷ []) a a' (rw only at sends) in
      let (a2, sent_q, last) = peel na hk l1 (l2 ∷ []) q (r ∷ []) a1 a' more in
      let (a3, sent_r, _) = peel na hk l2 [] r [] a2 a' last in
      let place : (i : ℕ) (x : Packet) → get_elem? (p ∷ q ∷ r ∷ []) i ≡ some x → number x ≡ 0 + i =
        λ i x e. numbers i x (ap (λ ps. get_elem? ps i) only ∙ e) in
      let answers =
        skipped_answers turns p q r l0 l1 l2 b (place 0 p refl) (place 1 q refl) (place 2 r refl)
          own_p own_q own_r (rw only at reads) in
      let b1 = (at turns r 2 l2 b).1 in
      let b2 = (at turns p 0 l0 b1).1 in
      let b3 = (at turns p 0 l0 b2).1 in
      let third : (at turns r 2 l2 b).0 ≡ ok l2.plaintext = cc in
      let first : (at turns p 0 l0 b1).0 ≡ ok l0.plaintext = cc in
      let replay : (at turns p 0 l0 b2).0 ≡ consumed_error = cc in
      let second : (at turns q 1 l1 b3).0 ≡ ok l1.plaintext = cc in
      ground (
        arith,
        audit_session_eq na hk aead curve signs laws setup d,
        runs,
        sent_p,
        sent_q,
        sent_r,
        third,
        first,
        replay,
        second,
        bytes_eq_refl l0.plaintext,
        bytes_eq_refl l1.plaintext,
        bytes_eq_refl l2.plaintext,
      )
