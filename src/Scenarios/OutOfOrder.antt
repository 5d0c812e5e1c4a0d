-- ===== src/Scenarios/OutOfOrder.antt =====
-- crates/vaultex-crypto/tests/e2e_message_flow.rs: the test of messages that arrive shuffled.
use mathlib.Core.Option
use vaultex.Base.{
  ℕ, zero, suc, ◌<◌, ◌≡◌, refl, sym, ap, ap₂, ◌∙◌, inl, inr, Option, none, some, true,
  get_elem?-inside, get_elem?-map, get_elem?-All, List, [], ◌∷◌, map, All, get_elem?, picked,
  IsDistinct, Bytes, ◌++◌, length, text, arith, bytes_eq, bytes_eq_refl, length-map,
}
use vaultex.Base.Decimal.{decimal}
use vaultex.Base.Utf8.{is_utf8, well_formed}
use vaultex.Errors.{Result, ok, err, Either-cases}
use vaultex.Crates.Sodium.{Sodium, AeadLaws, CurveLaws, SignLaws}
use vaultex.Crates.Kdf.{Kdf, KdfLaws}
use vaultex.DoubleRatchet.State.{RatchetState, MessageHeader, KeyPair}
use vaultex.DoubleRatchet.Session.{encrypt, decrypt}
use vaultex.DoubleRatchet.Inbox.Batches.{Letter, Packet, wire, send_all, number, Numbered}
use vaultex.DoubleRatchet.Inbox.Sequences.{receive_all}
use vaultex.DoubleRatchet.Inbox.FirstBatch.{first_batch}
use vaultex.Scenarios.{SetupDraws, TurnDraws, setup_session, ◌>>=◌, ◌>>◌, unwrap_call, assert}
use vaultex.Scenarios.Setup.{AreDrawn}
use vaultex.Scenarios.Exchange.{AreTurns}
use vaultex.Scenarios.FullFlow.{AreNew, started_lem}

-- `format!("Message #{}", i)`.
abbrev numbered : ℕ → Bytes
numbered i = text "Message #" ++ decimal i

module _ (na : Sodium) (hk : Kdf) (turns : TurnDraws) (ad : Bytes) where
  -- The turns of the first loop from i on, with what they push, and the sender after them.
  unfoldable pub encrypt_loop :
      ℕ → ℕ → RatchetState → Option (List (MessageHeader × Bytes × Bytes) × RatchetState)
  unfolding unwrap_call
  encrypt_loop i zero alice = some ([], alice)
  encrypt_loop i (suc count) alice = do
    let msg = numbered i
    ((h, ct), alice1) ← unwrap_call (encrypt na hk (turns.nonce i) msg ad alice)
    (encrypted, alice2) ← encrypt_loop (suc i) count alice1
    some ((h, ct, msg) ∷ encrypted, alice2)

  -- The turns of the second loop; the one for message `idx` draws `turns.fresh idx`.
  unfoldable pub decrypt_loop :
      List (MessageHeader × Bytes × Bytes) → List ℕ → RatchetState → Option RatchetState
  unfolding unwrap_call assert
  decrypt_loop encrypted [] bob = some bob
  decrypt_loop encrypted (idx ∷ order) bob = do
    (h, ct, expected_msg) ← get_elem? encrypted idx
    (pt, bob1) ← unwrap_call (decrypt na hk (turns.fresh idx) h ct ad bob)
    assert (is_utf8 pt)
    assert (bytes_eq pt expected_msg)
    decrypt_loop encrypted order bob1

abbrev receive_order : List ℕ
receive_order = 4 ∷ 1 ∷ 0 ∷ 3 ∷ 2 ∷ []

module _ (na : Sodium) (hk : Kdf) where
  unfoldable pub test_out_of_order_delivery : SetupDraws → TurnDraws → Option (Unit {0})
  unfolding setup_session encrypt_loop decrypt_loop
  test_out_of_order_delivery setup turns = do
    (alice, bob, _, _) ← setup_session na hk setup
    let ad = text "ooo-e2e"
    (encrypted, _) ← encrypt_loop na hk turns ad 0 5 alice
    _ ← decrypt_loop na hk turns ad encrypted receive_order bob
    some tt

-- What is pushed for a packet.
abbrev pushed : Packet → MessageHeader × Bytes × Bytes
pushed p = (p.header, p.ciphertext, p.letter.plaintext)

abbrev draw_of : TurnDraws → Packet → KeyPair
draw_of turns p = turns.fresh (number p)

-- The letters that the first loop sends.
abbrev letters : TurnDraws → Bytes → ℕ → ℕ → List Letter
letters turns ad i zero = []
letters turns ad i (suc count) =
    let letter : Letter = record {
      nonce = turns.nonce i;
      plaintext = numbered i;
      associated_data = ad;
    } in
    letter ∷ letters turns ad (suc i) count

abbrev of_sent :
    Result (List Packet) × RatchetState
    → Option (List (MessageHeader × Bytes × Bytes) × RatchetState)
of_sent (ok ps, s) = some (map pushed ps, s)
of_sent (err e, s) = none

module _ (na : Sodium) (hk : Kdf) (turns : TurnDraws) (ad : Bytes) where
  -- The first loop is `send_all`.
  encrypt_loop_lem :
      (i count : ℕ) (a : RatchetState)
      → encrypt_loop na hk turns ad i count a
        ≡ of_sent (send_all na hk (letters turns ad i count) a)
  unfolding encrypt_loop send_all unwrap_call
  encrypt_loop_lem i zero a = refl
  encrypt_loop_lem i (suc count) a =
      let r = encrypt na hk (turns.nonce i) (numbered i) ad a in
      elim (Either-cases r.0) [
        | inr (e, failed) ↦ ground (arith, failed)
        | inl ((h, ct), done) ↦
            elim (Either-cases (send_all na hk (letters turns ad (suc i) count) r.1).0) [
              | inr (e, failed) ↦ ground (arith, done, failed, encrypt_loop_lem (suc i) count r.1)
              | inl (ps, sent) ↦ ground (arith, done, sent, encrypt_loop_lem (suc i) count r.1)
            ]
      ]

  -- The second loop, where all that it reads is what was sent.
  decrypt_loop_lem :
      (sent : List Packet) (order : List ℕ) (b : RatchetState)
      → All (λ l. is_utf8 l.plaintext ≡ true) (map (λ p. p.letter) sent)
      → All (λ l. l.associated_data ≡ ad) (map (λ p. p.letter) sent)
      → Numbered 0 sent
      → All (λ j. j < length sent) order
      → receive_all na hk (map (wire (draw_of turns)) (picked sent order)) b
        ≡ map (λ l. ok l.plaintext) (map (λ p. p.letter) (picked sent order))
      → (b' : RatchetState) × (decrypt_loop na hk turns ad (map pushed sent) order b ≡ some b')
  unfolding decrypt_loop receive_all unwrap_call assert
  decrypt_loop_lem sent [] b utf8 same numbers inside reads = (b, refl)
  decrypt_loop_lem sent (idx ∷ order) b utf8 same numbers (within, inside) reads =
      let (p, there) = get_elem?-inside sent idx within in
      let letter : get_elem? (map (λ q. q.letter) sent) idx ≡ some p.letter =
        get_elem?-map (λ q. q.letter) sent idx ∙ ap (Option.map (λ q. q.letter)) there in
      let item : get_elem? (map pushed sent) idx ≡ some (pushed p) =
        get_elem?-map pushed sent idx ∙ ap (Option.map pushed) there in
      let valid : is_utf8 p.letter.plaintext ≡ true =
        get_elem?-All (λ l. is_utf8 l.plaintext ≡ true) _ idx p.letter utf8 letter in
      let own_ad : p.letter.associated_data ≡ ad =
        get_elem?-All (λ l. l.associated_data ≡ ad) _ idx p.letter same letter in
      let own : number p ≡ idx = numbers idx p there ∙ omega arith in
      let at : ℕ → Bytes → Result Bytes × RatchetState =
        λ k x. decrypt na hk (turns.fresh k) p.header p.ciphertext x b in
      let all : Result Bytes × RatchetState → List (Result Bytes) =
        λ r. r.0 ∷ receive_all na hk (map (wire (draw_of turns)) (picked sent order)) r.1 in
      let reads_p : all (at (number p) p.letter.associated_data)
          ≡ ok p.letter.plaintext
            ∷ map (λ l. ok l.plaintext) (map (λ q. q.letter) (picked sent order)) =
        rw there at reads in
      let reads_here : all (at idx ad)
          ≡ ok p.letter.plaintext
            ∷ map (λ l. ok l.plaintext) (map (λ q. q.letter) (picked sent order)) =
        ap all (ap₂ at (sym own) (sym own_ad)) ∙ reads_p in
      let opens : (at idx ad).0 ≡ ok p.letter.plaintext = cc in
      let rest : receive_all na hk (map (wire (draw_of turns)) (picked sent order)) (at idx ad).1
          ≡ map (λ l. ok l.plaintext) (map (λ q. q.letter) (picked sent order)) =
        cc in
      let (b', reads_on) =
        decrypt_loop_lem sent order (at idx ad).1 utf8 same numbers inside rest in
      (b', ground (arith, item, opens, valid, bytes_eq_refl p.letter.plaintext, reads_on))

letters-All :
    (P : Letter → Type 0) (turns : TurnDraws) (ad : Bytes) (i count : ℕ)
    → ((j : ℕ) → P (record { nonce = turns.nonce j; plaintext = numbered j; associated_data = ad }))
    → All P (letters turns ad i count)
letters-All P turns ad i zero holds = tt
letters-All P turns ad i (suc count) holds = (holds i, letters-All P turns ad (suc i) count holds)

letters-utf8 :
    (turns : TurnDraws) (ad : Bytes) → All (λ l. is_utf8 l.plaintext ≡ true) (letters turns ad 0 5)
unfolding is_utf8 well_formed decimal text
letters-utf8 turns ad = (refl, (refl, (refl, (refl, (refl, tt)))))

receive_order-inside : All (λ j. j < 5) receive_order
receive_order-inside = (omega arith, (omega arith, (omega arith, (omega arith, (omega arith, tt)))))

receive_order-IsDistinct : IsDistinct receive_order
receive_order-IsDistinct = (
  (omega arith, (omega arith, (omega arith, (omega arith, tt)))),
  (
    (omega arith, (omega arith, (omega arith, tt))),
    ((omega arith, (omega arith, tt)), ((omega arith, tt), (tt, tt))),
  ),
)

module _ (na : Sodium) (hk : Kdf) (aead : AeadLaws na) (curve : CurveLaws na)
    (signs : SignLaws na curve) (laws : KdfLaws hk) where
  -- The test passes whatever is drawn: all five messages, which arrive in the order 4, 1, 0, 3, 2, are
  -- decrypted, and each is UTF-8 and the text that was sent under its number. What is drawn are key
  -- pairs, and nonces of 24 bytes, and no ratchet key pair is drawn twice.
  pub test_out_of_order_delivery_lem :
      (setup : SetupDraws) (turns : TurnDraws)
      → AreDrawn na curve signs setup
      → AreTurns na curve turns
      → AreNew setup turns
      → test_out_of_order_delivery na hk setup turns ≡ some tt
  unfolding test_out_of_order_delivery
  test_out_of_order_delivery_lem setup turns d t new =
      let ad = text "ooo-e2e" in
      let (a, b, runs, s, _, _) = started_lem na hk aead curve signs laws setup turns d new in
      let (sent, a', sends, same, numbers, reads) =
        first_batch na hk aead curve laws (draw_of turns) (letters turns ad 0 5) receive_order a b
          (inl s) (λ p. t.is_pair (number p))
          (letters-All (λ l. length l.nonce ≡ 24) turns ad 0 5 t.length_nonce) (omega arith)
          receive_order-IsDistinct in
      let pushes : encrypt_loop na hk turns ad 0 5 a ≡ some (map pushed sent, a') =
        encrypt_loop_lem na hk turns ad 0 5 a ∙ ap of_sent sends in
      let count : length sent ≡ 5 = sym (length-map sent (λ p. p.letter)) ∙ ap length same in
      let (b', pops) =
        decrypt_loop_lem na hk turns ad sent receive_order b (rw same (letters-utf8 turns ad))
          (rw same (letters-All (λ l. l.associated_data ≡ ad) turns ad 0 5 (λ j. refl))) numbers
          (rw count receive_order-inside) reads in
      ground (arith, runs, pushes, pops)
