-- ===== src/DoubleRatchet/Inbox/Tests.antt =====
-- One chain with concrete keys: crates/vaultex-crypto/src/double_ratchet.rs.
use vaultex.Base.{◌≤◌, ◌≡◌, refl, inl, inr, List, [], ◌∷◌, map, Bytes, picked, replicate, arith}
use vaultex.Base.HashMap
use vaultex.Errors.{ok}
use vaultex.Crates.Toy.{toy, toy_kdf, toy-AeadLaws, toy-CurveLaws, toy-KdfLaws}
use vaultex.DoubleRatchet.State.{MessageHeader, RatchetState, KeyPair, skipped_id}
use vaultex.DoubleRatchet.Keys.{chain_key_after, dh_exchange}
use vaultex.DoubleRatchet.Session.{decrypt, decrypt_with_key, init_receiver}
use vaultex.DoubleRatchet.Delivery.{sealed}
use vaultex.DoubleRatchet.Tests.{
  head_ne, pair_of, alice_pair, bob_pair, alice, listener, hello, a_nonce, first_header, overtaking,
  opened, secret, pair_of-IsKeyPair,
}
use vaultex.DoubleRatchet.Inbox.{arrive, reply}
use vaultex.DoubleRatchet.Inbox.Follows.{key_of, Follows}
use vaultex.DoubleRatchet.Inbox.Refines.{decrypt_refines}
use vaultex.DoubleRatchet.Inbox.Sequences.{Wire, receive_all, count_opened, opens_once}
use vaultex.DoubleRatchet.Inbox.Batches.{Letter, Packet, Numbered, wire, send_all}
use vaultex.DoubleRatchet.Inbox.FirstBatch.{first_batch_any_order}
use vaultex.DoubleRatchet.Inbox.Replies.{replies}
use vaultex.DoubleRatchet.Inbox.FirstBatch.{first_batch_replies}
use vaultex.DoubleRatchet.Inbox.NextChain.{empty, Turning, first_of_next, next_chain}

abbrev chain_start : Bytes
chain_start = replicate 32 0

listener-Follows : Follows toy_kdf toy-KdfLaws alice_pair.0 chain_start listener empty
unfolding chain_key_after HashMap.lookup
listener-Follows = record {
  remote = refl;
  receiving = refl;
  number = refl;
  keys = λ j. refl;
  ordered = λ j h. ground arith;
}

-- Message number 3 comes first, with a forged text.
decrypt_refines_example :
    let (outcome, i') = arrive 3 empty in
    let (r, b') = decrypt toy toy_kdf (pair_of 5) overtaking hello [] listener in
    (r ≡ reply outcome (decrypt_with_key toy (key_of toy_kdf toy-KdfLaws chain_start 3) hello []))
    × Follows toy_kdf toy-KdfLaws alice_pair.0 chain_start b' i'
decrypt_refines_example =
    decrypt_refines toy toy_kdf toy-AeadLaws toy-CurveLaws toy-KdfLaws (pair_of 5) overtaking hello
      [] chain_start listener empty refl (omega arith) listener-Follows

abbrev one_wire : Wire
one_wire = record {
  fresh = pair_of 5;
  header = first_header;
  ciphertext = hello;
  associated_data = [];
}

abbrev overtaking_wire : Wire
overtaking_wire = record one_wire { header = overtaking }

opens_once_example :
    count_opened toy toy_kdf 0 (overtaking_wire ∷ one_wire ∷ one_wire ∷ []) listener ≤ 1
opens_once_example =
    opens_once toy toy_kdf toy-AeadLaws toy-CurveLaws toy-KdfLaws 0
      (overtaking_wire ∷ one_wire ∷ one_wire ∷ []) alice_pair.0 chain_start listener empty refl
      ((refl, omega arith), ((refl, omega arith), ((refl, omega arith), tt))) listener-Follows

abbrev letter_of : Bytes → Letter
letter_of plaintext = record { nonce = a_nonce; plaintext = plaintext; associated_data = [] }

abbrev three_letters : List Letter
three_letters = letter_of (1 ∷ []) ∷ letter_of (2 ∷ []) ∷ letter_of (3 ∷ []) ∷ []

abbrev draw : Packet → KeyPair
draw p = pair_of 5

-- The same three letters are the first of the session.
first_batch_any_order_example :
    (sent : List Packet) × (a' : RatchetState) × (send_all toy toy_kdf three_letters alice
      ≡ (ok sent, a'))
    × (receive_all toy toy_kdf
          (map (wire draw) (picked sent (2 ∷ 0 ∷ [])))
          (init_receiver secret bob_pair)
        ≡ map (λ l. ok l.plaintext) (picked three_letters (2 ∷ 0 ∷ [])))
first_batch_any_order_example =
    first_batch_any_order toy toy_kdf toy-AeadLaws toy-CurveLaws toy-KdfLaws draw three_letters
      (2 ∷ 0 ∷ []) alice (init_receiver secret bob_pair) (inl opened) (λ p. pair_of-IsKeyPair 5)
      (refl, (refl, (refl, tt))) (omega arith) ((omega arith, tt), (tt, tt))

-- The third of them comes first, then twice the first one.
first_batch_replies_example :
    (sent : List Packet) × (a' : RatchetState) × (send_all toy toy_kdf three_letters alice
      ≡ (ok sent, a'))
    × (map (λ p. p.letter) sent ≡ three_letters)
    × Numbered 0 sent
    × (receive_all toy toy_kdf
          (map (wire draw) (picked sent (2 ∷ 0 ∷ 0 ∷ [])))
          (init_receiver secret bob_pair)
        ≡ replies (picked sent (2 ∷ 0 ∷ 0 ∷ [])) empty)
first_batch_replies_example =
    first_batch_replies toy toy_kdf toy-AeadLaws toy-CurveLaws toy-KdfLaws draw three_letters
      (2 ∷ 0 ∷ 0 ∷ []) alice (init_receiver secret bob_pair) (inl opened) (λ p. pair_of-IsKeyPair 5)
      (refl, (refl, (refl, tt))) (omega arith)

abbrev turning_header : MessageHeader
turning_header = record {
  ratchet_public_key = (pair_of 6).0;
  previous_chain_length = 2;
  message_number = 0;
}

listener-Turning :
    Turning toy toy_kdf toy-AeadLaws toy-CurveLaws toy-KdfLaws alice_pair.0 chain_start empty
      (pair_of 5)
      turning_header
      listener
unfolding dh_exchange HashMap.lookup
listener-Turning = record {
  follows = listener-Follows;
  ours = bob_pair;
  shared = replicate 32 8;
  shared_again = replicate 32 11;
  keypair = refl;
  receives = refl;
  sends = refl;
  length_public = refl;
  is_new = head_ne 6 1 (omega arith);
  clean = λ j. refl;
  ends = omega arith;
  near = omega arith;
}

-- The second message of the old chain comes after the first one of the next.
next_chain_example :
    let late : MessageHeader = record first_header { message_number = 1 } in
    let first =
      first_of_next toy toy_kdf toy-AeadLaws toy-CurveLaws toy-KdfLaws alice_pair.0 chain_start
        empty
        (pair_of 5)
        turning_header
        listener
        listener-Turning in
    let (r, b') = decrypt toy toy_kdf (pair_of 5) turning_header hello [] listener in
    let late_ct = sealed toy (key_of toy_kdf toy-KdfLaws chain_start 1) a_nonce hello [] in
    (r ≡ decrypt_with_key toy (key_of toy_kdf toy-KdfLaws first 0) hello [])
    × Follows toy_kdf toy-KdfLaws turning_header.ratchet_public_key first b' (arrive 0 empty).1
    × ((decrypt toy toy_kdf (pair_of 7) late late_ct [] b').0 ≡ ok hello)
next_chain_example =
    next_chain toy toy_kdf toy-AeadLaws toy-CurveLaws toy-KdfLaws alice_pair.0 chain_start empty
      (pair_of 5) turning_header listener listener-Turning hello [] (pair_of 7)
      (record first_header { message_number = 1 }) a_nonce hello [] (omega arith) refl
      (inr (omega arith, omega arith)) refl
