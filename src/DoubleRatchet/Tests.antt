-- ===== src/DoubleRatchet/Tests.antt =====
-- Sessions with concrete keys: crates/vaultex-crypto/src/double_ratchet.rs.
use vaultex.Base.{
  ℕ, ◌+◌, ◌*◌, ◌≤◌, ◌≡◌, ◌≢◌, refl, false, none, some, [], ◌∷◌, ◌++◌, arith, Bytes, text, length,
  replicate, ap, get_or, sym, ◌∙◌, some-eq,
}
use vaultex.Base.HashMap
use vaultex.Errors.{ok}
use vaultex.Crates.Sodium.{IsKeyPair}
use vaultex.Crates.Toy.{toy, toy_kdf, toy-AeadLaws, toy-CurveLaws, toy-KdfLaws}
use vaultex.DoubleRatchet.State.{max_skip, MessageHeader, RatchetState, KeyPair, skipped_id}
use vaultex.DoubleRatchet.Keys.{kdf_rk, kdf_ck, dh_exchange, chain_key_after}
use vaultex.AesGcm
use vaultex.DoubleRatchet.Session.{
  encrypt, decrypt, init_receiver, decrypt_on_chain, needs_ratchet, ratchet_to,
  skip_message_keys_for_current_chain, dh_ratchet_step, skip_message_keys, skip_loop,
  decrypt_with_key,
}
use vaultex.DoubleRatchet.Init.{init_sender}
use vaultex.DoubleRatchet.Linked.{Linked}
use vaultex.DoubleRatchet.OutOfOrder.{already_consumed, decrypt_after_forgery}
use vaultex.DoubleRatchet.Storage.{decrypt-Adds}
use vaultex.DoubleRatchet.Turn.{IsNew}
use vaultex.DoubleRatchet.Turns.{Session}

abbrev pub pair_of : ℕ → KeyPair
pair_of n = (replicate 32 n, replicate 32 n)

abbrev pub alice_pair : KeyPair
alice_pair = pair_of 1

abbrev pub bob_pair : KeyPair
bob_pair = pair_of 2

abbrev pub secret : Bytes
secret = replicate 32 7

abbrev pub a_nonce : Bytes
a_nonce = replicate 24 9

pub pair_of-IsKeyPair : (n : ℕ) → IsKeyPair toy toy-CurveLaws (pair_of n)
pair_of-IsKeyPair n = record { length_secret = refl; public_eq = refl }

abbrev pub alice : RatchetState
alice = record {
  root_key = replicate 32 3;
  sending_chain_key = some (replicate 32 0);
  receiving_chain_key = none;
  sending_keypair = some alice_pair;
  remote_ratchet_key = some bob_pair.0;
  send_message_number = 0;
  recv_message_number = 0;
  previous_chain_length = 0;
  skipped_keys = [];
}

abbrev pub bob : RatchetState
bob = record {
  root_key = secret;
  sending_chain_key = none;
  receiving_chain_key = none;
  sending_keypair = some bob_pair;
  remote_ratchet_key = none;
  send_message_number = 0;
  recv_message_number = 0;
  previous_chain_length = 0;
  skipped_keys = [];
}

alice_starts : init_sender toy toy_kdf alice_pair secret bob_pair.0 ≡ ok alice
unfolding init_sender kdf_rk dh_exchange
alice_starts = refl

pub opened :
    Session toy toy_kdf toy-AeadLaws toy-CurveLaws toy-KdfLaws false alice
      (init_receiver secret bob_pair)
opened =
    Session.opened alice_pair bob_pair secret (pair_of-IsKeyPair 1) (pair_of-IsKeyPair 2)
      alice_starts

pub head_ne : (m n : ℕ) → m ≢ n → replicate 32 m ≢ replicate 32 n
head_ne m n h e = h (ap (λ l. get_or l 0 0) e)

pub pair_of-IsNew :
    (m n : ℕ) (b : RatchetState)
    → m ≢ n
    → b.sending_keypair ≡ some (pair_of n)
    → IsNew (pair_of m) b
pair_of-IsNew m n b h held k e same =
    head_ne m n h (same ∙ ap (λ (p : KeyPair). p.0) (some-eq (sym e ∙ held)))

abbrev pub hello : Bytes
hello = text "hello"

-- The states after that message.
abbrev alice_spoke : RatchetState
alice_spoke = (encrypt toy toy_kdf a_nonce hello [] alice).1

abbrev pub first_header : MessageHeader
first_header = record {
  ratchet_public_key = alice_pair.0;
  previous_chain_length = 0;
  message_number = 0;
}

abbrev first_text : Bytes
first_text = a_nonce ++ 0 ∷ hello

abbrev bob_heard : RatchetState
bob_heard = (decrypt toy toy_kdf (pair_of 5) first_header first_text [] bob).1

pub alice_sends :
    encrypt toy toy_kdf a_nonce hello [] alice ≡ (ok (first_header, first_text), alice_spoke)
unfolding encrypt kdf_ck AesGcm.encrypt
alice_sends = refl

bob_reads : decrypt toy toy_kdf (pair_of 5) first_header first_text [] bob ≡ (ok hello, bob_heard)
unfolding decrypt decrypt_on_chain HashMap.lookup needs_ratchet ratchet_to
    skip_message_keys_for_current_chain dh_ratchet_step dh_exchange kdf_rk kdf_ck skip_message_keys
    skip_loop decrypt_with_key AesGcm.decrypt text
bob_reads = refl

bob_heard_keypair : bob_heard.sending_keypair ≡ some (pair_of 5)
unfolding decrypt decrypt_on_chain HashMap.lookup needs_ratchet ratchet_to
    skip_message_keys_for_current_chain dh_ratchet_step dh_exchange kdf_rk kdf_ck skip_message_keys
    skip_loop decrypt_with_key AesGcm.decrypt
bob_heard_keypair = refl

alice_spoke_keypair : alice_spoke.sending_keypair ≡ some (pair_of 1)
unfolding encrypt kdf_ck AesGcm.encrypt
alice_spoke_keypair = refl

-- A receiver that shares the chain of Alice.
abbrev pub listener : RatchetState
listener = record bob {
  remote_ratchet_key = some alice_pair.0;
  receiving_chain_key = some (replicate 32 0);
}

listening : Linked toy_kdf toy-KdfLaws alice listener
unfolding chain_key_after HashMap.lookup
listening = record {
  public = alice_pair.0;
  secret = alice_pair.1;
  chain = replicate 32 0;
  length_public = refl;
  keypair = refl;
  remote = refl;
  receiving = refl;
  behind = omega arith;
  sending = refl;
  clean = λ j h. refl;
}

-- The message number 3 arrives first, forged, and the first message after it.
abbrev pub overtaking : MessageHeader
overtaking = record first_header { message_number = 3 }

decrypt_after_forgery_example :
    (header : MessageHeader) × (ct : Bytes) × (a' : RatchetState) × (encrypt toy toy_kdf a_nonce
        hello [] alice
      ≡ (ok (header, ct), a'))
    × (let b' = (decrypt toy toy_kdf (pair_of 5) header hello [] listener).1 in
        decrypt toy toy_kdf (pair_of 5) header ct [] b' ≡ (already_consumed, b'))
decrypt_after_forgery_example =
    decrypt_after_forgery toy toy_kdf toy-AeadLaws toy-CurveLaws toy-KdfLaws (pair_of 5) a_nonce
      hello [] hello [] alice listener listening (omega arith) (omega arith)

decrypt-Adds_example :
    length (decrypt toy toy_kdf (pair_of 5) overtaking hello [] listener).1.skipped_keys
    ≤ length listener.skipped_keys + 2 * max_skip
decrypt-Adds_example = decrypt-Adds toy toy_kdf (pair_of 5) overtaking hello [] listener
