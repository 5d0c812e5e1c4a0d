-- ===== src/DoubleRatchet/Adoption/Tests.antt =====
-- A header that anyone can write, in a session: crates/vaultex-crypto/src/double_ratchet.rs.
use vaultex.Base.{◌≡◌, refl, true, none, some, [], replicate, bytes_eq, arith}
use vaultex.Base.HashMap
use vaultex.Crates.Toy.{toy, toy_kdf, toy-CurveLaws}
use vaultex.DoubleRatchet.State.{MessageHeader, RatchetState, skipped_id}
use vaultex.DoubleRatchet.Session.{needs_ratchet, decrypt}
use vaultex.DoubleRatchet.Adoption.{decrypt_adopts}

abbrev alice : RatchetState
alice = record {
  root_key = replicate 32 3;
  sending_chain_key = some (replicate 32 0);
  receiving_chain_key = some (replicate 32 5);
  sending_keypair = some (replicate 32 1, replicate 32 1);
  remote_ratchet_key = some (replicate 32 2);
  send_message_number = 4;
  recv_message_number = 7;
  previous_chain_length = 0;
  skipped_keys = [];
}

abbrev attack : MessageHeader
attack = record {
  ratchet_public_key = replicate 32 66;
  previous_chain_length = 0;
  message_number = 0;
}

attack_new : needs_ratchet alice.remote_ratchet_key attack.ratchet_public_key ≡ true
unfolding needs_ratchet bytes_eq
attack_new = refl

attack_unseen :
    HashMap.lookup (attack.ratchet_public_key, attack.message_number) alice.skipped_keys ≡ none
attack_unseen = HashMap.lookup-empty (attack.ratchet_public_key, attack.message_number) [] refl

decrypt_adopts_example :
    (decrypt toy toy_kdf (replicate 32 9, replicate 32 9) attack [] [] alice).1.remote_ratchet_key
    ≡ some (replicate 32 66)
decrypt_adopts_example =
    decrypt_adopts toy toy_kdf toy-CurveLaws (replicate 32 9, replicate 32 9) attack [] [] alice
      refl attack_new (omega arith) attack_unseen
