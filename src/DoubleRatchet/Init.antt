-- ===== src/DoubleRatchet/Init.antt =====
-- crates/vaultex-crypto/src/double_ratchet.rs: `init_sender`. What `gen_keypair` draws is the
-- argument `sending`.
use vaultex.Base.{none, some, [], not, Bytes}
use vaultex.Errors.{Result, ok, ◌>>=◌, ◌>>◌, reject_if, init_failed}
use vaultex.Crates.Sodium.{Sodium}
use vaultex.Crates.Kdf.{Kdf}
use vaultex.DoubleRatchet.State.{RatchetState, KeyPair}
use vaultex.DoubleRatchet.Keys.{kdf_rk, dh_exchange}

unfoldable pub init_sender : Sodium → Kdf → KeyPair → Bytes → Bytes → Result RatchetState
init_sender na kdf (sending_pk, sending_sk) shared_secret recipient_ratchet_key = do
  reject_if (not na.init) init_failed
  dh_out ← dh_exchange na sending_sk recipient_ratchet_key
  (root_key, sending_chain_key) ← kdf_rk kdf shared_secret dh_out
  let alice : RatchetState = record {
    root_key = root_key;
    sending_chain_key = some sending_chain_key;
    receiving_chain_key = none;
    sending_keypair = some (sending_pk, sending_sk);
    remote_ratchet_key = some recipient_ratchet_key;
    send_message_number = 0;
    recv_message_number = 0;
    previous_chain_length = 0;
    skipped_keys = [];
  }
  ok alice
