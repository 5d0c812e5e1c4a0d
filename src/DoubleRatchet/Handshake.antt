-- ===== src/DoubleRatchet/Handshake.antt =====
-- crates/vaultex-crypto/src/double_ratchet.rs: a chain that the receiver has not seen yet. The first
-- message that arrives of it makes the receiver ratchet.
use vaultex.Base.{◌≡◌, ◌≢◌, sym, none, some, true, arith, Bytes, bytes_eq_ne, bytes_eq_refl, false}
use vaultex.Base.HashMap
use vaultex.Errors.{ok}
use vaultex.Crates.Sodium.{Sodium, CurveLaws, IsKeyPair}
use vaultex.Crates.Kdf.{Kdf, KdfLaws}
use vaultex.DoubleRatchet.State.{MessageHeader, RatchetState, KeyPair, skipped_id}
use vaultex.DoubleRatchet.Keys.{chain_key_after, root_step, kdf_rk_lem, dh_exchange}
use vaultex.DoubleRatchet.Session.{
  decrypt, decrypt_on_chain, dh_ratchet_step, needs_ratchet, ratchet_to,
}

needs_ratchet_self : (pk : Bytes) → needs_ratchet (some pk) pk ≡ false
unfolding needs_ratchet
needs_ratchet_self pk = rw (bytes_eq_refl pk)

pub needs_ratchet_ne : (old pk : Bytes) → pk ≢ old → needs_ratchet (some old) pk ≡ true
unfolding needs_ratchet
needs_ratchet_ne old pk h = rw (bytes_eq_ne old pk (λ e. h (sym e)))

module _ (na : Sodium) (kdf : Kdf) (curve : CurveLaws na) (laws : KdfLaws kdf) where
  -- `a` sends on a chain that `b` will derive from its own root key when it sees the key of `a`.
  pub record Handshake (a b : RatchetState) : Type 0 where
    pub pair : KeyPair
    pub peer : KeyPair
    pub is_pair : IsKeyPair na curve pair
    pub peer_is_pair : IsKeyPair na curve peer
    pub keypair : a.sending_keypair ≡ some pair
    pub peer_keypair : b.sending_keypair ≡ some peer
    pub remote : a.remote_ratchet_key ≡ some peer.0
    pub shared : Bytes
    pub exchange : dh_exchange na peer.1 pair.0 ≡ ok shared
    pub root : a.root_key ≡ (root_step kdf laws b.root_key shared).0
    pub sending :
        a.sending_chain_key
        ≡ some (
            chain_key_after kdf laws a.send_message_number (root_step kdf laws b.root_key shared).1)
    pub unseen : needs_ratchet b.remote_ratchet_key pair.0 ≡ true

  -- The state after a ratchet step, by what the two derivations give.
  abbrev pub ratcheted : RatchetState → Bytes → KeyPair → Bytes → Bytes → RatchetState
  ratcheted b their_pk fresh shared shared' =
      let received = root_step kdf laws b.root_key shared in
      let sent = root_step kdf laws received.0 shared' in
      record b {
        root_key = sent.0;
        sending_chain_key = some sent.1;
        receiving_chain_key = some received.1;
        sending_keypair = some fresh;
        remote_ratchet_key = some their_pk;
        send_message_number = 0;
        recv_message_number = 0;
        previous_chain_length = b.send_message_number;
      }

  pub dh_ratchet_step_lem :
      (fresh : KeyPair) (their_pk : Bytes) (b : RatchetState) {ours : KeyPair}
      {shared shared' : Bytes}
      → b.sending_keypair ≡ some ours
      → dh_exchange na ours.1 their_pk ≡ ok shared
      → dh_exchange na fresh.1 their_pk ≡ ok shared'
      → dh_ratchet_step na kdf fresh their_pk b ≡ (ok tt, ratcheted b their_pk fresh shared shared')
  unfolding dh_ratchet_step
  dh_ratchet_step_lem fresh their_pk b {ours} {shared} {shared'} keypair recv send = ground (
    arith,
    kdf_rk_lem kdf laws b.root_key shared,
    kdf_rk_lem kdf laws (root_step kdf laws b.root_key shared).0 shared',
  )

  -- A message that makes the receiver ratchet is handled as in the state after the ratchet.
  pub decrypt_ratchets :
      (fresh : KeyPair) (header : MessageHeader) (ct ad : Bytes) (b b' : RatchetState)
      → na.public_key_from_slice header.ratchet_public_key ≡ some header.ratchet_public_key
      → needs_ratchet b.remote_ratchet_key header.ratchet_public_key ≡ true
      → ratchet_to na kdf fresh header header.ratchet_public_key b ≡ (ok tt, b')
      → b'.remote_ratchet_key ≡ some header.ratchet_public_key
      → HashMap.lookup (header.ratchet_public_key, header.message_number) b.skipped_keys ≡ none
      → HashMap.lookup (header.ratchet_public_key, header.message_number) b'.skipped_keys ≡ none
      → decrypt na kdf fresh header ct ad b ≡ decrypt na kdf fresh header ct ad b'
  unfolding decrypt decrypt_on_chain
  decrypt_ratchets fresh header ct ad b b' key new step remote absent absent' =
      ground (arith, needs_ratchet_self header.ratchet_public_key)
