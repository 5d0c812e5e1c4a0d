-- ===== src/DoubleRatchet/Linked.antt =====
-- crates/vaultex-crypto/src/double_ratchet.rs: a sender and a receiver that share a chain. Messages
-- arrive in order, with gaps, late, twice, or forged.
use vaultex.Base.{
  ℕ, ◌+◌, ◌-◌, ◌^◌, ◌≤◌, ◌<◌, ◌≡◌, refl, sym, ◌∙◌, ap, none, some, arith, Bytes, length,
}
use vaultex.Base.HashMap
use vaultex.Errors.{ok}
use vaultex.Crates.Sodium.{Sodium, AeadLaws, CurveLaws}
use vaultex.Crates.Kdf.{Kdf, KdfLaws}
use vaultex.DoubleRatchet.State.{
  max_skip, MessageHeader, RatchetState, KeyPair, skipped_id, next_u32,
}
use vaultex.DoubleRatchet.Keys.{
  next_chain_key, message_key, chain_key_after, chain_key_after-zero, length-message_key,
}
use vaultex.DoubleRatchet.Session.{encrypt, decrypt, decrypt_with_key}
use vaultex.DoubleRatchet.Skipping.{stored, lookup-stored_after}
use vaultex.DoubleRatchet.Delivery.{
  sealed, decrypt_with_key-sealed, next_header, encrypt_lem, decrypt_current,
}

-- `b` receives the chain that `a` sends: it is at the same place of the chain, or behind it.
pub record Linked (kdf : Kdf) (laws : KdfLaws kdf) (a b : RatchetState) : Type 0 where
  pub public : Bytes
  pub secret : Bytes
  pub chain : Bytes
  pub length_public : length public ≡ 32
  pub keypair : a.sending_keypair ≡ some (public, secret)
  pub remote : b.remote_ratchet_key ≡ some public
  pub receiving : b.receiving_chain_key ≡ some chain
  pub behind : b.recv_message_number ≤ a.send_message_number
  pub sending :
      a.sending_chain_key
      ≡ some (chain_key_after kdf laws (a.send_message_number - b.recv_message_number) chain)
  -- No key of a message that is still to come is stored.
  pub clean : (j : ℕ) → b.recv_message_number ≤ j → HashMap.lookup (public, j) b.skipped_keys ≡ none

-- The states after message number n was sent, and after it was received with `reached` as its chain
-- key.
abbrev pub sender_after : (kdf : Kdf) → KdfLaws kdf → RatchetState → Bytes → RatchetState
sender_after kdf laws a reached = record a {
  sending_chain_key = some (next_chain_key kdf laws reached);
  send_message_number = next_u32 a.send_message_number;
}

abbrev pub receiver_after :
    (kdf : Kdf) → KdfLaws kdf → RatchetState → Bytes → Bytes → ℕ → RatchetState
receiver_after kdf laws b public chain n =
    let gap = n - b.recv_message_number in
    record b {
      receiving_chain_key = some (next_chain_key kdf laws (chain_key_after kdf laws gap chain));
      recv_message_number = next_u32 n;
      skipped_keys = stored kdf laws gap public b.recv_message_number chain b.skipped_keys;
    }

module _ (na : Sodium) (kdf : Kdf) (aead : AeadLaws na) (curve : CurveLaws na)
    (laws : KdfLaws kdf) where
  -- What the receiver does with the header of the sender's next message, whatever the ciphertext is.
  pub decrypt_next :
      (fresh : KeyPair) (ct ad : Bytes) (a b : RatchetState) (l : Linked kdf laws a b)
      → a.send_message_number - b.recv_message_number ≤ max_skip
      → let gap = a.send_message_number - b.recv_message_number in
        let reached = chain_key_after kdf laws gap l.chain in
        decrypt na kdf fresh (next_header a l.public) ct ad b ≡ (
          decrypt_with_key na (message_key kdf laws reached) ct ad,
          receiver_after kdf laws b l.public l.chain a.send_message_number,
        )
  decrypt_next fresh ct ad a b l gap_ok =
      decrypt_current na kdf aead laws fresh (next_header a l.public) ct ad b
        (curve.public_length.fits l.public l.length_public) l.remote l.receiving
        (l.clean a.send_message_number l.behind) l.behind gap_ok

  pub relinked :
      (a b : RatchetState) (l : Linked kdf laws a b)
      → a.send_message_number + 1 < 2 ^ 32
      → Linked kdf laws
          (sender_after kdf laws a
            (chain_key_after kdf laws (a.send_message_number - b.recv_message_number) l.chain))
          (receiver_after kdf laws b l.public l.chain a.send_message_number)
  relinked a b l no_wrap =
      let n = a.send_message_number in
      let gap = n - b.recv_message_number in
      let reached = next_chain_key kdf laws (chain_key_after kdf laws gap l.chain) in
      let le : b.recv_message_number ≤ n = l.behind in
      record {
        public = l.public;
        secret = l.secret;
        chain = reached;
        length_public = l.length_public;
        keypair = l.keypair;
        remote = l.remote;
        receiving = refl;
        behind = omega arith;
        sending =
            ap some
              (sym (chain_key_after-zero kdf laws (next_u32 n - next_u32 n) reached (omega arith)));
        clean = λ j h.
            lookup-stored_after kdf laws gap l.public b.recv_message_number l.chain b.skipped_keys
              l.public j (omega arith)
            ∙ l.clean j (omega arith);
      }

  -- Where the receiver follows the sender's chain, the next message of the sender is decrypted to
  -- its text, however many messages before it, up to 1000, have not arrived, and the receiver
  -- follows the chain again, with no message between them. The nonce has 24 bytes, and the counter
  -- does not reach 2^32.
  pub decrypt-encrypt :
      (fresh : KeyPair) (nonce plaintext ad : Bytes) (a b : RatchetState)
      → Linked kdf laws a b
      → length nonce ≡ 24
      → a.send_message_number - b.recv_message_number ≤ max_skip
      → a.send_message_number + 1 < 2 ^ 32
      → (header : MessageHeader) × (ct : Bytes) × (a' : RatchetState) × (b' : RatchetState)
        × (encrypt na kdf nonce plaintext ad a ≡ (ok (header, ct), a'))
        × (decrypt na kdf fresh header ct ad b ≡ (ok plaintext, b'))
        × Linked kdf laws a' b'
        × (b'.recv_message_number ≡ a'.send_message_number)
  decrypt-encrypt fresh nonce plaintext ad a b l hn gap_ok no_wrap =
      let gap = a.send_message_number - b.recv_message_number in
      let reached = chain_key_after kdf laws gap l.chain in
      let key = message_key kdf laws reached in
      let b' = receiver_after kdf laws b l.public l.chain a.send_message_number in
      (
        next_header a l.public,
        sealed na key nonce plaintext ad,
        sender_after kdf laws a reached,
        b',
        encrypt_lem na kdf aead laws nonce plaintext ad a l.sending l.keypair,
        decrypt_next fresh (sealed na key nonce plaintext ad) ad a b l gap_ok
            ∙ ap (λ r. (r, b'))
                (decrypt_with_key-sealed na aead key nonce plaintext ad
                  (length-message_key kdf laws reached) hn),
        relinked a b l no_wrap,
        refl,
      )
