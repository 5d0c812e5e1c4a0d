-- ===== src/DoubleRatchet/OutOfOrder.antt =====
-- crates/vaultex-crypto/src/double_ratchet.rs: messages that are overtaken, repeated or forged.
use vaultex.Base.{
  ◌+◌, ◌-◌, ◌^◌, ◌≤◌, ◌<◌, ◌≡◌, sym, ◌∙◌, ap, none, some, arith, Bytes, text, length,
}
use vaultex.Base.HashMap
use vaultex.Errors.{Result, ok, err, ratchet_error}
use vaultex.Crates.Sodium.{Sodium, AeadLaws, CurveLaws}
use vaultex.Crates.Kdf.{Kdf, KdfLaws}
use vaultex.DoubleRatchet.State.{
  max_skip, MessageHeader, RatchetState, KeyPair, SkippedId, skipped_id,
}
use vaultex.DoubleRatchet.Keys.{message_key, chain_key_after, length-message_key}
use vaultex.DoubleRatchet.Session.{encrypt, decrypt}
use vaultex.DoubleRatchet.Skipping.{stored, lookup-stored, lookup-stored_after}
use vaultex.DoubleRatchet.Delivery.{
  sealed, decrypt_with_key-sealed, next_header, encrypt_lem, decrypt_current, decrypt_consumed,
  decrypt_stored,
}
use vaultex.DoubleRatchet.Linked.{Linked, sender_after, receiver_after, decrypt_next}

-- The refusal of a message number that the chain has passed.
abbrev pub already_consumed : Result Bytes
already_consumed = err (ratchet_error (text "message number already consumed"))

module _ (na : Sodium) (kdf : Kdf) (aead : AeadLaws na) (curve : CurveLaws na)
    (laws : KdfLaws kdf) where
  -- The receiver's state after a header of the shared chain that lies ahead, whatever its text is.
  receive_ahead :
      (fresh : KeyPair) (later : MessageHeader) (ct ad : Bytes) (a b : RatchetState)
      (l : Linked kdf laws a b)
      → later.ratchet_public_key ≡ l.public
      → b.recv_message_number ≤ later.message_number
      → later.message_number - b.recv_message_number ≤ max_skip
      → (decrypt na kdf fresh later ct ad b).1
        ≡ receiver_after kdf laws b l.public l.chain later.message_number
  receive_ahead fresh later ct ad a b l same ahead gap_ok =
      let pk = later.ratchet_public_key in
      let sized : length pk ≡ 32 = ap length same ∙ l.length_public in
      let unseen : HashMap.lookup (pk, later.message_number) b.skipped_keys ≡ none =
        ap (λ p. HashMap.lookup (p, later.message_number) b.skipped_keys) same
        ∙ l.clean later.message_number ahead in
      ap (λ (r : Result Bytes × RatchetState). r.1)
        (decrypt_current na kdf aead laws fresh later ct ad b (curve.public_length.fits pk sized)
          (l.remote ∙ ap some (sym same)) l.receiving unseen ahead gap_ok)
      ∙ ap (λ p. receiver_after kdf laws b p l.chain later.message_number) same

  -- In a state that has passed message n of its chain and keeps its key, the message is opened once.
  open_stored :
      (fresh : KeyPair) (nonce plaintext ad key : Bytes) (header : MessageHeader) (b : RatchetState)
      → length nonce ≡ 24
      → length key ≡ 32
      → length header.ratchet_public_key ≡ 32
      → b.remote_ratchet_key ≡ some header.ratchet_public_key
      → header.message_number < b.recv_message_number
      → HashMap.lookup (header.ratchet_public_key, header.message_number) b.skipped_keys ≡ some key
      → let ct = sealed na key nonce plaintext ad in
        let received = decrypt na kdf fresh header ct ad b in
        (received.0 ≡ ok plaintext)
        × (decrypt na kdf fresh header ct ad received.1 ≡ (already_consumed, received.1))
  open_stored fresh nonce plaintext ad key header b hn hk hp remote passed found =
      let ct = sealed na key nonce plaintext ad in
      let id : SkippedId = (header.ratchet_public_key, header.message_number) in
      let b' = record b { skipped_keys = HashMap.remove id b.skipped_keys } in
      rw (decrypt_stored na kdf aead laws fresh header ct ad b found) (
        decrypt_with_key-sealed na aead key nonce plaintext ad hk hn,
        decrypt_consumed na kdf aead laws fresh header ct ad b'
            (curve.public_length.fits header.ratchet_public_key hp) remote
            (HashMap.lookup-remove_self id b.skipped_keys) passed,
      )

  -- Where the receiver follows the sender's chain, a message that is overtaken by a later one of
  -- its chain is still decrypted to its text when it comes, once: coming again it is refused and
  -- changes nothing. The later message is at most 1000 ahead and may hold any text, a forged one
  -- too; the nonce has 24 bytes, and the counter does not reach 2^32.
  pub decrypt_late :
      (fresh : KeyPair) (nonce plaintext ad : Bytes) (later : MessageHeader)
      (later_ct later_ad : Bytes) (a b : RatchetState) (l : Linked kdf laws a b)
      → length nonce ≡ 24
      → later.ratchet_public_key ≡ l.public
      → a.send_message_number < later.message_number
      → later.message_number - b.recv_message_number ≤ max_skip
      → later.message_number + 1 < 2 ^ 32
      → (header : MessageHeader) × (ct : Bytes) × (a' : RatchetState) × (encrypt na kdf nonce
            plaintext ad a
          ≡ (ok (header, ct), a'))
        × (let overtaken = (decrypt na kdf fresh later later_ct later_ad b).1 in
            let received = decrypt na kdf fresh header ct ad overtaken in
            (received.0 ≡ ok plaintext)
            × (decrypt na kdf fresh header ct ad received.1 ≡ (already_consumed, received.1)))
  decrypt_late fresh nonce plaintext ad later later_ct later_ad a b l hn same after gap_ok no_wrap =
      let i = a.send_message_number - b.recv_message_number in
      let reached = chain_key_after kdf laws i l.chain in
      let key = message_key kdf laws reached in
      let le : b.recv_message_number ≤ a.send_message_number = l.behind in
      let at : b.recv_message_number + i ≡ a.send_message_number = omega arith in
      let gap = later.message_number - b.recv_message_number in
      (
        next_header a l.public,
        sealed na key nonce plaintext ad,
        sender_after kdf laws a reached,
        encrypt_lem na kdf aead laws nonce plaintext ad a l.sending l.keypair,
        rw (receive_ahead fresh later later_ct later_ad a b l same (omega arith) gap_ok) (
            open_stored fresh nonce plaintext ad key (next_header a l.public)
              (receiver_after kdf laws b l.public l.chain later.message_number) hn
              (length-message_key kdf laws reached) l.length_public l.remote (omega arith)
              (ap
                  (λ n.
                    HashMap.lookup (l.public, n)
                      (stored kdf laws gap l.public b.recv_message_number l.chain b.skipped_keys))
                  (sym at)
                ∙ lookup-stored kdf laws gap l.public b.recv_message_number l.chain b.skipped_keys i
                    (omega arith))),
      )

  -- Where the receiver follows the sender's chain at most 1000 messages behind, and the counter
  -- does not reach 2^32, any text that arrives first under the header of the sender's next message
  -- makes the receiver refuse that message itself, as one already consumed, whether or not the
  -- first text was rejected.
  pub decrypt_after_forgery :
      (fresh : KeyPair) (nonce plaintext ad forged forged_ad : Bytes) (a b : RatchetState)
      → Linked kdf laws a b
      → a.send_message_number - b.recv_message_number ≤ max_skip
      → a.send_message_number + 1 < 2 ^ 32
      → (header : MessageHeader) × (ct : Bytes) × (a' : RatchetState) × (encrypt na kdf nonce
            plaintext ad a
          ≡ (ok (header, ct), a'))
        × (let b' = (decrypt na kdf fresh header forged forged_ad b).1 in
            decrypt na kdf fresh header ct ad b' ≡ (already_consumed, b'))
  decrypt_after_forgery fresh nonce plaintext ad forged forged_ad a b l gap_ok no_wrap =
      let n = a.send_message_number in
      let gap = n - b.recv_message_number in
      let reached = chain_key_after kdf laws gap l.chain in
      let header = next_header a l.public in
      let ct = sealed na (message_key kdf laws reached) nonce plaintext ad in
      let b' = receiver_after kdf laws b l.public l.chain n in
      let le : b.recv_message_number ≤ n = l.behind in
      (
        header,
        ct,
        sender_after kdf laws a reached,
        encrypt_lem na kdf aead laws nonce plaintext ad a l.sending l.keypair,
        rw (decrypt_next na kdf aead curve laws fresh forged forged_ad a b l gap_ok) (
            decrypt_consumed na kdf aead laws fresh header ct ad b'
              (curve.public_length.fits l.public l.length_public) l.remote
              (lookup-stored_after kdf laws gap l.public b.recv_message_number l.chain
                  b.skipped_keys l.public n (omega arith)
                ∙ l.clean n le)
              (omega arith)),
      )
