-- ===== src/DoubleRatchet/Delivery.antt =====
-- crates/vaultex-crypto/src/double_ratchet.rs: `encrypt` on one side and `decrypt` on the other,
-- along one chain.
use vaultex.Base.{
  ◌-◌, ◌≤◌, ◌<◌, ◌≡◌, none, some, ◌++◌, le→ltb, arith, Bytes, bytes_eq_refl, text, length,
  length-append, take, drop, take-append, drop-append,
}
use vaultex.Base.HashMap
use vaultex.Errors.{ok, err, ratchet_error}
use vaultex.Crates.Sodium.{Sodium, AeadLaws}
use vaultex.Crates.Kdf.{Kdf, KdfLaws}
use vaultex.AesGcm
use vaultex.DoubleRatchet.State.{
  max_skip, MessageHeader, RatchetState, KeyPair, skipped_id, next_u32,
}
use vaultex.DoubleRatchet.Keys.{
  next_chain_key, message_key, chain_key_after, kdf_ck_lem, length-message_key,
}
use vaultex.DoubleRatchet.Session.{
  encrypt, decrypt_with_key, needs_ratchet, decrypt_on_chain, decrypt,
}
use vaultex.DoubleRatchet.Skipping.{stored, skip_message_keys_ok, skip_message_keys_consumed}

-- The wire form of a message under one message key: the nonce in front of the ciphertext.
abbrev pub sealed : Sodium → Bytes → Bytes → Bytes → Bytes → Bytes
sealed na key nonce plaintext ad = nonce ++ na.aead_seal plaintext (some ad) nonce key

pub decrypt_with_key-sealed :
    (na : Sodium) (laws : AeadLaws na) (key nonce plaintext ad : Bytes)
    → length key ≡ 32
    → length nonce ≡ 24
    → decrypt_with_key na key (sealed na key nonce plaintext ad) ad ≡ ok plaintext
unfolding decrypt_with_key
decrypt_with_key-sealed na laws key nonce plaintext ad hk hn =
    let ct = na.aead_seal plaintext (some ad) nonce key in
    let long : 24 ≤ length (nonce ++ ct) = omega (arith, length-append nonce ct) in
    let front : take 24 (nonce ++ ct) ≡ nonce = rw hn at (take-append nonce ct) in
    let back : drop 24 (nonce ++ ct) ≡ ct = rw hn at (drop-append nonce ct) in
    rw (le→ltb (length (nonce ++ ct)) 24 long, front, back)
      (AesGcm.decrypt-seal na laws nonce key plaintext (some ad) hk hn)

-- The header of the next message of a state.
abbrev pub next_header : RatchetState → Bytes → MessageHeader
next_header a pk = record {
  ratchet_public_key = pk;
  previous_chain_length = a.previous_chain_length;
  message_number = a.send_message_number;
}

module _ (na : Sodium) (kdf : Kdf) (aead : AeadLaws na) (laws : KdfLaws kdf) where
  -- Encryption takes one key off the sending chain.
  pub encrypt_lem :
      (nonce plaintext ad : Bytes) (a : RatchetState) {pk sk ck : Bytes}
      → a.sending_chain_key ≡ some ck
      → a.sending_keypair ≡ some (pk, sk)
      → encrypt na kdf nonce plaintext ad a ≡ (
        ok (next_header a pk, sealed na (message_key kdf laws ck) nonce plaintext ad),
        record a {
          sending_chain_key = some (next_chain_key kdf laws ck);
          send_message_number = next_u32 a.send_message_number;
        },
      )
  unfolding encrypt
  encrypt_lem nonce plaintext ad a {pk} {sk} {ck} chain keypair = ground (
    arith,
    kdf_ck_lem kdf laws ck,
    AesGcm.encrypt_lem na aead nonce (message_key kdf laws ck) plaintext (some ad)
        (length-message_key kdf laws ck),
  )

  -- A message of the current chain, at or behind the expected number: the keys in between are
  -- stored, and the message is opened under the key of its number.
  pub decrypt_current :
      (fresh : KeyPair) (header : MessageHeader) (ct ad : Bytes) (b : RatchetState) {ck : Bytes}
      → na.public_key_from_slice header.ratchet_public_key ≡ some header.ratchet_public_key
      → b.remote_ratchet_key ≡ some header.ratchet_public_key
      → b.receiving_chain_key ≡ some ck
      → HashMap.lookup (header.ratchet_public_key, header.message_number) b.skipped_keys ≡ none
      → b.recv_message_number ≤ header.message_number
      → header.message_number - b.recv_message_number ≤ max_skip
      → let gap = header.message_number - b.recv_message_number in
        let reached = chain_key_after kdf laws gap ck in
        decrypt na kdf fresh header ct ad b ≡ (
          decrypt_with_key na (message_key kdf laws reached) ct ad,
          record b {
            receiving_chain_key = some (next_chain_key kdf laws reached);
            recv_message_number = next_u32 header.message_number;
            skipped_keys =
                stored kdf laws gap header.ratchet_public_key b.recv_message_number ck
                  b.skipped_keys;
          },
        )
  unfolding decrypt decrypt_on_chain needs_ratchet
  decrypt_current fresh header ct ad b {ck} key remote receiving unseen lo hi =
      let gap = header.message_number - b.recv_message_number in
      let reached = chain_key_after kdf laws gap ck in
      ground (
        arith,
        bytes_eq_refl header.ratchet_public_key,
        skip_message_keys_ok kdf laws header.message_number b remote receiving lo hi,
        kdf_ck_lem kdf laws reached,
      )

  -- A number that was passed, whose key is not stored, is refused and changes nothing.
  pub decrypt_consumed :
      (fresh : KeyPair) (header : MessageHeader) (ct ad : Bytes) (b : RatchetState)
      → na.public_key_from_slice header.ratchet_public_key ≡ some header.ratchet_public_key
      → b.remote_ratchet_key ≡ some header.ratchet_public_key
      → HashMap.lookup (header.ratchet_public_key, header.message_number) b.skipped_keys ≡ none
      → header.message_number < b.recv_message_number
      → decrypt na kdf fresh header ct ad b
        ≡ (err (ratchet_error (text "message number already consumed")), b)
  unfolding decrypt decrypt_on_chain needs_ratchet
  decrypt_consumed fresh header ct ad b key remote unseen old = ground (
    arith,
    bytes_eq_refl header.ratchet_public_key,
    skip_message_keys_consumed kdf laws header.message_number b old,
  )

  -- A message whose key is stored is opened under that key, which is then gone.
  pub decrypt_stored :
      (fresh : KeyPair) (header : MessageHeader) (ct ad : Bytes) (b : RatchetState) {key : Bytes}
      → HashMap.lookup (header.ratchet_public_key, header.message_number) b.skipped_keys ≡ some key
      → decrypt na kdf fresh header ct ad b ≡ (
        decrypt_with_key na key ct ad,
        record b {
          skipped_keys =
              HashMap.remove (header.ratchet_public_key, header.message_number) b.skipped_keys;
        },
      )
  unfolding decrypt
  decrypt_stored fresh header ct ad b found = ground arith
