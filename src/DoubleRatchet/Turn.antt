-- ===== src/DoubleRatchet/Turn.antt =====
-- crates/vaultex-crypto/src/double_ratchet.rs: one message, from `encrypt` to `decrypt`, in a session
-- that stands or was just started.
use vaultex.Base.{
  some-eq, ◌+◌, ◌-◌, ◌^◌, ◌<◌, ◌≡◌, ◌≢◌, refl, sym, ◌∙◌, ap, Option, none, some, arith, Bytes,
  length, [],
}
use vaultex.Errors.{ok}
use vaultex.Crates.Sodium.{Sodium, AeadLaws, CurveLaws, IsKeyPair}
use vaultex.Crates.Kdf.{Kdf, KdfLaws}
use vaultex.DoubleRatchet.State.{MessageHeader, RatchetState, KeyPair}
use vaultex.DoubleRatchet.Keys.{
  message_key, chain_key_after, chain_key_after-zero, length-message_key, root_step, kdf_rk_lem,
  dh_exchange, dh_exchange_agree,
}
use vaultex.DoubleRatchet.Session.{encrypt, decrypt, init_receiver, needs_ratchet}
use vaultex.DoubleRatchet.Init.{init_sender}
use vaultex.DoubleRatchet.Delivery.{sealed, decrypt_with_key-sealed, next_header, encrypt_lem}
use vaultex.DoubleRatchet.Linked.{sender_after, receiver_after, decrypt_next}
use vaultex.DoubleRatchet.Conversation.{Offer, Talk, Talk-spoken, accept}

-- A drawn pair whose public key is not the one in use.
abbrev pub IsNew : KeyPair → RatchetState → Type 0
IsNew fresh b = (k : KeyPair) → b.sending_keypair ≡ some k → fresh.0 ≢ k.0

same_public :
    {o : Option KeyPair} {public secret : Bytes} {k : KeyPair}
    → o ≡ some (public, secret)
    → o ≡ some k
    → public ≡ k.0
same_public {o} {public} {secret} {k} e e' =
    let pair : ◌≡◌ {A = KeyPair} (public, secret) k = some-eq (sym e ∙ e') in
    ap (λ (p : KeyPair). p.0) pair

module _ (na : Sodium) (kdf : Kdf) (aead : AeadLaws na) (curve : CurveLaws na)
    (laws : KdfLaws kdf) where
  -- The side that holds the turn sends, the other side reads what was sent, and they can go on.
  pub record Delivered (fresh : KeyPair) (nonce plaintext ad : Bytes) (a b : RatchetState)
      : Type 0 where
    pub header : MessageHeader
    pub ct : Bytes
    pub a' : RatchetState
    pub b' : RatchetState
    pub encrypted : encrypt na kdf nonce plaintext ad a ≡ (ok (header, ct), a')
    pub decrypted : decrypt na kdf fresh header ct ad b ≡ (ok plaintext, b')
    pub goes_on : Talk na kdf aead curve laws a' b'
    pub titled : (k : KeyPair) → a.sending_keypair ≡ some k → header ≡ next_header a k.0

  pub Talk-delivers :
      (fresh : KeyPair) (nonce plaintext ad : Bytes) (a b : RatchetState)
      → Talk na kdf aead curve laws a b
      → length nonce ≡ 24
      → a.send_message_number + 1 < 2 ^ 32
      → Delivered fresh nonce plaintext ad a b
  Talk-delivers fresh nonce plaintext ad a b t hn no_wrap =
      let l = t.linked in
      let gap = a.send_message_number - b.recv_message_number in
      let level : b.recv_message_number ≡ a.send_message_number = t.level in
      let reached = chain_key_after kdf laws gap l.chain in
      let key = message_key kdf laws reached in
      let b' = receiver_after kdf laws b l.public l.chain a.send_message_number in
      record {
        header = next_header a l.public;
        ct = sealed na key nonce plaintext ad;
        a' = sender_after kdf laws a reached;
        b' = b';
        encrypted = encrypt_lem na kdf aead laws nonce plaintext ad a l.sending l.keypair;
        decrypted =
            decrypt_next na kdf aead curve laws fresh (sealed na key nonce plaintext ad) ad a b l
              (omega arith)
            ∙ ap (λ r. (r, b'))
                (decrypt_with_key-sealed na aead key nonce plaintext ad
                  (length-message_key kdf laws reached) hn);
        goes_on = Talk-spoken na kdf aead curve laws a b t no_wrap;
        titled = λ k e. ap (next_header a) (same_public l.keypair e);
      }

  pub offer_delivers :
      (fresh : KeyPair) (nonce plaintext ad : Bytes) (a b : RatchetState)
      → Offer na kdf aead curve laws a b
      → length nonce ≡ 24
      → IsKeyPair na curve fresh
      → IsNew fresh b
      → Delivered fresh nonce plaintext ad a b
  offer_delivers fresh nonce plaintext ad a b o hn is_pair new =
      let h = o.handshake in
      let (b', talk, same) =
        accept na kdf aead curve laws fresh a b o is_pair (new h.peer h.peer_keypair) in
      let unused : a.send_message_number ≡ 0 = o.unused in
      let d = Talk-delivers fresh nonce plaintext ad a b' talk hn (omega arith) in
      let sent : d.header ≡ next_header a h.pair.0 = d.titled h.pair h.keypair in
      record {
        header = d.header;
        ct = d.ct;
        a' = d.a';
        b' = d.b';
        encrypted = d.encrypted;
        decrypted = rw sent (same d.ct ad ∙ (rw sent at d.decrypted));
        goes_on = d.goes_on;
        titled = d.titled;
      }

  -- Both initialisations leave the initiator with a chain that the other side can derive.
  pub started :
      (pair bob : KeyPair) (secret : Bytes)
      → IsKeyPair na curve pair
      → IsKeyPair na curve bob
      → (a : RatchetState) × (init_sender na kdf pair secret bob.0 ≡ ok a)
        × Offer na kdf aead curve laws a (init_receiver secret bob)
  unfolding init_sender init_receiver
  started pair bob secret is_pair bob_is_pair =
      let (shared, _, send, recv) =
        dh_exchange_agree na curve pair.1 bob.1 is_pair.length_secret bob_is_pair.length_secret in
      let sends : dh_exchange na pair.1 bob.0 ≡ ok shared =
        ap (dh_exchange na pair.1) bob_is_pair.public_eq ∙ send in
      let keys = root_step kdf laws secret shared in
      (
        record {
          root_key = keys.0;
          sending_chain_key = some keys.1;
          receiving_chain_key = none;
          sending_keypair = some pair;
          remote_ratchet_key = some bob.0;
          send_message_number = 0;
          recv_message_number = 0;
          previous_chain_length = 0;
          skipped_keys = [];
        },
        ground (arith, aead.initialised, kdf_rk_lem kdf laws secret shared),
        record {
          handshake = record {
            pair = pair;
            peer = bob;
            is_pair = is_pair;
            peer_is_pair = bob_is_pair;
            keypair = refl;
            peer_keypair = refl;
            remote = refl;
            shared = shared;
            exchange = ap (dh_exchange na bob.1) is_pair.public_eq ∙ recv;
            root = refl;
            sending = ap some (sym (chain_key_after-zero kdf laws 0 keys.1 refl));
            unseen = unfold needs_ratchet in refl;
          };
          unused = refl;
          settled = refl;
          heard = refl;
          none_kept = refl;
          peer_none_kept = refl;
        },
      )

  pub init_sender_ok :
      (pair bob : KeyPair) (secret : Bytes)
      → IsKeyPair na curve pair
      → IsKeyPair na curve bob
      → (a : RatchetState) × (init_sender na kdf pair secret bob.0 ≡ ok a)
        × (a.send_message_number ≡ 0)
  init_sender_ok pair bob secret is_pair bob_is_pair =
      let (a, e, o) = started pair bob secret is_pair bob_is_pair in (a, e, o.unused)
