-- ===== src/DoubleRatchet/Conversation.antt =====
-- crates/vaultex-crypto/src/double_ratchet.rs: two sides that take turns, from `init_sender` and
-- `init_receiver` on, where each message arrives before the next one is sent.
use vaultex.Base.{◌+◌, ◌-◌, ◌^◌, ◌<◌, ◌≡◌, ◌≢◌, refl, sym, ◌∙◌, ap, some, arith, Bytes, length, []}
use vaultex.Base.HashMap
use vaultex.Errors.{ok}
use vaultex.Crates.Sodium.{Sodium, AeadLaws, CurveLaws, IsKeyPair}
use vaultex.Crates.Kdf.{Kdf, KdfLaws}
use vaultex.DoubleRatchet.State.{MessageHeader, RatchetState, KeyPair, skipped_id}
use vaultex.DoubleRatchet.Keys.{
  chain_key_after, chain_key_after-zero, root_step, dh_exchange, dh_exchange_agree,
}
use vaultex.DoubleRatchet.Session.{decrypt, ratchet_to}
use vaultex.DoubleRatchet.Skipping.{stored-zero, skip_for_current_chain_level}
use vaultex.DoubleRatchet.Delivery.{next_header}
use vaultex.DoubleRatchet.Linked.{Linked, sender_after, receiver_after, relinked}
use vaultex.DoubleRatchet.Handshake.{
  Handshake, ratcheted, dh_ratchet_step_lem, decrypt_ratchets, needs_ratchet_ne,
}

module _ (na : Sodium) (kdf : Kdf) (aead : AeadLaws na) (curve : CurveLaws na)
    (laws : KdfLaws kdf) where
  -- `a` has a new chain to send on, and nothing is in flight either way.
  pub record Offer (a b : RatchetState) : Type 0 where
    pub handshake : Handshake na kdf curve laws a b
    pub unused : a.send_message_number ≡ 0
    pub settled : a.previous_chain_length ≡ b.recv_message_number
    pub heard : a.recv_message_number ≡ b.send_message_number
    pub none_kept : a.skipped_keys ≡ []
    pub peer_none_kept : b.skipped_keys ≡ []

  -- `a` spoke last: `b` is level with the chain of `a`, and has a new chain to answer on.
  pub record Talk (a b : RatchetState) : Type 0 where
    pub linked : Linked kdf laws a b
    pub level : b.recv_message_number ≡ a.send_message_number
    pub answer : Offer b a

  -- One more message of the side that spoke last.
  abbrev pub spoken : RatchetState → RatchetState → Bytes → RatchetState
  spoken a b chain =
      sender_after kdf laws a
        (chain_key_after kdf laws (a.send_message_number - b.recv_message_number) chain)

  pub Talk-spoken :
      (a b : RatchetState) (t : Talk a b)
      → a.send_message_number + 1 < 2 ^ 32
      → Talk
          (spoken a b t.linked.chain)
          (receiver_after kdf laws b t.linked.public t.linked.chain a.send_message_number)
  Talk-spoken a b t no_wrap =
      let o = t.answer in
      let h = o.handshake in
      let l = t.linked in
      let level : b.recv_message_number ≡ a.send_message_number = t.level in
      record {
        linked = relinked na kdf aead curve laws a b l no_wrap;
        level = refl;
        answer = record {
          handshake = record {
            pair = h.pair;
            peer = h.peer;
            is_pair = h.is_pair;
            peer_is_pair = h.peer_is_pair;
            keypair = h.keypair;
            peer_keypair = h.peer_keypair;
            remote = h.remote;
            shared = h.shared;
            exchange = h.exchange;
            root = h.root;
            sending = h.sending;
            unseen = h.unseen;
          };
          unused = o.unused;
          settled = o.settled;
          heard = refl;
          none_kept =
              stored-zero kdf laws (a.send_message_number - b.recv_message_number) l.public
                b.recv_message_number l.chain b.skipped_keys (omega arith)
              ∙ o.none_kept;
          peer_none_kept = o.peer_none_kept;
        };
      }

  -- The step stores nothing: no message of the old chain is missing.
  pub ratchet_to_lem :
      (fresh : KeyPair) (header : MessageHeader) (b : RatchetState) {ours : KeyPair}
      {shared shared' : Bytes}
      → header.previous_chain_length ≡ b.recv_message_number
      → b.sending_keypair ≡ some ours
      → dh_exchange na ours.1 header.ratchet_public_key ≡ ok shared
      → dh_exchange na fresh.1 header.ratchet_public_key ≡ ok shared'
      → ratchet_to na kdf fresh header header.ratchet_public_key b
        ≡ (ok tt, ratcheted na kdf curve laws b header.ratchet_public_key fresh shared shared')
  unfolding ratchet_to
  ratchet_to_lem fresh header b settled keypair recv send = ground (
    arith,
    skip_for_current_chain_level kdf header.previous_chain_length b settled,
    dh_ratchet_step_lem na kdf curve laws fresh header.ratchet_public_key b keypair recv send,
  )

  accepted_Linked :
      (fresh : KeyPair) (a b : RatchetState) (o : Offer a b) (shared' : Bytes)
      → length o.handshake.pair.0 ≡ 32
      → Linked kdf laws a
          (ratcheted na kdf curve laws b o.handshake.pair.0 fresh o.handshake.shared shared')
  accepted_Linked fresh a b o shared' sized =
      let h = o.handshake in
      let chain = (root_step kdf laws b.root_key h.shared).1 in
      record {
        public = h.pair.0;
        secret = h.pair.1;
        chain = chain;
        length_public = sized;
        keypair = h.keypair;
        remote = refl;
        receiving = refl;
        behind = omega arith;
        sending = h.sending ∙ ap (λ n. some (chain_key_after kdf laws n chain)) (omega arith);
        clean = λ j _. HashMap.lookup-empty (h.pair.0, j) b.skipped_keys o.peer_none_kept;
      }

  -- After the ratchet step that the first message of an offered chain causes, the receiver has a new
  -- chain to answer on.
  accepted_Offer :
      (fresh : KeyPair) (a b : RatchetState) (o : Offer a b) (shared' : Bytes)
      → IsKeyPair na curve fresh
      → fresh.0 ≢ o.handshake.peer.0
      → dh_exchange na o.handshake.pair.1 fresh.0 ≡ ok shared'
      → Offer (ratcheted na kdf curve laws b o.handshake.pair.0 fresh o.handshake.shared shared') a
  accepted_Offer fresh a b o shared' is_pair new exchange =
      let h = o.handshake in
      let same_root : (root_step kdf laws b.root_key h.shared).0 ≡ a.root_key = sym h.root in
      record {
        handshake = record {
          pair = fresh;
          peer = h.pair;
          is_pair = is_pair;
          peer_is_pair = h.is_pair;
          keypair = refl;
          peer_keypair = h.keypair;
          remote = refl;
          shared = shared';
          exchange = exchange;
          root = ap (λ r. (root_step kdf laws r shared').0) same_root;
          sending = ap some (
              ap (λ r. (root_step kdf laws r shared').1) same_root
              ∙ sym (chain_key_after-zero kdf laws 0 _ refl));
          unseen = rw h.remote (needs_ratchet_ne h.peer.0 fresh.0 new);
        };
        unused = refl;
        settled = sym o.heard;
        heard = sym o.unused;
        none_kept = o.peer_none_kept;
        peer_none_kept = o.none_kept;
      }

  -- The side that is offered a chain reads its messages as if it had taken the ratchet step before.
  pub accept :
      (fresh : KeyPair) (a b : RatchetState) (o : Offer a b)
      → IsKeyPair na curve fresh
      → fresh.0 ≢ o.handshake.peer.0
      → (b' : RatchetState) × Talk a b'
        × ((ct ad : Bytes)
            → decrypt na kdf fresh (next_header a o.handshake.pair.0) ct ad b
              ≡ decrypt na kdf fresh (next_header a o.handshake.pair.0) ct ad b')
  accept fresh a b o is_pair new =
      let h = o.handshake in
      let (shared', _, send, recv) =
        dh_exchange_agree na curve fresh.1 h.pair.1 is_pair.length_secret h.is_pair.length_secret in
      let header = next_header a h.pair.0 in
      let b' = ratcheted na kdf curve laws b h.pair.0 fresh h.shared shared' in
      let sized : length h.pair.0 ≡ 32 =
        ap length h.is_pair.public_eq ∙ curve.length-public_of h.pair.1 h.is_pair.length_secret in
      let unseen =
        HashMap.lookup-empty (h.pair.0, a.send_message_number) b.skipped_keys o.peer_none_kept in
      let sends : dh_exchange na fresh.1 h.pair.0 ≡ ok shared' =
        ap (dh_exchange na fresh.1) h.is_pair.public_eq ∙ send in
      (
        b',
        record {
          linked = accepted_Linked fresh a b o shared' sized;
          level = sym o.unused;
          answer =
              accepted_Offer fresh a b o shared' is_pair new
                (ap (dh_exchange na h.pair.1) is_pair.public_eq ∙ recv);
        },
        λ ct ad.
            decrypt_ratchets na kdf curve laws fresh header ct ad b b'
              (curve.public_length.fits h.pair.0 sized) h.unseen
              (ratchet_to_lem fresh header b o.settled h.peer_keypair h.exchange sends) refl unseen
              unseen,
      )
