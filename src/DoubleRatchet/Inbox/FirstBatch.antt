-- ===== src/DoubleRatchet/Inbox/FirstBatch.antt =====
-- crates/vaultex-crypto/src/double_ratchet.rs: a batch of messages on a chain that its receiver has not
-- heard of yet, so that whichever message comes first causes the ratchet step.
use vaultex.Base.{
  ℕ, ◌+◌, ◌≤◌, ◌<◌, ◌^◌, ◌≡◌, ◌⊎◌, inl, inr, refl, sym, ap, ◌∙◌, true, false, List, [], ◌∷◌, map,
  All, picked, picked-All, picked-map, IsDistinct, Bytes, length, arith,
}
use vaultex.Base.HashMap
use vaultex.Errors.{Result, ok}
use vaultex.Crates.Sodium.{Sodium, AeadLaws, CurveLaws, IsKeyPair}
use vaultex.Crates.Kdf.{Kdf, KdfLaws}
use vaultex.DoubleRatchet.State.{max_skip, MessageHeader, RatchetState, KeyPair, skipped_id}
use vaultex.DoubleRatchet.Keys.{chain_key_after, root_step, dh_exchange, dh_exchange_agree}
use vaultex.DoubleRatchet.Session.{decrypt}
use vaultex.DoubleRatchet.Handshake.{ratcheted, decrypt_ratchets}
use vaultex.DoubleRatchet.Conversation.{Offer, Talk, ratchet_to_lem}
use vaultex.DoubleRatchet.Turns.{Session, Session-Holds}
use vaultex.DoubleRatchet.Inbox.Follows.{Follows}
use vaultex.DoubleRatchet.Inbox.Sequences.{receive_all}
use vaultex.DoubleRatchet.Inbox.Batches.{
  Letter, Packet, wire, send_all, Once-picked, Numbered, Sends, IsGenuine, send_all_lem,
}
use vaultex.DoubleRatchet.Inbox.Replies.{replies, receive_all-replies, replies-IsDue}
use vaultex.DoubleRatchet.Inbox.AnyOrder.{genuine-IsDue}
use vaultex.DoubleRatchet.Inbox.NextChain.{empty}

module _ (na : Sodium) (kdf : Kdf) (aead : AeadLaws na) (curve : CurveLaws na)
    (laws : KdfLaws kdf) where
  -- A packet that announces the same end of the chain before.
  abbrev pub Ends : RatchetState → Packet → Type 0
  Ends a p = p.header.previous_chain_length ≡ a.previous_chain_length

  module _ (a b : RatchetState) (o : Offer na kdf aead curve laws a b) where
    abbrev pub public_of : Bytes
    public_of = o.handshake.pair.0

    -- The first key of the chain that is offered.
    abbrev pub first_of : Bytes
    first_of = (root_step kdf laws b.root_key o.handshake.shared).1

    pub length-public_of : length public_of ≡ 32
    length-public_of =
        let h = o.handshake in
        ap length h.is_pair.public_eq ∙ curve.length-public_of h.pair.1 h.is_pair.length_secret

    pub offer-Sends : Sends na kdf aead curve laws public_of o.handshake.pair.1 first_of a
    offer-Sends = record { keypair = o.handshake.keypair; sending = o.handshake.sending }

    -- Any packet of the chain is read as if the ratchet step had been taken before.
    pub heard_first :
        (fresh : KeyPair)
        → IsKeyPair na curve fresh
        → (b' : RatchetState) × Follows kdf laws public_of first_of b' empty
          × ((header : MessageHeader) (ct ad : Bytes)
              → header.ratchet_public_key ≡ public_of
              → header.previous_chain_length ≡ a.previous_chain_length
              → decrypt na kdf fresh header ct ad b ≡ decrypt na kdf fresh header ct ad b')
    unfolding chain_key_after
    heard_first fresh is_pair =
        let h = o.handshake in
        let (shared', _, send, recv) =
          dh_exchange_agree na curve fresh.1 h.pair.1 is_pair.length_secret
            h.is_pair.length_secret in
        let b' = ratcheted na kdf curve laws b h.pair.0 fresh h.shared shared' in
        let sends : dh_exchange na fresh.1 h.pair.0 ≡ ok shared' =
          ap (dh_exchange na fresh.1) h.is_pair.public_eq ∙ send in
        let none_kept =
          λ (j : ℕ). HashMap.lookup-empty (h.pair.0, j) b.skipped_keys o.peer_none_kept in
        (
          b',
          record {
            remote = refl;
            receiving = refl;
            number = refl;
            keys = none_kept;
            ordered = λ j e. ground arith;
          },
          λ header ct ad of_chain ends.
              let at : Bytes → MessageHeader = λ pk. record header { ratchet_public_key = pk } in
              let here = at h.pair.0 in
              ap (λ pk. decrypt na kdf fresh (at pk) ct ad b) of_chain
              ∙ decrypt_ratchets na kdf curve laws fresh here ct ad b b'
                  (curve.public_length.fits h.pair.0 length-public_of) h.unseen
                  (ratchet_to_lem na kdf aead curve laws fresh here b (ends ∙ o.settled)
                    h.peer_keypair h.exchange sends)
                  refl (none_kept header.message_number) (none_kept header.message_number)
              ∙ ap (λ pk. decrypt na kdf fresh (at pk) ct ad b') (sym of_chain),
        )

  offered-replies :
      (a b : RatchetState) (o : Offer na kdf aead curve laws a b) (draw : Packet → KeyPair)
      (ps : List Packet) (lo hi : ℕ)
      → hi < 2 ^ 32
      → ((p : Packet) → IsKeyPair na curve (draw p))
      → All (IsGenuine na kdf aead curve laws (public_of a b o) (first_of a b o) lo hi) ps
      → All (Ends a) ps
      → receive_all na kdf (map (wire draw) ps) b ≡ replies ps empty
  unfolding receive_all
  offered-replies a b o draw [] lo hi no_wrap pairs genuine ends = refl
  offered-replies a b o draw (p ∷ ps) lo hi no_wrap pairs genuine ends =
      let (b', follows, same) = heard_first a b o (draw p) (pairs p) in
      let rest = map (wire draw) ps in
      ap (λ (r : Result Bytes × RatchetState). r.0 ∷ receive_all na kdf rest r.1)
        (same p.header p.ciphertext p.letter.associated_data genuine.0.0 ends.0)
      ∙ receive_all-replies na kdf aead curve laws draw (p ∷ ps) _ _ lo hi b' empty
          (length-public_of a b o) no_wrap follows genuine

  -- The sides whose next message opens a new chain, in a session without losses: the initiator at the
  -- start, and later the side that did not speak last.
  abbrev pub Opens : RatchetState → RatchetState → Type 0
  Opens a b = Session na kdf aead curve laws false a b ⊎ Session na kdf aead curve laws true b a

  pub Opens-Offer : (a b : RatchetState) → Opens a b → Offer na kdf aead curve laws a b
  Opens-Offer a b (inl s) = Session-Holds na kdf aead curve laws s
  Opens-Offer a b (inr s) =
      let t : Talk na kdf aead curve laws b a = Session-Holds na kdf aead curve laws s in t.answer

  -- What is sent.
  first_sent :
      (letters : List Letter) (a b : RatchetState) (opens : Opens a b)
      → All (λ l. length l.nonce ≡ 24) letters
      → length letters < 2 ^ 32
      → let o = Opens-Offer a b opens in
        (sent : List Packet) × (a' : RatchetState) × (send_all na kdf letters a ≡ (ok sent, a'))
        × (map (λ p. p.letter) sent ≡ letters)
        × Numbered 0 sent
        × All
            (IsGenuine na kdf aead curve laws (public_of a b o) (first_of a b o) 0 (length letters))
            sent
        × All (Ends a) sent
  first_sent letters a b opens hn small =
      let o = Opens-Offer a b opens in
      let unused : a.send_message_number ≡ 0 = o.unused in
      let (sent, a', sends, same, genuine, numbers, ends) =
        send_all_lem na kdf aead curve laws letters (public_of a b o) o.handshake.pair.1
          (first_of a b o) a 0 (length letters) (offer-Sends a b o) hn (omega arith)
          (omega (arith, unused)) small in
      (sent, a', sends, same, rw unused at numbers, genuine, ends)

  -- In a session in which every message so far arrived, unchanged, before the next one was sent: at
  -- its start, and at a change of turns, the side whose turn it is sends a batch of messages, numbered
  -- from 0. Whichever of them reach the other side, in whatever order and however often, it answers
  -- like an inbox that was empty: it gives the text of a message that is new and at most 1000 numbers
  -- ahead, or was left out before, and refuses all others. The batch has less than 2^32 messages, the
  -- nonces have 24 bytes, and all that is drawn are key pairs.
  pub first_batch_replies :
      (draw : Packet → KeyPair) (letters : List Letter) (order : List ℕ) (a b : RatchetState)
      → Opens a b
      → ((p : Packet) → IsKeyPair na curve (draw p))
      → All (λ l. length l.nonce ≡ 24) letters
      → length letters < 2 ^ 32
      → (sent : List Packet) × (a' : RatchetState) × (send_all na kdf letters a ≡ (ok sent, a'))
        × (map (λ p. p.letter) sent ≡ letters)
        × Numbered 0 sent
        × (receive_all na kdf (map (wire draw) (picked sent order)) b
            ≡ replies (picked sent order) empty)
  first_batch_replies draw letters order a b opens pairs hn small =
      let (sent, a', sends, same, numbers, genuine, ends) = first_sent letters a b opens hn small in
      (
        sent,
        a',
        sends,
        same,
        numbers,
        offered-replies a b (Opens-Offer a b opens) draw (picked sent order) 0 (length letters)
            small pairs (picked-All _ sent order genuine) (picked-All (Ends a) sent order ends),
      )

  -- The batch, and its receiver, who may take from it whatever arrives.
  pub first_batch :
      (draw : Packet → KeyPair) (letters : List Letter) (order : List ℕ) (a b : RatchetState)
      → Opens a b
      → ((p : Packet) → IsKeyPair na curve (draw p))
      → All (λ l. length l.nonce ≡ 24) letters
      → length letters ≤ max_skip + 1
      → IsDistinct order
      → (sent : List Packet) × (a' : RatchetState) × (send_all na kdf letters a ≡ (ok sent, a'))
        × (map (λ p. p.letter) sent ≡ letters)
        × Numbered 0 sent
        × (receive_all na kdf (map (wire draw) (picked sent order)) b
            ≡ map (λ l. ok l.plaintext) (map (λ p. p.letter) (picked sent order)))
  first_batch draw letters order a b opens pairs hn near d =
      let hi = length letters in
      let (sent, a', sends, same, numbers, genuine, ends) =
        first_sent letters a b opens hn (omega arith) in
      let chosen = picked sent order in
      let is_genuine = picked-All _ sent order genuine in
      (
        sent,
        a',
        sends,
        same,
        numbers,
        offered-replies a b (Opens-Offer a b opens) draw chosen 0 hi (omega arith) pairs is_genuine
              (picked-All (Ends a) sent order ends)
            ∙ replies-IsDue chosen empty (λ j h. ground arith) (Once-picked 0 sent order numbers d)
                (genuine-IsDue na kdf aead curve laws _ _ 0 hi empty chosen (omega arith)
                  (omega arith) is_genuine),
      )

  -- In a session in which every message so far arrived, unchanged, before the next one was sent: at
  -- its start, and at a change of turns, the side whose turn it is sends a batch of messages. Whichever
  -- of them arrive, in whatever order, each at most once, all are decrypted to their texts; whichever
  -- comes first causes the receiver's ratchet step. The batch has at most 1001 messages, the nonces
  -- have 24 bytes, and all that the receiver draws are key pairs.
  pub first_batch_any_order :
      (draw : Packet → KeyPair) (letters : List Letter) (order : List ℕ) (a b : RatchetState)
      → Opens a b
      → ((p : Packet) → IsKeyPair na curve (draw p))
      → All (λ l. length l.nonce ≡ 24) letters
      → length letters ≤ max_skip + 1
      → IsDistinct order
      → (sent : List Packet) × (a' : RatchetState) × (send_all na kdf letters a ≡ (ok sent, a'))
        × (receive_all na kdf (map (wire draw) (picked sent order)) b
            ≡ map (λ l. ok l.plaintext) (picked letters order))
  first_batch_any_order draw letters order a b opens pairs hn near d =
      let (sent, a', sends, same, _, reads) =
        first_batch draw letters order a b opens pairs hn near d in
      (
        sent,
        a',
        sends,
        reads
            ∙ ap (map (λ l. ok l.plaintext))
                (sym (picked-map (λ p. p.letter) sent order) ∙ ap (λ ls. picked ls order) same),
      )
