-- ===== src/DoubleRatchet/Inbox/AnyOrder.antt =====
-- crates/vaultex-crypto/src/double_ratchet.rs: a batch of messages, of which any selection arrives
-- in any order.
use vaultex.Base.{
  ℕ, ◌+◌, ◌^◌, ◌≤◌, ◌<◌, ◌≡◌, sym, ap, ◌∙◌, inr, List, [], ◌∷◌, map, All, picked, IsDistinct, Bytes,
  length, arith, picked-All, picked-map,
}
use vaultex.Errors.{ok}
use vaultex.Crates.Sodium.{Sodium, AeadLaws, CurveLaws}
use vaultex.Crates.Kdf.{Kdf, KdfLaws}
use vaultex.DoubleRatchet.State.{max_skip, RatchetState, KeyPair}
use vaultex.DoubleRatchet.Inbox.{Inbox, IsDue}
use vaultex.DoubleRatchet.Inbox.Follows.{Follows}
use vaultex.DoubleRatchet.Inbox.Sequences.{receive_all}
use vaultex.DoubleRatchet.Inbox.Replies.{receive_all-replies, replies-IsDue}
use vaultex.DoubleRatchet.Inbox.Batches.{
  Letter, Packet, wire, number, send_all, Once-picked, Sends, IsGenuine, send_all_lem,
}

module _ (na : Sodium) (kdf : Kdf) (aead : AeadLaws na) (curve : CurveLaws na)
    (laws : KdfLaws kdf) where
  pub genuine-IsDue :
      (public first : Bytes) (lo hi : ℕ) (i : Inbox) (ps : List Packet)
      → i.next ≤ lo
      → hi ≤ i.next + max_skip + 1
      → All (IsGenuine na kdf aead curve laws public first lo hi) ps
      → All (λ q. IsDue (number q) i) ps
  genuine-IsDue public first lo hi i [] le near _ = tt
  genuine-IsDue public first lo hi i (p ∷ ps) le near ((_, _, _, low, high), more) =
      (inr (omega arith, omega arith), genuine-IsDue public first lo hi i ps le near more)

  -- A batch of messages is sent on a chain, of which the receiver has the numbers that its inbox
  -- says. Whichever of them arrive, in whatever order, each at most once, all are decrypted to their
  -- texts, in the order of their arrival. The batch ends at most 1001 numbers after the receiver's
  -- next number and before 2^32, and the nonces have 24 bytes.
  pub delivers_any_order :
      (draw : Packet → KeyPair) (letters : List Letter) (order : List ℕ)
      (public secret first : Bytes) (a b : RatchetState) (i : Inbox)
      → length public ≡ 32
      → Sends na kdf aead curve laws public secret first a
      → Follows kdf laws public first b i
      → All (λ l. length l.nonce ≡ 24) letters
      → i.next ≤ a.send_message_number
      → a.send_message_number + length letters ≤ i.next + max_skip + 1
      → a.send_message_number + length letters < 2 ^ 32
      → IsDistinct order
      → (sent : List Packet) × (a' : RatchetState) × (send_all na kdf letters a ≡ (ok sent, a'))
        × (receive_all na kdf (map (wire draw) (picked sent order)) b
            ≡ map (λ l. ok l.plaintext) (picked letters order))
  delivers_any_order draw letters order public secret first a b i sized s f hn le near no_wrap d =
      let lo = a.send_message_number in
      let hi = lo + length letters in
      let (sent, a', sends, same, genuine, numbers, _) =
        send_all_lem na kdf aead curve laws letters public secret first a lo hi s hn (omega arith)
          (omega arith) no_wrap in
      let chosen = picked sent order in
      let is_genuine =
        picked-All (IsGenuine na kdf aead curve laws public first lo hi) sent order genuine in
      (
        sent,
        a',
        sends,
        receive_all-replies na kdf aead curve laws draw chosen public first lo hi b i sized no_wrap
              f is_genuine
            ∙ replies-IsDue chosen i f.ordered (Once-picked lo sent order numbers d)
                (genuine-IsDue public first lo hi i chosen le near is_genuine)
            ∙ ap (map (λ l. ok l.plaintext))
                (sym (picked-map (λ p. p.letter) sent order) ∙ ap (λ ls. picked ls order) same),
      )
