-- ===== src/DoubleRatchet/Inbox/Replies.antt =====
-- crates/vaultex-crypto/src/double_ratchet.rs: what the receiver of a chain answers to messages of the
-- chain, lost, reordered and repeated.
use vaultex.Base.{
  ℕ, ◌^◌, ◌<◌, ◌≡◌, ◌≢◌, refl, ap, ap₂, ◌∙◌, List, [], ◌∷◌, map, All, Bytes, length, arith,
}
use vaultex.Errors.{Result, ok}
use vaultex.Crates.Sodium.{Sodium, AeadLaws, CurveLaws}
use vaultex.Crates.Kdf.{Kdf, KdfLaws}
use vaultex.DoubleRatchet.State.{RatchetState, KeyPair}
use vaultex.DoubleRatchet.Keys.{chain_key_after, length-message_key}
use vaultex.DoubleRatchet.Session.{decrypt_with_key}
use vaultex.DoubleRatchet.Delivery.{decrypt_with_key-sealed}
use vaultex.DoubleRatchet.Inbox.{
  Inbox, arrive, reply, IsOrdered, IsDue, arrive-due, arrive-IsDue, arrive-IsOrdered,
}
use vaultex.DoubleRatchet.Inbox.Follows.{key_of, Follows}
use vaultex.DoubleRatchet.Inbox.Sequences.{receive, receive_all, receive_refines}
use vaultex.DoubleRatchet.Inbox.Batches.{Packet, wire, number, IsGenuine, Once}

-- What an inbox answers to the numbers of some packets, each with its own text.
abbrev pub replies : List Packet → Inbox → List (Result Bytes)
replies [] i = []
replies (p ∷ ps) i =
    let (outcome, i') = arrive (number p) i in reply outcome (ok p.letter.plaintext) ∷ replies ps i'

IsDue-after :
    (p : Packet) (ps : List Packet) (i : Inbox)
    → All (λ q. number p ≢ number q) ps
    → All (λ q. IsDue (number q) i) ps
    → All (λ q. IsDue (number q) (arrive (number p) i).1) ps
IsDue-after p [] i _ _ = tt
IsDue-after p (q ∷ qs) i (apart, others) (due, dues) =
    (arrive-IsDue (number p) (number q) i apart due, IsDue-after p qs i others dues)

-- Due packets, each once, are all answered by their texts.
pub replies-IsDue :
    (ps : List Packet) (i : Inbox)
    → IsOrdered i
    → Once ps
    → All (λ q. IsDue (number q) i) ps
    → replies ps i ≡ map (λ l. ok l.plaintext) (map (λ p. p.letter) ps)
replies-IsDue [] i o once dues = refl
replies-IsDue (p ∷ ps) i o (apart, once) (due, dues) =
    ap₂ (λ r rs. r ∷ rs) (ap (λ r. reply r (ok p.letter.plaintext)) (arrive-due (number p) i o due))
      (replies-IsDue ps (arrive (number p) i).1 (arrive-IsOrdered (number p) i o) once
        (IsDue-after p ps i apart dues))

module _ (na : Sodium) (kdf : Kdf) (aead : AeadLaws na) (curve : CurveLaws na)
    (laws : KdfLaws kdf) where
  receive_genuine :
      (draw : Packet → KeyPair) (p : Packet) (public first : Bytes) (lo hi : ℕ) (b : RatchetState)
      (i : Inbox)
      → length public ≡ 32
      → hi < 2 ^ 32
      → Follows kdf laws public first b i
      → IsGenuine na kdf aead curve laws public first lo hi p
      → ((receive na kdf (wire draw p) b).0 ≡ reply (arrive (number p) i).0 (ok p.letter.plaintext))
        × Follows kdf laws public first (receive na kdf (wire draw p) b).1 (arrive (number p) i).1
  receive_genuine draw p public first lo hi b i sized no_wrap f (same, is_sealed, hn, le, lt) =
      let n = number p in
      let key = key_of kdf laws first n in
      let ad = p.letter.associated_data in
      let (answer, f') =
        receive_refines na kdf aead curve laws (wire draw p) public first b i sized
          (same, omega arith) f in
      let opens : decrypt_with_key na key p.ciphertext ad ≡ ok p.letter.plaintext =
        ap (λ ct. decrypt_with_key na key ct ad) is_sealed
        ∙ decrypt_with_key-sealed na aead key p.letter.nonce p.letter.plaintext ad
            (length-message_key kdf laws (chain_key_after kdf laws n first)) hn in
      (answer ∙ ap (reply (arrive n i).0) opens, f')

  pub receive_all-replies :
      (draw : Packet → KeyPair) (ps : List Packet) (public first : Bytes) (lo hi : ℕ)
      (b : RatchetState) (i : Inbox)
      → length public ≡ 32
      → hi < 2 ^ 32
      → Follows kdf laws public first b i
      → All (IsGenuine na kdf aead curve laws public first lo hi) ps
      → receive_all na kdf (map (wire draw) ps) b ≡ replies ps i
  unfolding receive_all
  receive_all-replies draw [] public first lo hi b i sized no_wrap f _ = refl
  receive_all-replies draw (p ∷ ps) public first lo hi b i sized no_wrap f (genuine, more) =
      let (answer, f') = receive_genuine draw p public first lo hi b i sized no_wrap f genuine in
      ap₂ (λ r rs. r ∷ rs) answer
        (receive_all-replies draw ps public first lo hi (receive na kdf (wire draw p) b).1
          (arrive (number p) i).1 sized no_wrap f' more)
