-- ===== src/DoubleRatchet/Inbox/Batches.antt =====
-- crates/vaultex-crypto/src/double_ratchet.rs: a batch of messages that one session sends.
use mathlib.Core.Path.{subst}
use vaultex.Base.{
  ℕ, zero, suc, ◌+◌, ◌^◌, ◌≤◌, ◌<◌, ◌≡◌, ◌≢◌, refl, sym, ap, ◌∙◌, Option, none, some, List, [], ◌∷◌,
  map, All, get_elem?, prepend, All-prepend, picked, IsDistinct, Bytes, length, arith, some-eq,
}
use vaultex.Errors.{ok}
use vaultex.Crates.Sodium.{Sodium, AeadLaws, CurveLaws}
use vaultex.Crates.Kdf.{Kdf, KdfLaws}
use vaultex.DoubleRatchet.State.{
  MessageHeader, RatchetState, KeyPair, Method, ◌>>=◌, pure, next_u32,
}
use vaultex.DoubleRatchet.Keys.{next_chain_key, message_key, chain_key_after, chain_key_after-suc}
use vaultex.DoubleRatchet.Session.{encrypt}
use vaultex.DoubleRatchet.Delivery.{sealed, next_header, encrypt_lem}
use vaultex.DoubleRatchet.Inbox.Follows.{key_of}
use vaultex.DoubleRatchet.Inbox.Sequences.{Wire}

-- What one call of `encrypt` is given.
pub record Letter : Type 0 where
  pub nonce : Bytes
  pub plaintext : Bytes
  pub associated_data : Bytes

pub record Packet : Type 0 where
  pub header : MessageHeader
  pub ciphertext : Bytes
  pub letter : Letter

abbrev pub wire : (Packet → KeyPair) → Packet → Wire
wire draw p = record {
  fresh = draw p;
  header = p.header;
  ciphertext = p.ciphertext;
  associated_data = p.letter.associated_data;
}

abbrev pub number : Packet → ℕ
number p = p.header.message_number

-- The calls of `encrypt` for some letters, one after the other.
unfoldable pub send_all : Sodium → Kdf → List Letter → Method (List Packet)
send_all na kdf [] = pure []
send_all na kdf (l ∷ ls) = do
  (header, ciphertext) ← encrypt na kdf l.nonce l.plaintext l.associated_data
  rest ← send_all na kdf ls
  let packet : Packet = record { header = header; ciphertext = ciphertext; letter = l }
  pure (packet ∷ rest)

-- No packet comes twice.
abbrev pub Once : List Packet → Type 0
Once [] = Unit
Once (p ∷ ps) = All (λ q. number p ≢ number q) ps × Once ps

-- The numbers of a batch that starts at one.
abbrev pub Numbered : ℕ → List Packet → Type 0
Numbered n ps = (i : ℕ) (p : Packet) → get_elem? ps i ≡ some p → number p ≡ n + i

Numbered-cons :
    (n : ℕ) (p : Packet) (ps : List Packet)
    → number p ≡ n
    → Numbered (suc n) ps
    → Numbered n (p ∷ ps)
Numbered-cons n p ps h more zero q e = ap number (sym (some-eq e)) ∙ omega arith
Numbered-cons n p ps h more (suc i) q e = omega (arith, more i q e)

apart_picked :
    (n : ℕ) (ps : List Packet) (p : Packet) (i : ℕ) (is : List ℕ)
    → Numbered n ps
    → number p ≡ n + i
    → All (λ j. i ≢ j) is
    → All (λ q. number p ≢ number q) (picked ps is)
apart_picked n ps p i [] numbers at _ = tt
apart_picked n ps p i (j ∷ is) numbers at (apart, more) =
    All-prepend (λ q. number p ≢ number q) (get_elem? ps j) (picked ps is)
      (λ q there e. apart (omega (arith, numbers j q there)))
      (apart_picked n ps p i is numbers at more)

Once-prepend :
    (o : Option Packet) (ps : List Packet)
    → ((p : Packet) → o ≡ some p → All (λ q. number p ≢ number q) ps)
    → Once ps
    → Once (prepend o ps)
Once-prepend none ps _ h = h
Once-prepend (some p) ps apart h = (apart p refl, h)

pub Once-picked :
    (n : ℕ) (ps : List Packet) (is : List ℕ) → Numbered n ps → IsDistinct is → Once (picked ps is)
Once-picked n ps [] numbers d = tt
Once-picked n ps (i ∷ is) numbers (apart, d) =
    Once-prepend (get_elem? ps i) (picked ps is)
      (λ p there. apart_picked n ps p i is numbers (numbers i p there) apart)
      (Once-picked n ps is numbers d)

module _ (na : Sodium) (kdf : Kdf) (aead : AeadLaws na) (curve : CurveLaws na)
    (laws : KdfLaws kdf) where
  -- The session sends the chain of the ratchet key.
  pub record Sends (public secret first : Bytes) (a : RatchetState) : Type 0 where
    pub keypair : a.sending_keypair ≡ some (public, secret)
    pub sending : a.sending_chain_key ≡ some (chain_key_after kdf laws a.send_message_number first)

  Sends-next :
      (public secret first : Bytes) (a : RatchetState)
      → Sends public secret first a
      → next_u32 a.send_message_number ≡ suc a.send_message_number
      → Sends public secret first (record a {
        sending_chain_key =
            some (next_chain_key kdf laws (chain_key_after kdf laws a.send_message_number first));
        send_message_number = next_u32 a.send_message_number;
      })
  Sends-next public secret first a s following = record {
    keypair = s.keypair;
    sending = ap some (
        sym (chain_key_after-suc kdf laws a.send_message_number first)
        ∙ ap (λ k. chain_key_after kdf laws k first) (sym following));
  }

  -- A packet of the chain with a number from `lo` up to `hi`.
  abbrev pub IsGenuine : Bytes → Bytes → ℕ → ℕ → Packet → Type 0
  IsGenuine public first lo hi p =
      (p.header.ratchet_public_key ≡ public)
      × (p.ciphertext
          ≡ sealed na (key_of kdf laws first (number p)) p.letter.nonce p.letter.plaintext
              p.letter.associated_data)
      × (length p.letter.nonce ≡ 24)
      × (lo ≤ number p)
      × (number p < hi)

  pub send_all_lem :
      (ls : List Letter) (public secret first : Bytes) (a : RatchetState) (lo hi : ℕ)
      → Sends public secret first a
      → All (λ l. length l.nonce ≡ 24) ls
      → lo ≤ a.send_message_number
      → a.send_message_number + length ls ≤ hi
      → hi < 2 ^ 32
      → (sent : List Packet) × (a' : RatchetState) × (send_all na kdf ls a ≡ (ok sent, a'))
        × (map (λ p. p.letter) sent ≡ ls)
        × All (IsGenuine public first lo hi) sent
        × Numbered a.send_message_number sent
        × All (λ p. p.header.previous_chain_length ≡ a.previous_chain_length) sent
  unfolding send_all
  send_all_lem [] public secret first a lo hi s _ le room no_wrap =
      ([], a, refl, refl, tt, λ i p e. absurd (ground arith), tt)
  send_all_lem (l ∷ ls) public secret first a lo hi s (hn, more) le room no_wrap =
      let n = a.send_message_number in
      let ck = chain_key_after kdf laws n first in
      let p : Packet = record {
        header = next_header a public;
        ciphertext = sealed na (message_key kdf laws ck) l.nonce l.plaintext l.associated_data;
        letter = l;
      } in
      let a1 = record a {
        sending_chain_key = some (next_chain_key kdf laws ck);
        send_message_number = next_u32 n;
      } in
      let following : next_u32 n ≡ suc n = omega arith in
      let s1 = Sends-next public secret first a s following in
      let (rest, a', sends, letters, genuine, numbers, ends) =
        send_all_lem ls public secret first a1 lo hi s1 more (omega arith) (omega arith) no_wrap in
      (
        p ∷ rest,
        a',
        ground (
          arith,
          encrypt_lem na kdf aead laws l.nonce l.plaintext l.associated_data a s.sending s.keypair,
          sends,
        ),
        ap (λ t. l ∷ t) letters,
        ((refl, refl, hn, le, omega arith), genuine),
        Numbered-cons n p rest refl (subst (λ k. Numbered k rest) following numbers),
        (refl, ends),
      )
