-- ===== src/DoubleRatchet/Inbox/NextChain.antt =====
-- crates/vaultex-crypto/src/double_ratchet.rs: the first message of the peer's next chain, and the
-- messages of the chain before it that are still on their way.
use vaultex.Base.{
  ℕ, ◌-◌, ◌≤◌, ◌<◌, ◌≡◌, ◌≢◌, refl, sym, ap, ◌∙◌, inr, ◌⊎◌, none, some, true, false, Bytes, length,
  arith,
}
use vaultex.Base.HashMap
use vaultex.Errors.{Result, ok}
use vaultex.Crates.Sodium.{Sodium, AeadLaws, CurveLaws}
use vaultex.Crates.Kdf.{Kdf, KdfLaws}
use vaultex.DoubleRatchet.State.{max_skip, MessageHeader, RatchetState, KeyPair, skipped_id}
use vaultex.DoubleRatchet.Keys.{chain_key_after, root_step, length-message_key, dh_exchange}
use vaultex.DoubleRatchet.Session.{needs_ratchet, decrypt, decrypt_with_key, ratchet_to}
use vaultex.DoubleRatchet.Skipping.{stored, lookup-stored_other, skip_for_current_chain_ok}
use vaultex.DoubleRatchet.Delivery.{sealed, decrypt_with_key-sealed, decrypt_stored}
use vaultex.DoubleRatchet.Handshake.{
  ratcheted, dh_ratchet_step_lem, decrypt_ratchets, needs_ratchet_ne,
}
use vaultex.DoubleRatchet.Inbox.{Inbox, arrive, reply, arrive-due}
use vaultex.DoubleRatchet.Inbox.Follows.{key_of, Follows, kept-stored}
use vaultex.DoubleRatchet.Inbox.Refines.{decrypt_refines, follow_ahead}

-- Nothing of a chain has come.
abbrev pub empty : Inbox
empty = record { next = 0; waiting = λ j. false }

-- A message of a chain that was ended at number `until`, which has not come.
abbrev pub IsMissing : ℕ → Inbox → ℕ → Type 0
IsMissing until i n = (i.waiting n ≡ true) ⊎ ((i.next ≤ n) × (n < until))

module _ (na : Sodium) (kdf : Kdf) (aead : AeadLaws na) (curve : CurveLaws na)
    (laws : KdfLaws kdf) where
  -- What a session knows when a header of a new chain comes.
  pub record Turning (old first : Bytes) (i : Inbox) (fresh : KeyPair) (header : MessageHeader)
      (b : RatchetState) : Type 0 where
    pub follows : Follows kdf laws old first b i
    pub ours : KeyPair
    pub shared : Bytes
    pub shared_again : Bytes
    pub keypair : b.sending_keypair ≡ some ours
    pub receives : dh_exchange na ours.1 header.ratchet_public_key ≡ ok shared
    pub sends : dh_exchange na fresh.1 header.ratchet_public_key ≡ ok shared_again
    pub length_public : length header.ratchet_public_key ≡ 32
    pub is_new : header.ratchet_public_key ≢ old
    pub clean : (j : ℕ) → HashMap.lookup (header.ratchet_public_key, j) b.skipped_keys ≡ none
    pub ends : i.next ≤ header.previous_chain_length
    pub near : header.previous_chain_length - i.next ≤ max_skip

  module _ (old first : Bytes) (i : Inbox) (fresh : KeyPair) (header : MessageHeader)
      (b : RatchetState) (t : Turning old first i fresh header b) where
    -- The first chain key of the next chain.
    unfoldable pub first_of_next : Bytes
    first_of_next = (root_step kdf laws b.root_key t.shared).1

    keys_kept : HashMap.HashMap (Bytes × ℕ) Bytes
    keys_kept =
        stored kdf laws (header.previous_chain_length - i.next) old i.next
          (chain_key_after kdf laws i.next first) b.skipped_keys

    turned : RatchetState
    turned =
        ratcheted na kdf curve laws (record b { skipped_keys = keys_kept })
          header.ratchet_public_key fresh t.shared t.shared_again

    ratchet_to-turned : ratchet_to na kdf fresh header header.ratchet_public_key b ≡ (ok tt, turned)
    unfolding ratchet_to turned keys_kept
    ratchet_to-turned =
        let f = t.follows in
        let pn = header.previous_chain_length in
        let ck = chain_key_after kdf laws i.next first in
        let ended : ℕ → RatchetState = λ r. record b {
          receiving_chain_key = some (chain_key_after kdf laws (pn - r) ck);
          recv_message_number = pn;
          skipped_keys = stored kdf laws (pn - r) old r ck b.skipped_keys;
        } in
        let skips =
          skip_for_current_chain_ok kdf laws pn b f.remote f.receiving
            (omega (arith, f.number, t.ends)) (omega (arith, f.number, t.near))
          ∙ ap (λ r. (ok tt, ended r)) f.number in
        ground (
          arith,
          skips,
          dh_ratchet_step_lem na kdf curve laws fresh header.ratchet_public_key (ended i.next)
              t.keypair t.receives t.sends,
        )

    turned-Follows : Follows kdf laws header.ratchet_public_key first_of_next turned empty
    unfolding turned keys_kept first_of_next chain_key_after
    turned-Follows = record {
      remote = refl;
      receiving = refl;
      number = refl;
      keys = λ j.
          lookup-stored_other kdf laws (header.previous_chain_length - i.next) old i.next _
            b.skipped_keys header.ratchet_public_key j t.is_new
          ∙ t.clean j;
      ordered = λ j h. ground arith;
    }

    decrypt-turned :
        (ct ad : Bytes)
        → decrypt na kdf fresh header ct ad b ≡ decrypt na kdf fresh header ct ad turned
    decrypt-turned ct ad =
        let pk = header.ratchet_public_key in
        decrypt_ratchets na kdf curve laws fresh header ct ad b turned
          (curve.public_length.fits pk t.length_public)
          (ap (λ r. needs_ratchet r pk) t.follows.remote ∙ needs_ratchet_ne old pk t.is_new)
          ratchet_to-turned turned-Follows.remote (t.clean header.message_number)
          (turned-Follows.keys header.message_number)

    -- The keys of the old chain's messages that have not come are kept.
    lookup-turned :
        (n : ℕ)
        → IsMissing header.previous_chain_length i n
        → HashMap.lookup (old, n) turned.skipped_keys ≡ some (key_of kdf laws first n)
    unfolding turned keys_kept
    lookup-turned n missing =
        kept-stored kdf laws old first b i header.previous_chain_length t.follows t.ends n
        ∙ ground arith

    -- A header of the peer's next chain ends the old one at the number that it announces, at most 1000
    -- ahead. Its text is opened under the key of the new chain, of which the session has then received
    -- that number, at most 1000; and each message of the old chain that has not come, at whatever
    -- number before the announced end, is still decrypted to its text when it comes later. This holds
    -- with any text behind the header.
    pub next_chain :
        (ct ad : Bytes) (again : KeyPair) (late : MessageHeader) (nonce plaintext late_ad : Bytes)
        → header.message_number ≤ max_skip
        → late.ratchet_public_key ≡ old
        → IsMissing header.previous_chain_length i late.message_number
        → length nonce ≡ 24
        → let n = header.message_number in
          let (r, b') = decrypt na kdf fresh header ct ad b in
          let late_ct =
            sealed na (key_of kdf laws first late.message_number) nonce plaintext late_ad in
          (r ≡ decrypt_with_key na (key_of kdf laws first_of_next n) ct ad)
          × Follows kdf laws header.ratchet_public_key first_of_next b' (arrive n empty).1
          × ((decrypt na kdf again late late_ct late_ad b').0 ≡ ok plaintext)
    next_chain ct ad again late nonce plaintext late_ad small of_old missing hn =
        let n = header.message_number in
        let m = late.message_number in
        let key = key_of kdf laws first m in
        let (answer, follows) =
          decrypt_refines na kdf aead curve laws fresh header ct ad first_of_next turned empty
            t.length_public (omega arith) turned-Follows in
        let here =
          follow_ahead na kdf aead curve laws fresh header ct ad first_of_next turned empty
            t.length_public turned-Follows refl (omega arith) (omega arith) in
        let after = decrypt na kdf fresh header ct ad turned in
        let still : HashMap.lookup (old, m) after.1.skipped_keys ≡ some key =
          ap (λ (r : Result Bytes × RatchetState). HashMap.lookup (old, m) r.1.skipped_keys) here
          ∙ lookup-stored_other kdf laws (n - 0) header.ratchet_public_key 0 _ turned.skipped_keys
              old m (λ e. t.is_new (sym e))
          ∙ lookup-turned m missing in
        let found = ap (λ pk. HashMap.lookup (pk, m) after.1.skipped_keys) of_old ∙ still in
        rw (decrypt-turned ct ad) (
          answer
              ∙ ap (λ o. reply o (decrypt_with_key na (key_of kdf laws first_of_next n) ct ad))
                  (arrive-due n empty (λ j h. ground arith) (inr (omega arith, omega arith))),
          follows,
          ap (λ (r : Result Bytes × RatchetState). r.0)
                (decrypt_stored na kdf aead laws again late (sealed na key nonce plaintext late_ad)
                  late_ad after.1 found)
              ∙ decrypt_with_key-sealed na aead key nonce plaintext late_ad
                  (length-message_key kdf laws (chain_key_after kdf laws m first)) hn,
        )
