-- ===== src/DoubleRatchet/Inbox/Refines.antt =====
-- crates/vaultex-crypto/src/double_ratchet.rs: `decrypt`, for headers of the current chain, is the
-- chain's inbox with the keys put in.
use vaultex.Base.{
  suc, ◌+◌, ◌-◌, ◌^◌, ◌≤◌, ◌<◌, ◌≡◌, refl, sym, ap, ap₂, ◌∙◌, inl, inr, Option, none, some, Bool,
  false, if◌then◌else◌, Bytes, bytes_eq_refl, text, length, arith, Bool-cases,
}
use native.Mathlib.Decide.{dec_lt}
use vaultex.Base.HashMap
use vaultex.Errors.{err, ratchet_error}
use vaultex.Crates.Sodium.{Sodium, AeadLaws, CurveLaws}
use vaultex.Crates.Kdf.{Kdf, KdfLaws}
use vaultex.DoubleRatchet.State.{
  max_skip, MessageHeader, RatchetState, KeyPair, skipped_id, next_u32,
}
use vaultex.DoubleRatchet.Keys.{next_chain_key, message_key, chain_key_after, chain_key_after-suc}
use vaultex.DoubleRatchet.Session.{decrypt, decrypt_on_chain, decrypt_with_key, needs_ratchet}
use vaultex.DoubleRatchet.Skipping.{stored, skip_message_keys_too_many}
use vaultex.DoubleRatchet.Delivery.{decrypt_current, decrypt_consumed, decrypt_stored}
use vaultex.DoubleRatchet.Inbox.{
  Inbox, arrive, arrive-waiting, arrive-spent, arrive-far, arrive-ahead, reply,
}
use vaultex.DoubleRatchet.Inbox.Follows.{
  key_of, Follows, chain_key_after-add, kept-remove, kept-stored,
}

module _ (na : Sodium) (kdf : Kdf) (aead : AeadLaws na) (curve : CurveLaws na)
    (laws : KdfLaws kdf) where
  decrypt_too_far :
      (fresh : KeyPair) (header : MessageHeader) (ct ad : Bytes) (b : RatchetState)
      → na.public_key_from_slice header.ratchet_public_key ≡ some header.ratchet_public_key
      → b.remote_ratchet_key ≡ some header.ratchet_public_key
      → HashMap.lookup (header.ratchet_public_key, header.message_number) b.skipped_keys ≡ none
      → b.recv_message_number + max_skip < header.message_number
      → decrypt na kdf fresh header ct ad b
        ≡ (err (ratchet_error (text "too many skipped messages")), b)
  unfolding decrypt decrypt_on_chain needs_ratchet
  decrypt_too_far fresh header ct ad b key remote unseen far = ground (
    arith,
    bytes_eq_refl header.ratchet_public_key,
    skip_message_keys_too_many kdf laws header.message_number b far,
  )

  -- A number of the chain that is not passed and at most 1000 ahead.
  pub follow_ahead :
      (fresh : KeyPair) (header : MessageHeader) (ct ad first : Bytes) (b : RatchetState)
      (i : Inbox)
      → length header.ratchet_public_key ≡ 32
      → Follows kdf laws header.ratchet_public_key first b i
      → i.waiting header.message_number ≡ false
      → i.next ≤ header.message_number
      → header.message_number - i.next ≤ max_skip
      → let n = header.message_number in
        decrypt na kdf fresh header ct ad b ≡ (
          decrypt_with_key na (key_of kdf laws first n) ct ad,
          record b {
            receiving_chain_key = some (chain_key_after kdf laws (suc n) first);
            recv_message_number = next_u32 n;
            skipped_keys =
                stored kdf laws
                  (n - i.next)
                  header.ratchet_public_key
                  i.next
                  (chain_key_after kdf laws i.next first)
                  b.skipped_keys;
          },
        )
  follow_ahead fresh header ct ad first b i sized f absent ahead near =
      let pk = header.ratchet_public_key in
      let n = header.message_number in
      let ck = chain_key_after kdf laws i.next first in
      let unseen = f.keys n ∙ ap (λ t. if t then some (key_of kdf laws first n) else none) absent in
      let count : i.next + (n - i.next) ≡ n = omega arith in
      let reached : chain_key_after kdf laws (n - i.next) ck ≡ chain_key_after kdf laws n first =
        chain_key_after-add kdf laws (n - i.next) i.next first
        ∙ ap (λ k. chain_key_after kdf laws k first) count in
      decrypt_current na kdf aead laws fresh header ct ad b (curve.public_length.fits pk sized)
        f.remote f.receiving unseen (omega (arith, f.number)) (omega (arith, f.number))
      ∙ ap
          (λ r. (
            decrypt_with_key na (message_key kdf laws (chain_key_after kdf laws (n - r) ck)) ct ad,
            record b {
              receiving_chain_key =
                  some (next_chain_key kdf laws (chain_key_after kdf laws (n - r) ck));
              recv_message_number = next_u32 n;
              skipped_keys = stored kdf laws (n - r) pk r ck b.skipped_keys;
            },
          ))
          f.number
      ∙ ap₂
          (λ k c. (
            decrypt_with_key na (message_key kdf laws k) ct ad,
            record b {
              receiving_chain_key = some c;
              recv_message_number = next_u32 n;
              skipped_keys = stored kdf laws (n - i.next) pk i.next ck b.skipped_keys;
            },
          ))
          reached
          (ap (next_chain_key kdf laws) reached ∙ sym (chain_key_after-suc kdf laws n first))

  -- Where a session receives the chain of a ratchet key, `decrypt` of any header of that chain with
  -- any text does what the chain's inbox does with the number: it tries to open the text under the
  -- key of its own number, or refuses it for the inbox's reason, and follows the inbox again. The
  -- counter does not reach 2^32.
  pub decrypt_refines :
      (fresh : KeyPair) (header : MessageHeader) (ct ad first : Bytes) (b : RatchetState)
      (i : Inbox)
      → length header.ratchet_public_key ≡ 32
      → header.message_number + 1 < 2 ^ 32
      → Follows kdf laws header.ratchet_public_key first b i
      → let n = header.message_number in
        let (outcome, i') = arrive n i in
        let (r, b') = decrypt na kdf fresh header ct ad b in
        (r ≡ reply outcome (decrypt_with_key na (key_of kdf laws first n) ct ad))
        × Follows kdf laws header.ratchet_public_key first b' i'
  decrypt_refines fresh header ct ad first b i sized no_wrap f =
      let pk = header.ratchet_public_key in
      let n = header.message_number in
      let fits = curve.public_length.fits pk sized in
      let entry : Bool → Option Bytes = λ t. if t then some (key_of kdf laws first n) else none in
      elim (Bool-cases (i.waiting n)) [
        | inl there ↦
            rw
              (
                arrive-waiting n i there,
                decrypt_stored na kdf aead laws fresh header ct ad b (f.keys n ∙ ap entry there),
              )
              (
                refl,
                record {
                  remote = f.remote;
                  receiving = f.receiving;
                  number = f.number;
                  keys = kept-remove kdf laws pk first b i n f;
                  ordered = λ j h. f.ordered j (ground (arith, h));
                },
              )
        | inr absent ↦ elim (dec_lt n i.next) [
          | yes passed ↦
              rw
                (
                  arrive-spent n i (absent, passed),
                  decrypt_consumed na kdf aead laws fresh header ct ad b fits f.remote
                      (f.keys n ∙ ap entry absent) (omega (arith, f.number)),
                )
                (refl, f)
          | no ahead ↦ elim (dec_lt max_skip (n - i.next)) [
            | yes far ↦
                rw
                  (
                    arrive-far n i absent far,
                    decrypt_too_far fresh header ct ad b fits f.remote (f.keys n ∙ ap entry absent)
                        (omega (arith, f.number)),
                  )
                  (refl, f)
            | no near ↦
                rw
                  (
                    arrive-ahead n i absent (omega arith) (omega arith),
                    follow_ahead fresh header ct ad first b i sized f absent (omega arith)
                        (omega arith),
                  )
                  (
                    refl,
                    record {
                      remote = f.remote;
                      receiving = ap (λ k. some (chain_key_after kdf laws k first)) (omega arith);
                      number = omega arith;
                      keys = kept-stored kdf laws pk first b i n f (omega arith);
                      ordered = λ j h. ground (arith, f.ordered j, h);
                    },
                  )
          ]
        ]
      ]
