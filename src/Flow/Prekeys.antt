-- ===== src/Flow/Prekeys.antt =====
-- From the recipient's prekeys to the first message: crates/vaultex-crypto/src/prekeys.rs, x3dh.rs and
-- double_ratchet.rs together, as `setup_session` of crates/vaultex-crypto/tests/e2e_message_flow.rs calls
-- them.
use mathlib.Core.Option
use vaultex.Base.{
  ℕ, zero, suc, ◌+◌, ◌^◌, ◌≤◌, ◌<◌, ◌≡◌, ◌≢◌, sym, ap, ap₂, ◌∙◌, arith, true, Option, none, some,
  List, map, Bytes, length, get_elem?, get_elem?-map, some-eq,
}
use vaultex.Errors.{ok}
use vaultex.Crates.Sodium.{Sodium, AeadLaws, CurveLaws, SignLaws, IsKeyPair}
use vaultex.Crates.Kdf.{Kdf, KdfLaws}
use vaultex.Identity.{IdentityKeyPair, sign}
use vaultex.Identity.Laws.{IsIdentity}
use vaultex.Prekeys.{SignedPreKey, OneTimePreKey, generate_signed, generate_one_time_prekeys}
use vaultex.Prekeys.Laws.{ids_from, pairs_from, id_of, pair_of, generate_one_time_prekeys_lem}
use vaultex.DoubleRatchet.State.{RatchetState, KeyPair, MessageHeader}
use vaultex.DoubleRatchet.Session.{encrypt, decrypt, init_receiver}
use vaultex.DoubleRatchet.Init.{init_sender}
use vaultex.DoubleRatchet.Turns.{Session}
use vaultex.X3dh.{initiate_x3dh, accept_x3dh}
use vaultex.X3dh.FirstMessage.{first_message}

get_elem?-ids_from :
    (start count i : ℕ) → i < count → get_elem? (ids_from start count) i ≡ some (start + i)
get_elem?-ids_from start zero i h = absurd (omega arith)
get_elem?-ids_from start (suc n) zero h = ap some (omega arith)
get_elem?-ids_from start (suc n) (suc i) h =
    get_elem?-ids_from (start + 1) n i (omega arith) ∙ ap some (omega arith)

get_elem?-pairs_from :
    (draws : ℕ → KeyPair) (start count i : ℕ)
    → i < count
    → get_elem? (pairs_from draws start count) i ≡ some (draws (start + i))
get_elem?-pairs_from draws start zero i h = absurd (omega arith)
get_elem?-pairs_from draws start (suc n) zero h = ap (λ k. some (draws k)) (omega arith)
get_elem?-pairs_from draws start (suc n) (suc i) h =
    get_elem?-pairs_from draws (start + 1) n i (omega arith)
    ∙ ap (λ k. some (draws k)) (omega arith)

of_parts :
    (o : Option OneTimePreKey) (n : ℕ) (k : KeyPair)
    → Option.map id_of o ≡ some n
    → Option.map pair_of o ≡ some k
    → o ≡ some (record { prekey_id = n; public_key = k.0; secret_key = k.1 })
of_parts none n k hn hk = absurd (ground (arith, hn))
of_parts (some key) n k hn hk =
    ap₂
      (λ m (pair : KeyPair).
        let prekey : OneTimePreKey = record {
          prekey_id = m;
          public_key = pair.0;
          secret_key = pair.1;
        } in
        some prekey)
      (some-eq hn) (some-eq hk)

-- The prekey at a place of a batch.
pub prekey_at :
    (draws : ℕ → KeyPair) (start count i : ℕ) (keys : List OneTimePreKey)
    → map id_of keys ≡ ids_from start count
    → map pair_of keys ≡ pairs_from draws 0 count
    → i < count
    → get_elem? keys i
      ≡ some (record { prekey_id = start + i; public_key = (draws i).0; secret_key = (draws i).1 })
prekey_at draws start count i keys ids pairs h =
    let numbered =
      sym (get_elem?-map id_of keys i)
      ∙ ap (λ l. get_elem? l i) ids
      ∙ get_elem?-ids_from start count i h in
    let drawn =
      sym (get_elem?-map pair_of keys i)
      ∙ ap (λ l. get_elem? l i) pairs
      ∙ get_elem?-pairs_from draws 0 count i h in
    of_parts (get_elem? keys i) (start + i) (draws i) numbered
      (drawn ∙ ap (λ n. some (draws n)) (omega arith))

module _ (na : Sodium) (hk : Kdf) (aead : AeadLaws na) (curve : CurveLaws na)
    (signs : SignLaws na curve) (laws : KdfLaws hk) where
  -- A signed prekey verifies under the identity that made it.
  pub generate_signed_lem :
      (pair : KeyPair) (bob : IdentityKeyPair) (id : ℕ)
      → IsIdentity na curve signs bob
      → (generate_signed na pair bob id
          ≡ ok (record {
            prekey_id = id;
            public_key = pair.0;
            secret_key = pair.1;
            signature = sign na bob pair.0;
          }))
        × (na.verify_detached (sign na bob pair.0) pair.0 bob.public_key ≡ true)
  unfolding generate_signed sign
  generate_signed_lem pair bob id i = (
    ground (arith, aead.initialised),
    rw i.public_eq (signs.verify-sign pair.0 bob.secret_key i.length_secret),
  )

  -- The recipient makes a signed prekey and a batch of one-time prekeys whose identifiers fit into a
  -- `u32`. With the bundle of the signed prekey and any one-time prekey of the batch, the initiator
  -- agrees on a secret, naming that prekey's identifier, starts a session and encrypts a message; with
  -- the two secret keys of its prekeys the recipient derives the same secret, and decrypts the message to its text,
  -- and the session goes on. All draws are key pairs, the nonce has 24 bytes, and the pair that the
  -- recipient draws is not its signed prekey.
  pub first_message_to_prekeys :
      (alice bob : IdentityKeyPair) (ek spk sending fresh : KeyPair) (draws : ℕ → KeyPair)
      (id start count i : ℕ) (nonce plaintext ad : Bytes)
      → IsIdentity na curve signs alice
      → IsIdentity na curve signs bob
      → IsKeyPair na curve ek
      → IsKeyPair na curve spk
      → IsKeyPair na curve sending
      → IsKeyPair na curve fresh
      → ((n : ℕ) → IsKeyPair na curve (draws n))
      → fresh.0 ≢ spk.0
      → length nonce ≡ 24
      → start + count ≤ 2 ^ 32
      → i < count
      → (k : SignedPreKey) × (keys : List OneTimePreKey) × (o : OneTimePreKey) × (secret : Bytes)
        × (a : RatchetState) × (header : MessageHeader) × (ct : Bytes) × (a' : RatchetState)
        × (b' : RatchetState) × (generate_signed na spk bob id ≡ ok k)
        × (generate_one_time_prekeys na draws count start ≡ ok keys)
        × (get_elem? keys i ≡ some o)
        × (initiate_x3dh na hk ek alice (record {
          identity_key = bob.public_key;
          signed_prekey = k.public_key;
          signed_prekey_signature = k.signature;
          one_time_prekey = some (o.prekey_id, o.public_key);
        })
            ≡ ok (record {
              shared_secret = secret;
              ephemeral_public_key = ek.0;
              used_one_time_prekey_id = some (start + i);
            }))
        × (accept_x3dh na hk bob k.secret_key (some o.secret_key) alice.public_key ek.0 ≡ ok secret)
        × (init_sender na hk sending secret k.public_key ≡ ok a)
        × (encrypt na hk nonce plaintext ad a ≡ (ok (header, ct), a'))
        × (decrypt na hk fresh header ct ad (init_receiver secret (k.public_key, k.secret_key))
            ≡ (ok plaintext, b'))
        × Session na hk aead curve laws true a' b'
  first_message_to_prekeys alice bob ek spk sending fresh draws id start count i nonce plaintext ad
        ia ib ke ks kn kf kd new sized fits inside =
      let (made, verifies) = generate_signed_lem spk bob id ib in
      let (keys, batch, ids, pairs) =
        generate_one_time_prekeys_lem na draws count start aead.initialised fits in
      let there = prekey_at draws start count i keys ids pairs inside in
      let (secret, a, header, ct, a', b', agreed, back, started, sent, read, goes_on) =
        first_message na hk aead curve signs laws alice bob ek spk sending fresh
          (some (start + i, draws i)) (sign na bob spk.0) nonce plaintext ad ia ib ke ks kn kf
          (kd i) new sized verifies in
      (
        record {
          prekey_id = id;
          public_key = spk.0;
          secret_key = spk.1;
          signature = sign na bob spk.0;
        },
        keys,
        record { prekey_id = start + i; public_key = (draws i).0; secret_key = (draws i).1 },
        secret,
        a,
        header,
        ct,
        a',
        b',
        made,
        batch,
        there,
        agreed,
        back,
        started,
        sent,
        read,
        goes_on,
      )
