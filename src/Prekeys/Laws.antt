-- ===== src/Prekeys/Laws.antt =====
-- Properties of crates/vaultex-crypto/src/prekeys.rs.
use vaultex.Base.{
  ℕ, zero, suc, ◌+◌, ◌%◌, ◌^◌, ◌≤◌, ◌<◌, ◌≡◌, refl, ap, ap₂, ◌∙◌, ◌↔◌, arith, true, List, [], ◌∷◌,
  map, Bytes, length,
}
use vaultex.Errors.{ok}
use vaultex.Crates.Sodium.{Sodium, CurveLaws, SignLaws, IsKeyPair}
use vaultex.Identity.{IdentityKeyPair, sign}
use vaultex.Identity.Laws.{IsIdentity}
use vaultex.Prekeys.{
  needs_rotation, SignedPreKey, OneTimePreKey, generate_signed, verify, signed_from_bytes,
  generate_one_time, generate_loop, generate_one_time_prekeys,
}

-- A prekey is due exactly when at least `max_age` seconds, a positive number, have passed since it
-- was made: at that second already, and never for one that was made in the future.
pub needs_rotation_iff :
    (now created_at max_age : ℕ)
    → 0 < max_age
    → (needs_rotation now created_at max_age ≡ true) ↔ (created_at + max_age ≤ now)
unfolding needs_rotation
needs_rotation_iff now created_at max_age positive = ground arith

-- The identifiers from i on, n of them.
abbrev pub ids_from : ℕ → ℕ → List ℕ
ids_from i zero = []
ids_from i (suc n) = i ∷ ids_from (i + 1) n

-- The keys are the draws in order.
abbrev pub pairs_from : (ℕ → Bytes × Bytes) → ℕ → ℕ → List (Bytes × Bytes)
pairs_from draws i zero = []
pairs_from draws i (suc n) = draws i ∷ pairs_from draws (i + 1) n

abbrev pub id_of : OneTimePreKey → ℕ
id_of k = k.prekey_id

abbrev pub pair_of : OneTimePreKey → Bytes × Bytes
pair_of k = (k.public_key, k.secret_key)

module _ (na : Sodium) (ready : na.init ≡ true) (draws : ℕ → Bytes × Bytes) where
  loop_lem :
      (starting_id i n : ℕ)
      → starting_id + i + n ≤ 2 ^ 32
      → (keys : List OneTimePreKey) × (generate_loop na draws starting_id i n ≡ ok keys)
        × (map id_of keys ≡ ids_from (starting_id + i) n)
        × (map pair_of keys ≡ pairs_from draws i n)
  unfolding generate_loop generate_one_time
  loop_lem starting_id i zero fits = ([], refl, refl, refl)
  loop_lem starting_id i (suc n) fits =
      let (keys, made, ids, pairs) = loop_lem starting_id (i + 1) n (omega arith) in
      let id = (starting_id + i) % 2 ^ 32 in
      let own : id ≡ starting_id + i = omega arith in
      let next : starting_id + (i + 1) ≡ starting_id + i + 1 = omega arith in
      let key : OneTimePreKey = record {
        prekey_id = id;
        public_key = (draws i).0;
        secret_key = (draws i).1;
      } in
      (
        key ∷ keys,
        ground (arith, ready, made),
        ap₂ (λ h t. h ∷ t) own (ids ∙ ap (λ j. ids_from j n) next),
        ap (λ t. draws i ∷ t) pairs,
      )

-- With the library initialised, a batch whose identifiers fit into a `u32` is generated whole:
-- `count` prekeys, numbered from the starting identifier on without gap or repetition, each with
-- its own draw.
pub generate_one_time_prekeys_lem :
    (na : Sodium) (draws : ℕ → Bytes × Bytes) (count starting_id : ℕ)
    → na.init ≡ true
    → starting_id + count ≤ 2 ^ 32
    → (keys : List OneTimePreKey) × (generate_one_time_prekeys na draws count starting_id ≡ ok keys)
      × (map id_of keys ≡ ids_from starting_id count)
      × (map pair_of keys ≡ pairs_from draws 0 count)
unfolding generate_one_time_prekeys
generate_one_time_prekeys_lem na draws count starting_id ready fits =
    let (keys, made, ids, pairs) = loop_lem na ready draws starting_id 0 count (omega arith) in
    let start : starting_id + 0 ≡ starting_id = omega arith in
    (keys, made, ids ∙ ap (λ j. ids_from j count) start, pairs)

-- With the library initialised, a signed prekey of a key pair and an identity is made, verifies
-- under the identity's public key, and comes back whole from the bytes that are stored for it.
pub signed_from_bytes-generate_signed :
    (na : Sodium) (curve : CurveLaws na) (signs : SignLaws na curve) (pair : Bytes × Bytes)
    (identity : IdentityKeyPair) (id : ℕ)
    → na.init ≡ true
    → IsKeyPair na curve pair
    → IsIdentity na curve signs identity
    → (k : SignedPreKey) × (generate_signed na pair identity id ≡ ok k)
      × (verify na k identity.public_key ≡ true)
      × (signed_from_bytes na id k.public_key k.secret_key k.signature ≡ ok k)
unfolding generate_signed verify signed_from_bytes sign
signed_from_bytes-generate_signed na curve signs pair identity id ready k i =
    let signature = na.sign_detached pair.0 identity.secret_key in
    let sized : length pair.0 ≡ 32 =
      ap length k.public_eq ∙ curve.length-public_of pair.1 k.length_secret in
    (
      record { prekey_id = id; public_key = pair.0; secret_key = pair.1; signature = signature },
      ground (arith, ready),
      rw i.public_eq (signs.verify-sign pair.0 identity.secret_key i.length_secret),
      ground (
        arith,
        curve.public_length.fits pair.0 sized,
        curve.secret_length.fits pair.1 k.length_secret,
        signs.signature_length.fits signature
            (signs.length-sign_detached pair.0 identity.secret_key),
      ),
    )
