-- ===== src/DoubleRatchet/Keys.antt =====
-- crates/vaultex-crypto/src/double_ratchet.rs: the two key derivations and the exchange of keys.
use vaultex.Base.{
  take_all, ℕ, zero, suc, ◌≡◌, refl, some, [], ◌∷◌, Bytes, text, length, take, drop, arith,
}
use vaultex.Errors.{Result, ok, ◌>>=◌, ok_or, hkdf_expand_failed, ratchet_error}
use vaultex.Crates.Sodium.{Sodium, CurveLaws}
use vaultex.Crates.Kdf.{Kdf, KdfLaws}

abbrev pub ratchet_info : Bytes
ratchet_info = text "VAULTEX_RATCHET"

abbrev pub chain_key_seed : Bytes
chain_key_seed = 0x01 ∷ []

abbrev pub msg_key_seed : Bytes
msg_key_seed = 0x02 ∷ []

module _ (kdf : Kdf) where
  -- The new root key and the new chain key.
  unfoldable pub kdf_rk : Bytes → Bytes → Result (Bytes × Bytes)
  kdf_rk root_key dh_output = do
    output ← ok_or (kdf.hkdf (some root_key) dh_output ratchet_info 64) hkdf_expand_failed
    ok (take 32 output, drop 32 output)

  -- The new chain key and the message key.
  unfoldable pub kdf_ck : Bytes → Result (Bytes × Bytes)
  kdf_ck chain_key = do
    new_chain_key ← ok_or (kdf.hmac chain_key chain_key_seed) hkdf_expand_failed
    msg_key ← ok_or (kdf.hmac chain_key msg_key_seed) hkdf_expand_failed
    ok (new_chain_key, msg_key)

-- `&our_sk.0[..32]` is the whole secret key.
unfoldable pub dh_exchange : Sodium → Bytes → Bytes → Result Bytes
dh_exchange na our_sk their_pk = do
  our_scalar ←
      ok_or (na.scalar_from_slice (take 32 our_sk)) (ratchet_error (text "invalid secret key"))
  their_ge ←
      ok_or (na.group_element_from_slice their_pk) (ratchet_error (text "invalid public key"))
  ok_or (na.scalarmult our_scalar their_ge) (ratchet_error (text "DH failed"))

-- The exchange is symmetric between two key pairs.
pub dh_exchange_agree :
    (na : Sodium) (curve : CurveLaws na) (a b : Bytes)
    → length a ≡ 32
    → length b ≡ 32
    → (shared : Bytes) × (length shared ≡ 32)
      × (dh_exchange na a (curve.public_of b) ≡ ok shared)
      × (dh_exchange na b (curve.public_of a) ≡ ok shared)
unfolding dh_exchange
dh_exchange_agree na curve a b ha hb =
    let (shared, sized, ab, ba) = curve.agree a b ha hb in
    (
      shared,
      sized,
      rw (
        take_all 32 a ha,
        curve.scalar_length.fits a ha,
        curve.group_length.fits (curve.public_of b) (curve.length-public_of b hb),
        ab,
      ),
      rw (
        take_all 32 b hb,
        curve.scalar_length.fits b hb,
        curve.group_length.fits (curve.public_of a) (curve.length-public_of a ha),
        ba,
      ),
    )

-- The chains that the derivations make, as total functions.
module _ (kdf : Kdf) (laws : KdfLaws kdf) where
  pub next_chain_key : Bytes → Bytes
  next_chain_key ck = (laws.hmac_total ck chain_key_seed).0

  pub message_key : Bytes → Bytes
  message_key ck = (laws.hmac_total ck msg_key_seed).0

  -- The chain key after n messages.
  unfoldable pub chain_key_after : ℕ → Bytes → Bytes
  chain_key_after zero ck = ck
  chain_key_after (suc n) ck = chain_key_after n (next_chain_key ck)

  pub kdf_ck_lem : (ck : Bytes) → kdf_ck kdf ck ≡ ok (next_chain_key ck, message_key ck)
  unfolding kdf_ck next_chain_key message_key
  kdf_ck_lem ck = rw ((laws.hmac_total ck chain_key_seed).2, (laws.hmac_total ck msg_key_seed).2)

  pub length-message_key : (ck : Bytes) → length (message_key ck) ≡ 32
  unfolding message_key
  length-message_key ck = (laws.hmac_total ck msg_key_seed).1

  pub chain_key_after-suc :
      (n : ℕ) (ck : Bytes) → chain_key_after (suc n) ck ≡ next_chain_key (chain_key_after n ck)
  unfolding chain_key_after
  chain_key_after-suc zero ck = refl
  chain_key_after-suc (suc n) ck = chain_key_after-suc n (next_chain_key ck)

  pub chain_key_after-zero : (n : ℕ) (ck : Bytes) → n ≡ 0 → chain_key_after n ck ≡ ck
  unfolding chain_key_after
  chain_key_after-zero zero ck h = refl
  chain_key_after-zero (suc n) ck h = absurd (omega arith)

  -- The pair of keys that a root key and an exchange give.
  pub root_step : Bytes → Bytes → Bytes × Bytes
  root_step root dh =
      let okm = (laws.hkdf_total (some root) dh ratchet_info 64 (omega arith)).0 in
      (take 32 okm, drop 32 okm)

  pub kdf_rk_lem : (root dh : Bytes) → kdf_rk kdf root dh ≡ ok (root_step root dh)
  unfolding kdf_rk root_step
  kdf_rk_lem root dh = rw (laws.hkdf_total (some root) dh ratchet_info 64 (omega arith)).2
