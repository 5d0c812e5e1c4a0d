-- ===== src/X3dh.antt =====
-- crates/vaultex-crypto/src/x3dh.rs: the key agreement that starts a session. What `gen_keypair`
-- draws is the argument `ephemeral`.
pub mod Agreement
pub mod FirstMessage
pub mod Refusal
pub mod Tests
use vaultex.Base.{ℕ, Option, none, some, not, ◌++◌, Bytes, text, length, take}
use vaultex.Errors.{
  Result, ok, ◌>>=◌, ◌>>◌, ok_or, reject_if, init_failed, invalid_key_length, hkdf_expand_failed,
  invalid_prekey_signature,
}
use vaultex.Crates.Memory.{Memory}
use vaultex.Crates.Sodium.{Sodium}
use vaultex.Crates.Kdf.{Kdf}
use vaultex.Identity.{IdentityKeyPair}

abbrev pub x3dh_info : Bytes
x3dh_info = text "VAULTEX_X3DH"

pub record RecipientPreKeyBundle : Type 0 where
  pub identity_key : Bytes
  pub signed_prekey : Bytes
  pub signed_prekey_signature : Bytes
  pub one_time_prekey : Option (ℕ × Bytes)

pub record X3dhInitResult : Type 0 where
  pub shared_secret : Bytes
  pub ephemeral_public_key : Bytes
  pub used_one_time_prekey_id : Option ℕ

unfoldable pub wipe_on_drop : Memory → X3dhInitResult → X3dhInitResult
wipe_on_drop memory self = record self { shared_secret = memory.zeroize self.shared_secret }

module _ (na : Sodium) where
  unfoldable pub ed25519_pk_to_curve25519 : Bytes → Result Bytes
  ed25519_pk_to_curve25519 pk = do
    curve_pk ← ok_or (na.ed25519_pk_to_curve25519 pk) (invalid_key_length 32 0)
    ok_or (na.group_element_from_slice curve_pk) (invalid_key_length 32 (length curve_pk))

  unfoldable pub ed25519_sk_to_curve25519 : Bytes → Result Bytes
  ed25519_sk_to_curve25519 sk = do
    curve_sk ← ok_or (na.ed25519_sk_to_curve25519 sk) (invalid_key_length 32 0)
    ok_or (na.scalar_from_slice curve_sk) (invalid_key_length 32 (length curve_sk))

  -- A raw X25519 exchange.
  unfoldable pub dh : Bytes → Bytes → Result Bytes
  dh our_secret their_public = ok_or (na.scalarmult our_secret their_public) hkdf_expand_failed

unfoldable pub kdf : Kdf → Bytes → Result Bytes
kdf hk dh_concat = ok_or (hk.hkdf none dh_concat x3dh_info 32) hkdf_expand_failed

-- `from_slice` of 32 bytes as a scalar or a group element.
abbrev pub or_invalid : Option Bytes → Result Bytes
or_invalid key = ok_or key (invalid_key_length 32 32)

module _ (na : Sodium) (hk : Kdf) where
  -- DH4, with the identifier of the one-time prekey that was used.
  unfoldable pub with_one_time : Bytes → Bytes → Option (ℕ × Bytes) → Result (Bytes × Option ℕ)
  with_one_time ek_scalar dh_concat none = ok (dh_concat, none)
  with_one_time ek_scalar dh_concat (some (otpk_id, otpk_pk)) = do
    otpk_ge ← or_invalid (na.group_element_from_slice otpk_pk)
    dh4 ← dh na ek_scalar otpk_ge
    ok (dh_concat ++ dh4, some otpk_id)

  unfoldable pub initiate_x3dh :
      Bytes × Bytes → IdentityKeyPair → RecipientPreKeyBundle → Result X3dhInitResult
  unfolding with_one_time
  initiate_x3dh (ek_pk, ek_sk) sender_identity bundle = do
    reject_if (not na.init) init_failed
    reject_if
        (not (
          na.verify_detached bundle.signed_prekey_signature bundle.signed_prekey
            bundle.identity_key))
        invalid_prekey_signature
    ik_a_curve_sk ← ed25519_sk_to_curve25519 na sender_identity.secret_key
    ik_b_curve_pk ← ed25519_pk_to_curve25519 na bundle.identity_key
    ek_scalar ← or_invalid (na.scalar_from_slice (take 32 ek_sk))
    spk_ge ← or_invalid (na.group_element_from_slice bundle.signed_prekey)
    dh1 ← dh na ik_a_curve_sk spk_ge
    dh2 ← dh na ek_scalar ik_b_curve_pk
    dh3 ← dh na ek_scalar spk_ge
    (dh_concat, used_otpk_id) ← with_one_time ek_scalar (dh1 ++ dh2 ++ dh3) bundle.one_time_prekey
    shared_secret ← kdf hk dh_concat
    let result : X3dhInitResult = record {
      shared_secret = shared_secret;
      ephemeral_public_key = ek_pk;
      used_one_time_prekey_id = used_otpk_id;
    }
    ok result

  -- DH4 on the other side.
  unfoldable pub with_one_time_secret : Bytes → Bytes → Option Bytes → Result Bytes
  with_one_time_secret ek_ge dh_concat none = ok dh_concat
  with_one_time_secret ek_ge dh_concat (some otpk_sk) = do
    otpk_scalar ← or_invalid (na.scalar_from_slice (take 32 otpk_sk))
    dh4 ← dh na otpk_scalar ek_ge
    ok (dh_concat ++ dh4)

  unfoldable pub accept_x3dh : IdentityKeyPair → Bytes → Option Bytes → Bytes → Bytes → Result Bytes
  unfolding with_one_time_secret
  accept_x3dh receiver_identity signed_prekey_secret one_time_prekey_secret sender_identity_key
        sender_ephemeral_key =
      do
        reject_if (not na.init) init_failed
        ik_b_curve_sk ← ed25519_sk_to_curve25519 na receiver_identity.secret_key
        ik_a_ge ← ed25519_pk_to_curve25519 na sender_identity_key
        spk_scalar ← or_invalid (na.scalar_from_slice (take 32 signed_prekey_secret))
        ek_ge ← or_invalid (na.group_element_from_slice sender_ephemeral_key)
        dh1 ← dh na spk_scalar ik_a_ge
        dh2 ← dh na ik_b_curve_sk ek_ge
        dh3 ← dh na spk_scalar ek_ge
        dh_concat ← with_one_time_secret ek_ge (dh1 ++ dh2 ++ dh3) one_time_prekey_secret
        kdf hk dh_concat
