-- ===== src/Prekeys.antt =====
-- crates/vaultex-crypto/src/prekeys.rs: signed and one-time prekeys. The clock and what
-- `gen_keypair` draws are arguments; the debug assertions on the draws are not modelled.
pub mod Laws
mod Tests
use vaultex.Base.{
  ℕ, zero, suc, ◌+◌, ◌-◌, ◌*◌, ◌%◌, ◌^◌, Bool, not, leb, List, [], ◌∷◌, Bytes, length,
}
use vaultex.Errors.{Result, ok, ◌>>=◌, ◌>>◌, ok_or, reject_if, init_failed, invalid_key_length}
use vaultex.Crates.Memory.{Memory}
use vaultex.Crates.Encoding.{Hex}
use vaultex.Crates.Sodium.{Sodium}
use vaultex.Identity.{IdentityKeyPair, sign}

abbrev pub signed_prekey_rotation_interval : ℕ
signed_prekey_rotation_interval = 7 * 24 * 60 * 60

abbrev pub signed_prekey_grace_period : ℕ
signed_prekey_grace_period = 24 * 60 * 60

abbrev pub min_one_time_prekeys : ℕ
min_one_time_prekeys = 10

abbrev pub one_time_prekey_batch_size : ℕ
one_time_prekey_batch_size = 50

-- `saturating_sub` is the subtraction of natural numbers.
unfoldable pub needs_rotation : ℕ → ℕ → ℕ → Bool
needs_rotation now created_at max_age_secs = leb max_age_secs (now - created_at)

-- The clock in seconds.
unfoldable pub current_timestamp : ℕ → ℕ
current_timestamp clock = clock

pub record SignedPreKey : Type 0 where
  pub prekey_id : ℕ
  pub public_key : Bytes
  pub secret_key : Bytes
  pub signature : Bytes

pub record OneTimePreKey : Type 0 where
  pub prekey_id : ℕ
  pub public_key : Bytes
  pub secret_key : Bytes

unfoldable pub signed_secret_key : SignedPreKey → Bytes
signed_secret_key self = self.secret_key

unfoldable pub one_time_secret_key : OneTimePreKey → Bytes
one_time_secret_key self = self.secret_key

module _ (hex : Hex) where
  unfoldable pub signed_public_key_hex : SignedPreKey → Bytes
  signed_public_key_hex self = hex.encode self.public_key

  unfoldable pub signature_hex : SignedPreKey → Bytes
  signature_hex self = hex.encode self.signature

  unfoldable pub one_time_public_key_hex : OneTimePreKey → Bytes
  one_time_public_key_hex self = hex.encode self.public_key

module _ (memory : Memory) where
  unfoldable pub wipe_signed_on_drop : SignedPreKey → SignedPreKey
  wipe_signed_on_drop self = record self { secret_key = memory.memzero self.secret_key }

  unfoldable pub wipe_one_time_on_drop : OneTimePreKey → OneTimePreKey
  wipe_one_time_on_drop self = record self { secret_key = memory.memzero self.secret_key }

module _ (na : Sodium) where
  unfoldable pub generate_signed : Bytes × Bytes → IdentityKeyPair → ℕ → Result SignedPreKey
  generate_signed (pk, sk) identity prekey_id = do
    reject_if (not na.init) init_failed
    let signature = sign na identity pk
    let prekey : SignedPreKey = record {
      prekey_id = prekey_id;
      public_key = pk;
      secret_key = sk;
      signature = signature;
    }
    ok prekey

  unfoldable pub verify : SignedPreKey → Bytes → Bool
  verify self identity_key = na.verify_detached self.signature self.public_key identity_key

  unfoldable pub signed_from_bytes : ℕ → Bytes → Bytes → Bytes → Result SignedPreKey
  signed_from_bytes prekey_id public_key secret_key signature = do
    pk ← ok_or (na.public_key_from_slice public_key) (invalid_key_length 32 (length public_key))
    sk ← ok_or (na.secret_key_from_slice secret_key) (invalid_key_length 32 (length secret_key))
    sig ← ok_or (na.signature_from_bytes signature) (invalid_key_length 64 (length signature))
    let prekey : SignedPreKey = record {
      prekey_id = prekey_id;
      public_key = pk;
      secret_key = sk;
      signature = sig;
    }
    ok prekey

  unfoldable pub generate_one_time : Bytes × Bytes → ℕ → Result OneTimePreKey
  generate_one_time (pk, sk) prekey_id = do
    reject_if (not na.init) init_failed
    let prekey : OneTimePreKey = record { prekey_id = prekey_id; public_key = pk; secret_key = sk }
    ok prekey

  unfoldable pub one_time_from_bytes : ℕ → Bytes → Bytes → Result OneTimePreKey
  one_time_from_bytes prekey_id public_key secret_key = do
    pk ← ok_or (na.public_key_from_slice public_key) (invalid_key_length 32 (length public_key))
    sk ← ok_or (na.secret_key_from_slice secret_key) (invalid_key_length 32 (length secret_key))
    let prekey : OneTimePreKey = record { prekey_id = prekey_id; public_key = pk; secret_key = sk }
    ok prekey

  -- The turns of the loop from i on, n of them; turn i draws `draws i`. A `u32` sum wraps, where
  -- overflow checks do not stop the program.
  unfoldable pub generate_loop : (ℕ → Bytes × Bytes) → ℕ → ℕ → ℕ → Result (List OneTimePreKey)
  unfolding generate_one_time
  generate_loop draws starting_id i zero = ok []
  generate_loop draws starting_id i (suc n) = do
    prekey ← generate_one_time (draws i) ((starting_id + i) % 2 ^ 32)
    prekeys ← generate_loop draws starting_id (i + 1) n
    ok (prekey ∷ prekeys)

  unfoldable pub generate_one_time_prekeys :
      (ℕ → Bytes × Bytes) → ℕ → ℕ → Result (List OneTimePreKey)
  unfolding generate_loop
  generate_one_time_prekeys draws count starting_id = generate_loop draws starting_id 0 count
