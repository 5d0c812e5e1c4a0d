-- ===== src/Security.antt =====
-- crates/vaultex-crypto/src/security.rs. `memcmp`, `memzero` and `randombytes` of sodiumoxide are
-- parameters, and so is whether the build has debug assertions; the time that a comparison takes is not modelled.
use vaultex.Base.{
  ℕ, ◌≡◌, ◌↔◌, ap, arith, Bool, true, false, not, ◌==◌, if◌then◌else◌, Bytes, length, Option, none,
  some, ◌&&◌, ◌||◌, [], ◌∷◌,
}

unfoldable pub constant_time_eq : (Bytes → Bytes → Bool) → Bytes → Bytes → Bool
constant_time_eq memcmp a b = if not (length a == length b) then false else memcmp a b

-- Some byte is not 0.
unfoldable pub any_nonzero : Bytes → Bool
any_nonzero [] = false
any_nonzero (b ∷ bytes) = not (b == 0) || any_nonzero bytes

-- `none` is the panic of a build with debug assertions.
unfoldable pub secure_random_bytes : Bool → (ℕ → Bytes) → ℕ → Option Bytes
unfolding any_nonzero
secure_random_bytes debug_assertions randombytes len =
    let bytes = randombytes len in
    if debug_assertions && not (len == 0 || any_nonzero bytes) then none else some bytes

-- The slice after the call.
unfoldable pub wipe_memory : (Bytes → Bytes) → Bytes → Bytes
wipe_memory memzero bytes = memzero bytes

-- Where `memcmp` decides equality of slices of one length, `constant_time_eq` decides equality of any
-- two slices.
pub constant_time_eq_iff :
    (memcmp : Bytes → Bytes → Bool) (a b : Bytes)
    → ((x y : Bytes) → length x ≡ length y → (memcmp x y ≡ true) ↔ (x ≡ y))
    → (constant_time_eq memcmp a b ≡ true) ↔ (a ≡ b)
unfolding constant_time_eq
constant_time_eq_iff memcmp a b decides =
    (λ h. ground (arith, decides a b), λ e. ground (arith, e, decides a b, ap length e))
