-- ===== src/DoubleRatchet/State.antt =====
-- crates/vaultex-crypto/src/double_ratchet.rs: the state of a session, the header of a message, and
-- methods as functions of the state. A method that fails keeps what it has written so far.
use vaultex.Base.{
  ℕ, ◌+◌, ◌%◌, ◌^◌, Option, ◌≡◌, Bool, true, ◌&&◌, ◌↔◌, Bytes, bytes_eq, bytes_eq→eq, bytes_eq_refl,
  ◌==◌, ==_iff, &&-eq-true, ap, ap₂, arith,
}
use vaultex.Base.HashMap.{Eq, HashMap}
use vaultex.Errors.{Result, ok, err}

-- At most this many message keys are stored by one call of a skipping method.
abbrev pub max_skip : ℕ
max_skip = 1000

pub record MessageHeader : Type 0 where
  pub ratchet_public_key : Bytes
  pub previous_chain_length : ℕ
  pub message_number : ℕ

-- `(ratchet_public_key, message_number)`.
abbrev pub SkippedId : Type 0
SkippedId = Bytes × ℕ

abbrev pub skipped_id_eq : SkippedId → SkippedId → Bool
skipped_id_eq (a, i) (b, j) = bytes_eq a b && i == j

pub skipped_id_eq_iff : (a b : SkippedId) → (skipped_id_eq a b ≡ true) ↔ (a ≡ b)
skipped_id_eq_iff (a, i) (b, j) = (
  λ h.
      let (p, q) = &&-eq-true (bytes_eq a b) (i == j) h in
      ap₂ (λ x y. (x, y)) (bytes_eq→eq a b p) ((==_iff i j).0 q),
  λ e.
      ground (arith, bytes_eq_refl a, ap (λ (p : SkippedId). p.0) e, ap (λ (p : SkippedId). p.1) e),
)

instance abbrev pub skipped_id : Eq SkippedId
skipped_id = record { equals = skipped_id_eq; equals_iff = skipped_id_eq_iff }

-- A public key and its secret key, `(box_::PublicKey, box_::SecretKey)`.
abbrev pub KeyPair : Type 0
KeyPair = Bytes × Bytes

pub record RatchetState : Type 0 where
  pub root_key : Bytes
  pub sending_chain_key : Option Bytes
  pub receiving_chain_key : Option Bytes
  pub sending_keypair : Option KeyPair
  pub remote_ratchet_key : Option Bytes
  pub send_message_number : ℕ
  pub recv_message_number : ℕ
  pub previous_chain_length : ℕ
  pub skipped_keys : HashMap SkippedId Bytes

-- A method with `&mut self` that returns a `Result`.
abbrev pub Method {ℓ} : Type ℓ → Type ℓ
Method A = RatchetState → Result A × RatchetState

infixl 5 ◌>>=◌ ◌>>◌
abbrev pub ◌>>=◌ {ℓ κ} : {A : Type ℓ} {B : Type κ} → Method A → (A → Method B) → Method B
◌>>=◌ m f s = let (r, s') = m s in elim r [ ok a ↦ f a s' | err e ↦ (err e, s') ]

abbrev pub ◌>>◌ {ℓ κ} : {A : Type ℓ} {B : Type κ} → Method A → Method B → Method B
m >> k = m >>= λ _. k

-- A call that does not touch `self`, under `?`.
abbrev pub lift {ℓ} : {A : Type ℓ} → Result A → Method A
lift r s = (r, s)

abbrev pub gets {ℓ} : {A : Type ℓ} → (RatchetState → A) → Method A
gets f s = (ok (f s), s)

abbrev pub modify : (RatchetState → RatchetState) → Method (Unit {0})
modify f s = (ok tt, f s)

abbrev pub pure {ℓ} : {A : Type ℓ} → A → Method A
pure a s = (ok a, s)

-- `n + 1` on `u32`, as the release profile computes it.
abbrev pub next_u32 : ℕ → ℕ
next_u32 n = (n + 1) % 2 ^ 32
