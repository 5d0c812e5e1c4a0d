-- ===== src/Errors.antt =====
-- crates/vaultex-crypto/src/errors.rs: the errors of the crate and its `Result`, with the `?`
-- operator as a bind.
use vaultex.Base.{
  ℕ, Bool, true, false, Option, none, some, ◌≡◌, refl, sym, ap, ◌∙◌, ◌⊎◌, inl, inr, Bytes,
}

-- A `String` is its UTF-8 bytes.
pub data CryptoError : Type 0 where
  init_failed : CryptoError
  signature_verification_failed : CryptoError
  invalid_key_length : ℕ → ℕ → CryptoError
  hkdf_expand_failed : CryptoError
  encryption_failed : CryptoError
  decryption_failed : CryptoError
  missing_one_time_prekey : ℕ → CryptoError
  invalid_prekey_signature : CryptoError
  sealed_sender_error : Bytes → CryptoError
  ratchet_error : Bytes → CryptoError
  padding_error : Bytes → CryptoError
  serialization_error : Bytes → CryptoError

-- `std::result::Result`.
pub data Either {ℓ κ} (E : Type κ) (A : Type ℓ) : Type (ℓ ⊔ κ) where
  ok : A → Either E A
  err : E → Either E A

abbrev pub Result {ℓ} : Type ℓ → Type ℓ
Result A = Either CryptoError A

-- `m?` followed by the rest.
infixl 5 ◌>>=◌ ◌>>◌
abbrev pub ◌>>=◌ {ℓ κ μ} :
    {E : Type μ} {A : Type ℓ} {B : Type κ} → Either E A → (A → Either E B) → Either E B
ok value >>= next = next value
err failure >>= next = err failure

abbrev pub ◌>>◌ {ℓ μ} : {E : Type μ} {B : Type ℓ} → Either E (Unit {0}) → Either E B → Either E B
first >> rest = first >>= λ done. rest

-- `o.ok_or(e)`.
abbrev pub ok_or {ℓ μ} : {E : Type μ} {A : Type ℓ} → Option A → E → Either E A
ok_or none e = err e
ok_or (some a) e = ok a

-- `r.map_err(f)`.
abbrev pub map_err {ℓ κ μ} :
    {E : Type κ} {F : Type μ} {A : Type ℓ} → Either E A → (E → F) → Either F A
map_err (ok a) f = ok a
map_err (err e) f = err (f e)

-- `if test { return Err(e) }`.
abbrev pub reject_if {μ} : {E : Type μ} → Bool → E → Either E (Unit {0})
reject_if true failure = err failure
reject_if false failure = ok tt

-- The first part of a success succeeded.
pub >>=-eq-ok {ℓ κ μ} :
    {E : Type μ} {A : Type ℓ} {B : Type κ} (first : Either E A) (next : A → Either E B) {result : B}
    → (first >>= next) ≡ ok result
    → (value : A) × (first ≡ ok value) × (next value ≡ ok result)
>>=-eq-ok (ok value) next e = (value, refl, e)
>>=-eq-ok (err failure) next e = cc

pub ok-eq {ℓ μ} : {E : Type μ} {A : Type ℓ} {a b : A} → ◌≡◌ {A = Either E A} (ok a) (ok b) → a ≡ b
ok-eq e = cc

-- One computation has one outcome.
pub same_state {ℓ κ} :
    {A : Type ℓ} {S : Type κ} {x : A × S} {r r' : A} {s s' : S} → x ≡ (r, s) → x ≡ (r', s') → s ≡ s'
same_state {A} {S} e e' = ap (λ (o : A × S). o.1) (sym e ∙ e')

pub same_value {ℓ κ} :
    {A : Type ℓ} {S : Type κ} {x : A × S} {r r' : A} {s s' : S} → x ≡ (r, s) → x ≡ (r', s') → r ≡ r'
same_value {A} {S} e e' = ap (λ (o : A × S). o.0) (sym e ∙ e')

pub Either-cases {ℓ μ} :
    {E : Type μ} {A : Type ℓ} (r : Either E A) → ((a : A) × (r ≡ ok a)) ⊎ ((e : E) × (r ≡ err e))
Either-cases (ok a) = inl (a, refl)
Either-cases (err e) = inr (e, refl)

pub map_err-eq-ok {ℓ κ μ} :
    {E : Type κ} {F : Type μ} {A : Type ℓ} {a : A} (r : Either E A) (f : E → F)
    → map_err r f ≡ ok a
    → r ≡ ok a
map_err-eq-ok (ok a) f h = cc
map_err-eq-ok (err e) f h = cc

pub ok_or-eq-ok {ℓ μ} :
    {E : Type μ} {A : Type ℓ} {a : A} (o : Option A) (e : E) → ok_or o e ≡ ok a → o ≡ some a
ok_or-eq-ok none e h = cc
ok_or-eq-ok (some a) e h = cc

pub reject_if-eq-ok {μ} :
    {E : Type μ} {u : Unit {0}} (b : Bool) (e : E) → reject_if b e ≡ ok u → b ≡ false
reject_if-eq-ok true e h = cc
reject_if-eq-ok false e h = refl
