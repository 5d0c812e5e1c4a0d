-- ===== src/DoubleRatchet/Persistence/Twin.antt =====
-- Methods of crates/vaultex-crypto/src/double_ratchet.rs on two sessions that differ only in the order
-- of their stored keys: one rule for each way to build a method.
pub mod Methods
use mathlib.Core.Path.{subst}
use vaultex.Base.{
  ℕ, zero, suc, ◌-◌, ◌≡◌, refl, sym, ap, ◌∙◌, inl, inr, none, some, [], Bool, true, false,
  Bool-cases, Bytes, Option-cases, arith, Option, ltb, if◌then◌else◌, text,
}
use vaultex.Base.HashMap
use vaultex.Errors.{Result, ok, err, Either-cases, CryptoError, ok_or, ratchet_error}
use vaultex.Crates.Sodium.{Sodium}
use vaultex.Crates.Kdf.{Kdf}
use vaultex.DoubleRatchet.State.{
  max_skip, MessageHeader, RatchetState, KeyPair, SkippedId, skipped_id, skipped_id_eq,
  skipped_id_eq_iff, Method, ◌>>=◌, ◌>>◌, lift, gets, modify, pure,
}
use vaultex.DoubleRatchet.Keys.{kdf_ck}
use vaultex.DoubleRatchet.Session.{
  fail_if, skip_loop, skip_message_keys, skip_message_keys_for_current_chain, dh_ratchet_step,
  ratchet_to, decrypt_on_chain, decrypt, encrypt, decrypt_with_key,
}

-- The session without its stored keys.
abbrev pub erase : RatchetState → RatchetState
erase s = record s { skipped_keys = [] }

pub record Twin (s t : RatchetState) : Type 0 where
  pub rest : erase s ≡ erase t
  pub keys : (k : SkippedId) → HashMap.lookup k s.skipped_keys ≡ HashMap.lookup k t.skipped_keys

-- A method gives both sessions the same answer, and leaves them alike.
pub record Agree {ℓ} {A : Type ℓ} (m : Method A) : Type ℓ where
  pub at : (s t : RatchetState) → Twin s t → ((m s).0 ≡ (m t).0) × Twin (m s).1 (m t).1

module _ {ℓ} {A : Type ℓ} where
  pub Agree-lift : (r : Result A) → Agree (lift r)
  Agree-lift r = record { at = λ s t w. (refl, w) }

  pub Agree-pure : (a : A) → Agree (pure a)
  Agree-pure a = record { at = λ s t w. (refl, w) }

  -- What does not read the keys.
  pub Agree-gets :
      (f : RatchetState → A) → ((u : RatchetState) → f u ≡ f (erase u)) → Agree (gets f)
  Agree-gets f blind = record { at = λ s t w. (ap ok (blind s ∙ ap f w.rest ∙ sym (blind t)), w) }

  pub Agree-if : (c : Bool) (m n : Method A) → Agree m → Agree n → Agree (if c then m else n)
  Agree-if true m n am an = am
  Agree-if false m n am an = an

  pub Agree-cond :
      (c : Bool) (m n : Method A) → Agree m → Agree n → Agree (λ s. if c then m s else n s)
  Agree-cond true m n am an = am
  Agree-cond false m n am an = an

-- What writes the other fields only.
pub Agree-modify :
    (f : RatchetState → RatchetState)
    → ((u : RatchetState) → erase (f u) ≡ f (erase u))
    → ((u : RatchetState) → (f u).skipped_keys ≡ u.skipped_keys)
    → Agree (modify f)
Agree-modify f blind leaves = record {
  at = λ s t w. (
    refl,
    record {
      rest = blind s ∙ ap f w.rest ∙ sym (blind t);
      keys =
          λ k. ap (HashMap.lookup k) (leaves s) ∙ w.keys k ∙ ap (HashMap.lookup k) (sym (leaves t));
    },
  );
}

pub Agree-fail_if : (c : Bool) (e : CryptoError) → Agree (fail_if c e)
Agree-fail_if true e = record { at = λ s t w. (refl, w) }
Agree-fail_if false e = record { at = λ s t w. (refl, w) }

module _ {ℓ κ} {A : Type ℓ} {B : Type κ} where
  -- The rest of a block, after an answer.
  abbrev pub after : (A → Method B) → Result A → Method B
  after f r u = elim r [ ok a ↦ f a u | err e ↦ (err e, u) ]

  pub Agree-after : (f : A → Method B) (r : Result A) → ((a : A) → Agree (f a)) → Agree (after f r)
  Agree-after f (ok a) next = record { at = λ s t w. (next a).at s t w }
  Agree-after f (err e) next = record { at = λ s t w. (refl, w) }

  pub Agree-bind :
      (m : Method A) (f : A → Method B) → Agree m → ((a : A) → Agree (f a)) → Agree (m >>= f)
  Agree-bind m f h next = record {
    at = λ s t w.
        let (same, alike) = h.at s t w in
        let (answer, states) = (Agree-after f (m s).0 next).at (m s).1 (m t).1 alike in
        (
          answer ∙ ap (λ r. (after f r (m t).1).0) same,
          subst (λ (r : Result A). Twin (after f (m s).0 (m s).1).1 (after f r (m t).1).1) same
              states,
        );
  }

lookup-insert-same :
    (k : SkippedId) (v : Bytes) (m m' : HashMap.HashMap SkippedId Bytes)
    → ((j : SkippedId) → HashMap.lookup j m ≡ HashMap.lookup j m')
    → (j : SkippedId)
    → HashMap.lookup j (HashMap.insert k v m) ≡ HashMap.lookup j (HashMap.insert k v m')
lookup-insert-same k v m m' h j = elim (Bool-cases (skipped_id_eq j k)) [
  | inl same ↦
      let at : j ≡ k = (skipped_id_eq_iff j k).0 same in
      ap (λ i. HashMap.lookup i (HashMap.insert k v m)) at
      ∙ HashMap.lookup-insert_self k v m
      ∙ sym (HashMap.lookup-insert_self k v m')
      ∙ ap (λ i. HashMap.lookup i (HashMap.insert k v m')) (sym at)
  | inr other ↦
      HashMap.lookup-insert_ne j k v m other ∙ h j ∙ sym (HashMap.lookup-insert_ne j k v m' other)
]

pub Agree-insert :
    (k : SkippedId) (v : Bytes)
    → Agree (modify (λ u. record u { skipped_keys = HashMap.insert k v u.skipped_keys }))
Agree-insert k v = record {
  at = λ s t w. (
    refl,
    record { rest = w.rest; keys = lookup-insert-same k v s.skipped_keys t.skipped_keys w.keys },
  );
}

lookup-remove-same :
    (k : SkippedId) (m m' : HashMap.HashMap SkippedId Bytes)
    → ((j : SkippedId) → HashMap.lookup j m ≡ HashMap.lookup j m')
    → (j : SkippedId)
    → HashMap.lookup j (HashMap.remove k m) ≡ HashMap.lookup j (HashMap.remove k m')
lookup-remove-same k m m' h j = elim (Bool-cases (skipped_id_eq j k)) [
  | inl same ↦
      let at : j ≡ k = (skipped_id_eq_iff j k).0 same in
      ap (λ i. HashMap.lookup i (HashMap.remove k m)) at
      ∙ HashMap.lookup-remove_self k m
      ∙ sym (HashMap.lookup-remove_self k m')
      ∙ ap (λ i. HashMap.lookup i (HashMap.remove k m')) (sym at)
  | inr other ↦
      HashMap.lookup-remove_ne j k m other ∙ h j ∙ sym (HashMap.lookup-remove_ne j k m' other)
]

pub Agree-remove :
    (k : SkippedId) (r : Result Bytes)
    → Agree (λ s. (r, record s { skipped_keys = HashMap.remove k s.skipped_keys }))
Agree-remove k r = record {
  at = λ s t w. (
    refl,
    record { rest = w.rest; keys = lookup-remove-same k s.skipped_keys t.skipped_keys w.keys },
  );
}

pub ruleset agree_rules = (
  Agree-pure, Agree-lift, Agree-gets, Agree-if, Agree-modify, Agree-fail_if, Agree-bind,
  Agree-insert,
)
