-- ===== src/Base/Decimal.antt =====
-- Numbers as text: `{}` of a `u64`, and `str::parse::<u64>`.
use Prim.Native.Nat.{ℕ, zero, suc, ◌+◌, ◌-◌, ◌*◌, ◌/◌, ◌%◌, ◌^◌, ◌≤◌, ◌<◌}
use mathlib.Core.Path.{◌≡◌, refl, sym, ap, ◌∙◌}
use mathlib.Core.Logic.{◌≢◌, inl, inr}
use mathlib.Core.Bool.{Bool, true, ◌&&◌}
use mathlib.Core.Option.{Option, none, some}
use mathlib.Core.List.{[], ◌∷◌, ◌++◌}
use native.Mathlib.Omega.{arith}
use native.Mathlib.Nat.{pow-succ'}
use vaultex.Base.Booleans.{
  ltb, leb, ◌==◌, if◌then◌else◌, Bool-cases, some-eq, lt→ltb, le→ltb, ltb→lt,
}
use vaultex.Base.Lists.{All, All-append}
use vaultex.Base.ByteStrings.{Bytes}

-- Twenty digits hold every `u64`.
unfoldable digits : ℕ → ℕ → Bytes
digits zero n = []
digits (suc fuel) n =
    let front = digits fuel (n / 10) in
    if ltb n 10 then (48 + n) ∷ [] else front ++ (48 + n % 10) ∷ []

unfoldable pub decimal : ℕ → Bytes
unfolding digits
decimal n = digits 20 n

abbrev pub is_digit : ℕ → Bool
is_digit c = leb 48 c && leb c 57

unfoldable pub parse_digits : ℕ → Bytes → Option ℕ
parse_digits acc [] = some acc
parse_digits acc (c ∷ cs) =
    let value = acc * 10 + (c - 48) in
    let rest = parse_digits value cs in if is_digit c && ltb value (2 ^ 64) then rest else none

-- One leading `+` is accepted, an empty string of digits is not.
unfoldable pub parse_u64 : Bytes → Option ℕ
unfolding parse_digits
parse_u64 [] = none
parse_u64 (c ∷ []) = if c == 43 then none else parse_digits 0 (c ∷ [])
parse_u64 (c ∷ d ∷ cs) = if c == 43 then parse_digits 0 (d ∷ cs) else parse_digits 0 (c ∷ d ∷ cs)

digits_one : (fuel n : ℕ) → n < 10 → digits (suc fuel) n ≡ (48 + n) ∷ []
unfolding digits
digits_one fuel n h = rw (lt→ltb n 10 h)

digits_more :
    (fuel n : ℕ) → 10 ≤ n → digits (suc fuel) n ≡ digits fuel (n / 10) ++ (48 + n % 10) ∷ []
unfolding digits
digits_more fuel n h = rw (le→ltb n 10 h)

parse-last :
    (acc v : ℕ) (xs : Bytes) (c : ℕ)
    → parse_digits acc xs ≡ some v
    → parse_digits acc (xs ++ c ∷ []) ≡ parse_digits v (c ∷ [])
unfolding parse_digits
parse-last acc v [] c h = ground arith
parse-last acc v (x ∷ xs) c h = ground (arith, parse-last (acc * 10 + (x - 48)) v xs c)

parse_one :
    (acc d : ℕ)
    → d < 10
    → acc * 10 + d < 2 ^ 64
    → parse_digits acc ((48 + d) ∷ []) ≡ some (acc * 10 + d)
unfolding parse_digits
parse_one acc d h small = ground arith

-- One digit more, while the value stays small.
pub parse_more :
    (acc d : ℕ) (cs : Bytes)
    → d < 10
    → acc < 10000
    → parse_digits acc ((48 + d) ∷ cs) ≡ parse_digits (acc * 10 + d) cs
unfolding parse_digits
parse_more acc d cs h small = ground arith

zero-add : (n : ℕ) → 0 * 10 + n ≡ n
zero-add n = omega arith

parse-digits :
    (fuel n : ℕ) → n < 10 ^ suc fuel → n < 2 ^ 64 → parse_digits 0 (digits (suc fuel) n) ≡ some n
parse-digits zero n h small =
    rw (digits_one 0 n (omega arith))
      (parse_one 0 n (omega arith) (omega arith) ∙ ap some (zero-add n))
parse-digits (suc fuel) n h small = elim (Bool-cases (ltb n 10)) [
  | inl one ↦
      rw (digits_one (suc fuel) n (ltb→lt n 10 one))
        (parse_one 0 n (ltb→lt n 10 one) (omega arith) ∙ ap some (zero-add n))
  | inr more ↦
      let below : n / 10 < 10 ^ suc fuel = omega (arith, pow-succ' 10 (suc fuel)) in
      let ih = parse-digits fuel (n / 10) below (omega arith) in
      let whole : n / 10 * 10 + n % 10 ≡ n = omega arith in
      rw
        (
          digits_more (suc fuel) n (ground arith),
          parse-last 0 (n / 10) (digits (suc fuel) (n / 10)) (48 + n % 10) ih,
        )
        (parse_one (n / 10) (n % 10) (omega arith) (omega arith) ∙ ap some whole)
]

-- Every character is a digit.
AreDigits-digits : (fuel n : ℕ) → All (λ c. is_digit c ≡ true) (digits fuel n)
AreDigits-digits zero n = unfold digits in tt
AreDigits-digits (suc fuel) n = elim (Bool-cases (ltb n 10)) [
  | inl one ↦ rw (digits_one fuel n (ltb→lt n 10 one)) (ground arith, tt)
  | inr more ↦
      rw (digits_more fuel n (ground arith))
        (All-append _ (digits fuel (n / 10)) _ (AreDigits-digits fuel (n / 10)) (ground arith, tt))
]

pub parse_u64-digits :
    (s : Bytes) (v : ℕ)
    → All (λ c. is_digit c ≡ true) s
    → parse_digits 0 s ≡ some v
    → s ≢ []
    → parse_u64 s ≡ some v
unfolding parse_u64
parse_u64-digits [] v h e full = absurd (full refl)
parse_u64-digits (c ∷ []) v (h, _) e full = ground arith
parse_u64-digits (c ∷ d ∷ cs) v (h, _) e full = ground arith

digits-full : (fuel n : ℕ) → digits (suc fuel) n ≢ []
digits-full fuel n e = elim (Bool-cases (ltb n 10)) [
  | inl one ↦ cc (e, digits_one fuel n (ltb→lt n 10 one))
  | inr more ↦
      snoc_full (digits fuel (n / 10)) (48 + n % 10) (sym (digits_more fuel n (ground arith)) ∙ e)
]
  where
    snoc_full : (xs : Bytes) (c : ℕ) → xs ++ c ∷ [] ≢ []
    snoc_full [] c e = cc
    snoc_full (x ∷ xs) c e = cc

-- Reading back what was printed.
pub parse_u64-decimal : (n : ℕ) → n < 2 ^ 64 → parse_u64 (decimal n) ≡ some n
unfolding decimal
parse_u64-decimal n small =
    parse_u64-digits (digits 20 n) n (AreDigits-digits 20 n) (parse-digits 19 n (omega arith) small)
      (digits-full 19 n)

pub decimal-AreDigits : (n : ℕ) → All (λ c. is_digit c ≡ true) (decimal n)
unfolding decimal
decimal-AreDigits n = AreDigits-digits 20 n

pub decimal-injective : (m n : ℕ) → m < 2 ^ 64 → n < 2 ^ 64 → decimal m ≡ decimal n → m ≡ n
decimal-injective m n hm hn e =
    some-eq (sym (parse_u64-decimal m hm) ∙ ap parse_u64 e ∙ parse_u64-decimal n hn)
