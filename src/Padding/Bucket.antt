-- ===== src/Padding/Bucket.antt =====
-- The bucket of a message: crates/vaultex-crypto/src/padding.rs, `bucket_size`.
use Prim.Native.Nat.add
use native.Mathlib.Nat.{pow-le-pow_right, pow-succ'}
use vaultex.Base.{
  ℕ, zero, suc, ◌+◌, ◌*◌, ◌^◌, ◌≤◌, ◌<◌, ◌≡◌, refl, sym, ◌∙◌, ◌⊎◌, inl, inr, arith, ltb, Bool-cases,
  ltb→lt, le→leb, lt→leb,
}
use vaultex.Padding.{max_bucket, doubled, next_power_of_two, div_ceil, bucket_size}

-- The sizes that the header of the module promises.
abbrev pub IsBucket : ℕ → Type 0
IsBucket b =
    ((k : ℕ) × (8 ≤ k) × (k ≤ 16) × (b ≡ 2 ^ k)) ⊎ ((q : ℕ) × (1 < q) × (b ≡ q * max_bucket))

pow_mono : (i j : ℕ) → i ≤ j → 2 ^ i ≤ 2 ^ j
pow_mono i j h = pow-le-pow_right {n = 2} (omega arith) h

pow-reflects_lt : (i j : ℕ) → 2 ^ i < 2 ^ j → i < j
pow-reflects_lt i j h = elim (Bool-cases (ltb i j)) [
  | inl below ↦ ltb→lt i j below
  | inr above ↦ let m = pow_mono j i (ground arith) in absurd (omega arith)
]

double-pow : (i : ℕ) → 2 * 2 ^ i ≡ 2 ^ suc i
double-pow i = sym (pow-succ' 2 i)

-- From a power of two that is not past the answer, doubling stops at the first one that holds n.
doubled_lem :
    (fuel i n : ℕ)
    → n ≤ 2 ^ (fuel + i)
    → (j : ℕ) × (doubled fuel (2 ^ i) n ≡ 2 ^ j)
      × (n ≤ 2 ^ j)
      × ((k : ℕ) → n ≤ 2 ^ k → i ≤ k → j ≤ k)
unfolding doubled
doubled_lem zero i n h = (i, refl, (rw (add.zero i) at h), λ k _ le. le)
doubled_lem (suc fuel) i n h = elim (Bool-cases (ltb (2 ^ i) n)) [
  | inl below ↦
      let (j, e, fits, least) = doubled_lem fuel (suc i) n (rw (shift fuel i) at h) in
      (
        j,
        rw (below, double-pow i) e,
        fits,
        λ k hk _. least k hk (pow-reflects_lt i k (omega (arith, ltb→lt (2 ^ i) n below))),
      )
  | inr above ↦ (i, rw above, ground arith, λ k _ le. le)
]
  where
    shift : (f i : ℕ) → suc f + i ≡ f + suc i
    shift f i = omega arith

-- Where `usize` holds the answer, it is the smallest power of two that holds the number.
next_power_of_two_lem :
    (n : ℕ)
    → n ≤ 2 ^ 63
    → (j : ℕ) × (next_power_of_two n ≡ 2 ^ j) × (n ≤ 2 ^ j) × ((k : ℕ) → n ≤ 2 ^ k → j ≤ k)
unfolding next_power_of_two
next_power_of_two_lem n h =
    let (j, e, fits, least) = doubled_lem 64 0 n (omega arith) in
    (j, e, fits, λ k hk. least k hk (omega arith))

-- `div_ceil` by the largest bucket, times it: the first multiple that holds n.
round_up :
    (n : ℕ)
    → (n ≤ div_ceil n max_bucket * max_bucket)
      × (div_ceil n max_bucket * max_bucket < n + max_bucket)
unfolding div_ceil
round_up n = ground arith

-- The three cases of the function, by the room that the message needs.
bucket_size_small : (len : ℕ) → len + 4 ≤ 256 → bucket_size len ≡ 256
unfolding bucket_size
bucket_size_small len h = rw (le→leb (len + 4) 256 h)

bucket_size_middle :
    (len : ℕ) → 256 < len + 4 → len + 4 ≤ 65536 → bucket_size len ≡ next_power_of_two (len + 4)
bucket_size_middle len h k =
    unfold bucket_size in rw (lt→leb (len + 4) 256 h, le→leb (len + 4) 65536 k)

bucket_size_large : (len : ℕ) → 65536 < len + 4 → bucket_size len ≡ div_ceil (len + 4) 65536 * 65536
bucket_size_large len h =
    unfold bucket_size in rw (lt→leb (len + 4) 256 (omega arith), lt→leb (len + 4) 65536 h)

-- What the code tests, with the value that it then returns.
data Regime (len : ℕ) : Type 0 where
  small : len + 4 ≤ 256 → bucket_size len ≡ 256 → Regime len
  middle :
      (j : ℕ)
      → 256 < len + 4
      → len + 4 ≤ 2 ^ j
      → j ≤ 16
      → bucket_size len ≡ 2 ^ j
      → ((k : ℕ) → len + 4 ≤ 2 ^ k → j ≤ k)
      → Regime len
  large :
      (q : ℕ)
      → 65536 < len + 4
      → len + 4 ≤ q * 65536
      → q * 65536 < len + 4 + 65536
      → bucket_size len ≡ q * 65536
      → Regime len

Regime-middle : (len : ℕ) → 256 < len + 4 → len + 4 ≤ 65536 → Regime len
Regime-middle len h k =
    let (j, e, fits, least) = next_power_of_two_lem (len + 4) (omega arith) in
    middle j h fits (least 16 k) (bucket_size_middle len h k ∙ e) least

regime : (len : ℕ) → Regime len
regime len = elim (Bool-cases (ltb 256 (len + 4))) [
  | inr fits ↦ let h : len + 4 ≤ 256 = ground arith in small h (bucket_size_small len h)
  | inl above ↦ elim (Bool-cases (ltb 65536 (len + 4))) [
    | inr fits ↦ Regime-middle len (ltb→lt _ _ above) (ground arith)
    | inl past ↦
        let h = ltb→lt 65536 (len + 4) past in
        large (div_ceil (len + 4) 65536) h (round_up (len + 4)).0 (round_up (len + 4)).1
          (bucket_size_large len h)
  ]
]

-- The bucket leaves room for the four length bytes.
pub bucket_size_room : (len : ℕ) → len + 4 ≤ bucket_size len
bucket_size_room len = elim (regime len) [
  | small h e ↦ rw e h
  | middle j h fits hi e least ↦ rw e fits
  | large q h lo hi e ↦ rw e lo
]

-- The padding stays below a 32-bit length, whatever the length of the message.
pub bucket_size_excess : (len : ℕ) → bucket_size len ≤ len + 65540
bucket_size_excess len = elim (regime len) [
  | small h e ↦ rw e (omega arith)
  | middle j h fits hi e least ↦ let m : 2 ^ j ≤ 65536 = pow_mono j 16 hi in rw e (omega arith)
  | large q h lo hi e ↦ rw e (omega arith)
]

-- A bucket is a power of two from 256 to 65536, or a larger multiple of 65536.
pub bucket_size-IsBucket : (len : ℕ) → IsBucket (bucket_size len)
bucket_size-IsBucket len = elim (regime len) [
  | small h e ↦ inl (8, omega arith, omega arith, e)
  | middle j h fits hi e least ↦
      inl (j, (let m : 8 < j = pow-reflects_lt 8 j (omega arith) in omega arith), hi, e)
  | large q h lo hi e ↦ inr (q, omega arith, e)
]

bucket_size_least_power : (len k : ℕ) → 8 ≤ k → k ≤ 16 → len + 4 ≤ 2 ^ k → bucket_size len ≤ 2 ^ k
bucket_size_least_power len k lo hi room = elim (regime len) [
  | small h e ↦ rw e (pow_mono 8 k lo)
  | middle j h fits hi' e least ↦ rw e (pow_mono j k (least k room))
  | large q h lo' hi' e ↦ let m : 2 ^ k ≤ 65536 = pow_mono k 16 hi in absurd (omega arith)
]

bucket_size_least_multiple : (len q : ℕ) → 1 < q → len + 4 ≤ q * 65536 → bucket_size len ≤ q * 65536
bucket_size_least_multiple len q lo room = elim (regime len) [
  | small h e ↦ rw e (omega arith)
  | middle j h fits hi e least ↦ let m : 2 ^ j ≤ 65536 = pow_mono j 16 hi in rw e (omega arith)
  | large q' h lo' hi e ↦ rw e (omega arith)
]

-- No smaller bucket has room for the message and the four length bytes.
pub bucket_size_least : (len b : ℕ) → IsBucket b → len + 4 ≤ b → bucket_size len ≤ b
bucket_size_least len b (inl (k, lo, hi, e)) room =
    rw e (bucket_size_least_power len k lo hi (rw e at room))
bucket_size_least len b (inr (q, lo, e)) room =
    rw e (bucket_size_least_multiple len q lo (rw e at room))
