-- ===== src/Identity/Fingerprint.antt =====
-- crates/vaultex-crypto/src/identity.rs: what a fingerprint shows.
use mathlib.Core.Path.{subst}
use vaultex.Base.{
  ℕ, zero, suc, ◌+◌, ◌-◌, ◌*◌, ◌/◌, ◌%◌, ◌<◌, ◌≡◌, refl, sym, ap, ◌∙◌, arith, if◌then◌else◌, List,
  [], ◌∷◌, ◌++◌, map, AreBytes, Bytes, length, take, length-take, Option, some, none, leb, ◌&&◌,
  ◌==◌,
}
use vaultex.Identity.{
  IdentityKeyPair, hex_digit, upper_hex, chunks_of_two, join, middle_dot, public_key_fingerprint,
}

infixl 5 ◌>>=◌
abbrev ◌>>=◌ : {A B : Type 0} → Option A → (A → Option B) → Option B
none >>= f = none
some a >>= f = f a

-- The value of an upper-case hexadecimal digit, and of nothing else.
unfoldable pub hex_value : ℕ → Option ℕ
hex_value c =
    if leb 48 c && leb c 57
    then some (c - 48)
    else if leb 65 c && leb c 70
    then some (c - 55)
    else none

unfoldable pub read_byte : ℕ → ℕ → Option ℕ
unfolding hex_value
read_byte high low = do h ← hex_value high; l ← hex_value low; some (h * 16 + l)

-- Reads groups of four digits: behind each but the last stand the two bytes of U+00B7, behind the last
-- nothing.
unfoldable pub read_fingerprint : Bytes → Option Bytes
unfolding read_byte
read_fingerprint (a ∷ b ∷ c ∷ d ∷ []) = do x ← read_byte a b; y ← read_byte c d; some (x ∷ y ∷ [])
read_fingerprint (a ∷ b ∷ c ∷ d ∷ e ∷ f ∷ rest) = do
  x ← read_byte a b
  y ← read_byte c d
  more ← read_fingerprint rest
  if e == 0xc2 && f == 0xb7 then some (x ∷ y ∷ more) else none
read_fingerprint _ = none

hex_value-hex_digit : (d : ℕ) → d < 16 → hex_value (hex_digit d) ≡ some d
unfolding hex_value
hex_value-hex_digit d h = ground arith

read_byte_lem : (b : ℕ) → b < 256 → read_byte (hex_digit (b / 16)) (hex_digit (b % 16)) ≡ some b
unfolding read_byte
read_byte_lem b h =
    rw (hex_value-hex_digit (b / 16) (omega arith), hex_value-hex_digit (b % 16) (omega arith))
      (ap some (omega arith))

abbrev group_of : ℕ × ℕ → Bytes
group_of chunk = upper_hex chunk.0 ++ upper_hex chunk.1

abbrev joined : List (ℕ × ℕ) → Bytes
joined ps = join middle_dot (map group_of ps)

abbrev flat : List (ℕ × ℕ) → Bytes
flat [] = []
flat ((a, b) ∷ ps) = a ∷ b ∷ flat ps

read-joined :
    (p : ℕ × ℕ) (ps : List (ℕ × ℕ))
    → AreBytes (flat (p ∷ ps))
    → read_fingerprint (joined (p ∷ ps)) ≡ some (flat (p ∷ ps))
unfolding read_fingerprint join upper_hex
read-joined (a, b) [] (ha, (hb, _)) = rw (read_byte_lem a ha, read_byte_lem b hb) refl
read-joined (a, b) (q ∷ ps) (ha, (hb, more)) =
    rw (read_byte_lem a ha, read_byte_lem b hb, read-joined q ps more) refl

flat-chunks_of_two : (n : ℕ) (l : Bytes) → length l ≡ n + n → flat (chunks_of_two l) ≡ l
unfolding chunks_of_two
flat-chunks_of_two n [] h = refl
flat-chunks_of_two n (a ∷ []) h = absurd (omega arith)
flat-chunks_of_two n (a ∷ b ∷ l) h =
    ap (λ r. a ∷ b ∷ r) (flat-chunks_of_two (n - 1) l (omega arith))

length-joined : (p : ℕ × ℕ) (ps : List (ℕ × ℕ)) → length (joined (p ∷ ps)) ≡ 4 + 6 * length ps
unfolding join upper_hex
length-joined p [] = refl
length-joined p (q ∷ ps) = omega (arith, length-joined q ps)

AreBytes-take : (n : ℕ) (l : Bytes) → AreBytes l → AreBytes (take n l)
AreBytes-take zero l h = tt
AreBytes-take (suc n) [] h = tt
AreBytes-take (suc n) (x ∷ xs) (hx, h) = (hx, AreBytes-take n xs h)

length-flat : (ps : List (ℕ × ℕ)) → length (flat ps) ≡ 2 * length ps
length-flat [] = refl
length-flat ((a, b) ∷ ps) = omega (arith, length-flat ps)

-- Four pairs, shown in groups, and read back.
shown_lem :
    (ps : List (ℕ × ℕ))
    → length ps ≡ 4
    → AreBytes (flat ps)
    → (length (joined ps) ≡ 22) × (read_fingerprint (joined ps) ≡ some (flat ps))
shown_lem [] h bytes = absurd (omega arith)
shown_lem (p ∷ ps) h bytes = (omega (arith, length-joined p ps), read-joined p ps bytes)

-- A fingerprint has 22 bytes. Read strictly, as groups of four digits 0-9 and A-F, with the UTF-8 bytes
-- of U+00B7 between two groups and nothing behind the last, it gives the first eight bytes of the public
-- key.
pub read_fingerprint-public_key_fingerprint :
    (identity : IdentityKeyPair)
    → length identity.public_key ≡ 32
    → AreBytes identity.public_key
    → (length (public_key_fingerprint identity) ≡ 22)
      × (read_fingerprint (public_key_fingerprint identity) ≡ some (take 8 identity.public_key))
unfolding public_key_fingerprint
read_fingerprint-public_key_fingerprint identity sized bytes =
    let shown = take 8 identity.public_key in
    let pairs = chunks_of_two shown in
    let eight : length shown ≡ 4 + 4 = omega (arith, length-take 8 identity.public_key) in
    let whole : flat pairs ≡ shown = flat-chunks_of_two 4 shown eight in
    let (size, reads) =
      shown_lem pairs (omega (arith, length-flat pairs, ap length whole))
        (subst AreBytes (sym whole) (AreBytes-take 8 identity.public_key bytes)) in
    (size, reads ∙ ap some whole)
