-- ===== src/Crates/ToyHex.antt =====
-- The crate hex, written out for concrete values.
use vaultex.Base.{
  ℕ, ◌+◌, ◌-◌, ◌*◌, ◌/◌, ◌%◌, ◌<◌, ◌≡◌, refl, arith, Option, none, some, [], ◌∷◌, Bytes, AreBytes,
  length, ltb, if◌then◌else◌, ◌&&◌, true,
}
use vaultex.Crates.Encoding.{Hex, HexLaws, AreHex, is_ascii_hexdigit}

abbrev digit : ℕ → ℕ
digit d = if ltb d 10 then 48 + d else 87 + d

-- Lower and upper case.
abbrev value : ℕ → ℕ
value c = if ltb c 65 then c - 48 else if ltb c 97 then c - 55 else c - 87

abbrev pub encode : Bytes → Bytes
encode [] = []
encode (b ∷ bs) = digit (b / 16) ∷ digit (b % 16) ∷ encode bs

abbrev push_byte : ℕ → Option Bytes → Option Bytes
push_byte b none = none
push_byte b (some bs) = some (b ∷ bs)

abbrev pub decode : Bytes → Option Bytes
decode [] = some []
decode (a ∷ []) = none
decode (a ∷ b ∷ rest) =
    let more = decode rest in
    if is_ascii_hexdigit a && is_ascii_hexdigit b
    then push_byte (value a * 16 + value b) more
    else none

digit_lem : (d : ℕ) → d < 16 → (is_ascii_hexdigit (digit d) ≡ true) × (value (digit d) ≡ d)
digit_lem d h = ground arith

pub decode-encode : (b : Bytes) → AreBytes b → decode (encode b) ≡ some b
decode-encode [] h = refl
decode-encode (b ∷ bs) (small, rest) =
    let (hex1, value1) = digit_lem (b / 16) (omega arith) in
    let (hex2, value2) = digit_lem (b % 16) (omega arith) in
    let whole : b / 16 * 16 + b % 16 ≡ b = omega arith in
    rw (hex1, hex2, decode-encode bs rest, value1, value2, whole) refl

pub length-encode : (b : Bytes) → length (encode b) ≡ 2 * length b
length-encode [] = refl
length-encode (b ∷ bs) = omega (arith, length-encode bs)

pub encode-AreHex : (b : Bytes) → AreBytes b → AreHex (encode b)
encode-AreHex [] h = tt
encode-AreHex (b ∷ bs) (small, rest) = (
  (digit_lem (b / 16) (omega arith)).0,
  ((digit_lem (b % 16) (omega arith)).0, encode-AreHex bs rest),
)

abbrev pub toy_hex : Hex
toy_hex = record { encode = encode; decode = decode }

abbrev pub toy_hex-HexLaws : HexLaws toy_hex
toy_hex-HexLaws = record {
  decode-encode = decode-encode;
  length-encode = length-encode;
  encode-AreHex = encode-AreHex;
}
