-- ===== src/Crates/Encoding.antt =====
-- The crates hex, sha2, serde_json and uuid.
use vaultex.Base.{
  ℕ, ◌*◌, ◌≡◌, Bool, true, ◌&&◌, ◌||◌, leb, Option, some, Bytes, All, length, AreBytes,
}
use vaultex.Errors.{Either, ok}

-- `u8::is_ascii_hexdigit`.
abbrev pub is_ascii_hexdigit : ℕ → Bool
is_ascii_hexdigit c = (leb 48 c && leb c 57) || (leb 65 c && leb c 70) || (leb 97 c && leb c 102)

abbrev pub AreHex : Bytes → Type 0
AreHex = All (λ c. is_ascii_hexdigit c ≡ true)

pub record Hex : Type 0 where
  pub encode : Bytes → Bytes
  -- `none` where the text is no even number of hexadecimal digits
  pub decode : Bytes → Option Bytes

pub record HexLaws (hex : Hex) : Type 0 where
  pub decode-encode : (b : Bytes) → AreBytes b → hex.decode (hex.encode b) ≡ some b
  pub length-encode : (b : Bytes) → length (hex.encode b) ≡ 2 * length b
  pub encode-AreHex : (b : Bytes) → AreBytes b → AreHex (hex.encode b)

-- `serde_json::to_vec` and `from_slice` at one type; an error is its `to_string()`.
pub record Json (A : Type 0) : Type 0 where
  pub to_vec : A → Either Bytes Bytes
  pub from_slice : Bytes → Either Bytes A

-- A derived serializer writes what the derived deserializer reads.
pub record JsonLaws (A : Type 0) (json : Json A) : Type 0 where
  pub from_slice-to_vec :
      (a : A) → (b : Bytes) × (json.to_vec a ≡ ok b) × (json.from_slice b ≡ ok a)
