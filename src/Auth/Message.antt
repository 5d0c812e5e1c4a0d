-- ===== src/Auth/Message.antt =====
-- What the signed message of crates/vaultex-crypto/src/auth.rs fixes.
use vaultex.Base.{
  ℕ, ◌^◌, ◌<◌, ◌≡◌, ◌≢◌, refl, sym, ap, ap₂, ◌∙◌, arith, true, [], ◌∷◌, ◌++◌, some-eq, Bytes,
  AreBytes, All,
}
use vaultex.Base.Decimal.{decimal, is_digit, decimal-AreDigits, decimal-injective}
use vaultex.Crates.Encoding.{Hex, HexLaws, AreHex}
use vaultex.Auth.{build_signed_message, colon}

abbrev pub NoColon : Bytes → Type 0
NoColon = All (λ c. c ≢ colon)

cons-eq : (x y : ℕ) (xs ys : Bytes) → ◌≡◌ {A = Bytes} (x ∷ xs) (y ∷ ys) → (x ≡ y) × (xs ≡ ys)
cons-eq x y xs ys e = (cc, cc)

holds_colon : (xs ys zs : Bytes) → NoColon zs → zs ≢ xs ++ colon ∷ ys
holds_colon [] ys [] h e = cc
holds_colon [] ys (z ∷ zs) (h, hs) e = h (cons-eq z colon zs ys e).0
holds_colon (x ∷ xs) ys [] h e = cc
holds_colon (x ∷ xs) ys (z ∷ zs) (h, hs) e =
    holds_colon xs ys zs hs (cons-eq z x zs (xs ++ colon ∷ ys) e).1

-- A text is cut in one way before its last colon.
split_last :
    (xs us ys vs : Bytes)
    → NoColon ys
    → NoColon vs
    → xs ++ colon ∷ ys ≡ us ++ colon ∷ vs
    → (xs ≡ us) × (ys ≡ vs)
split_last [] [] ys vs hy hv e = (refl, (cons-eq colon colon ys vs e).1)
split_last [] (u ∷ us) ys vs hy hv e =
    absurd (holds_colon us vs ys hy (cons-eq colon u ys (us ++ colon ∷ vs) e).1)
split_last (x ∷ xs) [] ys vs hy hv e =
    absurd (holds_colon xs ys vs hv (sym (cons-eq x colon (xs ++ colon ∷ ys) vs e).1))
split_last (x ∷ xs) (u ∷ us) ys vs hy hv e =
    let (head, rest) = cons-eq x u (xs ++ colon ∷ ys) (us ++ colon ∷ vs) e in
    let (front, back) = split_last xs us ys vs hy hv rest in (ap₂ (λ h t. h ∷ t) head front, back)

-- And in one way before its first colon.
split_first :
    (xs us ys vs : Bytes)
    → NoColon xs
    → NoColon us
    → xs ++ colon ∷ ys ≡ us ++ colon ∷ vs
    → (xs ≡ us) × (ys ≡ vs)
split_first [] [] ys vs hx hu e = (refl, (cons-eq colon colon ys vs e).1)
split_first [] (u ∷ us) ys vs hx (h, hs) e =
    absurd (h (sym (cons-eq colon u ys (us ++ colon ∷ vs) e).0))
split_first (x ∷ xs) [] ys vs (h, hs) hu e = absurd (h (cons-eq x colon (xs ++ colon ∷ ys) vs e).0)
split_first (x ∷ xs) (u ∷ us) ys vs (_, hx) (_, hu) e =
    let (head, rest) = cons-eq x u (xs ++ colon ∷ ys) (us ++ colon ∷ vs) e in
    let (front, back) = split_first xs us ys vs hx hu rest in (ap₂ (λ h t. h ∷ t) head front, back)

digits-NoColon : (s : Bytes) → All (λ c. is_digit c ≡ true) s → NoColon s
digits-NoColon [] h = tt
digits-NoColon (c ∷ s) (h, hs) = (λ e. absurd (ground arith), digits-NoColon s hs)

hex-NoColon : (s : Bytes) → AreHex s → NoColon s
hex-NoColon [] h = tt
hex-NoColon (c ∷ s) (h, hs) = (λ e. absurd (ground arith), hex-NoColon s hs)

module _ (sha256 : Bytes → Bytes) (hex : Hex) (laws : HexLaws hex) where
  encode-injective : (a b : Bytes) → AreBytes a → AreBytes b → hex.encode a ≡ hex.encode b → a ≡ b
  encode-injective a b ha hb e =
      some-eq (sym (laws.decode-encode a ha) ∙ ap hex.decode e ∙ laws.decode-encode b hb)

  digest-NoColon :
      ((m : Bytes) → AreBytes (sha256 m)) → (m : Bytes) → NoColon (hex.encode (sha256 m))
  digest-NoColon bytes m =
      hex-NoColon (hex.encode (sha256 m)) (laws.encode-AreHex (sha256 m) (bytes m))

  decimal-NoColon : (n : ℕ) → NoColon (decimal n)
  decimal-NoColon n = digits-NoColon (decimal n) (decimal-AreDigits n)

  -- Where the method has no colon, the signed text fixes the method, the path, the time stamp and the
  -- hash of the body: a signature covers no second request, but for a collision of SHA-256.
  pub build_signed_message-injective :
      (method method' path path' : Bytes) (timestamp timestamp' : ℕ) (body body' : Bytes)
      → ((m : Bytes) → AreBytes (sha256 m))
      → NoColon method
      → NoColon method'
      → timestamp < 2 ^ 64
      → timestamp' < 2 ^ 64
      → build_signed_message sha256 hex method path timestamp body
        ≡ build_signed_message sha256 hex method' path' timestamp' body'
      → (method ≡ method')
        × (path ≡ path')
        × (timestamp ≡ timestamp')
        × (sha256 body ≡ sha256 body')
  unfolding build_signed_message
  build_signed_message-injective method method' path path' timestamp timestamp' body body' bytes hm
        hm' ht ht' e =
      let digest = λ (m : Bytes). hex.encode (sha256 m) in
      let (front, same_digest) =
        split_last (method ++ colon ∷ path ++ colon ∷ decimal timestamp)
          (method' ++ colon ∷ path' ++ colon ∷ decimal timestamp') (digest body) (digest body')
          (digest-NoColon bytes body) (digest-NoColon bytes body') e in
      let (target, same_decimal) =
        split_last (method ++ colon ∷ path) (method' ++ colon ∷ path') (decimal timestamp)
          (decimal timestamp') (decimal-NoColon timestamp) (decimal-NoColon timestamp') front in
      let (same_method, same_path) = split_first method method' path path' hm hm' target in
      (
        same_method,
        same_path,
        decimal-injective timestamp timestamp' ht ht' same_decimal,
        encode-injective (sha256 body) (sha256 body') (bytes body) (bytes body') same_digest,
      )
