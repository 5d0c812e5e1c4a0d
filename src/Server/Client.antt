-- ===== src/Server/Client.antt =====
-- The two ends together: what crates/vaultex-crypto/src/auth.rs signs,
-- extracted/server-middleware/auth.rs admits.
use vaultex.Base.{
  ℕ, ◌+◌, ◌^◌, ◌≤◌, ◌<◌, ◌≡◌, refl, ap, ◌∙◌, arith, true, false, ltb, some, [], ◌∷◌, Bytes,
  AreBytes, All, text, length,
}
use vaultex.Base.Decimal.{decimal, parse_u64-decimal, is_digit, decimal-AreDigits}
use vaultex.Errors.{ok}
use vaultex.Crates.Sodium.{Sodium, CurveLaws, SignLaws}
use vaultex.Crates.Encoding.{Hex, HexLaws, AreHex, is_ascii_hexdigit}
use vaultex.Identity.{IdentityKeyPair, sign}
use vaultex.Identity.Laws.{IsIdentity, length-public_key}
use vaultex.Auth.{AuthHeader, build_signed_message, sign_request_with_timestamp}
use vaultex.Server.{
  Uuid, Request, Account, Environment, is_unauthenticated_route, to_uppercase, is_whitespace,
  trim_start, trim_end, trim, abs_diff, body_limit, set_user, header, authenticate, auth_middleware,
}

-- Printable ASCII.
abbrev pub AreVisible : Bytes → Type 0
AreVisible = All (λ c. (32 ≤ c) × (c < 127))

-- What the crates of the server document.
pub record EnvironmentLaws (env : Environment) (na : Sodium) : Type 0 where
  pub to_str_visible : (s : Bytes) → AreVisible s → env.to_str s ≡ some s
  pub to_bytes_within : (b : Bytes) (limit : ℕ) → length b ≤ limit → env.to_bytes b limit ≡ some b
  pub verifies :
      (key message signature : Bytes)
      → length key ≡ 32
      → na.verify_detached signature message key ≡ true
      → env.verify_signature key message signature ≡ true

-- The three headers are those that were signed.
abbrev pub Carried : Request → AuthHeader → Type 0
Carried request signed =
    (request.headers (text "X-Account-Id") ≡ some signed.account_id)
    × (request.headers (text "X-Timestamp") ≡ some (decimal signed.timestamp))
    × (request.headers (text "X-Signature") ≡ some signed.signature_hex)

digits-AreVisible : (s : Bytes) → All (λ c. is_digit c ≡ true) s → AreVisible s
digits-AreVisible [] h = tt
digits-AreVisible (c ∷ s) (h, hs) = ((ground arith, ground arith), digits-AreVisible s hs)

hex-AreVisible : (s : Bytes) → AreHex s → AreVisible s
hex-AreVisible [] h = tt
hex-AreVisible (c ∷ s) (h, hs) = ((ground arith, ground arith), hex-AreVisible s hs)

hex-not_white : (c : ℕ) → is_ascii_hexdigit c ≡ true → is_whitespace c ≡ false
hex-not_white c h = ground arith

trim_start-hex : (s : Bytes) → AreHex s → trim_start s ≡ s
unfolding trim_start
trim_start-hex [] h = refl
trim_start-hex (c ∷ s) (h, hs) = rw (hex-not_white c h)

trim_end-hex : (s : Bytes) → AreHex s → trim_end s ≡ s
unfolding trim_end
trim_end-hex [] h = refl
trim_end-hex (c ∷ s) (h, hs) = rw (hex-not_white c h) (ap (λ t. c ∷ t) (trim_end-hex s hs))

trim-hex : (s : Bytes) → AreHex s → trim s ≡ s
unfolding trim
trim-hex s h = ap trim_end (trim_start-hex s h) ∙ trim_end-hex s h

fresh : (a b : ℕ) → a ≤ b + 300 → b ≤ a + 300 → ltb 300 (abs_diff a b) ≡ false
unfolding abs_diff
fresh a b h k = ground arith

module _ (na : Sodium) (curve : CurveLaws na) (signs : SignLaws na curve) (sha256 : Bytes → Bytes)
    (hex : Hex) (hexes : HexLaws hex) (env : Environment) (laws : EnvironmentLaws env na) where
  read_header :
      (request : Request) (name s : Bytes)
      → request.headers name ≡ some s
      → AreVisible s
      → header env request.headers name ≡ ok s
  unfolding header
  read_header request name s found visible = ground (arith, found, laws.to_str_visible s visible)

  authenticate_signed :
      (identity : IdentityKeyPair) (request : Request) (account_id : Bytes) (id : Uuid)
      (timestamp now : ℕ) (account : Account) (method path : Bytes)
      → IsIdentity na curve signs identity
      → AreBytes identity.public_key
      → AreBytes
          (sign na identity (build_signed_message sha256 hex method path timestamp request.body))
      → Carried request (
          sign_request_with_timestamp sha256 hex na identity account_id method path request.body
            timestamp)
      → AreVisible account_id
      → env.parse_uuid account_id ≡ some id
      → timestamp < 2 ^ 64
      → now ≤ timestamp + 300
      → timestamp ≤ now + 300
      → env.get_account_by_id id ≡ ok (some account)
      → account.identity_key_hex ≡ hex.encode identity.public_key
      → length request.body ≤ body_limit path
      → authenticate env sha256 hex now method path request
        ≡ ok (
            set_user request request.body
              (record { account_id = id; identity_key_hex = hex.encode identity.public_key }))
  unfolding authenticate sign_request_with_timestamp build_signed_message sign
  authenticate_signed identity request account_id id timestamp now account method path is_identity
        key_bytes sig_bytes (sent_id, sent_time, sent_signature) visible parsed small late early
        known registered within =
      let message = build_signed_message sha256 hex method path timestamp request.body in
      let signature = na.sign_detached message identity.secret_key in
      let pk = identity.public_key in
      let key_hex = hexes.encode-AreHex pk key_bytes in
      let r1 = read_header request (text "X-Account-Id") account_id sent_id visible in
      let r2 =
        read_header request (text "X-Timestamp") (decimal timestamp) sent_time
          (digits-AreVisible (decimal timestamp) (decimal-AreDigits timestamp)) in
      let r3 =
        read_header request (text "X-Signature") (hex.encode signature) sent_signature
          (hex-AreVisible (hex.encode signature) (hexes.encode-AreHex signature sig_bytes)) in
      let trimmed : trim account.identity_key_hex ≡ hex.encode pk =
        ap trim registered ∙ trim-hex (hex.encode pk) key_hex in
      let genuine : na.verify_detached signature message pk ≡ true =
        rw is_identity.public_eq
          (signs.verify-sign message identity.secret_key is_identity.length_secret) in
      let verified =
        laws.verifies pk message signature (length-public_key na curve signs identity is_identity)
          genuine in
      ground (
        arith,
        r1,
        parsed,
        r2,
        parse_u64-decimal timestamp small,
        r3,
        hexes.decode-encode signature sig_bytes,
        fresh now timestamp late early,
        known,
        trimmed,
        hexes.decode-encode pk key_bytes,
        laws.to_bytes_within request.body (body_limit path) within,
        verified,
      )

  -- On a route that is not public, a request that carries the headers which the client signed for its
  -- method, path and body reaches the handler, with the body and the account that signed. The account
  -- is registered with the signer's key, its identifier is of visible characters and reads as a UUID,
  -- the method is in upper case, the body is within the limit of the path, the time stamp is a u64,
  -- and the server's clock is at most 300 seconds off, either way.
  pub auth_middleware-sign_request :
      {Response : Type 0} (next : Request → Response) (identity : IdentityKeyPair)
      (request : Request) (account_id : Bytes) (id : Uuid) (timestamp now : ℕ) (account : Account)
      → IsIdentity na curve signs identity
      → AreBytes identity.public_key
      → AreBytes (
          sign na identity
            (build_signed_message sha256 hex request.method request.path timestamp request.body))
      → Carried request (
          sign_request_with_timestamp sha256 hex na identity account_id request.method request.path
            request.body timestamp)
      → to_uppercase request.method ≡ request.method
      → is_unauthenticated_route request.method request.path ≡ false
      → AreVisible account_id
      → env.parse_uuid account_id ≡ some id
      → timestamp < 2 ^ 64
      → now ≤ timestamp + 300
      → timestamp ≤ now + 300
      → env.get_account_by_id id ≡ ok (some account)
      → account.identity_key_hex ≡ hex.encode identity.public_key
      → length request.body ≤ body_limit request.path
      → auth_middleware env sha256 hex now next request
        ≡ ok (
            next (
              set_user request request.body
                (record { account_id = id; identity_key_hex = hex.encode identity.public_key })))
  unfolding auth_middleware
  auth_middleware-sign_request next identity request account_id id timestamp now account is_identity
        key_bytes sig_bytes carried upper private visible parsed small late early known registered
        within =
      rw (
        upper,
        private,
        authenticate_signed identity request account_id id timestamp now account request.method
            request.path is_identity key_bytes sig_bytes carried visible parsed small late early
            known registered within,
      )
