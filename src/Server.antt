-- ===== src/Server.antt =====
-- extracted/server-middleware/auth.rs: the middleware that admits signed requests. The header map, the
-- database, the uuid crate, the reading of a body and `crate::crypto::verify` are parameters; the clock
-- is an argument, and a response is whatever the next handler gives.
pub mod Admission
pub mod Window
pub mod Client
mod Tests
use vaultex.Base.{
  ℕ, ◌+◌, ◌-◌, ◌*◌, Bool, true, false, not, ◌&&◌, ◌||◌, ltb, leb, ◌==◌, if◌then◌else◌, Option, none,
  some, [], ◌∷◌, ◌++◌, map, Bytes, text, bytes_eq,
}
use vaultex.Base.Decimal.{decimal, parse_u64}
use vaultex.Errors.{Either, ok, err, ◌>>=◌, ◌>>◌, ok_or, map_err, reject_if}
use vaultex.Crates.Encoding.{Hex}

pub data StatusCode : Type 0 where
  unauthorized : StatusCode
  bad_request : StatusCode
  internal_server_error : StatusCode

-- A `Uuid` is its sixteen bytes.
abbrev pub Uuid : Type 0
Uuid = Bytes

pub record AuthenticatedUser : Type 0 where
  pub account_id : Uuid
  pub identity_key_hex : Bytes

-- `headers` is `HeaderMap::get`.
pub record Request : Type 0 where
  pub method : Bytes
  pub path : Bytes
  pub headers : Bytes → Option Bytes
  pub body : Bytes
  pub user : Option AuthenticatedUser

-- The field of an account that the middleware reads.
pub record Account : Type 0 where
  pub identity_key_hex : Bytes

pub record Environment : Type 0 where
  -- `HeaderValue::to_str`
  pub to_str : Bytes → Option Bytes
  -- `Uuid::parse_str`
  pub parse_uuid : Bytes → Option Uuid
  -- `state.db.get_account_by_id`
  pub get_account_by_id : Uuid → Either Bytes (Option Account)
  -- `axum::body::to_bytes`: the body, if it is within the limit
  pub to_bytes : Bytes → ℕ → Option Bytes
  -- `verify_signature(key, message, signature).is_ok()`
  pub verify_signature : Bytes → Bytes → Bytes → Bool

abbrev pub max_timestamp_drift_secs : ℕ
max_timestamp_drift_secs = 300

-- `str::starts_with`.
unfoldable pub starts_with : Bytes → Bytes → Bool
starts_with s [] = true
starts_with [] (c ∷ cs) = false
starts_with (x ∷ xs) (c ∷ cs) = x == c && starts_with xs cs

-- `str::contains`.
unfoldable pub contains : Bytes → Bytes → Bool
unfolding starts_with
contains [] needle = starts_with [] needle
contains (x ∷ xs) needle = starts_with (x ∷ xs) needle || contains xs needle

unfoldable pub is_unauthenticated_route : Bytes → Bytes → Bool
is_unauthenticated_route method path =
    if bytes_eq method (text "POST") && bytes_eq path (text "/api/v1/accounts/register")
    then true
    else if bytes_eq method (text "GET") && bytes_eq path (text "/api/v1/health")
    then true
    else if bytes_eq method (text "GET") && bytes_eq path (text "/api/v1/ping")
    then true
    else if bytes_eq path (text "/ws")
    then true
    else if bytes_eq method (text "GET") && starts_with path (text "/api/v1/accounts/by-key/")
    then true
    else if bytes_eq method (text "GET") && contains path (text "/prekey_bundle")
    then true
    else if bytes_eq method (text "POST") && bytes_eq path (text "/api/v1/messages/send")
    then true
    else if bytes_eq method (text "POST") && bytes_eq path (text "/api/v1/messages/sealed")
    then true
    else if bytes_eq path (text "/api/v1/stats/visits")
        && (bytes_eq method (text "GET") || bytes_eq method (text "POST"))
    then true
    else false

-- `to_uppercase` of a method, which is ASCII.
abbrev pub upper : ℕ → ℕ
upper c = if leb 97 c && leb c 122 then c - 32 else c

abbrev pub to_uppercase : Bytes → Bytes
to_uppercase = map upper

-- `str::trim`, of ASCII text.
abbrev pub is_whitespace : ℕ → Bool
is_whitespace c = (leb 9 c && leb c 13) || c == 32

abbrev pub is_empty : Bytes → Bool
is_empty [] = true
is_empty (c ∷ cs) = false

unfoldable pub trim_start : Bytes → Bytes
trim_start [] = []
trim_start (c ∷ cs) = let rest = trim_start cs in if is_whitespace c then rest else c ∷ cs

unfoldable pub trim_end : Bytes → Bytes
trim_end [] = []
trim_end (c ∷ cs) =
    let rest = trim_end cs in if is_whitespace c && is_empty rest then [] else c ∷ rest

unfoldable pub trim : Bytes → Bytes
unfolding trim_start trim_end
trim s = trim_end (trim_start s)

-- `u64::abs_diff`.
unfoldable pub abs_diff : ℕ → ℕ → ℕ
abs_diff a b = if ltb a b then b - a else a - b

unfoldable pub body_limit : Bytes → ℕ
unfolding starts_with
body_limit path =
    if starts_with path (text "/api/v1/media/") then 100 * 1024 * 1024 else 1024 * 1024

abbrev pub set_user : Request → Bytes → AuthenticatedUser → Request
set_user request body user = record {
  method = request.method;
  path = request.path;
  headers = request.headers;
  body = body;
  user = some user;
}

module _ (env : Environment) where
  -- A required header as text.
  unfoldable pub header : (Bytes → Option Bytes) → Bytes → Either StatusCode Bytes
  header headers name = do
    value ← ok_or (headers name) unauthorized
    ok_or (env.to_str value) bad_request

  unfoldable pub extract_account_id : (Bytes → Option Bytes) → Either StatusCode Uuid
  unfolding header
  extract_account_id headers = do
    header_value ← header headers (text "X-Account-Id")
    ok_or (env.parse_uuid header_value) bad_request

module _ (env : Environment) (sha256 : Bytes → Bytes) (hex : Hex) (now : ℕ) where
  -- The part behind the public routes: the request, with its user, for the next handler.
  unfoldable pub authenticate : Bytes → Bytes → Request → Either StatusCode Request
  unfolding header abs_diff trim body_limit
  authenticate method path request = do
    account_id_str ← header env request.headers (text "X-Account-Id")
    account_id ← ok_or (env.parse_uuid account_id_str) bad_request
    timestamp_str ← header env request.headers (text "X-Timestamp")
    timestamp ← ok_or (parse_u64 timestamp_str) bad_request
    signature_hex ← header env request.headers (text "X-Signature")
    signature_bytes ← ok_or (hex.decode signature_hex) bad_request
    reject_if (ltb max_timestamp_drift_secs (abs_diff now timestamp)) unauthorized
    found ← map_err (env.get_account_by_id account_id) (λ _. internal_server_error)
    account ← ok_or found unauthorized
    identity_key_bytes ← ok_or (hex.decode (trim account.identity_key_hex)) internal_server_error
    body_bytes ← ok_or (env.to_bytes request.body (body_limit path)) bad_request
    let body_hash = hex.encode (sha256 body_bytes)
    let signed_message = method ++ 58 ∷ path ++ 58 ∷ decimal timestamp ++ 58 ∷ body_hash
    reject_if (not (env.verify_signature identity_key_bytes signed_message signature_bytes))
        unauthorized
    let user : AuthenticatedUser = record {
      account_id = account_id;
      identity_key_hex = trim account.identity_key_hex;
    }
    ok (set_user request body_bytes user)

  unfoldable pub auth_middleware :
      {Response : Type 0} → (Request → Response) → Request → Either StatusCode Response
  unfolding is_unauthenticated_route authenticate
  auth_middleware next request =
      let method = to_uppercase request.method in
      let path = request.path in
      let admitted = authenticate method path request in
      if is_unauthenticated_route method path
      then ok (next request)
      else do request ← admitted; ok (next request)
