-- ===== src/Server/Admission.antt =====
-- What extracted/server-middleware/auth.rs demands before a request reaches its handler.
use vaultex.Base.{
  ℕ, ◌+◌, ◌≤◌, ◌≡◌, refl, sym, ap, ◌∙◌, arith, Bool, true, false, not, ltb, some, Bytes, text,
  bytes_eq, bytes_eq→eq,
}
use vaultex.Base.Decimal.{parse_u64}
use vaultex.Errors.{
  ok, ok_or, map_err, reject_if, >>=-eq-ok, ok-eq, map_err-eq-ok, ok_or-eq-ok, reject_if-eq-ok,
}
use vaultex.Crates.Encoding.{Hex}
use vaultex.Auth.{build_signed_message}
use vaultex.Server.{
  unauthorized, bad_request, internal_server_error, Uuid, Request, Account, Environment,
  is_unauthenticated_route, to_uppercase, trim, abs_diff, body_limit, set_user, header,
  authenticate, auth_middleware,
}

abs_diff_small : (a b n : ℕ) → ltb n (abs_diff a b) ≡ false → (a ≤ b + n) × (b ≤ a + n)
unfolding abs_diff
abs_diff_small a b n h = ground arith

module _ (env : Environment) (sha256 : Bytes → Bytes) (hex : Hex) (now : ℕ) where
  -- A header that is present and is text.
  abbrev pub Carries : Request → Bytes → Bytes → Type 0
  Carries request name s =
      (value : Bytes) × (request.headers name ≡ some value) × (env.to_str value ≡ some s)

  -- An account that exists signed this method, path, time and body, at most 300 seconds apart from the
  -- server's clock; the handler is told whose account it is.
  pub record Admitted (request admitted : Request) : Type 0 where
    pub id_str : Bytes
    pub timestamp_str : Bytes
    pub signature_hex : Bytes
    pub account_id : Uuid
    pub timestamp : ℕ
    pub signature : Bytes
    pub account : Account
    pub key : Bytes
    pub body : Bytes
    pub id_sent : Carries request (text "X-Account-Id") id_str
    pub timestamp_sent : Carries request (text "X-Timestamp") timestamp_str
    pub signature_sent : Carries request (text "X-Signature") signature_hex
    pub id_read : env.parse_uuid id_str ≡ some account_id
    pub timestamp_read : parse_u64 timestamp_str ≡ some timestamp
    pub signature_read : hex.decode signature_hex ≡ some signature
    pub not_late : now ≤ timestamp + 300
    pub not_early : timestamp ≤ now + 300
    pub known : env.get_account_by_id account_id ≡ ok (some account)
    pub key_read : hex.decode (trim account.identity_key_hex) ≡ some key
    pub body_read : env.to_bytes request.body (body_limit request.path) ≡ some body
    pub verified :
        env.verify_signature key
          (build_signed_message sha256 hex
            (to_uppercase request.method)
            request.path
            timestamp
            body)
          signature
        ≡ true
    pub passed_on :
        admitted
        ≡ set_user request body
            (record { account_id = account_id; identity_key_hex = trim account.identity_key_hex })

  pub header_inversion :
      (request : Request) (name s : Bytes)
      → header env request.headers name ≡ ok s
      → Carries request name s
  unfolding header
  header_inversion request name s h =
      let (value, found, rest) = >>=-eq-ok (ok_or (request.headers name) unauthorized) _ h in
      (
        value,
        ok_or-eq-ok (request.headers name) unauthorized found,
        ok_or-eq-ok (env.to_str value) bad_request rest,
      )

  authenticate_sound :
      (request admitted : Request)
      → authenticate env sha256 hex now (to_uppercase request.method) request.path request
        ≡ ok admitted
      → Admitted request admitted
  unfolding authenticate build_signed_message
  authenticate_sound request admitted h =
      let (id_str, e1, h1) = >>=-eq-ok (header env request.headers (text "X-Account-Id")) _ h in
      let (account_id, e2, h2) = >>=-eq-ok (ok_or (env.parse_uuid id_str) bad_request) _ h1 in
      let (timestamp_str, e3, h3) =
        >>=-eq-ok (header env request.headers (text "X-Timestamp")) _ h2 in
      let (timestamp, e4, h4) = >>=-eq-ok (ok_or (parse_u64 timestamp_str) bad_request) _ h3 in
      let (signature_hex, e5, h5) =
        >>=-eq-ok (header env request.headers (text "X-Signature")) _ h4 in
      let (signature, e6, h6) = >>=-eq-ok (ok_or (hex.decode signature_hex) bad_request) _ h5 in
      let (u, e7, h7) =
        >>=-eq-ok (reject_if (ltb 300 (abs_diff now timestamp)) unauthorized) _ h6 in
      let (found, e8, h8) =
        >>=-eq-ok (map_err (env.get_account_by_id account_id) (λ _. internal_server_error)) _ h7 in
      let (account, e9, h9) = >>=-eq-ok (ok_or found unauthorized) _ h8 in
      let (key, e10, h10) =
        >>=-eq-ok (ok_or (hex.decode (trim account.identity_key_hex)) internal_server_error) _ h9 in
      let (body, e11, h11) =
        >>=-eq-ok (ok_or (env.to_bytes request.body (body_limit request.path)) bad_request) _ h10 in
      let message =
        build_signed_message sha256 hex (to_uppercase request.method) request.path timestamp body in
      let (v, e12, h12) =
        >>=-eq-ok (reject_if (not (env.verify_signature key message signature)) unauthorized) _
          h11 in
      let found_account : found ≡ some account = ok_or-eq-ok found unauthorized e9 in
      let (late, early) =
        abs_diff_small now timestamp 300
          (reject_if-eq-ok (ltb 300 (abs_diff now timestamp)) unauthorized e7) in
      record {
        id_str = id_str;
        timestamp_str = timestamp_str;
        signature_hex = signature_hex;
        account_id = account_id;
        timestamp = timestamp;
        signature = signature;
        account = account;
        key = key;
        body = body;
        id_sent = header_inversion request (text "X-Account-Id") id_str e1;
        timestamp_sent = header_inversion request (text "X-Timestamp") timestamp_str e3;
        signature_sent = header_inversion request (text "X-Signature") signature_hex e5;
        id_read = ok_or-eq-ok (env.parse_uuid id_str) bad_request e2;
        timestamp_read = ok_or-eq-ok (parse_u64 timestamp_str) bad_request e4;
        signature_read = ok_or-eq-ok (hex.decode signature_hex) bad_request e6;
        not_late = late;
        not_early = early;
        known =
            map_err-eq-ok (env.get_account_by_id account_id) (λ _. internal_server_error) e8
            ∙ ap ok found_account;
        key_read =
            ok_or-eq-ok (hex.decode (trim account.identity_key_hex)) internal_server_error e10;
        body_read =
            ok_or-eq-ok (env.to_bytes request.body (body_limit request.path)) bad_request e11;
        verified =
            not-false _
              (reject_if-eq-ok (not (env.verify_signature key message signature)) unauthorized e12);
        passed_on = sym (ok-eq h12);
      }
    where
      not-false : (b : Bool) → not b ≡ false → b ≡ true
      not-false true h = refl
      not-false false h = cc

  -- On a route that is not public, a request is answered by its handler only if it carries an account, a
  -- time stamp and a signature; the time is within 300 seconds of the clock, either way; the account
  -- exists; and the signature verifies under its key for the method, path, time and body of this request.
  -- The handler gets the body that was hashed, and that account.
  pub auth_middleware_sound :
      {Response : Type 0} (next : Request → Response) (request : Request) (response : Response)
      → is_unauthenticated_route (to_uppercase request.method) request.path ≡ false
      → auth_middleware env sha256 hex now next request ≡ ok response
      → (admitted : Request) × Admitted request admitted × (response ≡ next admitted)
  unfolding auth_middleware
  auth_middleware_sound next request response private h =
      let (admitted, e, rest) =
        >>=-eq-ok
          (authenticate env sha256 hex now (to_uppercase request.method) request.path request)
          (λ r. ok (next r)) (rw private at h) in
      (admitted, authenticate_sound request admitted e, sym (ok-eq rest))

-- The only path that is public for a method other than GET and POST is the socket's.
pub is_unauthenticated_route_methods :
    (method path : Bytes)
    → is_unauthenticated_route method path ≡ true
    → bytes_eq method (text "GET") ≡ false
    → bytes_eq method (text "POST") ≡ false
    → path ≡ text "/ws"
unfolding is_unauthenticated_route
is_unauthenticated_route_methods method path h get post =
    ground (arith, bytes_eq→eq path (text "/ws"))
