-- ===== src/Server/Window.antt =====
-- Exactly which requests extracted/server-middleware/auth.rs admits, and for how long.
use vaultex.Base.{
  ℕ, ◌+◌, ◌≤◌, ◌≡◌, refl, sym, ap, ◌↔◌, arith, inl, inr, true, false, ltb, leb, ◌&&◌, if◌then◌else◌,
  some, Bytes, text, Bool-cases,
}
use vaultex.Base.Decimal.{parse_u64}
use vaultex.Errors.{ok, err}
use vaultex.Crates.Encoding.{Hex}
use vaultex.Auth.{build_signed_message}
use vaultex.Server.{
  unauthorized, Request, Environment, is_unauthenticated_route, to_uppercase, abs_diff, header,
  authenticate, auth_middleware,
}
use vaultex.Server.Admission.{Carries, Admitted, auth_middleware_sound}

small_abs_diff : (a b n : ℕ) → a ≤ b + n → b ≤ a + n → ltb n (abs_diff a b) ≡ false
unfolding abs_diff
small_abs_diff a b n h k = ground arith

large_abs_diff :
    (a b n : ℕ) → (leb a (b + n) && leb b (a + n)) ≡ false → ltb n (abs_diff a b) ≡ true
unfolding abs_diff
large_abs_diff a b n h = ground arith

module _ (env : Environment) (sha256 : Bytes → Bytes) (hex : Hex) where
  header_lem :
      (now : ℕ) (request : Request) (name s : Bytes)
      → Carries env sha256 hex now request name s
      → header env request.headers name ≡ ok s
  unfolding header
  header_lem now request name s (value, found, read) = rw (found, read)

  authenticate_complete :
      (now : ℕ) (request admitted : Request)
      → Admitted env sha256 hex now request admitted
      → authenticate env sha256 hex now (to_uppercase request.method) request.path request
        ≡ ok admitted
  unfolding authenticate build_signed_message
  authenticate_complete now request admitted a = ground (
    arith,
    header_lem now request (text "X-Account-Id") a.id_str a.id_sent,
    header_lem now request (text "X-Timestamp") a.timestamp_str a.timestamp_sent,
    header_lem now request (text "X-Signature") a.signature_hex a.signature_sent,
    a.id_read,
    a.timestamp_read,
    a.signature_read,
    small_abs_diff now a.timestamp 300 a.not_late a.not_early,
    a.known,
    a.key_read,
    a.body_read,
    a.verified,
    a.passed_on,
  )

  -- On a route that is not public, a request is answered by its handler exactly if it carries an
  -- account, a time stamp and a signature; the time is within 300 seconds of the clock, either way; the
  -- account exists; and the signature verifies under its key for the method, path, time and body of this
  -- request. The handler gets the body that was hashed, and that account.
  pub auth_middleware_iff :
      {Response : Type 0} (next : Request → Response) (now : ℕ) (request : Request)
      (response : Response)
      → is_unauthenticated_route (to_uppercase request.method) request.path ≡ false
      → (auth_middleware env sha256 hex now next request ≡ ok response) ↔ (
          (admitted : Request) × Admitted env sha256 hex now request admitted
          × (response ≡ next admitted))
  unfolding auth_middleware
  auth_middleware_iff next now request response private = (
    auth_middleware_sound env sha256 hex now next request response private,
    λ (admitted, a, answers).
        rw private (rw (authenticate_complete now request admitted a) (ap ok (sym answers))),
  )

  -- Only the clock's distance from the time stamp depends on the clock.
  Admitted-at :
      (first now : ℕ) (request admitted : Request)
      (a : Admitted env sha256 hex first request admitted)
      → now ≤ a.timestamp + 300
      → a.timestamp ≤ now + 300
      → Admitted env sha256 hex now request admitted
  Admitted-at first now request admitted a late early = record {
    id_str = a.id_str;
    timestamp_str = a.timestamp_str;
    signature_hex = a.signature_hex;
    account_id = a.account_id;
    timestamp = a.timestamp;
    signature = a.signature;
    account = a.account;
    key = a.key;
    body = a.body;
    id_sent = a.id_sent;
    timestamp_sent = a.timestamp_sent;
    signature_sent = a.signature_sent;
    id_read = a.id_read;
    timestamp_read = a.timestamp_read;
    signature_read = a.signature_read;
    known = a.known;
    key_read = a.key_read;
    body_read = a.body_read;
    verified = a.verified;
    passed_on = a.passed_on;
    not_late = late;
    not_early = early;
  }

  -- The clock is looked at right after the three headers, before the account and the signature.
  authenticate_stale :
      (first now : ℕ) (request admitted : Request)
      (a : Admitted env sha256 hex first request admitted)
      → ltb 300 (abs_diff now a.timestamp) ≡ true
      → authenticate env sha256 hex now (to_uppercase request.method) request.path request
        ≡ err unauthorized
  unfolding authenticate
  authenticate_stale first now request admitted a stale = ground (
    arith,
    header_lem now request (text "X-Account-Id") a.id_str a.id_sent,
    header_lem now request (text "X-Timestamp") a.timestamp_str a.timestamp_sent,
    header_lem now request (text "X-Signature") a.signature_hex a.signature_sent,
    a.id_read,
    a.timestamp_read,
    a.signature_read,
    stale,
  )

  -- How long a request can be replayed. Let a request on a route that is not public be answered once, at
  -- whatever time. While the accounts stay as they are, the same request at any other time, earlier or
  -- later, gets the same answer if the clock is at most 300 seconds from the time stamp in its header,
  -- either way, and is unauthorized if it is more.
  pub auth_middleware_replay :
      {Response : Type 0} (next : Request → Response) (first now : ℕ) (request : Request)
      (response : Response) (timestamp_str : Bytes) (timestamp : ℕ)
      → is_unauthenticated_route (to_uppercase request.method) request.path ≡ false
      → auth_middleware env sha256 hex first next request ≡ ok response
      → Carries env sha256 hex first request (text "X-Timestamp") timestamp_str
      → parse_u64 timestamp_str ≡ some timestamp
      → auth_middleware env sha256 hex now next request ≡ (
          if leb now (timestamp + 300) && leb timestamp (now + 300)
          then ok response
          else err unauthorized)
  unfolding auth_middleware
  auth_middleware_replay next first now request response timestamp_str timestamp private h carried
        read =
      let (admitted, a, answers) = (auth_middleware_iff next first request response private).0 h in
      let (value, sent, text_read) = a.timestamp_sent in
      let (value', sent', text_read') = carried in
      let same : a.timestamp ≡ timestamp =
        cc (sent, sent', text_read, text_read', a.timestamp_read, read) in
      let once = auth_middleware_iff next now request response private in
      elim (Bool-cases (leb now (timestamp + 300) && leb timestamp (now + 300))) [
        | inl inside ↦
            let late : now ≤ a.timestamp + 300 = ground arith in
            let early : a.timestamp ≤ now + 300 = ground arith in
            rw inside
              (once.1 (admitted, Admitted-at first now request admitted a late early, answers))
        | inr outside ↦
            let stale : ltb 300 (abs_diff now a.timestamp) ≡ true =
              large_abs_diff now a.timestamp 300 (rw same outside) in
            rw (outside, private, authenticate_stale first now request admitted a stale) refl
      ]
