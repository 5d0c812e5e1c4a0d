-- ===== src/Server/Tests.antt =====
-- A concrete request: extracted/server-middleware/auth.rs and crates/vaultex-crypto/src/auth.rs.
use vaultex.Base.{
  ℕ, ◌≤◌, ◌+◌, ◌≡◌, ◌↔◌, refl, arith, true, false, Option, none, some, [], ◌∷◌, map, ◌%◌, Bytes,
  AreBytes, text, bytes_eq, leb, ◌&&◌, if◌then◌else◌, length, replicate,
}
use vaultex.Base.Decimal.{decimal, parse_u64-decimal}
use vaultex.Errors.{ok, err}
use vaultex.Crates.Toy.{toy, toy-CurveLaws, toy-SignLaws, resized}
use vaultex.Crates.ToyHex.{toy_hex, toy_hex-HexLaws}
use vaultex.Identity.{IdentityKeyPair, sign}
use vaultex.Identity.Laws.{IsIdentity}
use vaultex.Auth.{AuthHeader, build_signed_message, sign_request_with_timestamp}
use vaultex.Auth.Message.{NoColon, build_signed_message-injective}
use vaultex.Server.{
  Request, Account, AuthenticatedUser, Environment, is_unauthenticated_route, starts_with, contains,
  body_limit, auth_middleware, unauthorized,
}
use vaultex.Server.Admission.{Admitted, is_unauthenticated_route_methods}
use vaultex.Server.Window.{auth_middleware_iff, auth_middleware_replay}
use vaultex.Server.Client.{EnvironmentLaws, Carried, auth_middleware-sign_request}

abbrev toy_sha256 : Bytes → Bytes
toy_sha256 m = map (λ b. b % 256) (resized 32 m)

abbrev identity : IdentityKeyPair
identity = record { public_key = replicate 32 4; secret_key = replicate 64 4 }

identity-IsIdentity : IsIdentity toy toy-CurveLaws toy-SignLaws identity
identity-IsIdentity = record { length_secret = refl; public_eq = refl }

abbrev account : Account
account = record { identity_key_hex = toy_hex.encode identity.public_key }

abbrev toy_environment : Environment
toy_environment = record {
  to_str = λ s. some s;
  parse_uuid = λ s. some s;
  get_account_by_id = λ id. ok (some account);
  to_bytes = λ b limit. if leb (length b) limit then some b else none;
  verify_signature = λ key message signature. toy.verify_detached signature message key;
}

toy_environment-EnvironmentLaws : EnvironmentLaws toy_environment toy
toy_environment-EnvironmentLaws = record {
  to_str_visible = λ s h. refl;
  to_bytes_within = λ b limit h. ground arith;
  verifies = λ key message signature sized h. h;
}

abbrev account_id : Bytes
account_id = 53 ∷ 53 ∷ []

-- GET
abbrev get : Bytes
get = 71 ∷ 69 ∷ 84 ∷ []

-- /in
abbrev path : Bytes
path = 47 ∷ 105 ∷ 110 ∷ []

abbrev time : ℕ
time = 1700000000

abbrev signed : AuthHeader
signed = record {
  account_id = account_id;
  timestamp = time;
  signature_hex =
      toy_hex.encode (resized 64 (build_signed_message toy_sha256 toy_hex get path time []));
}

abbrev headers : Bytes → Option Bytes
headers name =
    if bytes_eq name (text "X-Account-Id")
    then some signed.account_id
    else if bytes_eq name (text "X-Timestamp")
    then some (decimal signed.timestamp)
    else if bytes_eq name (text "X-Signature")
    then some signed.signature_hex
    else none

abbrev request : Request
request = record { method = get; path = path; headers = headers; body = []; user = none }

carried :
    Carried request
      (sign_request_with_timestamp toy_sha256 toy_hex toy identity account_id get path [] time)
unfolding sign_request_with_timestamp sign text bytes_eq
carried = (refl, refl, refl)

private : is_unauthenticated_route get path ≡ false
unfolding is_unauthenticated_route starts_with contains text bytes_eq
private = refl

signature-AreBytes :
    AreBytes (sign toy identity (build_signed_message toy_sha256 toy_hex get path time []))
unfolding sign build_signed_message decimal
signature-AreBytes = ground arith

within : 0 ≤ body_limit path
within = omega arith

abbrev answer : Option AuthenticatedUser
answer =
    some (record { account_id = account_id; identity_key_hex = toy_hex.encode (replicate 32 4) })

admitted_at :
    (now : ℕ)
    → now ≤ 1700000300
    → 1700000000 ≤ now + 300
    → auth_middleware toy_environment toy_sha256 toy_hex now (λ r. r.user) request ≡ ok answer
admitted_at now late early =
    auth_middleware-sign_request toy toy-CurveLaws toy-SignLaws toy_sha256 toy_hex toy_hex-HexLaws
      toy_environment toy_environment-EnvironmentLaws (λ r. r.user) identity request account_id
      account_id time now account identity-IsIdentity (ground arith) signature-AreBytes carried refl
      private (ground arith) refl (omega arith) (omega arith) (omega arith) refl refl within

admitted_request :
    auth_middleware toy_environment toy_sha256 toy_hex 1700000250 (λ r. r.user) request ≡ ok answer
admitted_request = admitted_at 1700000250 (omega arith) (omega arith)

auth_middleware-sign_request_example :
    auth_middleware toy_environment toy_sha256 toy_hex 1700000250 (λ r. r.user) request
    ≡ ok (
        some
          (record { account_id = account_id; identity_key_hex = toy_hex.encode (replicate 32 4) }))
auth_middleware-sign_request_example =
    auth_middleware-sign_request toy toy-CurveLaws toy-SignLaws toy_sha256 toy_hex toy_hex-HexLaws
      toy_environment toy_environment-EnvironmentLaws (λ r. r.user) identity request account_id
      account_id time 1700000250 account identity-IsIdentity (ground arith) signature-AreBytes
      carried refl private (ground arith) refl (omega arith) (omega arith) (omega arith) refl refl
      within

auth_middleware_iff_example :
    (auth_middleware toy_environment toy_sha256 toy_hex 1700000250 (λ r. r.user) request
      ≡ ok answer)
    ↔ ((admitted : Request) × Admitted toy_environment toy_sha256 toy_hex 1700000250 request
          admitted
        × (answer ≡ admitted.user))
auth_middleware_iff_example =
    auth_middleware_iff toy_environment toy_sha256 toy_hex (λ r. r.user) 1700000250 request answer
      private

-- The request comes 250 seconds after its time stamp, and again 51 seconds later.
auth_middleware_replay_example :
    auth_middleware toy_environment toy_sha256 toy_hex 1700000301 (λ r. r.user) request ≡ (
      if leb 1700000301 (time + 300) && leb time (1700000301 + 300)
      then ok answer
      else err unauthorized)
unfolding bytes_eq text
auth_middleware_replay_example =
    auth_middleware_replay toy_environment toy_sha256 toy_hex (λ r. r.user) 1700000250 1700000301
      request answer (decimal time) time private admitted_request (decimal time, refl, refl)
      (parse_u64-decimal time (omega arith))

-- /ws
abbrev socket : Bytes
socket = text "/ws"

abbrev delete : Bytes
delete = text "DELETE"

public_socket : is_unauthenticated_route delete socket ≡ true
unfolding is_unauthenticated_route starts_with contains text bytes_eq
public_socket = refl

no_get : bytes_eq delete (text "GET") ≡ false
unfolding text bytes_eq
no_get = refl

no_post : bytes_eq delete (text "POST") ≡ false
unfolding text bytes_eq
no_post = refl

is_unauthenticated_route_methods_example : socket ≡ text "/ws"
is_unauthenticated_route_methods_example =
    is_unauthenticated_route_methods delete socket public_socket no_get no_post

map-AreBytes : (m : Bytes) → AreBytes (map (λ b. b % 256) m)
map-AreBytes [] = tt
map-AreBytes (b ∷ m) = (omega arith, map-AreBytes m)

get-NoColon : NoColon get
get-NoColon = ground arith

build_signed_message-injective_example :
    (get ≡ get) × (path ≡ path) × (time ≡ time) × (toy_sha256 [] ≡ toy_sha256 [])
build_signed_message-injective_example =
    build_signed_message-injective toy_sha256 toy_hex toy_hex-HexLaws get get path path time time []
      [] (λ m. map-AreBytes (resized 32 m)) get-NoColon get-NoColon (omega arith) (omega arith) refl
