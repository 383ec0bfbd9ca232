-- ===== src/DolthubAuth/Service.antt =====
-- internal/dolthubauth/service_auth.go: the signature of a request between services.
pub mod Verify
pub mod Checks
pub mod BaseString
use wasteland.Base.{
  leb, if◌then◌else◌, trim_space, join, trim_prefix, cut, ℕ, ◌+◌, ◌-◌, String, ◌<>◌, Bool, not,
  ◌&&◌, ◌||◌, Option, none, some, [], ◌∷◌, ◌==◌,
}
use text.Mathlib.Text.{starts_with}
use wasteland.DolthubAuth.Types.{
  AuthError, conflict, service_unauthorized, service_replay, Outcome, ok, err,
}
use wasteland.DolthubAuth.Tables.{Tables, Outside}
use wasteland.DolthubAuth.Patch.{use_service_nonce}

-- The parts of the configuration that requests are checked by.
pub record Config : Type 0 where
  pub tenant_id : String
  pub environment : String
  pub current_key_id : String
  pub current_shared_secret : String
  pub next_key_id : String
  pub next_shared_secret : String
  pub token_pepper : String
  pub redeem_pepper : String

-- SHA-256 and HMAC-SHA-256 in hexadecimal, `time.Parse` of RFC 3339, and the query that
-- `url.ParseQuery` and `Encode` give back.
pub record Crypto : Type 0 where
  pub sha256_hex : String → String
  pub hmac_hex : String → String → String
  pub parse_time : String → Option ℕ
  pub canonical_query : String → Option String

-- What a handler reads of a request; no body is one that cannot be read.
pub record HttpRequest : Type 0 where
  pub method : String
  pub escaped_path : String
  pub raw_query : String
  pub header : String → String
  pub body : Option String
  pub connection_id : String
  pub upstream : String

pub record ServiceScope : Type 0 where
  pub key_id : String
  pub tenant_id : String
  pub environment : String
  pub subject_id : String
  pub connection_id : String
  pub request_id : String

-- Five minutes.
abbrev pub max_clock_skew : ℕ
max_clock_skew = 300000000000

unfoldable pub service_auth_base_string :
    String → String → String → String → String → String → ServiceScope → String
unfolding join
service_auth_base_string timestamp nonce method request_uri body_hash key_id scope = join "\n" (
    key_id ∷ timestamp ∷ nonce ∷ method ∷ request_uri ∷ body_hash ∷ scope.tenant_id
    ∷ scope.environment ∷ scope.subject_id ∷ scope.connection_id ∷ [])

query_of : String → String → Option String → String
query_of path raw none = path <> "?" <> raw
query_of path raw (some encoded) = path <> "?" <> encoded

unfoldable pub service_auth_request_target : Crypto → HttpRequest → String
unfolding query_of
service_auth_request_target crypto r =
    let path = if r.escaped_path == "" then "/" else r.escaped_path in
    if r.raw_query == ""
    then path
    else query_of path r.raw_query (crypto.canonical_query r.raw_query)

both_given : Option (String × String) → Option (String × String)
both_given none = none
both_given (some (key_id, signature)) =
    if key_id == "" || signature == "" then none else some (key_id, signature)

-- The id of the key and the signature.
unfoldable pub parse_service_authorization : String → Option (String × String)
unfolding cut both_given trim_prefix
parse_service_authorization raw =
    if not (starts_with raw "Wasteland-HMAC ")
    then none
    else both_given (cut b':' (trim_prefix "Wasteland-HMAC " raw))

unfoldable pub lookup_service_secret : Config → String → Option String
lookup_service_secret cfg key_id =
    if key_id == cfg.current_key_id
    then some cfg.current_shared_secret
    else if key_id == cfg.next_key_id && not (cfg.next_shared_secret == "")
    then some cfg.next_shared_secret
    else none

-- What the checks find in a good request.
pub record Signed : Type 0 where
  pub scope : ServiceScope
  pub nonce : String
  pub timestamp : ℕ

unfoldable pub within_skew : ℕ → ℕ → Bool
within_skew now timestamp =
    leb (now - timestamp) max_clock_skew && leb (timestamp - now) max_clock_skew

module _ (crypto : Crypto) (cfg : Config) (now : ℕ) (r : HttpRequest) (body : String) where
  timestamp_raw : String
  unfolding trim_space
  timestamp_raw = trim_space (r.header "X-Service-Timestamp")

  nonce_of : String
  unfolding trim_space
  nonce_of = trim_space (r.header "X-Service-Nonce")

  scope_of : String → ServiceScope
  unfolding trim_space
  scope_of key_id = record {
    key_id = key_id;
    tenant_id = trim_space (r.header "X-Auth-Tenant-Id");
    environment = trim_space (r.header "X-Auth-Environment");
    subject_id = trim_space (r.header "X-Auth-Subject-Id");
    connection_id = trim_space (r.header "X-Auth-Connection-Id");
    request_id = trim_space (r.header "X-Request-Id");
  }

  expected_signature : String → String → String
  unfolding timestamp_raw nonce_of scope_of service_auth_request_target service_auth_base_string
  expected_signature key_id secret = crypto.hmac_hex secret (
      service_auth_base_string timestamp_raw nonce_of r.method
        (service_auth_request_target crypto r) (crypto.sha256_hex body) key_id (scope_of key_id))

  check_timed : String → String → String → Option ℕ → Outcome Signed
  unfolding expected_signature nonce_of scope_of within_skew trim_space
  check_timed key_id signature secret none = err service_unauthorized
  check_timed key_id signature secret (some timestamp) =
      if not (within_skew now timestamp)
      then err service_unauthorized
      else if nonce_of == ""
      then err service_unauthorized
      else if not (crypto.sha256_hex body == trim_space (r.header "X-Service-Body-SHA256"))
      then err service_unauthorized
      else if not ((scope_of key_id).tenant_id == cfg.tenant_id)
          || not ((scope_of key_id).environment == cfg.environment)
      then err service_unauthorized
      else if not (signature == expected_signature key_id secret)
      then err service_unauthorized
      else ok (record { scope = scope_of key_id; nonce = nonce_of; timestamp = timestamp })

  check_keyed : String → String → Option String → Outcome Signed
  unfolding check_timed timestamp_raw
  check_keyed key_id signature none = err service_unauthorized
  check_keyed key_id signature (some secret) =
      check_timed key_id signature secret (crypto.parse_time timestamp_raw)

  check_authorization : Option (String × String) → Outcome Signed
  unfolding check_keyed lookup_service_secret
  check_authorization none = err service_unauthorized
  check_authorization (some (key_id, signature)) =
      check_keyed key_id signature (lookup_service_secret cfg key_id)

  -- The checks up to the signature.
  unfoldable pub check_request : Outcome Signed
  unfolding check_authorization parse_service_authorization
  check_request = check_authorization (parse_service_authorization (r.header "Authorization"))

replay_of : AuthError → AuthError
replay_of conflict = service_replay
replay_of e = e

recorded : ServiceScope → Outcome (Unit {0}) × Tables → Outcome ServiceScope × Tables
unfolding replay_of
recorded scope (ok u, s) = (ok scope, s)
recorded scope (err e, s) = (err (replay_of e), s)

accept : Outside → ℕ → Outcome Signed → Tables → Outcome ServiceScope × Tables
unfolding recorded use_service_nonce
accept o now (err e) s = (err e, s)
accept o now (ok signed) s =
    recorded signed.scope (
      use_service_nonce o signed.scope.key_id signed.nonce now (signed.timestamp + max_clock_skew)
        s)

unfoldable pub verify_service_request :
    Crypto → Config → Outside → ℕ → HttpRequest → String → Tables → Outcome ServiceScope × Tables
unfolding accept check_request
verify_service_request crypto cfg o now r body s =
    accept o now (check_request crypto cfg now r body) s
