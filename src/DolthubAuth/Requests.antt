-- ===== src/DolthubAuth/Requests.antt =====
-- internal/dolthubauth/types.go and server.go: requests, replies and the life of a token. A reply
-- leaves out the message for the user.
pub mod Ttl
use wasteland.Base.{
  ltb, if◌then◌else◌, ℤ, pos, negsuc, ℕ, suc, ◌+◌, ◌-◌, ◌*◌, ◌%◌, String, Bool, true, false, ◌||◌,
  Option, ◌==◌,
}
use wasteland.DolthubAuth.Types.{
  WastelandConfig, UserMetadata, AuthError, not_found, conflict, invalid_connect_token,
  expired_connect_token, metadata_mismatch, last_wasteland, wasteland_not_found, invalid_metadata,
  validation_failed, ConnectionResponse,
}

pub record CreateConnectTokenRequest : Type 0 where
  pub subject_id : String
  pub metadata : UserMetadata
  pub ttl_seconds : ℤ

pub record RedeemConnectTokenRequest : Type 0 where
  pub connect_token : String
  pub redeem_secret : String
  pub api_key : String
  pub metadata : UserMetadata

pub record RigHandlePatchRequest : Type 0 where
  pub record_version : ℤ
  pub rig_handle : String

pub record WastelandUpsertRequest : Type 0 where
  pub record_version : ℤ
  pub wasteland : WastelandConfig

pub record WastelandSettingsPatchRequest : Type 0 where
  pub record_version : ℤ
  pub mode : String
  pub signing : Bool

-- `json.Unmarshal` of the bodies, and the MAC of `macSHA256`.
pub record Decoders : Type 0 where
  pub create_request : String → Option CreateConnectTokenRequest
  pub redeem_request : String → Option RedeemConnectTokenRequest
  pub rig_handle_request : String → Option RigHandlePatchRequest
  pub upsert_request : String → Option WastelandUpsertRequest
  pub version_request : String → Option ℤ
  pub settings_request : String → Option WastelandSettingsPatchRequest
  pub mac_sha256 : String → String → String

-- An error has its HTTP status, its code and whether to try again.
pub data Reply : Type 0 where
  refused : ℕ → String → Bool → Reply
  -- The token, its secret, the metadata and the time of expiry.
  connect_token : String → String → UserMetadata → ℕ → Reply
  redeemed : String → String → Option ℕ → Reply
  connection : ConnectionResponse → Reply

-- Five minutes, for both the default and the maximum.
abbrev pub connect_token_ttl : ℕ
connect_token_ttl = 300000000000

-- A product of an `int64`, for a positive factor.
unfoldable pub wrap_int64 : ℕ → ℤ
wrap_int64 n =
    let m = n % 18446744073709551616 in
    if ltb m 9223372036854775808 then pos m else negsuc (18446744073709551616 - m - 1)

at_most_ttl : ℤ → ℤ
at_most_ttl (pos n) = if ltb connect_token_ttl n then pos connect_token_ttl else pos n
at_most_ttl (negsuc n) = negsuc n

unfoldable pub token_ttl : ℤ → ℤ
unfolding wrap_int64 at_most_ttl
token_ttl (pos n) =
    if ltb 0 n then at_most_ttl (wrap_int64 (n * 1000000000)) else pos connect_token_ttl
token_ttl (negsuc n) = pos connect_token_ttl

-- `Time.Add`.
unfoldable pub add_duration : ℕ → ℤ → ℕ
add_duration now (pos n) = now + n
add_duration now (negsuc n) = now - suc n

-- `writeStoreError`.
unfoldable pub store_error : AuthError → Reply
store_error not_found = refused 404 "not_found" false
store_error conflict = refused 409 "version_conflict" false
store_error (invalid_metadata text) = refused 400 "invalid_metadata" false
store_error last_wasteland = refused 409 "last_wasteland" false
store_error wasteland_not_found = refused 404 "wasteland_not_found" false
store_error e = refused 500 "store_failed" true

-- `writeValidationError`.
unfoldable pub validation_error : String → Reply
validation_error code =
    if code == "invalid_key" || code == "expired_key" || code == "revoked_key" || code == ""
    then refused 400 "invalid_key" false
    else if code == "rate_limited"
    then refused 503 code true
    else if code == "upstream_unreachable"
        || code == "kms_unavailable"
        || code == "proxy_unauthorized"
    then refused 503 code true
    else refused 500 "redeem_failed" true

unfoldable pub redeem_error : AuthError → Reply
unfolding validation_error
redeem_error invalid_connect_token = refused 401 "invalid_connect_token" false
redeem_error expired_connect_token = refused 401 "expired_connect_token" false
redeem_error metadata_mismatch = refused 401 "metadata_mismatch" false
redeem_error (validation_failed code text) = validation_error code
redeem_error e = refused 500 "redeem_failed" true
