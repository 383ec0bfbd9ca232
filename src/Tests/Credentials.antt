-- ===== src/Tests/Credentials.antt =====
-- Examples on the service that keeps credentials.
use wasteland.Base.{
  concat, cut, pos, negsuc, ◌+◌, ◌*◌, ◌≤◌, String, ◌≡◌, refl, ◌≢◌, ◌⊎◌, true, some, arith,
}
use wasteland.DolthubAuth.Types.{ok}
use wasteland.DolthubAuth.Tables.{find_row, ◌>>=◌}
use wasteland.DolthubAuth.Store.{get_connection_tx, scan_connection_row, is_of, Scope}
use wasteland.DolthubAuth.Service.{
  HttpRequest, verify_service_request, max_clock_skew, service_auth_base_string,
}
use wasteland.DolthubAuth.Requests.{token_ttl, add_duration}
use wasteland.DolthubAuth.Run.{begin, serve, request, redeem, put_rig_handle}
use wasteland.DolthubAuth.Replay.{replay_refused, replay_at_limit}
use wasteland.DolthubAuth.Service.BaseString.{
  Parts, IsLine, IsLines, service_auth_base_string-inj, SameParts,
}
use wasteland.DolthubAuth.Requests.Ttl.{token_ttl-bounds, token_ttl-overflow}
use wasteland.DolthubAuth.Server.{handle_redeem_connect_token}
use wasteland.DolthubAuth.Server.Redeemed.{IsRedeemed}
use wasteland.DolthubAuth.Tokens.{redeem_once}
use wasteland.DolthubAuth.Redeem.{redeem_connect_token}
use wasteland.DolthubAuth.Redeem.Checks.{IsSound, redeem_connect_token-IsSound}
use wasteland.DolthubAuth.Patch.{patch_metadata_tx, drop_wasteland, set_rig_handle}
use wasteland.DolthubAuth.Versions.{patch_once}
use wasteland.DolthubAuth.Metadata.{IsValid, Run-IsValid}
use wasteland.DolthubAuth.Validation.{validate_metadata}
use wasteland.Tests.Vault.{
  marshal, lib, lib-IsJson, crypto, cfg, asked, decode, calm, signed_get, scope, empty, arrival,
  with_token, redeem_request, input, connection_of_stored, renamed, with_connection, k,
}
use wasteland.DolthubAuth.Proxy.{ProxyRequest, ProxyClient}
use wasteland.DolthubAuth.Authority.{IsSignedFor, serve-IsSignedFor}

-- The nonce of the accepted request is still known a minute later.
replay_refused_example :
    (verify_service_request crypto cfg calm
      (arrival + 60000000000)
      signed_get
      ""
      (verify_service_request crypto cfg calm arrival signed_get "" empty).1).0
    ≢ ok scope
unfolding verify_service_request
replay_refused_example =
    replay_refused lib crypto decode cfg signed_get "" (arrival + 60000000000) arrival calm calm
      empty arrival scope scope {Q = λ route o. Unit} refl refl begin (omega arith)
      (λ e. absurd (omega (arith, e)))

replay_at_limit_example :
    (verify_service_request crypto cfg calm
      (arrival + max_clock_skew)
      signed_get
      ""
      (verify_service_request crypto cfg calm arrival signed_get "" empty).1).0
    ≡ ok scope
unfolding verify_service_request
replay_at_limit_example =
    replay_at_limit lib crypto decode cfg signed_get "" (arrival + max_clock_skew) arrival calm calm
      empty arrival scope refl refl refl refl refl

-- Two requests for the same resource under other nonces.
abbrev parts : String → Parts
parts nonce = record {
  timestamp = "t0";
  nonce = nonce;
  method = "GET";
  request_uri = "/";
  body_hash = "h";
  key_id = "k1";
  scope = scope;
}

parts-IsLines : (nonce : String) → IsLine nonce → IsLines (parts nonce)
unfolding cut
parts-IsLines nonce h = record {
  key_id = refl;
  timestamp = refl;
  nonce = h;
  method = refl;
  request_uri = refl;
  body_hash = refl;
  tenant_id = refl;
  environment = refl;
  subject_id = refl;
}

abbrev relabelled : Parts
relabelled = record (parts "n1") { scope = record scope { request_id = "r2" } }

service_auth_base_string-inj_example : SameParts (parts "n1") relabelled
unfolding service_auth_base_string cut
service_auth_base_string-inj_example =
    service_auth_base_string-inj (parts "n1") relabelled (parts-IsLines "n1" refl)
      (record {
        key_id = refl;
        timestamp = refl;
        nonce = refl;
        method = refl;
        request_uri = refl;
        body_hash = refl;
        tenant_id = refl;
        environment = refl;
        subject_id = refl;
      })
      refl

token_ttl-bounds_example :
    (add_duration 7 (token_ttl (pos 400)) ≤ 7 + 300000000000)
    × (add_duration 7 (token_ttl (pos 60)) ≡ 7 + 60 * 1000000000)
    × (add_duration 7 (token_ttl (pos 0)) ≡ 7 + 300000000000)
    × (add_duration 7 (token_ttl (negsuc 4)) ≡ 7 + 300000000000)
token_ttl-bounds_example = token_ttl-bounds 7 (pos 400) 60 4 (omega arith) (omega arith)

token_ttl-overflow_example : add_duration 7 (token_ttl (pos 10000000000)) ≤ 7
token_ttl-overflow_example = token_ttl-overflow 7 10000000000 (omega arith) (omega arith)

redeem_once_example :
    ¬ IsRedeemed
      (handle_redeem_connect_token lib crypto decode cfg calm
        (arrival + 2)
        redeem_request
        (handle_redeem_connect_token lib crypto decode cfg calm arrival redeem_request
          with_token).1).0
unfolding handle_redeem_connect_token marshal ◌>>=◌ find_row concat get_connection_tx
redeem_once_example =
    redeem_once lib crypto decode cfg redeem_request redeem_request "redeem" "redeem" asked asked
      refl refl refl refl calm calm with_token arrival arrival (arrival + 2) tt begin refl

redeem_connect_token-IsSound_example : IsSound lib calm input (connection_of_stored) with_token
unfolding redeem_connect_token marshal ◌>>=◌ find_row concat get_connection_tx scan_connection_row
redeem_connect_token-IsSound_example =
    redeem_connect_token-IsSound lib calm input (connection_of_stored) with_token refl

-- A connection is renamed, and removed from its last wasteland, which fails.
patch_once_example :
    (patch_metadata_tx lib calm k
      (pos 1)
      (arrival + 9)
      (drop_wasteland "org/db")
      (patch_metadata_tx lib calm k (pos 1) arrival (set_rig_handle "bea") with_connection).1).0
    ≢ ok renamed
unfolding patch_metadata_tx ◌>>=◌ find_row set_rig_handle validate_metadata marshal
    get_connection_tx
patch_once_example =
    patch_once lib crypto decode cfg k (pos 1) (set_rig_handle "bea") (drop_wasteland "org/db") calm
      calm with_connection arrival (arrival + 9) renamed renamed {Q = λ route o. Unit} refl begin

Run-IsValid_example :
    IsValid lib
      (handle_redeem_connect_token lib crypto decode cfg calm arrival redeem_request with_token).1
unfolding serve
Run-IsValid_example =
    Run-IsValid lib lib-IsJson crypto decode cfg {Q = λ route o. Unit} {s = with_token} {t = 0} tt
      (request begin redeem calm arrival redeem_request (omega arith) tt)

-- A request to the API proxy that is answered.
abbrev client : ProxyClient
client = record { accepts = λ method target. true; send = λ q. some (200, "[]") }

abbrev proxied_get : HttpRequest
proxied_get = record signed_get { escaped_path = "/v1/proxy/api/org/db"; raw_query = "q=1" }

abbrev forwarded : ProxyRequest
forwarded = record {
  method = "GET";
  target = "https://www.dolthub.com/api/v1alpha1/org/db?q=1";
  authorization = "token key";
  body = "";
}

-- A request that is signed for `c1` renames that connection, and no request with its scope changes
-- another one.
abbrev rename : HttpRequest
rename = record signed_get { method = "PATCH"; body = some "rename" }

abbrev other_scope : Scope
other_scope = record k { connection_id = "c2" }

serve-IsSignedFor_example :
    (find_row
        (is_of other_scope)
        (serve lib crypto decode cfg put_rig_handle calm arrival rename with_connection).connections
      ≡ find_row (is_of other_scope) with_connection.connections)
    ⊎ ((put_rig_handle ≡ redeem)
        ⊎ IsSignedFor crypto cfg calm arrival rename with_connection other_scope)
serve-IsSignedFor_example =
    serve-IsSignedFor lib crypto decode cfg calm arrival rename with_connection put_rig_handle
      other_scope
