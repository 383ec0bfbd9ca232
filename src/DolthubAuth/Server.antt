-- ===== src/DolthubAuth/Server.antt =====
-- internal/dolthubauth/server.go: the handlers of the service.
pub mod Keeps
pub mod Redeemed
pub mod Granted
use wasteland.Base.{
  if◌then◌else◌, ℤ, ℕ, String, Bool, true, false, not, ◌&&◌, ◌||◌, Option, none, some, ◌==◌,
}
use wasteland.DolthubAuth.Types.{
  UserMetadata, AuthError, service_replay, Outcome, ok, err, Connection, new_connection_response,
}
use wasteland.DolthubAuth.Validation.{
  validate_metadata, validate_slug, validate_mode, validate_wasteland_config, normalize_mode,
}
use wasteland.DolthubAuth.Tables.{Tables, Outside}
use wasteland.DolthubAuth.Store.{Library, RedeemInput, Scope, create_connect_token, get_connection}
use wasteland.DolthubAuth.Redeem.{redeem_connect_token}
use wasteland.DolthubAuth.Patch.{
  patch_rig_handle, store_wasteland, delete_wasteland, patch_wasteland_settings,
}
use wasteland.DolthubAuth.Service.{
  Config, Crypto, HttpRequest, ServiceScope, verify_service_request,
}
use wasteland.DolthubAuth.Requests.{
  CreateConnectTokenRequest, RedeemConnectTokenRequest, RigHandlePatchRequest,
  WastelandUpsertRequest, WastelandSettingsPatchRequest, Decoders, Reply, refused, connect_token,
  redeemed, connection, token_ttl, add_duration, store_error, redeem_error,
}

store_reply : Outcome Connection × Tables → Reply × Tables
unfolding store_error new_connection_response
store_reply (ok conn, s) = (connection (new_connection_response conn), s)
store_reply (err e, s) = (store_error e, s)

-- A request that authenticates itself, with its body, or the reply that refuses it.
pub data Access : Type 0 where
  denied : Reply → Access
  granted : ServiceScope → String → Access

auth_error : AuthError → Reply
auth_error service_replay = refused 401 "service_replay" false
auth_error e = refused 401 "service_unauthorized" false

admit : Bool → String → Outcome ServiceScope × Tables → Access × Tables
unfolding auth_error
admit require_connection body (err e, s) = (denied (auth_error e), s)
admit require_connection body (ok scope, s) =
    if scope.subject_id == ""
    then (denied (refused 401 "missing_subject_id" false), s)
    else if require_connection && scope.connection_id == ""
    then (denied (refused 401 "missing_connection_id" false), s)
    else (granted scope body, s)

unfoldable pub store_scope : ServiceScope → String → Scope
store_scope scope connection_id = record {
  tenant_id = scope.tenant_id;
  environment = scope.environment;
  subject_id = scope.subject_id;
  connection_id = connection_id;
}

-- The reply to metadata that a check refuses.
unless_invalid : Option String → (Tables → Reply × Tables) → Tables → Reply × Tables
unless_invalid none act s = act s
unless_invalid (some text) act s = (refused 400 "invalid_metadata" false, s)

module _ (lib : Library) (crypto : Crypto) (decode : Decoders) (cfg : Config) (o : Outside)
    (now : ℕ) (r : HttpRequest) where
  with_body : Bool → Option String → Tables → Access × Tables
  unfolding admit verify_service_request
  with_body require_connection none s = (denied (refused 400 "invalid_body" false), s)
  with_body require_connection (some body) s =
      admit require_connection body (verify_service_request crypto cfg o now r body s)

  unfoldable pub require_service_auth : Bool → Tables → Access × Tables
  unfolding with_body
  require_service_auth require_connection s = with_body require_connection r.body s

  minted : UserMetadata → ℕ → String → String → Outcome (Unit {0}) × Tables → Reply × Tables
  minted metadata expires_at token secret (err e, s) = (refused 500 "store_write_failed" true, s)
  minted metadata expires_at token secret (ok u, s) =
      (connect_token token secret metadata expires_at, s)

  mint : CreateConnectTokenRequest → Option String → Option String → Tables → Reply × Tables
  unfolding minted add_duration token_ttl create_connect_token
  mint req none secret s = (refused 500 "random_generation_failed" true, s)
  mint req (some token) none s = (refused 500 "random_generation_failed" true, s)
  mint req (some token) (some secret) s =
      let expires_at = add_duration now (token_ttl req.ttl_seconds) in
      minted req.metadata expires_at token secret (
        create_connect_token lib o cfg.tenant_id cfg.environment
          (decode.mac_sha256 cfg.token_pepper token) (decode.mac_sha256 cfg.redeem_pepper secret)
          req.subject_id req.metadata expires_at now s)

  create_for : ServiceScope → Option CreateConnectTokenRequest → Tables → Reply × Tables
  unfolding mint validate_metadata unless_invalid
  create_for scope none s = (refused 400 "invalid_json" false, s)
  create_for scope (some req) s =
      if scope.subject_id == "" || req.subject_id == "" || not (scope.subject_id == req.subject_id)
      then (refused 401 "subject_mismatch" false, s)
      else unless_invalid (validate_metadata req.metadata) (mint req o.random_token o.random_secret)
          s

  create_access : Access × Tables → Reply × Tables
  unfolding create_for
  create_access (denied reply, s) = (reply, s)
  create_access (granted scope body, s) = create_for scope (decode.create_request body) s

  unfoldable pub handle_create_connect_token : Tables → Reply × Tables
  unfolding create_access require_service_auth
  handle_create_connect_token s = create_access (require_service_auth false s)

  redeem_reply : Outcome Connection × Tables → Reply × Tables
  unfolding redeem_error
  redeem_reply (err e, s) = (redeem_error e, s)
  redeem_reply (ok conn, s) = (redeemed conn.connection_id conn.status conn.last_validated_at, s)

  unfoldable pub redeem_input : RedeemConnectTokenRequest → RedeemInput
  redeem_input req = record {
    tenant_id = cfg.tenant_id;
    environment = cfg.environment;
    connect_token_mac = decode.mac_sha256 cfg.token_pepper req.connect_token;
    redeem_secret_mac = decode.mac_sha256 cfg.redeem_pepper req.redeem_secret;
    metadata = req.metadata;
    api_key = req.api_key;
    now = now;
  }

  redeem_for : Option RedeemConnectTokenRequest → Tables → Reply × Tables
  unfolding redeem_reply redeem_input redeem_connect_token validate_metadata unless_invalid
  redeem_for none s = (refused 400 "invalid_json" false, s)
  redeem_for (some req) s =
      if req.connect_token == "" || req.redeem_secret == "" || req.api_key == ""
      then (refused 400 "missing_fields" false, s)
      else unless_invalid (validate_metadata req.metadata)
          (λ s. redeem_reply (redeem_connect_token lib o (redeem_input req) s)) s

  redeem_body_of : Option String → Tables → Reply × Tables
  unfolding redeem_for
  redeem_body_of none s = (refused 400 "invalid_json" false, s)
  redeem_body_of (some body) s = redeem_for (decode.redeem_request body) s

  unfoldable pub handle_redeem_connect_token : Tables → Reply × Tables
  unfolding redeem_body_of
  handle_redeem_connect_token s = redeem_body_of r.body s

  -- The beginning of the handlers of one connection.
  for_connection :
      (ServiceScope → String → Tables → Reply × Tables) → Access × Tables → Reply × Tables
  for_connection act (denied reply, s) = (reply, s)
  for_connection act (granted scope body, s) =
      if r.connection_id == "" || not (r.connection_id == scope.connection_id)
      then (refused 401 "connection_mismatch" false, s)
      else act scope body s

  unfoldable pub handle_get_connection : Tables → Reply × Tables
  unfolding for_connection require_service_auth store_reply get_connection store_scope
  handle_get_connection s =
      for_connection
        (λ scope body s.
          store_reply (get_connection lib o (store_scope scope r.connection_id) s, s))
        (require_service_auth true s)

  patch_handle : ServiceScope → Option RigHandlePatchRequest → Tables → Reply × Tables
  unfolding store_reply patch_rig_handle store_scope unless_invalid validate_slug
  patch_handle scope none s = (refused 400 "invalid_json" false, s)
  patch_handle scope (some req) s =
      unless_invalid (validate_slug "rig_handle" req.rig_handle)
        (λ s. store_reply (
          patch_rig_handle lib o (store_scope scope r.connection_id) req.rig_handle
            req.record_version now s))
        s

  unfoldable pub handle_patch_rig_handle : Tables → Reply × Tables
  unfolding for_connection require_service_auth patch_handle
  handle_patch_rig_handle s =
      for_connection (λ scope body. patch_handle scope (decode.rig_handle_request body))
        (require_service_auth true s)

  upsert : ServiceScope → Option WastelandUpsertRequest → Tables → Reply × Tables
  unfolding store_reply store_wasteland store_scope unless_invalid validate_wasteland_config
      normalize_mode
  upsert scope none s = (refused 400 "invalid_json" false, s)
  upsert scope (some req) s =
      if not (r.upstream == req.wasteland.upstream)
      then (refused 400 "upstream_mismatch" false, s)
      else let wl = record req.wasteland { mode = normalize_mode req.wasteland.mode } in
        unless_invalid (validate_wasteland_config wl)
          (λ s.
            store_reply (
              store_wasteland lib o (store_scope scope r.connection_id) wl req.record_version now
                s))
          s

  unfoldable pub handle_upsert_wasteland : Tables → Reply × Tables
  unfolding for_connection require_service_auth upsert
  handle_upsert_wasteland s =
      for_connection (λ scope body. upsert scope (decode.upsert_request body))
        (require_service_auth true s)

  delete : ServiceScope → Option ℤ → Tables → Reply × Tables
  unfolding store_reply delete_wasteland store_scope
  delete scope none s = (refused 400 "invalid_json" false, s)
  delete scope (some record_version) s =
      store_reply
        (delete_wasteland lib o (store_scope scope r.connection_id) r.upstream record_version now s)

  unfoldable pub handle_delete_wasteland : Tables → Reply × Tables
  unfolding for_connection require_service_auth delete
  handle_delete_wasteland s =
      for_connection (λ scope body. delete scope (decode.version_request body))
        (require_service_auth true s)

  patch_settings : ServiceScope → Option WastelandSettingsPatchRequest → Tables → Reply × Tables
  unfolding store_reply patch_wasteland_settings store_scope unless_invalid validate_mode
      normalize_mode
  patch_settings scope none s = (refused 400 "invalid_json" false, s)
  patch_settings scope (some req) s =
      let mode = normalize_mode req.mode in
      unless_invalid (validate_mode mode)
        (λ s. store_reply (
          patch_wasteland_settings lib o (store_scope scope r.connection_id) r.upstream mode
            req.signing req.record_version now s))
        s

  unfoldable pub handle_patch_wasteland_settings : Tables → Reply × Tables
  unfolding for_connection require_service_auth patch_settings
  handle_patch_wasteland_settings s =
      for_connection (λ scope body. patch_settings scope (decode.settings_request body))
        (require_service_auth true s)
