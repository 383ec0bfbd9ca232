-- ===== src/DolthubAuth/Server/Keeps/Changes.antt =====
-- internal/dolthubauth/server.go: what the requests for one connection keep.
use wasteland.Base.{
  if◌then◌else◌, ℤ, ℕ, String, ◌≡◌, refl, Bool, true, false, not, ◌||◌, Option, none, some, ◌==◌,
  eq_iff,
}
use wasteland.DolthubAuth.Validation.{
  validate_slug, validate_mode, validate_wasteland_config, normalize_mode,
}
use wasteland.DolthubAuth.Tables.{Tables, Outside}
use wasteland.DolthubAuth.Store.{Library}
use wasteland.DolthubAuth.Patch.{
  patch_rig_handle, store_wasteland, delete_wasteland, patch_wasteland_settings, set_rig_handle,
  put_wasteland, drop_wasteland, set_wasteland_settings,
}
use wasteland.DolthubAuth.Service.{Config, Crypto, HttpRequest, ServiceScope}
use wasteland.DolthubAuth.Requests.{
  Decoders, Reply, RigHandlePatchRequest, WastelandUpsertRequest, WastelandSettingsPatchRequest,
  refused,
}
use wasteland.DolthubAuth.Server.{
  store_reply, Access, denied, granted, unless_invalid, require_service_auth, for_connection,
  handle_get_connection, patch_handle, handle_patch_rig_handle, upsert, handle_upsert_wasteland,
  delete, handle_delete_wasteland, patch_settings, handle_patch_wasteland_settings, store_scope,
}
use wasteland.DolthubAuth.Server.Keeps.{
  Write, changing, StoreKeeps, Keeps, store_reply-keep, unless_invalid-keep, if-keep, auth-keep,
}

module _ (lib : Library) (crypto : Crypto) (decode : Decoders) (cfg : Config) (o : Outside)
    (now : ℕ) (r : HttpRequest) (P : Tables → Type 0) (May : Write → Type 0)
    (keeps : StoreKeeps lib (decode.mac_sha256 cfg.token_pepper) o now P May) where
  -- Access that is granted for the connection of the path allows to change it.
  abbrev pub Allows : Access → Type 0
  Allows access =
      (scope : ServiceScope) (body : String)
      → access ≡ granted scope body
      → r.connection_id ≡ scope.connection_id
      → May (changing (store_scope scope r.connection_id))

  for_connection-keep :
      (act : ServiceScope → String → Tables → Reply × Tables)
      → ((scope : ServiceScope) (body : String)
          → May (changing (store_scope scope r.connection_id))
          → Keeps P (act scope body))
      → (x : Access × Tables) → Allows x.0
      → P x.1
      → P (for_connection lib crypto decode cfg o now r act x).1
  unfolding for_connection
  for_connection-keep act h (denied reply, s) may p = p
  for_connection-keep act h (granted scope body, s) may p =
      go (r.connection_id == "") (r.connection_id == scope.connection_id) refl
    where
      go :
          (a b : Bool)
          → (r.connection_id == scope.connection_id) ≡ b
          → P
              (if a || not b
                then (refused 401 "connection_mismatch" false, s)
                else act scope body s).1
      go true b e = p
      go false false e = p
      go false true e = h scope body (may scope body refl ((eq_iff _ _).0 e)) s p

  -- A handler of one connection keeps `P` from the tables that access to it allows.
  abbrev ConnectionKeeps : (Tables → Reply × Tables) → Type 0
  ConnectionKeeps act =
      (s : Tables)
      → Allows (require_service_auth lib crypto decode cfg o now r true s).0
      → P s
      → P (act s).1

  with_access-keep :
      (act : ServiceScope → String → Tables → Reply × Tables)
      → ((scope : ServiceScope) (body : String)
          → May (changing (store_scope scope r.connection_id))
          → Keeps P (act scope body))
      → ConnectionKeeps (λ s.
        for_connection lib crypto decode cfg o now r act
          (require_service_auth lib crypto decode cfg o now r true s))
  with_access-keep act h s may p =
      for_connection-keep act h (require_service_auth lib crypto decode cfg o now r true s) may
        (auth-keep lib crypto decode cfg o now r P May keeps true s p)

  pub handle_get_connection-keep :
      ConnectionKeeps (handle_get_connection lib crypto decode cfg o now r)
  unfolding handle_get_connection
  handle_get_connection-keep = with_access-keep _ (λ scope body may s p. store_reply-keep P _ p)

  patch_handle-keep :
      (scope : ServiceScope) (req : Option RigHandlePatchRequest)
      → May (changing (store_scope scope r.connection_id))
      → Keeps P (patch_handle lib crypto decode cfg o now r scope req)
  unfolding patch_handle patch_rig_handle
  patch_handle-keep scope none may s p = p
  patch_handle-keep scope (some req) may s p =
      let k = store_scope scope r.connection_id in
      unless_invalid-keep P (validate_slug "rig_handle" req.rig_handle)
        (λ s. store_reply (patch_rig_handle lib o k req.rig_handle req.record_version now s))
        (λ _ s p.
          store_reply-keep P (patch_rig_handle lib o k req.rig_handle req.record_version now s)
            (keeps.patch k req.record_version (set_rig_handle req.rig_handle) s may p))
        s p

  pub handle_patch_rig_handle-keep :
      ConnectionKeeps (handle_patch_rig_handle lib crypto decode cfg o now r)
  unfolding handle_patch_rig_handle
  handle_patch_rig_handle-keep =
      with_access-keep _ (λ scope body. patch_handle-keep scope (decode.rig_handle_request body))

  upsert-keep :
      (scope : ServiceScope) (req : Option WastelandUpsertRequest)
      → May (changing (store_scope scope r.connection_id))
      → Keeps P (upsert lib crypto decode cfg o now r scope req)
  unfolding upsert store_wasteland
  upsert-keep scope none may s p = p
  upsert-keep scope (some req) may s p =
      let k = store_scope scope r.connection_id in
      let wl = record req.wasteland { mode = normalize_mode req.wasteland.mode } in
      if-keep P (not (r.upstream == req.wasteland.upstream)) s
        (refused 400 "upstream_mismatch" false)
        (unless_invalid (validate_wasteland_config wl)
          (λ s. store_reply (store_wasteland lib o k wl req.record_version now s)) s)
        p
        (unless_invalid-keep P (validate_wasteland_config wl)
          (λ s. store_reply (store_wasteland lib o k wl req.record_version now s))
          (λ _ s p.
            store_reply-keep P (store_wasteland lib o k wl req.record_version now s)
              (keeps.patch k req.record_version (put_wasteland wl) s may p))
          s p)

  pub handle_upsert_wasteland-keep :
      ConnectionKeeps (handle_upsert_wasteland lib crypto decode cfg o now r)
  unfolding handle_upsert_wasteland
  handle_upsert_wasteland-keep =
      with_access-keep _ (λ scope body. upsert-keep scope (decode.upsert_request body))

  delete-keep :
      (scope : ServiceScope) (version : Option ℤ)
      → May (changing (store_scope scope r.connection_id))
      → Keeps P (delete lib crypto decode cfg o now r scope version)
  unfolding delete delete_wasteland
  delete-keep scope none may s p = p
  delete-keep scope (some version) may s p =
      let k = store_scope scope r.connection_id in
      store_reply-keep P (delete_wasteland lib o k r.upstream version now s)
        (keeps.patch k version (drop_wasteland r.upstream) s may p)

  pub handle_delete_wasteland-keep :
      ConnectionKeeps (handle_delete_wasteland lib crypto decode cfg o now r)
  unfolding handle_delete_wasteland
  handle_delete_wasteland-keep =
      with_access-keep _ (λ scope body. delete-keep scope (decode.version_request body))

  patch_settings-keep :
      (scope : ServiceScope) (req : Option WastelandSettingsPatchRequest)
      → May (changing (store_scope scope r.connection_id))
      → Keeps P (patch_settings lib crypto decode cfg o now r scope req)
  unfolding patch_settings patch_wasteland_settings
  patch_settings-keep scope none may s p = p
  patch_settings-keep scope (some req) may s p =
      let k = store_scope scope r.connection_id in
      let mode = normalize_mode req.mode in
      unless_invalid-keep P (validate_mode mode)
        (λ s.
          store_reply
            (patch_wasteland_settings lib o k r.upstream mode req.signing req.record_version now s))
        (λ _ s p.
          store_reply-keep P
            (patch_wasteland_settings lib o k r.upstream mode req.signing req.record_version now s)
            (keeps.patch k req.record_version (set_wasteland_settings r.upstream mode req.signing) s
              may p))
        s p

  pub handle_patch_wasteland_settings-keep :
      ConnectionKeeps (handle_patch_wasteland_settings lib crypto decode cfg o now r)
  unfolding handle_patch_wasteland_settings
  handle_patch_wasteland_settings-keep =
      with_access-keep _ (λ scope body. patch_settings-keep scope (decode.settings_request body))
