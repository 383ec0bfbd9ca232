-- ===== src/DolthubAuth/Server/Keeps.antt =====
-- internal/dolthubauth/server.go: what every request keeps.
pub mod Changes
use wasteland.Base.{
  if◌then◌else◌, ℤ, ℕ, String, ◌≡◌, refl, Bool, true, false, Option, none, some, arith,
}
use wasteland.DolthubAuth.Types.{UserMetadata, Outcome, ok, err, Connection}
use wasteland.DolthubAuth.Validation.{
  validate_metadata, validate_slug, validate_mode, validate_wasteland_config, normalize_mode,
}
use wasteland.DolthubAuth.Tables.{Tables, Outside}
use wasteland.DolthubAuth.Store.{Library, RedeemInput, Scope, create_connect_token}
use wasteland.DolthubAuth.Redeem.{redeem_connect_token}
use wasteland.DolthubAuth.Patch.{
  Change, use_service_nonce, patch_metadata_tx, patch_rig_handle, store_wasteland, delete_wasteland,
  patch_wasteland_settings, set_rig_handle, put_wasteland, drop_wasteland, set_wasteland_settings,
}
use wasteland.DolthubAuth.Service.{
  Config, Crypto, HttpRequest, ServiceScope, verify_service_request,
}
use wasteland.DolthubAuth.Service.Verify.{verify-keep}
use wasteland.DolthubAuth.Requests.{
  Decoders, Reply, CreateConnectTokenRequest, RedeemConnectTokenRequest, RigHandlePatchRequest,
  WastelandUpsertRequest, WastelandSettingsPatchRequest, refused,
}
use wasteland.DolthubAuth.Server.{
  store_reply, Access, denied, granted, admit, unless_invalid, with_body, require_service_auth,
  minted, mint, create_for, create_access, handle_create_connect_token, redeem_reply, redeem_input,
  redeem_for, redeem_body_of, handle_redeem_connect_token, for_connection, handle_get_connection,
  patch_handle, handle_patch_rig_handle, upsert, handle_upsert_wasteland, delete,
  handle_delete_wasteland, patch_settings, handle_patch_wasteland_settings, store_scope,
}

-- The changes of connections that a request makes: a redemption, and those of one scope.
pub data Write : Type 0 where
  redeeming : Write
  changing : Scope → Write

-- The four operations of the store that change the tables, in a request at `now`, keep `P`; of the
-- changes of connections, those that `May` allows.
pub record StoreKeeps (lib : Library) (mac : String → String) (o : Outside) (now : ℕ)
    (P : Tables → Type 0) (May : Write → Type 0) : Type 0 where
  pub nonce :
      (key_id nonce : String) (expires_at : ℕ) (s : Tables)
      → P s
      → P (use_service_nonce o key_id nonce now expires_at s).1
  pub create :
      (tenant environment token secret_mac subject : String) (m : UserMetadata) (expires_at : ℕ)
      → o.random_token ≡ some token
      → (s : Tables) → P s
      → P
          (create_connect_token lib o tenant environment
            (mac token)
            secret_mac
            subject
            m
            expires_at
            now
            s).1
  pub redeem :
      (input : RedeemInput)
      → May redeeming
      → validate_metadata input.metadata ≡ none
      → (s : Tables) → P s
      → P (redeem_connect_token lib o input s).1
  pub patch :
      (k : Scope) (expected : ℤ) (change : Change) (s : Tables)
      → May (changing k)
      → P s
      → P (patch_metadata_tx lib o k expected now change s).1

-- A handler, or a part of one, keeps `P`.
abbrev Keeps : (Tables → Type 0) → (Tables → Reply × Tables) → Type 0
Keeps P act = (s : Tables) → P s → P (act s).1

module _ (P : Tables → Type 0) where
  store_reply-keep : (x : Outcome Connection × Tables) → P x.1 → P (store_reply x).1
  unfolding store_reply
  store_reply-keep (ok conn, s) h = h
  store_reply-keep (err e, s) h = h

  unless_invalid-keep :
      (check : Option String) (act : Tables → Reply × Tables)
      → (check ≡ none → Keeps P act)
      → Keeps P (unless_invalid check act)
  unfolding unless_invalid
  unless_invalid-keep none act h s p = h refl s p
  unless_invalid-keep (some text) act h s p = p

  if-keep :
      (b : Bool) (s : Tables) (reply : Reply) (x : Reply × Tables)
      → P s
      → P x.1
      → P (if b then (reply, s) else x).1
  if-keep true s reply x p q = p
  if-keep false s reply x p q = q

module _ (lib : Library) (crypto : Crypto) (decode : Decoders) (cfg : Config) (o : Outside)
    (now : ℕ) (r : HttpRequest) (P : Tables → Type 0) (May : Write → Type 0)
    (keeps : StoreKeeps lib (decode.mac_sha256 cfg.token_pepper) o now P May) where
  admit-keep :
      (c : Bool) (body : String) (x : Outcome ServiceScope × Tables) → P x.1 → P (admit c body x).1
  unfolding admit
  admit-keep c body (err e, s) p = p
  admit-keep c body (ok scope, s) p = ground arith

  with_body-keep :
      (c : Bool) (b : Option String) (s : Tables)
      → P s
      → P (with_body lib crypto decode cfg o now r c b s).1
  unfolding with_body
  with_body-keep c none s p = p
  with_body-keep c (some body) s p =
      admit-keep c body (verify_service_request crypto cfg o now r body s)
        (verify-keep o now P keeps.nonce crypto cfg r body s p)

  pub auth-keep :
      (c : Bool) (s : Tables) → P s → P (require_service_auth lib crypto decode cfg o now r c s).1
  unfolding require_service_auth
  auth-keep c s p = with_body-keep c r.body s p

  minted-keep :
      (m : UserMetadata) (e : ℕ) (token secret : String) (x : Outcome (Unit {0}) × Tables)
      → P x.1
      → P (minted lib crypto decode cfg o now r m e token secret x).1
  unfolding minted
  minted-keep m e token secret (err f, s) p = p
  minted-keep m e token secret (ok u, s) p = p

  mint-keep :
      (req : CreateConnectTokenRequest) (token secret : Option String)
      → o.random_token ≡ token
      → Keeps P (mint lib crypto decode cfg o now r req token secret)
  unfolding mint
  mint-keep req none secret e s p = p
  mint-keep req (some token) none e s p = p
  mint-keep req (some token) (some secret) e s p =
      minted-keep _ _ _ _ _ (keeps.create _ _ token _ _ _ _ e s p)

  create_for-keep :
      (scope : ServiceScope) (req : Option CreateConnectTokenRequest)
      → Keeps P (create_for lib crypto decode cfg o now r scope req)
  unfolding create_for
  create_for-keep scope none s p = p
  create_for-keep scope (some req) s p = if-keep P _ s _ _ p (
      unless_invalid-keep P (validate_metadata req.metadata) _
        (λ _. mint-keep req o.random_token o.random_secret refl) s p)

  create_access-keep :
      (x : Access × Tables) → P x.1 → P (create_access lib crypto decode cfg o now r x).1
  unfolding create_access
  create_access-keep (denied reply, s) p = p
  create_access-keep (granted scope body, s) p = create_for-keep scope _ s p

  pub handle_create_connect_token-keep :
      Keeps P (handle_create_connect_token lib crypto decode cfg o now r)
  unfolding handle_create_connect_token
  handle_create_connect_token-keep s p =
      create_access-keep (require_service_auth lib crypto decode cfg o now r false s)
        (auth-keep false s p)

  redeem_reply-keep :
      (x : Outcome Connection × Tables) → P x.1 → P (redeem_reply lib crypto decode cfg o now r x).1
  unfolding redeem_reply
  redeem_reply-keep (err e, s) p = p
  redeem_reply-keep (ok conn, s) p = p

  redeem_for-keep :
      May redeeming
      → (req : Option RedeemConnectTokenRequest)
      → Keeps P (redeem_for lib crypto decode cfg o now r req)
  unfolding redeem_for redeem_input
  redeem_for-keep may none s p = p
  redeem_for-keep may (some req) s p = if-keep P _ s _ _ p (
      unless_invalid-keep P (validate_metadata req.metadata) _
        (λ valid s p. redeem_reply-keep _ (keeps.redeem _ may valid s p)) s p)

  redeem_body_of-keep :
      May redeeming → (b : Option String) → Keeps P (redeem_body_of lib crypto decode cfg o now r b)
  unfolding redeem_body_of
  redeem_body_of-keep may none s p = p
  redeem_body_of-keep may (some body) s p = redeem_for-keep may (decode.redeem_request body) s p

  pub handle_redeem_connect_token-keep :
      May redeeming → Keeps P (handle_redeem_connect_token lib crypto decode cfg o now r)
  unfolding handle_redeem_connect_token
  handle_redeem_connect_token-keep may s p = redeem_body_of-keep may r.body s p
