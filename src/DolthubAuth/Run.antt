-- ===== src/DolthubAuth/Run.antt =====
-- internal/dolthubauth/server.go: requests to the service, one after another.
use wasteland.Base.{ℕ, ◌≤◌, String, ◌≡◌, refl, true}
use wasteland.DolthubAuth.Tables.{Tables, Outside}
use wasteland.DolthubAuth.Store.{Library}
use wasteland.DolthubAuth.Service.{Config, Crypto, HttpRequest}
use wasteland.DolthubAuth.Requests.{Decoders}
use wasteland.DolthubAuth.Server.{
  require_service_auth, handle_create_connect_token, handle_redeem_connect_token,
  handle_get_connection, handle_patch_rig_handle, handle_upsert_wasteland, handle_delete_wasteland,
  handle_patch_wasteland_settings,
}
use wasteland.DolthubAuth.Proxy.{ProxyClient, handle_proxy_api, handle_proxy_graph_ql}
use wasteland.DolthubAuth.Proxy.Keeps.{handle_proxy_api-keep, handle_proxy_graph_ql-keep}
use wasteland.DolthubAuth.Server.Keeps.{
  Write, redeeming, StoreKeeps, handle_create_connect_token-keep, handle_redeem_connect_token-keep,
}
use wasteland.DolthubAuth.Server.Keeps.Changes.{
  Allows, handle_get_connection-keep, handle_patch_rig_handle-keep, handle_upsert_wasteland-keep,
  handle_delete_wasteland-keep, handle_patch_wasteland_settings-keep,
}

-- The routes of `NewServer`.
pub data Route : Type 0 where
  create redeem read_connection put_rig_handle put_wasteland remove_wasteland put_settings : Route
  proxy_api proxy_graph_ql : ProxyClient → Route

module _ (lib : Library) (crypto : Crypto) (decode : Decoders) (cfg : Config) where
  -- What a request leaves of the tables.
  unfoldable pub serve : Route → Outside → ℕ → HttpRequest → Tables → Tables
  serve create o now r s = (handle_create_connect_token lib crypto decode cfg o now r s).1
  serve redeem o now r s = (handle_redeem_connect_token lib crypto decode cfg o now r s).1
  serve read_connection o now r s = (handle_get_connection lib crypto decode cfg o now r s).1
  serve put_rig_handle o now r s = (handle_patch_rig_handle lib crypto decode cfg o now r s).1
  serve put_wasteland o now r s = (handle_upsert_wasteland lib crypto decode cfg o now r s).1
  serve remove_wasteland o now r s = (handle_delete_wasteland lib crypto decode cfg o now r s).1
  serve put_settings o now r s = (handle_patch_wasteland_settings lib crypto decode cfg o now r s).1
  serve (proxy_api client) o now r s = (handle_proxy_api lib crypto decode cfg o now r client s).1
  serve (proxy_graph_ql client) o now r s =
      (handle_proxy_graph_ql lib crypto decode cfg o now r client s).1

  -- Requests of any kind at times that do not go back, whatever the outside does; `Q` holds of the
  -- route, and of what the outside did, in each of them.
  pub data Run (Q : Route → Outside → Type 0) (s : Tables) (start : ℕ) : Tables → ℕ → Type 0 where
    begin : Run Q s start s start
    request :
        {s' : Tables} {t : ℕ}
        → Run Q s start s' t
        → (route : Route) (o : Outside) (now : ℕ) (r : HttpRequest) → t ≤ now
        → Q route o
        → Run Q s start (serve route o now r s') now

module _ (lib : Library) (crypto : Crypto) (decode : Decoders) (cfg : Config) (o : Outside)
    (now : ℕ) (P : Tables → Type 0) (May : Write → Type 0)
    (k : StoreKeeps lib (decode.mac_sha256 cfg.token_pepper) o now P May) (r : HttpRequest)
    (s : Tables) where
  -- What the operations of the store keep, a request keeps that is allowed its changes.
  pub serve_allowed-keep :
      (route : Route)
      → (route ≡ redeem → May redeeming)
      → Allows lib crypto decode cfg o now r P May k
          (require_service_auth lib crypto decode cfg o now r true s).0
      → P s
      → P (serve lib crypto decode cfg route o now r s)
  unfolding serve
  serve_allowed-keep create redeems allows =
      handle_create_connect_token-keep lib crypto decode cfg o now r P May k s
  serve_allowed-keep redeem redeems allows =
      handle_redeem_connect_token-keep lib crypto decode cfg o now r P May k (redeems refl) s
  serve_allowed-keep read_connection redeems allows =
      handle_get_connection-keep lib crypto decode cfg o now r P May k s allows
  serve_allowed-keep put_rig_handle redeems allows =
      handle_patch_rig_handle-keep lib crypto decode cfg o now r P May k s allows
  serve_allowed-keep put_wasteland redeems allows =
      handle_upsert_wasteland-keep lib crypto decode cfg o now r P May k s allows
  serve_allowed-keep remove_wasteland redeems allows =
      handle_delete_wasteland-keep lib crypto decode cfg o now r P May k s allows
  serve_allowed-keep put_settings redeems allows =
      handle_patch_wasteland_settings-keep lib crypto decode cfg o now r P May k s allows
  serve_allowed-keep (proxy_api client) redeems allows =
      handle_proxy_api-keep lib crypto decode cfg o now r client P May k s
  serve_allowed-keep (proxy_graph_ql client) redeems allows =
      handle_proxy_graph_ql-keep lib crypto decode cfg o now r client P May k s

-- All operations of the store keep `P`.
abbrev pub AllKeep : Library → (String → String) → Outside → ℕ → (Tables → Type 0) → Type 0
AllKeep lib mac o now P = StoreKeeps lib mac o now P (λ _. Unit {0})

pub serve-keep :
    (lib : Library) (crypto : Crypto) (decode : Decoders) (cfg : Config) (o : Outside) (now : ℕ)
    (P : Tables → Type 0)
    → AllKeep lib (decode.mac_sha256 cfg.token_pepper) o now P
    → (route : Route) (r : HttpRequest) (s : Tables) → P s
    → P (serve lib crypto decode cfg route o now r s)
serve-keep lib crypto decode cfg o now P k route r s p =
    serve_allowed-keep lib crypto decode cfg o now P (λ _. Unit) k r s route (λ _. tt)
      (λ _ _ _ _. tt) p
