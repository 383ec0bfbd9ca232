-- ===== src/DolthubAuth/Proxy/Keeps.antt =====
-- internal/dolthubauth/server.go: the proxy changes the tables as the check of its request does.
use wasteland.Base.{ℕ, String, true}
use wasteland.DolthubAuth.Tables.{Tables, Outside}
use wasteland.DolthubAuth.Store.{Library}
use wasteland.DolthubAuth.Service.{Config, Crypto, HttpRequest}
use wasteland.DolthubAuth.Requests.{Decoders}
use wasteland.DolthubAuth.Server.{Access, denied, granted, require_service_auth}
use wasteland.DolthubAuth.Server.Keeps.{Write, StoreKeeps, auth-keep}
use wasteland.DolthubAuth.Proxy.{
  ProxyClient, proxy_access, handle_proxy, handle_proxy_api, handle_proxy_graph_ql,
}

module _ (lib : Library) (crypto : Crypto) (decode : Decoders) (cfg : Config) (o : Outside)
    (now : ℕ) (r : HttpRequest) (client : ProxyClient) (P : Tables → Type 0) (May : Write → Type 0)
    (keeps : StoreKeeps lib (decode.mac_sha256 cfg.token_pepper) o now P May) where
  access-keep :
      (target : String) (x : Access × Tables)
      → P x.1
      → P (proxy_access lib crypto decode cfg o now r client target x).1
  unfolding proxy_access
  access-keep target (denied reply, s) p = p
  access-keep target (granted scope body, s) p = p

  proxy-keep :
      (target : String) (s : Tables)
      → P s
      → P (handle_proxy lib crypto decode cfg o now r client target s).1
  unfolding handle_proxy
  proxy-keep target s p =
      access-keep target (require_service_auth lib crypto decode cfg o now r true s)
        (auth-keep lib crypto decode cfg o now r P May keeps true s p)

  pub handle_proxy_api-keep :
      (s : Tables) → P s → P (handle_proxy_api lib crypto decode cfg o now r client s).1
  unfolding handle_proxy_api
  handle_proxy_api-keep s p = proxy-keep _ s p

  pub handle_proxy_graph_ql-keep :
      (s : Tables) → P s → P (handle_proxy_graph_ql lib crypto decode cfg o now r client s).1
  unfolding handle_proxy_graph_ql
  handle_proxy_graph_ql-keep s p = proxy-keep _ s p
