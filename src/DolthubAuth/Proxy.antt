-- ===== src/DolthubAuth/Proxy.antt =====
-- internal/dolthubauth/server.go: the proxy to DoltHub, without the other headers of its requests.
pub mod Keeps
pub mod Sent
use wasteland.Base.{
  if◌then◌else◌, trim_prefix, ℕ, String, ◌<>◌, Bool, true, Option, none, some, ◌==◌,
}
use wasteland.DolthubAuth.Types.{Outcome, ok, err, Connection}
use wasteland.DolthubAuth.Tables.{Tables, Outside}
use wasteland.DolthubAuth.Store.{Library}
use wasteland.DolthubAuth.Patch.{get_connection_credential}
use wasteland.DolthubAuth.Service.{Config, Crypto, HttpRequest, ServiceScope}
use wasteland.DolthubAuth.Requests.{Decoders, Reply, refused, store_error}
use wasteland.DolthubAuth.Server.{Access, denied, granted, require_service_auth, store_scope}

-- What is sent to DoltHub.
pub record ProxyRequest : Type 0 where
  pub method : String
  pub target : String
  pub authorization : String
  pub body : String

-- `http.NewRequestWithContext`, which refuses some methods and targets, and the client, which gives
-- the status and the body of an answer.
pub record ProxyClient : Type 0 where
  pub accepts : String → String → Bool
  pub send : ProxyRequest → Option (ℕ × String)

-- A reply of the service's own, before or after a request to DoltHub, or the answer to one.
pub data ProxyReply : Type 0 where
  own : Reply → ProxyReply
  unreachable : ProxyRequest → Reply → ProxyReply
  passed_on : ProxyRequest → ℕ → String → ProxyReply

-- What was sent to DoltHub, if anything was.
unfoldable pub sent : ProxyReply → Option ProxyRequest
sent (own reply) = none
sent (unreachable request reply) = some request
sent (passed_on request status text) = some request

answer_of : ProxyRequest → Option (ℕ × String) → ProxyReply
answer_of request none = unreachable request (refused 502 "upstream_unreachable" true)
answer_of request (some (status, text)) = passed_on request status text

module _ (lib : Library) (crypto : Crypto) (decode : Decoders) (cfg : Config) (o : Outside)
    (now : ℕ) (r : HttpRequest) (client : ProxyClient) (target : String) where
  proxied : String → Outcome (Connection × String) → ProxyReply
  unfolding answer_of store_error
  proxied body (err e) = own (store_error e)
  proxied body (ok (conn, api_key)) =
      let request : ProxyRequest = record {
        method = r.method;
        target = target;
        authorization = "token " <> api_key;
        body = body;
      } in
      if client.accepts r.method target
      then answer_of request (client.send request)
      else own (refused 500 "proxy_request_failed" true)

  proxy_access : Access × Tables → ProxyReply × Tables
  unfolding proxied get_connection_credential store_scope
  proxy_access (denied reply, s) = (own reply, s)
  proxy_access (granted scope body, s) =
      (proxied body (get_connection_credential lib o (store_scope scope scope.connection_id) s), s)

  unfoldable pub handle_proxy : Tables → ProxyReply × Tables
  unfolding proxy_access require_service_auth
  handle_proxy s = proxy_access (require_service_auth lib crypto decode cfg o now r true s)

with_query : String → String → String
with_query target raw_query = if raw_query == "" then target else target <> ("?" <> raw_query)

api_base : String
api_base = "https://www.dolthub.com/api/v1alpha1"

-- The target of `handleProxyAPI`.
pub api_target : HttpRequest → String
unfolding with_query trim_prefix api_base
api_target r =
    let path : String = trim_prefix "/" (trim_prefix "/v1/proxy/api" r.escaped_path) in
    with_query (if path == "" then api_base else api_base <> ("/" <> path)) r.raw_query

module _ (lib : Library) (crypto : Crypto) (decode : Decoders) (cfg : Config) (o : Outside)
    (now : ℕ) (r : HttpRequest) (client : ProxyClient) where
  unfoldable pub handle_proxy_api : Tables → ProxyReply × Tables
  unfolding handle_proxy api_target
  handle_proxy_api s = handle_proxy lib crypto decode cfg o now r client (api_target r) s

  unfoldable pub handle_proxy_graph_ql : Tables → ProxyReply × Tables
  unfolding handle_proxy
  handle_proxy_graph_ql s =
      handle_proxy lib crypto decode cfg o now r client "https://www.dolthub.com/graphql" s
