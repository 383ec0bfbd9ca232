-- ===== src/DolthubAuth/Proxy/Sent.antt =====
-- internal/dolthubauth/server.go: what the proxy sends to DoltHub, and for whom.
use wasteland.Base.{ℕ, String, ◌<>◌, ◌≡◌, true, some}
use text.Mathlib.Text.{starts_with}
use wasteland.DolthubAuth.Types.{ok, Connection}
use wasteland.DolthubAuth.Tables.{Tables, Outside}
use wasteland.DolthubAuth.Store.{Library}
use wasteland.DolthubAuth.Patch.{get_connection_credential}
use wasteland.DolthubAuth.Service.{
  Config, Crypto, HttpRequest, ServiceScope, verify_service_request,
}
use wasteland.DolthubAuth.Requests.{Decoders}
use wasteland.DolthubAuth.Server.{store_scope}
use wasteland.DolthubAuth.Proxy.{ProxyRequest, ProxyClient, api_base}

HasBase : String → Type 0
unfolding api_base
HasBase target = starts_with target api_base ≡ true

module _ (lib : Library) (crypto : Crypto) (decode : Decoders) (cfg : Config) (o : Outside)
    (now : ℕ) (r : HttpRequest) (client : ProxyClient) where
  -- A request to DoltHub that stands for one to the service: the service's is signed for a scope,
  -- and the credential that is sent is the one of that scope's connection.
  pub record StandsFor (s : Tables) (target : String) (q : ProxyRequest) : Type 0 where
    pub scope : ServiceScope
    pub conn : Connection
    pub api_key : String
    pub received : r.body ≡ some q.body
    pub verified : (verify_service_request crypto cfg o now r q.body s).0 ≡ ok scope
    pub credential :
        get_connection_credential lib o
          (store_scope scope scope.connection_id)
          (verify_service_request crypto cfg o now r q.body s).1
        ≡ ok (conn, api_key)
    pub same_subject : conn.subject_id ≡ scope.subject_id
    pub same_connection : conn.connection_id ≡ scope.connection_id
    pub authorization : q.authorization ≡ "token " <> api_key
    pub method : q.method ≡ r.method
    pub target_of : q.target ≡ target

  module _ (target : String) (q : ProxyRequest) where
    request_for : String → String → ProxyRequest
    request_for key body = record {
      method = r.method;
      target = target;
      authorization = "token " <> key;
      body = body;
    }
