-- ===== src/Sdk/Workspace.antt =====
-- internal/sdk/workspace.go: the clients of the upstreams that a rig has joined. Each function is
-- what one holder of the lock does; a client is of any type `C`.
pub mod Registry
use wasteland.Base.{
  get, put, delete_key, sort_by, text_less, String, Bool, Option, none, some, List, [], ◌∷◌, map,
}
use wasteland.Commons.Types.{lit, quoted, failed, Result, ok, err}

pub record UpstreamInfo : Type 0 where
  pub upstream : String
  pub fork_org : String
  pub fork_db : String
  pub mode : String

pub record Workspace (C : Type 0) : Type 0 where
  pub clients : List (String × C)
  pub info : List (String × UpstreamInfo)
  pub rig_handle : String

unfoldable pub by_upstream : UpstreamInfo → UpstreamInfo → Bool
unfolding text_less
by_upstream a b = text_less a.upstream b.upstream

module _ {C : Type 0} where
  unfoldable pub new_workspace : String → Workspace C
  new_workspace rig_handle = record { clients = []; info = []; rig_handle = rig_handle }

  unfoldable pub add : Workspace C → UpstreamInfo → C → Workspace C
  unfolding put
  add w info client = record w {
    clients = put info.upstream client w.clients;
    info = put info.upstream info w.info;
  }

  unfoldable pub remove : Workspace C → String → Workspace C
  unfolding delete_key
  remove w upstream = record w {
    clients = delete_key upstream w.clients;
    info = delete_key upstream w.info;
  }

  unfoldable pub client_or_error : String → Option C → Result C
  client_or_error upstream (some c) = ok c
  client_or_error upstream none =
      err (failed (lit "no client for upstream " ∷ quoted upstream ∷ []))

  unfoldable pub client : Workspace C → String → Result C
  unfolding client_or_error
  client w upstream = client_or_error upstream (get upstream w.clients)

  unfoldable pub upstreams : Workspace C → List UpstreamInfo
  unfolding sort_by by_upstream
  upstreams w = sort_by by_upstream (map (λ kv. kv.1) w.info)
