-- ===== src/Sdk/Client.antt =====
-- internal/sdk/sdk.go, reads.go and mutate.go: the client and what its operations return. A
-- callback that only reads is a function of the state; one that acts is a call. A request's context
-- is passed on as its strict-reads flag alone.
use wasteland.Base.{String, Bool, not, ◌&&◌, Option, List}
use wasteland.Commons.Types.{WantedItem, CompletionRecord, Stamp, Result}
use wasteland.Commons.Db.{Call, Db}
use wasteland.Commons.Lifecycle.{Transition}
use wasteland.Sdk.Pending.{PendingItem}

abbrev pub Pending : Type 0
Pending = List (String × List PendingItem)

abbrev pub Detail : Type 0
Detail = WantedItem × Option CompletionRecord × Option Stamp

pub record Client (S : Type 0) : Type 0 where
  pub db : Db S
  pub rig_handle : String
  pub upstream : String
  pub mode : String
  pub signing : Bool
  pub hop_uri : String
  pub no_push : Bool
  pub best_effort_pending_reads : Bool
  pub create_pr : Option (String → S → Result String × S)
  pub check_pr : Option (String → S → String)
  pub check_pr_context : Option (String → S → String)
  pub close_pr : Option (String → Call S)
  pub load_diff : Option (String → S → Result String)
  pub load_pending_item : Option (String → PendingItem → S → Result WantedItem)
  pub load_pending_item_context : Option (String → PendingItem → S → Result WantedItem)
  pub load_pending_detail : Option (String → PendingItem → S → Result Detail)
  pub load_pending_detail_context : Option (String → PendingItem → S → Result Detail)
  pub save_config : Option (String → Bool → Call S)
  pub list_pending_items : Option (S → Result Pending)
  pub list_pending_items_context : Option (S → Result Pending)
  pub branch_url : Option (String → String)
  pub close_upstream_pr : Option (String → Call S)

pub record DetailResult : Type 0 where
  pub item : Option WantedItem
  pub completion : Option CompletionRecord
  pub stamp : Option Stamp
  pub branch : String
  pub branch_url : String
  pub main_status : String
  pub pr_url : String
  pub delta : String
  pub actions : List Transition
  pub branch_actions : List String
  pub upstream_prs : List PendingItem
  pub pending_read_incomplete : Bool

-- `detail` is `none` when there is nothing left to show.
pub record MutationResult : Type 0 where
  pub detail : Option DetailResult
  pub branch : String
  pub hint : String

module _ {S : Type 0} where
  unfoldable pub with_rig_handle : Client S → String → Client S
  with_rig_handle c handle = record c { rig_handle = handle }

  -- Whether a failed read of pending items may be left out.
  unfoldable pub allow_best_effort_pending_read : Client S → Bool → Bool
  allow_best_effort_pending_read c strict = c.best_effort_pending_reads && not strict
