-- ===== src/Sdk/Reads.antt =====
-- internal/sdk/reads.go: the operations on the branch of an item, the pending submissions for it, and
-- its detail when it is read from main.
pub mod Item
pub mod Browse
pub mod Operations
use wasteland.Base.{
  if◌then◌else◌, get, String, Bool, true, false, not, ◌||◌, Option, none, some, List, [], ◌∷◌, ◌++◌,
  ◌==◌,
}
use wasteland.Commons.Types.{WantedItem, Result, ok, err, ◌>>=◌}
use wasteland.Commons.Db.{Runtime}
use wasteland.Commons.Rows.{query_full_detail_ref}
use wasteland.Commons.Lifecycle.{Transition, available_transitions, transition_name}
use wasteland.Commons.Queries.ItemState.{ItemState, delta}
use wasteland.Sdk.Pending.{PendingItem, allows_upstream_pending, with_upstream_submission_actions}
use wasteland.Sdk.Client.{Client, Pending, Detail, DetailResult}

-- `ComputeBranchActions`.
unfoldable pub branch_actions_for : String → String → String → String → Bool → List String
branch_actions_for mode branch delta pr_url has_delete =
    if branch == "" || delta == ""
    then []
    else if mode == "pr"
    then (if pr_url == "" then "submit_pr" ∷ [] else [])
      ++ (if not has_delete then "discard" ∷ [] else [])
    else if mode == "wild-west"
    then "apply" ∷ (if not has_delete then "discard" ∷ [] else [])
    else []

has_delete_action : List Transition → Bool
has_delete_action [] = false
has_delete_action (a ∷ actions) = transition_name a == "delete" || has_delete_action actions

unfoldable pub should_fetch_upstream_prs : ItemState → Option WantedItem → Bool
should_fetch_upstream_prs state found = elim state.main [
  | some m ↦ allows_upstream_pending m.status
  | none ↦ elim found [ some item ↦ allows_upstream_pending item.status | none ↦ true ]
]

module _ {S : Type 0} (c : Client S) where
  -- The method `computeBranchActions`.
  unfoldable pub compute_branch_actions : DetailResult → List String
  unfolding has_delete_action
  compute_branch_actions r =
      branch_actions_for c.mode r.branch r.delta r.pr_url (has_delete_action r.actions)

  list_from : Option (S → Result Pending) → Option (S → Result Pending) → S → Result Pending
  list_from (some f) g s = f s
  list_from none (some g) s = g s
  list_from none none s = ok []

  unfoldable pub list_pending_items : S → Result Pending
  unfolding list_from
  list_pending_items = list_from c.list_pending_items_context c.list_pending_items

  unfoldable pub can_list_pending_items : Bool
  can_list_pending_items = elim c.list_pending_items_context [
    | some f ↦ true
    | none ↦ elim c.list_pending_items [ some g ↦ true | none ↦ false ]
  ]

  -- What a missing key reads as.
  unfoldable pub pending_of : String → Pending → List PendingItem
  pending_of id items = elim (get id items) [ none ↦ [] | some ps ↦ ps ]

  unfoldable pub fetch_upstream_prs : String → S → Result (List PendingItem)
  unfolding list_pending_items pending_of
  fetch_upstream_prs wanted_id s = do items ← list_pending_items s; ok (pending_of wanted_id items)

  -- The web address of a branch, if there is a branch.
  unfoldable pub url_of : String → String
  url_of branch = if branch == "" then "" else elim c.branch_url [ none ↦ "" | some f ↦ f branch ]

  primary_detail : Detail → List Transition → List PendingItem → Bool → DetailResult
  primary_detail (item, completion, stamp) actions upstream_prs incomplete = record {
    item = some item;
    completion = completion;
    stamp = stamp;
    branch = "";
    branch_url = "";
    main_status = "";
    pr_url = "";
    delta = "";
    actions = actions;
    branch_actions = [];
    upstream_prs = upstream_prs;
    pending_read_incomplete = incomplete;
  }

  -- The detail once the pending submissions are read; that they cannot be read is no error here.
  with_submissions : Detail → Result (List PendingItem) → DetailResult
  unfolding primary_detail
  with_submissions (item, completion, stamp) (ok prs) =
      primary_detail (item, completion, stamp)
        (with_upstream_submission_actions c.rig_handle (some item) prs
          (available_transitions (some item) c.rig_handle))
        prs false
  with_submissions (item, completion, stamp) (err e) =
      primary_detail (item, completion, stamp) (available_transitions (some item) c.rig_handle) []
        true

  detail_of_main : String → S → Detail → DetailResult
  unfolding with_submissions primary_detail fetch_upstream_prs
  detail_of_main wanted_id s (item, completion, stamp) =
      if not (allows_upstream_pending item.status)
      then primary_detail (item, completion, stamp) (available_transitions (some item) c.rig_handle)
          [] false
      else with_submissions (item, completion, stamp) (fetch_upstream_prs wanted_id s)

module _ {S : Type 0} (rt : Runtime) (c : Client S) where
  unfoldable pub detail_wild_west : String → S → Result DetailResult
  unfolding detail_of_main
  detail_wild_west wanted_id s = do
    found ← query_full_detail_ref rt c.db wanted_id "" s
    ok (detail_of_main c wanted_id s found)
