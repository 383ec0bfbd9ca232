-- ===== src/Sdk/Reads/Item.antt =====
-- internal/sdk/reads.go: the detail of an item in PR mode, where a branch of the rig or a pending
-- submission may stand for it, and the dispatch on the mode.
use wasteland.Base.{
  if◌then◌else◌, String, Bool, true, false, not, Option, none, some, List, [], ◌∷◌, ◌==◌,
}
use wasteland.Commons.Types.{WantedItem, Result, ok, err, ◌>>=◌}
use wasteland.Commons.Db.{Runtime}
use wasteland.Commons.Rows.{query_full_detail_ref, query_wanted_detail_ref}
use wasteland.Commons.Lifecycle.{available_transitions, compute_delta}
use wasteland.Commons.Queries.ItemState.{ItemState, effective, delta, resolve_item_state}
use wasteland.Commons.Queries.Dashboard.{DashboardData, query_my_dashboard_branch_aware}
use wasteland.Sdk.Pending.{PendingItem, best_from, with_upstream_submission_actions}
use wasteland.Sdk.Client.{Client, Detail, DetailResult, allow_best_effort_pending_read}
use wasteland.Sdk.Reads.{
  url_of, compute_branch_actions, fetch_upstream_prs, should_fetch_upstream_prs, detail_wild_west,
}

main_status_of : Option WantedItem → String
main_status_of none = ""
main_status_of (some m) = m.status

module _ {S : Type 0} (rt : Runtime) (c : Client S) where
  check_from : Option (String → S → String) → Option (String → S → String) → String → S → String
  check_from (some f) g branch s = f branch s
  check_from none (some g) branch s = g branch s
  check_from none none branch s = ""

  -- The PR of a branch, if there is a branch.
  pr_of : String → S → String
  unfolding check_from
  pr_of branch s =
      if not (branch == "") then check_from c.check_pr_context c.check_pr branch s else ""

  -- The pending submissions that a detail shows, and whether reading them failed.
  shown_submissions :
      Bool → Option WantedItem → Result (List PendingItem) → Result (List PendingItem × Bool)
  shown_submissions strict found (ok prs) = ok (prs, false)
  shown_submissions strict none (err e) = err e
  shown_submissions strict (some item) (err e) =
      if allow_best_effort_pending_read c strict then ok ([], true) else err e

  -- The detail of an item that a callback, or else the source branch, gives.
  load_pending_detail : String → PendingItem → S → Result Detail
  load_pending_detail wanted_id p s =
      let from_branch = query_full_detail_ref rt c.db wanted_id p.branch s in
      elim c.load_pending_detail_context [
        | some f ↦ elim (f wanted_id p s) [
          | ok d ↦ ok d
          | err e ↦ if rt.is_context_error e then err e else from_branch
        ]
        | none ↦ elim c.load_pending_detail [
          | some f ↦ elim (f wanted_id p s) [ ok d ↦ ok d | err e ↦ from_branch ]
          | none ↦ from_branch
        ]
      ]

  pending_result : PendingItem → List PendingItem → Detail → DetailResult
  pending_result best pending (item, completion, stamp) = record {
    item = some item;
    completion = completion;
    stamp = stamp;
    branch = best.branch;
    branch_url = best.branch_url;
    main_status = "";
    pr_url = best.pr_url;
    delta = compute_delta "" item.status true;
    actions = [];
    branch_actions = [];
    upstream_prs = pending;
    pending_read_incomplete = false;
  }

  unfoldable pub detail_from_pending :
      String → PendingItem → List PendingItem → S → Result DetailResult
  unfolding load_pending_detail pending_result best_from
  detail_from_pending wanted_id p ps s =
      let best = best_from p ps in
      if best.branch == ""
      then detail_wild_west rt c wanted_id s
      else do found ← load_pending_detail wanted_id best s; ok (pending_result best (p ∷ ps) found)

  effective_detail : ItemState → WantedItem → List PendingItem → Bool → S → DetailResult
  effective_detail state item prs incomplete s =
      let base : DetailResult = record {
        item = some item;
        completion = state.completion;
        stamp = state.stamp;
        branch = state.branch_name;
        branch_url = url_of c state.branch_name;
        main_status = main_status_of state.main;
        pr_url = pr_of state.branch_name s;
        delta = delta state;
        actions = available_transitions (some item) c.rig_handle;
        branch_actions = [];
        upstream_prs = prs;
        pending_read_incomplete = incomplete;
      } in
      record base {
        branch_actions = compute_branch_actions c base;
        actions = with_upstream_submission_actions c.rig_handle (some item) prs base.actions;
      }

  detail_of_state :
      String → ItemState → Option WantedItem → List PendingItem → Bool → S → Result DetailResult
  unfolding effective_detail
  detail_of_state wanted_id state (some item) prs incomplete s =
      ok (effective_detail state item prs incomplete s)
  detail_of_state wanted_id state none [] incomplete s = detail_wild_west rt c wanted_id s
  detail_of_state wanted_id state none (p ∷ ps) incomplete s = detail_from_pending wanted_id p ps s

  unfoldable pub detail_pr : Bool → String → S → Result DetailResult
  unfolding shown_submissions detail_of_state main_status_of pr_of
  detail_pr strict wanted_id s =
      let state = resolve_item_state rt c.db c.rig_handle wanted_id s in
      let found = effective state in
      let read = fetch_upstream_prs c wanted_id s in
      do
        (prs, incomplete) ←
            shown_submissions strict found
              (if should_fetch_upstream_prs state found then read else ok [])
        detail_of_state wanted_id state found prs incomplete s

  unfoldable pub detail : Bool → String → S → Result DetailResult
  detail strict wanted_id s =
      if c.mode == "pr" then detail_pr strict wanted_id s else detail_wild_west rt c wanted_id s

  unfoldable pub load_pending_browse_item : String → PendingItem → S → Result WantedItem
  load_pending_browse_item wanted_id p s =
      let from_branch = query_wanted_detail_ref rt c.db wanted_id p.branch s in
      elim c.load_pending_item_context [
        | some f ↦ elim (f wanted_id p s) [
          | ok d ↦ ok d
          | err e ↦ if rt.is_context_error e then err e else from_branch
        ]
        | none ↦ elim c.load_pending_item [
          | some f ↦ elim (f wanted_id p s) [ ok d ↦ ok d | err e ↦ from_branch ]
          | none ↦ from_branch
        ]
      ]

  unfoldable pub dashboard : S → Result DashboardData
  dashboard = query_my_dashboard_branch_aware rt c.db c.mode c.rig_handle
