-- ===== src/Sdk/Pending.antt =====
-- internal/sdk/reads.go and mutations.go: pending submissions from forks: which one stands for the
-- item, which one a selector means, and what they let a reviewer do.
pub mod Best
pub mod Selection
pub mod Actions
use wasteland.Base.{
  ltb, if◌then◌else◌, length, filter_by, concat, is_nonneg, int_eq, ℕ, ◌+◌, String, ◌<>◌, Bool,
  true, false, not, ◌&&◌, ◌||◌, Option, none, some, List, [], ◌∷◌, ◌==◌,
}
use wasteland.Commons.Types.{WantedItem, lit, failed, Result, ok, err}
use wasteland.Commons.Db.{Runtime}
use wasteland.Commons.Lifecycle.{
  claim, unclaim, done, delete, update, other, Transition, accept, close, reject, is_admin,
}
use wasteland.Commons.Queries.Browse.{BrowseFilter, WantedSummary, excludes, matches_search}
use text.Mathlib.Text.{starts_with}

pub record PendingItem : Type 0 where
  pub rig_handle : String
  pub status : String
  pub claimed_by : String
  pub branch : String
  pub branch_url : String
  pub pr_url : String
  pub fork_owner : String
  pub completed_by : String
  pub evidence : String

-- The map `stateRank`; a status that it lacks reads as 0.
unfoldable pub state_rank : String → ℕ
state_rank status =
    if status == "open"
    then 0
    else if status == "claimed"
    then 1
    else if status == "in_review"
    then 2
    else if status == "completed"
    then 3
    else 0

unfoldable pub allows_upstream_pending : String → Bool
allows_upstream_pending status = status == "open" || status == "claimed" || status == "in_review"

-- The loop of `bestPendingState`, from a first item.
unfoldable pub best_from : PendingItem → List PendingItem → PendingItem
best_from best [] = best
best_from best (p ∷ ps) =
    best_from (if ltb (state_rank best.status) (state_rank p.status) then p else best) ps

of_rig : String → String → PendingItem → Bool
of_rig prefix rig_handle p =
    starts_with p.branch prefix
    || (p.branch == "" && (p.rig_handle == rig_handle || p.claimed_by == rig_handle))

kept_for_rig : String → String → List (String × List PendingItem) → List (String × List PendingItem)
unfolding of_rig
kept_for_rig prefix rig_handle [] = []
kept_for_rig prefix rig_handle ((id, pending) ∷ rest) =
    let more = kept_for_rig prefix rig_handle rest in
    elim (filter_by (of_rig prefix rig_handle) pending) [ [] ↦ more | p ∷ ps ↦ (id, p ∷ ps) ∷ more ]

unfoldable pub filter_pending_items_for_rig :
    List (String × List PendingItem) → String → List (String × List PendingItem)
unfolding kept_for_rig
filter_pending_items_for_rig items rig_handle =
    kept_for_rig (concat ("wl/" ∷ rig_handle ∷ "/" ∷ [])) rig_handle items

-- Who the summary shows as the holder: `best` is the furthest of the pending items.
unfoldable pub overlay_claimed_by : WantedSummary → PendingItem → ℕ → String
overlay_claimed_by item best pending =
    if best.status == "open"
    then item.claimed_by
    else let candidates = if not (item.claimed_by == "") then pending + 1 else pending in
      if ltb 1 candidates
      then "Multiple (pending)"
      else if not (best.claimed_by == "")
      then best.claimed_by <> " (pending)"
      else if not (best.rig_handle == "")
      then best.rig_handle <> " (pending)"
      else item.claimed_by

-- `pending` is never empty where the code calls it.
unfoldable pub overlay_pending_claimed_by :
    WantedSummary → PendingItem → List PendingItem → WantedSummary
unfolding overlay_claimed_by best_from
overlay_pending_claimed_by item p ps = record item {
  claimed_by = overlay_claimed_by item (best_from p ps) (length (p ∷ ps));
}

unfoldable pub matches_pending_browse_filter :
    Runtime → WantedItem → String → String → BrowseFilter → Bool
matches_pending_browse_filter rt item status claimed_by f =
    if excludes f.status status
    then false
    else if excludes f.type item.type
    then false
    else if excludes f.project item.project
    then false
    else if is_nonneg f.priority && not (int_eq item.priority f.priority)
    then false
    else if excludes f.posted_by item.posted_by
    then false
    else if excludes f.claimed_by claimed_by
    then false
    else if not (f.search == "")
    then matches_search rt item f.search
    else true

pub record UpstreamSubmissionSelector : Type 0 where
  pub rig_handle : String
  pub pr_url : String

-- The first pending item at a PR, which must be of the selected rig if one is selected.
match_by_url : UpstreamSubmissionSelector → List PendingItem → Result PendingItem
match_by_url sel [] =
    if not (sel.rig_handle == "")
    then err (
        failed (
          lit "no pending submission from "
          ∷ lit sel.rig_handle
          ∷ lit " at "
          ∷ lit sel.pr_url
          ∷ []))
    else err (failed (lit "no pending submission at " ∷ lit sel.pr_url ∷ []))
match_by_url sel (p ∷ ps) =
    let rest = match_by_url sel ps in
    if not (p.pr_url == sel.pr_url)
    then rest
    else if not (sel.rig_handle == "") && not (p.rig_handle == sel.rig_handle)
    then err (failed (lit "pending submission selector mismatch for " ∷ lit sel.pr_url ∷ []))
    else ok p

single : String → List PendingItem → Result PendingItem
single rig_handle [] = err (failed (lit "no pending submission from " ∷ lit rig_handle ∷ []))
single rig_handle (p ∷ []) = ok p
single rig_handle (p ∷ q ∷ ps) = err (
    failed
      (lit "multiple pending submissions from " ∷ lit rig_handle ∷ lit "; select by pr_url" ∷ []))

unfoldable pub is_from : String → PendingItem → Bool
is_from rig_handle p = p.rig_handle == rig_handle

unfoldable pub match_upstream_submission :
    List PendingItem → UpstreamSubmissionSelector → Result PendingItem
unfolding match_by_url single
match_upstream_submission items sel =
    if not (sel.pr_url == "")
    then match_by_url sel items
    else if sel.rig_handle == ""
    then err (failed (lit "no pending submission selector provided" ∷ []))
    else single sel.rig_handle (filter_by (is_from sel.rig_handle) items)

-- Go's `==` on transitions.
unfoldable pub same_transition : Transition → Transition → Bool
same_transition claim claim = true
same_transition unclaim unclaim = true
same_transition done done = true
same_transition accept accept = true
same_transition reject reject = true
same_transition close close = true
same_transition delete delete = true
same_transition update update = true
same_transition (other m) (other n) = int_eq m n
same_transition _ _ = false

unfoldable pub append_transition_if_missing : List Transition → Transition → List Transition
append_transition_if_missing [] target = target ∷ []
append_transition_if_missing (a ∷ actions) target =
    let rest = append_transition_if_missing actions target in
    if same_transition a target then a ∷ actions else a ∷ rest

unfoldable pub any_in_review : List PendingItem → Bool
any_in_review [] = false
any_in_review (p ∷ ps) = p.status == "in_review" || any_in_review ps

unfoldable pub with_upstream_submission_actions :
    String → Option WantedItem → List PendingItem → List Transition → List Transition
unfolding any_in_review
with_upstream_submission_actions rig_handle none upstream_prs actions = actions
with_upstream_submission_actions rig_handle (some item) [] actions = actions
with_upstream_submission_actions rig_handle (some item) (p ∷ ps) actions =
    if not (item.posted_by == rig_handle) && not (is_admin rig_handle)
    then actions
    else append_transition_if_missing
        (if any_in_review (p ∷ ps)
          then append_transition_if_missing (append_transition_if_missing actions accept) close
          else actions)
        reject
