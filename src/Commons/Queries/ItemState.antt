-- ===== src/Commons/Queries/ItemState.antt =====
-- internal/commons/queries.go: an item across main and its mutation branch.
pub mod Versions
use wasteland.Base.{
  if◌then◌else◌, member, String, Bool, true, false, not, ◌||◌, Option, none, some, List, ◌==◌,
}
use wasteland.Commons.Types.{WantedItem, CompletionRecord, Stamp, Result, ok, err}
use wasteland.Commons.Db.{Db, Runtime}
use wasteland.Commons.Rows.{query_full_detail_ref}
use wasteland.Commons.Lifecycle.{compute_delta}
use wasteland.Commons.Queries.Overrides.{branch_name, query_item_branch_state}

pub record ItemState : Type 0 where
  pub wanted_id : String
  pub main : Option WantedItem
  pub branch : Option WantedItem
  pub branch_name : String
  pub completion : Option CompletionRecord
  pub stamp : Option Stamp

first_of_two : {A : Type 0} → Option A → Option A → Option A
first_of_two (some a) b = some a
first_of_two none b = b

unfoldable pub effective : ItemState → Option WantedItem
unfolding first_of_two
effective state = first_of_two state.branch state.main

abbrev status_or_empty : Option WantedItem → String
status_or_empty none = ""
status_or_empty (some item) = item.status

unfoldable pub effective_status : ItemState → String
unfolding effective
effective_status state = status_or_empty (effective state)

branch_delta : String → Option WantedItem → String
branch_delta main_status none = ""
branch_delta main_status (some item) = compute_delta main_status item.status true

unfoldable pub delta : ItemState → String
unfolding branch_delta
delta state = branch_delta (status_or_empty state.main) state.branch

abbrev pub Detail : Type 0
Detail = WantedItem × Option CompletionRecord × Option Stamp

-- The state when the branch gave no item: the completion and stamp are main's, in the two statuses
-- that have them.
main_state : String → String → Result Detail → ItemState
main_state wanted_id branch (err e) = record {
  wanted_id = wanted_id;
  main = none;
  branch = none;
  branch_name = branch;
  completion = none;
  stamp = none;
}
main_state wanted_id branch (ok (item, completion, stamp)) = record {
  wanted_id = wanted_id;
  main = some item;
  branch = none;
  branch_name = branch;
  completion =
      if item.status == "in_review" || item.status == "completed" then completion else none;
  stamp = if item.status == "in_review" || item.status == "completed" then stamp else none;
}

-- The state when it did.
branch_state : ItemState → Result Detail → ItemState
branch_state state (err e) = state
branch_state state (ok (item, completion, stamp)) = record state {
  branch = some item;
  completion = completion;
  stamp = stamp;
}

-- Whether the listed branches hold the very branch.
listed : String → Result (List String) → Bool
listed branch (ok branches) = member branch branches
listed branch (err e) = false

module _ {S : Type 0} (rt : Runtime) (db : Db S) where
  -- A branch that is not listed is probed for data.
  unfoldable pub find_branch_for_item : String → String → S → String
  unfolding listed
  find_branch_for_item rig_handle wanted_id s =
      let branch = branch_name rig_handle wanted_id in
      if listed branch (db.branches branch s)
      then branch
      else if not ((query_item_branch_state rt db wanted_id branch s).0 == "")
      then branch
      else ""

  -- It never returns an error.
  unfoldable pub resolve_item_state : String → String → S → ItemState
  unfolding main_state branch_state
  resolve_item_state rig_handle wanted_id s =
      let branch = find_branch_for_item rig_handle wanted_id s in
      let state = main_state wanted_id branch (query_full_detail_ref rt db wanted_id "" s) in
      if not (branch == "")
      then branch_state state (query_full_detail_ref rt db wanted_id branch s)
      else state
