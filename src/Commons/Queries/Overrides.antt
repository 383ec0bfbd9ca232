-- ===== src/Commons/Queries/Overrides.antt =====
-- internal/commons/queries.go and dolt.go: the items whose state on a mutation branch differs from
-- main, and a board on which those states stand in place of main's.
pub mod Detect
pub mod Apply
pub mod ById
pub mod Followed
use wasteland.Base.{
  if◌then◌else◌, get, put, member, count_of, concat, trim_prefix, cut_after, ℕ, ◌+◌, String, Bool,
  not, ◌||◌, Option, none, some, List, [], ◌∷◌, ◌++◌, ◌==◌,
}
use wasteland.Commons.Types.{WantedItem, Result, ok, err}
use wasteland.Commons.Db.{Db, Runtime}
use wasteland.Commons.Sql.{escape_sql}
use wasteland.Commons.Rows.{Row, column, parse_simple_csv, item_status, query_wanted_detail_ref}
use wasteland.Commons.Queries.Browse.{
  BrowseFilter, WantedSummary, excludes, matches_browse_filter, browse_wanted,
}

unfoldable pub branch_name : String → String → String
branch_name rig_handle wanted_id = concat ("wl/" ∷ rig_handle ∷ "/" ∷ wanted_id ∷ [])

pub record BranchOverride : Type 0 where
  pub wanted_id : String
  pub branch : String
  pub status : String
  pub claimed_by : String

state_of_rows : List Row → String × String
state_of_rows [] = ("", "")
state_of_rows (row ∷ rows) = (column row "status", column row "claimed_by")

list_of : Result (List String) → List String
list_of (ok xs) = xs
list_of (err e) = []

-- Whether a branch changes an item, and the override if it does.
override_of : String → String → String × String → String → Option BranchOverride
override_of wanted_id branch (branch_status, branch_claimed_by) main_status =
    if branch_status == ""
    then none
    else if not (branch_status == main_status)
    then some (record {
      wanted_id = wanted_id;
      branch = branch;
      status = branch_status;
      claimed_by = branch_claimed_by;
    })
    else none

pub cons_some : {A : Type 0} → Option A → List A → List A
cons_some none xs = xs
cons_some (some x) xs = x ∷ xs

-- The item of a branch `wl/{rig}/{item}`.
branch_item : String → Option String
branch_item branch = elim (cut_after b'/' (trim_prefix "wl/" branch)) [
  | none ↦ none
  | some id ↦ if id == "" then none else some id
]

take_override :
    String
    → List String
    → List (String × ℕ)
    → Option BranchOverride
    → Option BranchOverride × List String × List (String × ℕ)
take_override id seen counts none = (none, seen, counts)
take_override id seen counts (some o) = (some o, id ∷ seen, counts)

module _ {S : Type 0} (rt : Runtime) (db : Db S) where
  unfoldable pub query_item_branch_state : String → String → S → String × String
  unfolding state_of_rows
  query_item_branch_state wanted_id branch s =
      elim (db.query
        (concat (
          "SELECT status, COALESCE(claimed_by,'') AS claimed_by FROM wanted WHERE id = '"
          ∷ escape_sql wanted_id
          ∷ "'"
          ∷ []))
        branch s) [ ok out ↦ state_of_rows (parse_simple_csv rt out) | err e ↦ ("", "") ]

  -- The override of one branch for one item.
  unfoldable pub branch_override : S → String → String → Option BranchOverride
  unfolding override_of
  branch_override s wanted_id branch =
      override_of wanted_id branch (query_item_branch_state wanted_id branch s)
        (item_status rt db wanted_id "" s)

  overrides_of : S → String → List String → List BranchOverride
  unfolding cons_some
  overrides_of s prefix [] = []
  overrides_of s prefix (branch ∷ rest) =
      cons_some (branch_override s (trim_prefix prefix branch) branch) (overrides_of s prefix rest)

  unfoldable pub detect_branch_overrides : String → S → List BranchOverride
  unfolding list_of overrides_of
  detect_branch_overrides rig_handle s =
      let prefix = concat ("wl/" ∷ rig_handle ∷ "/" ∷ []) in
      overrides_of s prefix (list_of (db.branches prefix s))

  -- One round of `DetectAllBranchOverrides`: the override, the items seen, and the counts. A branch
  -- with no item is passed over, and so, once counted, is one of an item that has its override.
  step_item :
      S
      → List String
      → List (String × ℕ)
      → String
      → Option String
      → Option BranchOverride × List String × List (String × ℕ)
  step_item s seen counts branch none = (none, seen, counts)
  step_item s seen counts branch (some id) =
      let counts' = put id (count_of id counts + 1) counts in
      if member id seen
      then (none, seen, counts')
      else take_override id seen counts' (branch_override s id branch)

  all_step :
      S
      → List String
      → List (String × ℕ)
      → String
      → Option BranchOverride × List String × List (String × ℕ)
  unfolding step_item
  all_step s seen counts branch = step_item s seen counts branch (branch_item branch)

  all_loop :
      S → List String → List (String × ℕ) → List String → List BranchOverride × List (String × ℕ)
  unfolding all_step cons_some
  all_loop s seen counts [] = ([], counts)
  all_loop s seen counts (branch ∷ rest) =
      let (o, seen', counts') = all_step s seen counts branch in
      let r = all_loop s seen' counts' rest in (cons_some o r.0, r.1)

  unfoldable pub detect_all_branch_overrides : S → List BranchOverride × List (String × ℕ)
  unfolding list_of all_loop branch_item take_override
  detect_all_branch_overrides s = all_loop s [] [] (list_of (db.branches "wl/" s))

-- The map from items to overrides: a later override of an item replaces an earlier one.
by_id_from : List (String × BranchOverride) → List BranchOverride → List (String × BranchOverride)
by_id_from m [] = m
by_id_from m (o ∷ os) = by_id_from (put o.wanted_id o m) os

unfoldable pub overrides_by_id : List BranchOverride → List (String × BranchOverride)
unfolding by_id_from
overrides_by_id os = by_id_from [] os

-- An override's status always stands; its holder does if it has one.
unfoldable pub overridden : BranchOverride → WantedSummary → WantedSummary
overridden o item = record item {
  status = o.status;
  claimed_by = if not (o.claimed_by == "") then o.claimed_by else item.claimed_by;
}

-- A summary with its override, and whether it stays: only an overridden item can be dropped.
unfoldable pub kept_item :
    (String → Bool) → List (String × BranchOverride) → WantedSummary → Option WantedSummary
unfolding overridden
kept_item drops by_id item = elim (get item.id by_id) [
  | none ↦ some item
  | some o ↦ if drops o.status then none else some (overridden o item)
]

unfoldable pub kept_items :
    (String → Bool) → List (String × BranchOverride) → List WantedSummary → List WantedSummary
unfolding kept_item cons_some
kept_items drops by_id [] = []
kept_items drops by_id (item ∷ items) =
    cons_some (kept_item drops by_id item) (kept_items drops by_id items)

-- The items that the first loop marks as applied.
unfoldable pub applied_ids : List (String × BranchOverride) → List WantedSummary → List String
applied_ids by_id [] = []
applied_ids by_id (item ∷ items) =
    let rest = applied_ids by_id items in
    elim (get item.id by_id) [ none ↦ rest | some o ↦ item.id ∷ rest ]

-- An item as it is on its branch, or on main if the branch does not have it, with the override.
with_override : BranchOverride → WantedItem → WantedItem
with_override o item = record item {
  status = o.status;
  claimed_by = if not (o.claimed_by == "") then o.claimed_by else item.claimed_by;
}

summary_of : WantedItem → WantedSummary
summary_of item = record {
  id = item.id;
  title = item.title;
  description = item.description;
  project = item.project;
  type = item.type;
  priority = item.priority;
  posted_by = item.posted_by;
  claimed_by = item.claimed_by;
  status = item.status;
  effort_level = item.effort_level;
}

or_else : {A : Type 0} → Result A → Result A → Result A
or_else (ok a) r = ok a
or_else (err e) r = r

module _ {S : Type 0} (rt : Runtime) (db : Db S) (s : S) where
  -- The summary that an override adds, if the effective item passes the test.
  added_item : (WantedItem → Bool) → BranchOverride → Option WantedSummary
  unfolding or_else with_override summary_of
  added_item matches o =
      elim (or_else (query_wanted_detail_ref rt db o.wanted_id o.branch s)
        (query_wanted_detail_ref rt db o.wanted_id "" s)) [
          | err e ↦ none
          | ok item ↦
              let effective = with_override o item in
              if matches effective then some (summary_of effective) else none
        ]

  unfoldable pub added_items :
      (String → Bool) → (WantedItem → Bool) → List String → List BranchOverride → List WantedSummary
  unfolding added_item cons_some
  added_items drops matches applied [] = []
  added_items drops matches applied (o ∷ os) =
      let rest = added_items drops matches applied os in
      if member o.wanted_id applied || drops o.status
      then rest
      else cons_some (added_item matches o) rest

  unfoldable pub apply_branch_overrides :
      List WantedSummary → List BranchOverride → BrowseFilter → List WantedSummary
  unfolding kept_items applied_ids added_items overrides_by_id
  apply_branch_overrides items [] f = items
  apply_branch_overrides items (o ∷ os) f =
      let by_id = overrides_by_id (o ∷ os) in
      let drops = excludes f.status in
      kept_items drops by_id items
      ++ added_items drops (λ item. matches_browse_filter rt item f) (applied_ids by_id items)
          (o ∷ os)

ones : List BranchOverride → List (String × ℕ) → List (String × ℕ)
ones [] m = m
ones (o ∷ os) m = ones os (put o.wanted_id 1 m)

module _ {S : Type 0} (rt : Runtime) (db : Db S) (mode rig_handle : String) (f : BrowseFilter)
    (s : S) (items : List WantedSummary) where
  overlay_all : List BranchOverride × List (String × ℕ) → List WantedSummary × List (String × ℕ)
  overlay_all (overrides, counts) = (apply_branch_overrides rt db s items overrides f, counts)

  overlay_mine : List BranchOverride → List WantedSummary × List (String × ℕ)
  unfolding ones
  overlay_mine overrides = (apply_branch_overrides rt db s items overrides f, ones overrides [])

  -- The overlay that the mode and the view ask for.
  overlay : List WantedSummary × List (String × ℕ)
  unfolding overlay_all overlay_mine
  overlay =
      if not (mode == "pr") || f.view == "upstream"
      then (items, [])
      else if f.view == "all"
      then overlay_all (detect_all_branch_overrides rt db s)
      else overlay_mine (detect_branch_overrides rt db rig_handle s)

unfoldable pub browse_wanted_branch_aware :
    {S : Type 0}
    → Runtime
    → Db S
    → String
    → String
    → BrowseFilter
    → S
    → Result (List WantedSummary × List (String × ℕ))
unfolding overlay
browse_wanted_branch_aware rt db mode rig_handle f s = elim (browse_wanted rt db f s) [
  | ok items ↦ ok (overlay rt db mode rig_handle f s items)
  | err e ↦ err e
]
