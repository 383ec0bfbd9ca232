-- ===== src/Sdk/Reads/Browse.antt =====
-- internal/sdk/reads.go: the board as the client shows it, with the submissions of other rigs that
-- are pending laid over it.
use wasteland.Base.{
  if◌then◌else◌, length, get, put, member, count_of, ℕ, ◌+◌, String, Bool, not, ◌||◌, Option, none,
  some, List, [], ◌∷◌, ◌++◌, map, ◌==◌,
}
use wasteland.Commons.Types.{WantedItem, Result, ok, err, ◌>>=◌}
use wasteland.Commons.Db.{Runtime}
use wasteland.Commons.Rows.{query_item_status}
use wasteland.Commons.Queries.Browse.{BrowseFilter, WantedSummary}
use wasteland.Commons.Queries.Overrides.{browse_wanted_branch_aware}
use wasteland.Sdk.Pending.{
  PendingItem, allows_upstream_pending, best_from, filter_pending_items_for_rig,
  overlay_pending_claimed_by, matches_pending_browse_filter,
}
use wasteland.Sdk.Client.{Client, Pending, allow_best_effort_pending_read}
use wasteland.Sdk.Reads.{list_pending_items, can_list_pending_items, pending_of}
use wasteland.Sdk.Reads.Item.{load_pending_browse_item}

pub record BrowseResult : Type 0 where
  pub items : List WantedSummary
  pub pending_ids : List (String × ℕ)
  pub upstream_pending : Pending

-- What the two loops carry; `visibility` is the map `pendingVisibility`.
pub record Overlay : Type 0 where
  pub pending_ids : List (String × ℕ)
  pub upstream_pending : Pending
  pub visibility : List (String × Bool)

unfoldable pub view_of : String → BrowseFilter → String
view_of mode f = if f.view == "" then (if mode == "pr" then "mine" else "all") else f.view

-- A submission of an item is shown, and counted.
unfoldable pub shown : String → List PendingItem → List PendingItem → Overlay → Overlay
shown id entry pending o = record o {
  upstream_pending = put id entry o.upstream_pending;
  pending_ids = put id (count_of id o.pending_ids + length pending) o.pending_ids;
}

-- The summary of an item that only a branch has.
unfoldable pub summary_of : WantedItem → PendingItem → WantedSummary
summary_of item best = record {
  id = item.id;
  title = item.title;
  description = item.description;
  project = item.project;
  type = item.type;
  priority = item.priority;
  posted_by = item.posted_by;
  claimed_by = item.claimed_by;
  status = best.status;
  effort_level = item.effort_level;
}

-- All pending submissions, and those that the view lets stand for an item.
unfoldable pub visible_of : String → String → Pending → Pending × Pending
visible_of view rig_handle upstream = (
  upstream,
  if view == "mine" then filter_pending_items_for_rig upstream rig_handle else upstream,
)

unfoldable pub ids_of : List WantedSummary → List String
ids_of items = map (λ item. item.id) items

module _ {S : Type 0} (rt : Runtime) (c : Client S) where
  -- `pendingAllowed`, which remembers its answers.
  unfoldable pub pending_allowed : String → String → Overlay → S → Result (Bool × Overlay)
  pending_allowed id fallback o s = elim (get id o.visibility) [
    | some allowed ↦ ok (allowed, o)
    | none ↦ (do
      (status, found) ← query_item_status rt c.db id "" s
      let allowed = allows_upstream_pending (if found then status else fallback)
      ok (allowed, record o { visibility = put id allowed o.visibility }))
  ]

  -- The first loop: the holders that pending submissions give to the items of the board.
  unfoldable pub overlay_item :
      WantedSummary → List PendingItem → Overlay → S → Result (WantedSummary × Overlay)
  unfolding pending_allowed shown
  overlay_item item [] o s = ok (item, o)
  overlay_item item (p ∷ ps) o s = do
    (allowed, o') ← pending_allowed item.id item.status o s
    ok (
        if allowed
        then (overlay_pending_claimed_by item p ps, shown item.id (p ∷ ps) (p ∷ ps) o')
        else (item, o'))

  unfoldable pub overlay_items :
      Pending → List WantedSummary → Overlay → S → Result (List WantedSummary × Overlay)
  unfolding overlay_item
  overlay_items upstream [] o s = ok ([], o)
  overlay_items upstream (item ∷ items) o s = do
    (item', o') ← overlay_item item (pending_of c item.id upstream) o s
    (rest, o'') ← overlay_items upstream items o' s
    ok (item' ∷ rest, o'')

  -- An item that stands on the branch of a submission only, once it is loaded.
  unfoldable pub branch_item :
      BrowseFilter
      → Pending
      → String
      → PendingItem
      → List PendingItem
      → WantedItem
      → Overlay
      → Option WantedSummary × Overlay
  unfolding summary_of shown
  branch_item f upstream id p ps item o =
      let best = best_from p ps in
      if matches_pending_browse_filter rt item best.status best.claimed_by f
      then (
        some (overlay_pending_claimed_by (summary_of item best) p ps),
        shown id (pending_of c id upstream) (p ∷ ps) o,
      )
      else (none, o)

  -- An item that does not load is left out, if the client may read on.
  unfoldable pub loaded_item :
      Bool
      → BrowseFilter
      → Pending
      → String
      → PendingItem
      → List PendingItem
      → Overlay
      → Result WantedItem
      → Result (Option WantedSummary × Overlay)
  unfolding branch_item
  loaded_item strict f upstream id p ps o (ok item) = ok (branch_item f upstream id p ps item o)
  loaded_item strict f upstream id p ps o (err e) =
      if allow_best_effort_pending_read c strict then ok (none, o) else err e

  unfoldable pub branch_only :
      Bool
      → BrowseFilter
      → Pending
      → List String
      → String
      → List PendingItem
      → Overlay
      → S
      → Result (Option WantedSummary × Overlay)
  unfolding pending_allowed loaded_item
  branch_only strict f upstream seen id [] o s = ok (none, o)
  branch_only strict f upstream seen id (p ∷ ps) o s =
      let best = best_from p ps in
      if member id seen || best.branch == "" then ok (none, o) else (do
        (allowed, o') ← pending_allowed id best.status o s
        if allowed
            then loaded_item strict f upstream id p ps o' (load_pending_browse_item rt c id best s)
            else ok (none, o'))

  -- The second loop, over the visible submissions.
  unfoldable pub branch_only_items :
      Bool
      → BrowseFilter
      → Pending
      → List String
      → Pending
      → Overlay
      → S
      → Result (List WantedSummary × Overlay)
  unfolding branch_only
  branch_only_items strict f upstream seen [] o s = ok ([], o)
  branch_only_items strict f upstream seen ((id, pending) ∷ visible) o s = do
    (found, o') ← branch_only strict f upstream seen id pending o s
    (rest, o'') ← branch_only_items strict f upstream seen visible o' s
    ok (elim found [ none ↦ rest | some item ↦ item ∷ rest ], o'')

  -- The pending submissions that the view asks for; that they cannot be read is no error if the
  -- client may read on.
  unfoldable pub read_pending : Bool → String → S → Result (Pending × Pending)
  unfolding visible_of
  read_pending strict view s =
      if view == "upstream" || not (can_list_pending_items c)
      then ok ([], [])
      else elim (list_pending_items c s) [
        | ok upstream ↦ ok (visible_of view c.rig_handle upstream)
        | err e ↦ if allow_best_effort_pending_read c strict then ok ([], []) else err e
      ]

  unfoldable pub browse : Bool → BrowseFilter → S → Result BrowseResult
  unfolding view_of read_pending overlay_items branch_only_items ids_of
  browse strict f s = do
    (items, pending_ids) ← browse_wanted_branch_aware rt c.db c.mode c.rig_handle f s
    (upstream, visible) ← read_pending strict (view_of c.mode f) s
    let start : Overlay = record {
      pending_ids = pending_ids;
      upstream_pending = [];
      visibility = [];
    }
    (overlaid, o) ← overlay_items upstream items start s
    (added, o') ← branch_only_items strict f upstream (ids_of items) visible o s
    ok (record {
      items = overlaid ++ added;
      pending_ids = o'.pending_ids;
      upstream_pending = o'.upstream_pending;
    })
