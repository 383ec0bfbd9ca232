-- ===== src/Commons/Queries/Overrides/Followed.antt =====
-- The overlaid board follows the overrides.
use wasteland.Base.{if◌then◌else◌, All, In, String, ◌≡◌, ◌≢◌, ◌⊎◌, Bool, Option, none, some, List}
use wasteland.Commons.Db.{Db}
use wasteland.Commons.Queries.Browse.{WantedSummary}
use wasteland.Commons.Queries.Overrides.{BranchOverride, overridden}
use wasteland.Commons.Queries.Overrides.ById.{IsFree}

module _ (items : List WantedSummary) (os : List BranchOverride) where
  -- Where an item of the overlaid board comes from.
  pub data IsFollowed (r : WantedSummary) : Type 0 where
    unchanged : In r items → IsFree os r.id → IsFollowed r
    changed :
        (item : WantedSummary) (o : BranchOverride)
        → In item items
        → In o os
        → o.wanted_id ≡ item.id
        → r ≡ overridden o item
        → IsFollowed r
    new :
        (o : BranchOverride)
        → In o os
        → r.status ≡ o.status
        → All (λ item. item.id ≢ o.wanted_id) items
        → IsFollowed r

module _ (os : List BranchOverride) where
  -- An item of the board before is on the board after, as it was or as an override of it says, or
  -- that override gives it a status that the filter leaves out.
  pub IsAccounted : String → List WantedSummary → WantedSummary → Type 0
  IsAccounted wanted result item =
      (IsFree os item.id × In item result)
      ⊎ ((o : BranchOverride) × In o os
          × (o.wanted_id ≡ item.id)
          × ((o.status ≢ wanted) ⊎ In (overridden o item) result))

module _ (drops : String → Bool) (os : List BranchOverride) where
  abbrev kept_as : WantedSummary → Option BranchOverride → Option WantedSummary
  kept_as item found = elim found [
    | none ↦ some item
    | some o ↦ if drops o.status then none else some (overridden o item)
  ]
