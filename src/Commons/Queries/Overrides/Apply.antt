-- ===== src/Commons/Queries/Overrides/Apply.antt =====
-- The board after the overrides.
use wasteland.Base.{
  if◌then◌else◌, Bool-cases, All, get, member, String, ◌≡◌, ◌≢◌, inl, inr, Bool, false, ◌||◌,
  Option, none, some, List, [], ◌∷◌, ◌++◌, arith, eq_iff,
}
use wasteland.Commons.Types.{WantedItem}
use wasteland.Commons.Db.{Db, Runtime}
use wasteland.Commons.Queries.Browse.{BrowseFilter, WantedSummary, excludes, matches_browse_filter}
use wasteland.Commons.Queries.Overrides.{
  BranchOverride, kept_item, kept_items, added_item, added_items, overridden,
  apply_branch_overrides, overrides_by_id, applied_ids,
}
use wasteland.Commons.Queries.Overrides.Detect.{All-cons_some}

pub All-append :
    {A : Type 0} (P : A → Type 0) (xs ys : List A) → All P xs → All P ys → All P (xs ++ ys)
All-append P [] ys hx hy = hy
All-append P (x ∷ xs) ys hx hy = (hx.0, All-append P xs ys hx.1 hy)

abbrev pub HasStatus : String → WantedSummary → Type 0
HasStatus wanted item = item.status ≡ wanted

module _ (wanted : String) (drops : String → Bool)
    (exact : (st : String) → drops st ≡ false → st ≡ wanted) where
  kept_item-HasStatus :
      (by_id : List (String × BranchOverride)) (item : WantedSummary)
      → HasStatus wanted item
      → (r : WantedSummary) → kept_item drops by_id item ≡ some r
      → HasStatus wanted r
  unfolding kept_item
  kept_item-HasStatus by_id item h r e = go (get item.id by_id) e
    where
      go :
          (found : Option BranchOverride)
          → (elim found [
            | none ↦ some item
            | some o ↦ if drops o.status then none else some (overridden o item)
          ])
            ≡ some r
          → HasStatus wanted r
      go none e = ground arith
      go (some o) e = ground (arith, exact o.status)

  kept_items-HasStatus :
      (by_id : List (String × BranchOverride)) (items : List WantedSummary)
      → All (HasStatus wanted) items
      → All (HasStatus wanted) (kept_items drops by_id items)
  unfolding kept_items
  kept_items-HasStatus by_id [] h = tt
  kept_items-HasStatus by_id (item ∷ items) h =
      All-cons_some (HasStatus wanted) _ _ (kept_item-HasStatus by_id item h.0)
        (kept_items-HasStatus by_id items h.1)

  module _ {S : Type 0} (rt : Runtime) (db : Db S) (s : S) (matches : WantedItem → Bool) where
    added_item-HasStatus :
        (o : BranchOverride)
        → drops o.status ≡ false
        → (r : WantedSummary) → added_item rt db s matches o ≡ some r
        → HasStatus wanted r
    unfolding added_item
    added_item-HasStatus o d r e = ground (arith, exact o.status)

    added_items-HasStatus :
        (applied : List String) (os : List BranchOverride)
        → All (HasStatus wanted) (added_items rt db s drops matches applied os)
    unfolding added_items
    added_items-HasStatus applied [] = tt
    added_items-HasStatus applied (o ∷ os) =
        elim (Bool-cases (member o.wanted_id applied || drops o.status)) [
          | inl e ↦ rw e (added_items-HasStatus applied os)
          | inr e ↦ rw e (
              All-cons_some (HasStatus wanted) _ _ (added_item-HasStatus o (ground arith))
                (added_items-HasStatus applied os))
        ]

excludes_exact : (wanted st : String) → wanted ≢ "" → excludes wanted st ≡ false → st ≡ wanted
excludes_exact wanted st n h = ground (arith, eq_iff wanted "", eq_iff st wanted)

-- If every item that the query gave has the status of the filter, so has every item of the overlaid
-- board.
pub apply_branch_overrides-HasStatus :
    {S : Type 0} (rt : Runtime) (db : Db S) (s : S) (items : List WantedSummary)
    (os : List BranchOverride) (f : BrowseFilter)
    → f.status ≢ ""
    → All (HasStatus f.status) items
    → All (HasStatus f.status) (apply_branch_overrides rt db s items os f)
unfolding apply_branch_overrides
apply_branch_overrides-HasStatus rt db s items [] f n h = h
apply_branch_overrides-HasStatus rt db s items (o ∷ os) f n h =
    let exact = λ (st : String). excludes_exact f.status st n in
    All-append (HasStatus f.status) _ _
      (kept_items-HasStatus f.status (excludes f.status) exact _ items h)
      (added_items-HasStatus f.status (excludes f.status) exact rt db s
        (λ item. matches_browse_filter rt item f) (applied_ids (overrides_by_id (o ∷ os)) items)
        (o ∷ os))
