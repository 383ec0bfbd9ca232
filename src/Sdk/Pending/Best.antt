-- ===== src/Sdk/Pending/Best.antt =====
-- The pending item that stands for the others.
use wasteland.Base.{
  ltb, if◌then◌else◌, Bool-cases, All, In, ℕ, ◌≤◌, String, ◌≡◌, refl, ◌∙◌, ◌⊎◌, inl, inr, not, ◌&&◌,
  List, [], ◌∷◌, arith,
}
use native.Mathlib.Nat.{le_trans}
use wasteland.Commons.Types.{WantedItem}
use wasteland.Commons.Db.{Runtime}
use wasteland.Commons.Queries.Browse.{BrowseFilter, excludes, matches_search, matches_browse_filter}
use wasteland.Sdk.Pending.{PendingItem, state_rank, best_from, matches_pending_browse_filter}

abbrev rank : PendingItem → ℕ
rank p = state_rank p.status

-- The better of two, as one round of the loop chooses it.
abbrev better : PendingItem → PendingItem → PendingItem
better b p = if ltb (state_rank b.status) (state_rank p.status) then p else b

better-cases : (b p : PendingItem) → (better b p ≡ b) ⊎ (better b p ≡ p)
better-cases b p = elim (Bool-cases (ltb (state_rank b.status) (state_rank p.status))) [
  | inl e ↦ inr (rw e refl)
  | inr e ↦ inl (rw e refl)
]

better-max : (b p : PendingItem) → (rank b ≤ rank (better b p)) × (rank p ≤ rank (better b p))
better-max b p = elim (Bool-cases (ltb (state_rank b.status) (state_rank p.status))) [
  | inl e ↦ rw e (ground arith, ground arith)
  | inr e ↦ rw e (ground arith, ground arith)
]

best_from-In : (b : PendingItem) (ps : List PendingItem) → In (best_from b ps) (b ∷ ps)
unfolding best_from
best_from-In b [] = inl refl
best_from-In b (p ∷ ps) = go (best_from-In (better b p) ps) (better-cases b p)
  where
    go :
        In (best_from (better b p) ps) (better b p ∷ ps)
        → (better b p ≡ b) ⊎ (better b p ≡ p)
        → In (best_from (better b p) ps) (b ∷ p ∷ ps)
    go (inl q) (inl e) = inl (q ∙ e)
    go (inl q) (inr e) = inr (inl (q ∙ e))
    go (inr m) c = inr (inr m)

best_from-le : (b : PendingItem) (ps : List PendingItem) → rank b ≤ rank (best_from b ps)
unfolding best_from
best_from-le b [] = omega arith
best_from-le b (p ∷ ps) = le_trans (better-max b p).0 (best_from-le (better b p) ps)

best_from-max :
    (b : PendingItem) (ps : List PendingItem) → All (λ p. rank p ≤ rank (best_from b ps)) ps
unfolding best_from
best_from-max b [] = tt
best_from-max b (p ∷ ps) =
    (le_trans (better-max b p).1 (best_from-le (better b p) ps), best_from-max (better b p) ps)

-- The best pending state is one of the pending items, and none of them is further in the lifecycle.
pub best_from_furthest :
    (p : PendingItem) (ps : List PendingItem)
    → In (best_from p ps) (p ∷ ps)
      × All (λ q. state_rank q.status ≤ state_rank (best_from p ps).status) (p ∷ ps)
best_from_furthest p ps = (best_from-In p ps, (best_from-le p ps, best_from-max p ps))

-- The filter for pending items is the filter of the board on the item with the pending holder, and
-- a test of the pending status.
pub matches_pending_browse_filter-eq :
    (rt : Runtime) (item : WantedItem) (status claimed_by : String) (f : BrowseFilter)
    → matches_pending_browse_filter rt item status claimed_by f ≡ (
        not (excludes f.status status)
        && matches_browse_filter rt (record item { claimed_by = claimed_by }) f)
unfolding matches_pending_browse_filter matches_browse_filter matches_search
matches_pending_browse_filter-eq rt item status claimed_by f =
    elim (Bool-cases (excludes f.status status)) [ inl e ↦ rw e refl | inr e ↦ rw e refl ]
