-- ===== src/Commons/Queries/Overrides/Detect.antt =====
-- Which overrides are detected.
use wasteland.Base.{
  Bool-cases, All, put, member, count_of, ℕ, ◌+◌, String, ◌≡◌, refl, sym, ap, ◌∙◌, ◌⊎◌, inl, inr,
  false, Option, none, some, List, [], ◌∷◌, arith, eq_iff,
}
use mathlib.Core.Path.{subst}
use wasteland.Commons.Db.{Db, Runtime}
use wasteland.Commons.Rows.{item_status}
use wasteland.Commons.Queries.Overrides.{
  BranchOverride, override_of, branch_override, cons_some, query_item_branch_state, all_step,
  all_loop, detect_all_branch_overrides, branch_item, step_item, take_override,
}

pub All-cons_some :
    {A : Type 0} (P : A → Type 0) (o : Option A) (xs : List A)
    → ((a : A) → o ≡ some a → P a)
    → All P xs
    → All P (cons_some o xs)
unfolding cons_some
All-cons_some P none xs h hs = hs
All-cons_some P (some a) xs h hs = (h a refl, hs)

override_of-item :
    (id branch : String) (p : String × String) (main_status : String) (o : BranchOverride)
    → override_of id branch p main_status ≡ some o
    → o.wanted_id ≡ id
unfolding override_of
override_of-item id branch (st, cl) main_status o h =
    ground (arith, eq_iff st "", eq_iff st main_status)

module _ {S : Type 0} (rt : Runtime) (db : Db S) (s : S) where
  branch_override-item :
      (id branch : String) (o : BranchOverride)
      → branch_override rt db s id branch ≡ some o
      → o.wanted_id ≡ id
  unfolding branch_override
  branch_override-item id branch o h =
      override_of-item id branch (query_item_branch_state rt db id branch s)
        (item_status rt db id "" s) o h

-- The items of the overrides, in order, and that an item does not stand twice.
abbrev pub items_of : List BranchOverride → List String
items_of [] = []
items_of (o ∷ os) = o.wanted_id ∷ items_of os

abbrev pub IsDistinct : List String → Type 0
IsDistinct [] = Unit
IsDistinct (x ∷ xs) = (member x xs ≡ false) × IsDistinct xs

-- No text of the one list stands in the other.
abbrev Apart : List String → List String → Type 0
Apart seen [] = Unit
Apart seen (x ∷ xs) = (member x seen ≡ false) × Apart seen xs

Apart-head : (x : String) (seen ys : List String) → Apart (x ∷ seen) ys → member x ys ≡ false
Apart-head x seen [] h = refl
Apart-head x seen (y ∷ ys) h = ground (arith, eq_iff x y, eq_iff y x, h.0, Apart-head x seen ys h.1)

Apart-tail : (x : String) (seen ys : List String) → Apart (x ∷ seen) ys → Apart seen ys
Apart-tail x seen [] h = tt
Apart-tail x seen (y ∷ ys) h = (ground (arith, h.0), Apart-tail x seen ys h.1)

module _ {S : Type 0} (rt : Runtime) (db : Db S) (s : S) where
  -- What one round does: it leaves the seen items alone, or takes an override of a new item.
  abbrev Round : List String → Option BranchOverride → List String → Type 0
  Round seen found seen' =
      ((found ≡ none) × (seen' ≡ seen))
      ⊎ ((o : BranchOverride) × (found ≡ some o)
          × (seen' ≡ o.wanted_id ∷ seen)
          × (member o.wanted_id seen ≡ false))

  take_override-Round :
      (id : String) (seen : List String) (counts : List (String × ℕ))
      (found : Option BranchOverride)
      → member id seen ≡ false
      → ((o : BranchOverride) → found ≡ some o → o.wanted_id ≡ id)
      → Round seen (take_override id seen counts found).0 (take_override id seen counts found).1
  unfolding take_override
  take_override-Round id seen counts none m h = inl (refl, refl)
  take_override-Round id seen counts (some o) m h =
      let e = h o refl in inr (o, refl, ap (λ x. x ∷ seen) (sym e), ap (λ x. member x seen) e ∙ m)

  step_item-Round :
      (seen : List String) (counts : List (String × ℕ)) (b : String) (item : Option String)
      → Round seen (step_item rt db s seen counts b item).0 (step_item rt db s seen counts b item).1
  unfolding step_item
  step_item-Round seen counts b none = inl (refl, refl)
  step_item-Round seen counts b (some id) = elim (Bool-cases (member id seen)) [
    | inl m ↦ rw m (inl (refl, refl))
    | inr m ↦ rw m (
        take_override-Round id seen (put id (count_of id counts + 1) counts)
          (branch_override rt db s id b) m (branch_override-item rt db s id b))
  ]

  all_step-Round :
      (seen : List String) (counts : List (String × ℕ)) (b : String)
      → Round seen (all_step rt db s seen counts b).0 (all_step rt db s seen counts b).1
  unfolding all_step
  all_step-Round seen counts b = step_item-Round seen counts b (branch_item b)

  -- What the rest of the loop gives, after a round.
  Distinct-after :
      (seen seen' : List String) (found : Option BranchOverride) (os : List BranchOverride)
      → Round seen found seen'
      → IsDistinct (items_of os) × Apart seen' (items_of os)
      → IsDistinct (items_of (cons_some found os)) × Apart seen (items_of (cons_some found os))
  unfolding cons_some
  Distinct-after seen seen' found os (inl (p, q)) ih = rw p (rw (← q) ih)
  Distinct-after seen seen' found os (inr (o, p, q, m)) ih =
      let apart = subst (λ x. Apart x (items_of os)) q ih.1 in
      rw p (
        (Apart-head o.wanted_id seen (items_of os) apart, ih.0),
        (m, Apart-tail o.wanted_id seen (items_of os) apart),
      )

  all_loop-IsDistinct :
      (seen : List String) (counts : List (String × ℕ)) (branches : List String)
      → let os = (all_loop rt db s seen counts branches).0 in
        IsDistinct (items_of os) × Apart seen (items_of os)
  unfolding all_loop
  all_loop-IsDistinct seen counts [] = (tt, tt)
  all_loop-IsDistinct seen counts (b ∷ bs) =
      let r = all_step rt db s seen counts b in
      Distinct-after seen r.1 r.0 (all_loop rt db s r.1 r.2 bs).0 (all_step-Round seen counts b)
        (all_loop-IsDistinct r.1 r.2 bs)

  -- Over the branches of all rigs, however many touch an item, at most one override is detected for
  -- it.
  pub detect_all_branch_overrides-IsDistinct :
      IsDistinct (items_of (detect_all_branch_overrides rt db s).0)
  unfolding detect_all_branch_overrides
  detect_all_branch_overrides-IsDistinct = (all_loop-IsDistinct [] [] _).0
