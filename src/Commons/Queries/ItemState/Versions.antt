-- ===== src/Commons/Queries/ItemState/Versions.antt =====
-- The state of an item and its versions on main and on the branch.
use wasteland.Base.{
  Bool-cases, String, ◌≡◌, refl, sym, ap, ◌∙◌, ◌⊎◌, inl, inr, false, ◌||◌, Option, none, some, ◌==◌,
}
use wasteland.Commons.Types.{WantedItem, CompletionRecord, Stamp, Result, ok, err}
use wasteland.Commons.Db.{Db, Runtime}
use wasteland.Commons.Rows.{query_full_detail_ref}
use wasteland.Commons.Queries.ItemState.{
  ItemState, Detail, first_of_two, effective, main_state, branch_state, find_branch_for_item,
  resolve_item_state,
}

-- The completion and the stamp are those of the version, or they are left out, of an item that is
-- neither in review nor completed.
abbrev pub IsFrom : WantedItem → Option CompletionRecord → Option Stamp → ItemState → Type 0
IsFrom item completion stamp state =
    ((state.completion ≡ completion) × (state.stamp ≡ stamp))
    ⊎ ((state.completion ≡ none)
        × (state.stamp ≡ none)
        × ((item.status == "in_review" || item.status == "completed") ≡ false))

-- The version of the item that a query gave is the state's.
abbrev pub Shows : Result Detail → WantedItem → ItemState → Type 0
Shows found item state =
    (completion : Option CompletionRecord) × ((stamp : Option Stamp) × ((found
          ≡ ok (item, completion, stamp))
        × IsFrom item completion stamp state))

some_inj : {A : Type 0} (x y : A) → some x ≡ some y → x ≡ y
some_inj x y h = cc

-- An answer for an item is one for an equal item.
module _ {x item : WantedItem} (h : some x ≡ some item) where
  answer :
      (c : Option CompletionRecord) (s : Option Stamp)
      → ◌≡◌ {A = Result Detail} (ok (x, c, s)) (ok (item, c, s))
  answer c s = ap (λ i. ok (i, c, s)) (some_inj x item h)

  other_status :
      (x.status == "in_review" || x.status == "completed") ≡ false
      → (item.status == "in_review" || item.status == "completed") ≡ false
  other_status e =
      ap (λ (i : WantedItem). i.status == "in_review" || i.status == "completed")
        (sym (some_inj x item h))
      ∙ e

module _ (id branch : String) (item : WantedItem) where
  main_state-Shows :
      (r : Result Detail)
      → effective (main_state id branch r) ≡ some item
      → Shows r item (main_state id branch r)
  unfolding effective main_state first_of_two
  main_state-Shows (err e) h = cc
  main_state-Shows (ok (x, c, s)) h =
      elim (Bool-cases (x.status == "in_review" || x.status == "completed")) [
        | inl e ↦ (c, (s, (answer h c s, inl (rw e refl, rw e refl))))
        | inr e ↦ (c, (s, (answer h c s, inr (rw e refl, rw e refl, other_status h e))))
      ]

  branch_state-Shows :
      (r q : Result Detail)
      → effective (branch_state (main_state id branch r) q) ≡ some item
      → Shows q item (branch_state (main_state id branch r) q)
        ⊎ Shows r item (branch_state (main_state id branch r) q)
  unfolding branch_state effective
  branch_state-Shows r (err e) h = inr (main_state-Shows r h)
  branch_state-Shows r (ok (x, c, s)) h = inl (c, (s, (answer h c s, inl (refl, refl))))

module _ {S : Type 0} (rt : Runtime) (db : Db S) (rig_handle id : String) (s : S) where
  -- Whatever item is shown for a rig, it is the item that a query gave on the rig's branch or on
  -- main, and its completion and stamp are those of the same answer, never of the other version; they
  -- are left out only for an item that is neither in review nor completed.
  pub resolve_item_state-Shows :
      (item : WantedItem)
      → effective (resolve_item_state rt db rig_handle id s) ≡ some item
      → let state = resolve_item_state rt db rig_handle id s in
        Shows
          (query_full_detail_ref rt db id (find_branch_for_item rt db rig_handle id s) s)
          item
          state
        ⊎ Shows (query_full_detail_ref rt db id "" s) item state
  unfolding resolve_item_state
  resolve_item_state-Shows item h =
      elim (Bool-cases (find_branch_for_item rt db rig_handle id s == "")) [
        | inl e ↦
            inr
              (rw e (main_state-Shows id _ item (query_full_detail_ref rt db id "" s) (rw e at h)))
        | inr e ↦
            rw e (branch_state-Shows id _ item (query_full_detail_ref rt db id "" s) _ (rw e at h))
      ]
