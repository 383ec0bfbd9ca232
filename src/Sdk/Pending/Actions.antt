-- ===== src/Sdk/Pending/Actions.antt =====
-- What pending submissions let a reviewer do.
use wasteland.Base.{
  if◌then◌else◌, Bool-cases, In, int_eq, ℤ, pos, negsuc, String, ◌≡◌, refl, sym, ap, ◌∙◌, ◌↔◌, ◌⊎◌,
  inl, inr, true, false, not, ◌&&◌, some, List, [], ◌∷◌, arith, ◌==◌, eq_iff,
}
use mathlib.Core.Path.{subst}
use wasteland.Commons.Types.{WantedItem}
use wasteland.Commons.Lifecycle.{
  Transition, claim, unclaim, done, accept, reject, close, delete, update, other, is_admin,
}
use wasteland.Sdk.Pending.{
  PendingItem, same_transition, append_transition_if_missing, any_in_review,
  with_upstream_submission_actions,
}

int_eq_sound : (m n : ℤ) → int_eq m n ≡ true → m ≡ n
int_eq_sound (pos m) (pos n) h = ap pos (ground arith)
int_eq_sound (negsuc m) (negsuc n) h = ap negsuc (ground arith)
int_eq_sound (pos m) (negsuc n) h = cc
int_eq_sound (negsuc m) (pos n) h = cc

same_transition_sound : (a b : Transition) → same_transition a b ≡ true → a ≡ b
unfolding same_transition
same_transition_sound (other m) (other n) h = ap other (int_eq_sound m n h)
same_transition_sound claim claim h = refl
same_transition_sound unclaim unclaim h = refl
same_transition_sound done done h = refl
same_transition_sound accept accept h = refl
same_transition_sound reject reject h = refl
same_transition_sound close close h = refl
same_transition_sound delete delete h = refl
same_transition_sound update update h = refl
same_transition_sound _ _ h = cc

module _ (t target : Transition) where
  append-In-to :
      (actions : List Transition)
      → In t (append_transition_if_missing actions target)
      → In t actions ⊎ (t ≡ target)
  unfolding append_transition_if_missing
  append-In-to [] (inl e) = inr e
  append-In-to [] (inr x) = elim x [ ]
  append-In-to (a ∷ actions) m = elim (Bool-cases (same_transition a target)) [
    | inl e ↦ inl (subst (In t) {y = a ∷ actions} (rw e refl) m)
    | inr e ↦
        go (append-In-to actions)
          (subst (In t) {y = a ∷ append_transition_if_missing actions target} (rw e refl) m)
  ]
    where
      go :
          (In t (append_transition_if_missing actions target) → In t actions ⊎ (t ≡ target))
          → In t (a ∷ append_transition_if_missing actions target)
          → In t (a ∷ actions) ⊎ (t ≡ target)
      go ih (inl q) = inl (inl q)
      go ih (inr k) = elim (ih k) [ inl x ↦ inl (inr x) | inr y ↦ inr y ]

  append-In-old :
      (actions : List Transition)
      → In t actions
      → In t (append_transition_if_missing actions target)
  unfolding append_transition_if_missing
  append-In-old [] m = elim m [ ]
  append-In-old (a ∷ actions) m = elim (Bool-cases (same_transition a target)) [
    | inl e ↦ rw e m
    | inr e ↦ rw e (go (append-In-old actions) m)
  ]
    where
      go :
          (In t actions → In t (append_transition_if_missing actions target))
          → In t (a ∷ actions)
          → In t (a ∷ append_transition_if_missing actions target)
      go ih (inl q) = inl q
      go ih (inr k) = inr (ih k)

  append-In-new :
      (actions : List Transition) → t ≡ target → In t (append_transition_if_missing actions target)
  unfolding append_transition_if_missing
  append-In-new [] e = inl e
  append-In-new (a ∷ actions) e = elim (Bool-cases (same_transition a target)) [
    | inl q ↦ rw q (inl (e ∙ sym (same_transition_sound a target q)))
    | inr q ↦ rw q (inr (append-In-new actions e))
  ]

  append-In :
      (actions : List Transition)
      → In t (append_transition_if_missing actions target) ↔ (In t actions ⊎ (t ≡ target))
  append-In actions = (
    append-In-to actions,
    elim [ inl m ↦ append-In-old actions m | inr e ↦ append-In-new actions e ],
  )

-- The rig may review submissions for the item: it posted it, or it is an admin.
abbrev pub IsReviewer : String → WantedItem → Type 0
IsReviewer rig_handle item = (item.posted_by ≡ rig_handle) ⊎ (is_admin rig_handle ≡ true)

-- The transitions that submissions add: reject for any, and accept and close for one in review.
abbrev pub IsAdded : List PendingItem → Transition → Type 0
IsAdded pending t = (t ≡ reject) ⊎ ((any_in_review pending ≡ true) × ((t ≡ accept) ⊎ (t ≡ close)))

module _ (rig_handle : String) (item : WantedItem) where
  IsReviewer-from-test :
      (not (item.posted_by == rig_handle) && not (is_admin rig_handle)) ≡ false
      → IsReviewer rig_handle item
  IsReviewer-from-test h = elim (Bool-cases (item.posted_by == rig_handle)) [
    | inl e ↦ inl ((eq_iff item.posted_by rig_handle).0 e)
    | inr e ↦ inr (ground (arith))
  ]

  test-of-IsReviewer :
      (not (item.posted_by == rig_handle) && not (is_admin rig_handle)) ≡ true
      → IsReviewer rig_handle item
      → ⊥
  test-of-IsReviewer h (inl e) = ground (arith, eq_iff item.posted_by rig_handle)
  test-of-IsReviewer h (inr e) = ground (arith)

module _ (pending : List PendingItem) (actions : List Transition) (t : Transition) where
  review_actions_iff :
      In t (
        append_transition_if_missing
          (if any_in_review pending
            then append_transition_if_missing (append_transition_if_missing actions accept) close
            else actions)
          reject)
      ↔ (In t actions ⊎ IsAdded pending t)
  review_actions_iff = elim (Bool-cases (any_in_review pending)) [
    | inl e ↦ rw e (
        grind (
          arith,
          append-In t reject
              (append_transition_if_missing (append_transition_if_missing actions accept) close),
          append-In t close (append_transition_if_missing actions accept),
          append-In t accept actions,
        ))
    | inr e ↦ rw e (grind (arith, append-In t reject actions))
  ]

iff-and : {A B C R : Type 0} → R → A ↔ (B ⊎ C) → A ↔ (B ⊎ (R × C))
iff-and r (to, from) = (
  λ a. elim (to a) [ inl b ↦ inl b | inr c ↦ inr (r, c) ],
  elim [ inl b ↦ from (inl b) | inr (_, c) ↦ from (inr c) ],
)

module _ (rig_handle : String) (item : WantedItem) (p : PendingItem) (ps : List PendingItem)
    (actions : List Transition) (t : Transition) where
  -- Pending submissions add actions for a reviewer only, and exactly these: reject, and if one of
  -- them is in review, accept and close; every action offered before stays.
  pub with_upstream_submission_actions_iff :
      In t (with_upstream_submission_actions rig_handle (some item) (p ∷ ps) actions)
      ↔ (In t actions ⊎ (IsReviewer rig_handle item × IsAdded (p ∷ ps) t))
  unfolding with_upstream_submission_actions
  with_upstream_submission_actions_iff =
      elim (Bool-cases (not (item.posted_by == rig_handle) && not (is_admin rig_handle))) [
        | inl e ↦ rw e (
          inl,
          elim [ inl m ↦ m | inr (r, _) ↦ elim (test-of-IsReviewer rig_handle item e r) [ ] ],
        )
        | inr e ↦ rw e (
            iff-and (IsReviewer-from-test rig_handle item e)
              (review_actions_iff (p ∷ ps) actions t))
      ]
