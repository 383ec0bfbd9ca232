-- ===== src/Commons/Lifecycle/Available.antt =====
-- Which transitions `AvailableTransitions` offers, and to whom.
use wasteland.Base.{
  In, filter_by, filter_by-In, String, ◌≡◌, refl, ◌↔◌, ◌⊎◌, inl, inr, true, some, [], arith, eq_iff,
}
use wasteland.Commons.Types.{WantedItem, Result, ok, err}
use wasteland.Commons.Lifecycle.{
  Transition, claim, unclaim, done, accept, reject, close, delete, update, other,
  validate_transition, can_perform_transition, available_transitions, all_transitions, is_available,
  is_ok,
}
use wasteland.Commons.Lifecycle.Graph.{Step, validate_transition-eq-ok_iff}

-- Every transition that the code lets anyone perform is among those that it tries.
In-all_transitions :
    (t : Transition) (item : WantedItem) (actor : String)
    → can_perform_transition (some item) t actor ≡ true
    → In t all_transitions
unfolding can_perform_transition
In-all_transitions claim item actor h = inl refl
In-all_transitions unclaim item actor h = inr (inl refl)
In-all_transitions done item actor h = inr (inr (inl refl))
In-all_transitions accept item actor h = inr (inr (inr (inl refl)))
In-all_transitions reject item actor h = inr (inr (inr (inr (inl refl))))
In-all_transitions close item actor h = inr (inr (inr (inr (inr (inl refl)))))
In-all_transitions delete item actor h = inr (inr (inr (inr (inr (inr (inl refl))))))
In-all_transitions update item actor h = cc
In-all_transitions (other k) item actor h = cc

is_ok_cases : {A : Type 0} (r : Result A) → is_ok r ≡ true → (a : A) × (r ≡ ok a)
unfolding is_ok
is_ok_cases (ok a) h = (a, refl)
is_ok_cases (err e) h = cc

abbrev Offered : WantedItem → String → Transition → Type 0
Offered item actor t =
    (s : String) × Step t item.status s × (can_perform_transition (some item) t actor ≡ true)

module _ (item : WantedItem) (actor : String) (t : Transition) where
  Offered-of-is_available : is_available item actor t ≡ true → Offered item actor t
  unfolding is_available
  Offered-of-is_available h =
      let found = is_ok_cases (validate_transition item.status t) (ground arith) in
      (found.0, (validate_transition-eq-ok_iff t item.status found.0).0 found.1, ground arith)

  is_available-of-Offered : Offered item actor t → is_available item actor t ≡ true
  unfolding is_available is_ok
  is_available-of-Offered (s, st, h) = rw ((validate_transition-eq-ok_iff t item.status s).1 st, h)

  -- A transition is offered on an item to an actor exactly when the lifecycle diagram has a step
  -- for it from the item's status and the permission rules let the actor perform it.
  pub available_transitions_iff :
      In t (available_transitions (some item) actor)
      ↔ ((s : String) × Step t item.status s × (can_perform_transition (some item) t actor ≡ true))
  unfolding available_transitions
  available_transitions_iff = (
    λ m. Offered-of-is_available ((filter_by-In (is_available item actor) t all_transitions).0 m).1,
    λ o.
        (filter_by-In (is_available item actor) t all_transitions).1
          (In-all_transitions t item actor o.2, is_available-of-Offered o),
  )

accept_needs_other :
    (item : WantedItem) (actor : String)
    → item.claimed_by ≡ actor
    → ¬ (can_perform_transition (some item) accept actor ≡ true)
unfolding can_perform_transition
accept_needs_other item actor own h = ground (arith, eq_iff item.claimed_by actor)

-- The actor that claimed an item is never offered to accept it, be it the poster or an admin.
pub no_self_accept :
    (item : WantedItem) (actor : String)
    → item.claimed_by ≡ actor
    → ¬ In accept (available_transitions (some item) actor)
no_self_accept item actor own m =
    accept_needs_other item actor own ((available_transitions_iff item actor accept).0 m).2

-- Nothing is offered on a completed or withdrawn item, to anyone.
pub available_transitions-terminal :
    (item : WantedItem) (actor : String)
    → (item.status ≡ "completed") ⊎ (item.status ≡ "withdrawn")
    → available_transitions (some item) actor ≡ []
unfolding available_transitions validate_transition filter_by
available_transitions-terminal item actor (inl e) = rw e
available_transitions-terminal item actor (inr e) = rw e
