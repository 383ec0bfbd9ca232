-- ===== src/Commons/Lifecycle/Labels.antt =====
-- The labels of a pending change.
use wasteland.Base.{
  if◌then◌else◌, Bool-cases, All, String, ◌≡◌, refl, ◌≢◌, ◌⊎◌, inl, inr, Bool, true, false, not,
  ◌&&◌, none, List, [], ◌∷◌, arith, ◌==◌, eq_iff,
}
use wasteland.Commons.Lifecycle.{
  Transition, claim, unclaim, done, accept, reject, close, delete, update, other, delta_label,
  compute_delta, transition_name, label_order, transition_rules, rule_or_zero, first_label,
}
use wasteland.Commons.Lifecycle.Graph.{
  Step, claiming, unclaiming, submitting, accepting, rejecting, closing, deleting, editing,
}

-- If one transition leads from the status on main to the status on the branch, the label names it,
-- except that a close is labelled as the accept which leads between the same statuses.
pub delta_label-of-Step :
    (t : Transition) (m b : String)
    → Step t m b
    → delta_label m b ≡ (if transition_name t == "close" then "accept" else transition_name t)
unfolding delta_label transition_name
delta_label-of-Step t m b (claiming p q r) = rw (p, q, r)
delta_label-of-Step t m b (unclaiming p q r) = rw (p, q, r)
delta_label-of-Step t m b (submitting p q r) = rw (p, q, r)
delta_label-of-Step t m b (accepting p q r) = rw (p, q, r)
delta_label-of-Step t m b (rejecting p q r) = rw (p, q, r)
delta_label-of-Step t m b (closing p q r) = rw (p, q, r)
delta_label-of-Step t m b (deleting p q r) = rw (p, q, r)
delta_label-of-Step t m b (editing p q r) = rw (p, q, r)

module _ (m b : String) where
  Matches : Transition → Type 0
  Matches t =
      let rule = rule_or_zero (transition_rules t) in (rule.from == m && rule.to == b) ≡ true

  Step-of-Matches : (t : Transition) → transition_rules t ≢ none → Matches t → Step t m b
  unfolding Matches transition_rules rule_or_zero
  Step-of-Matches claim n h =
      claiming refl (ground (arith, eq_iff "open" m)) (ground (arith, eq_iff "claimed" b))
  Step-of-Matches unclaim n h =
      unclaiming refl (ground (arith, eq_iff "claimed" m)) (ground (arith, eq_iff "open" b))
  Step-of-Matches done n h =
      submitting refl (ground (arith, eq_iff "claimed" m)) (ground (arith, eq_iff "in_review" b))
  Step-of-Matches accept n h =
      accepting refl (ground (arith, eq_iff "in_review" m)) (ground (arith, eq_iff "completed" b))
  Step-of-Matches reject n h =
      rejecting refl (ground (arith, eq_iff "in_review" m)) (ground (arith, eq_iff "claimed" b))
  Step-of-Matches close n h =
      closing refl (ground (arith, eq_iff "in_review" m)) (ground (arith, eq_iff "completed" b))
  Step-of-Matches delete n h =
      deleting refl (ground (arith, eq_iff "open" m)) (ground (arith, eq_iff "withdrawn" b))
  Step-of-Matches update n h =
      editing refl (ground (arith, eq_iff "open" m)) (ground (arith, eq_iff "open" b))
  Step-of-Matches (other k) n h = absurd (n refl)

  Named : String → Type 0
  Named label = (t : Transition) × Step t m b × (label ≡ transition_name t)

  name_of-rule :
      (t : Transition)
      → transition_rules t ≢ none
      → (rule_or_zero (transition_rules t)).name ≡ transition_name t
  unfolding transition_name transition_rules rule_or_zero
  name_of-rule (other k) n = absurd (n refl)
  name_of-rule claim n = refl
  name_of-rule _ n = refl

  first_label-cases :
      (ts : List Transition)
      → All (λ t. transition_rules t ≢ none) ts
      → (first_label m b ts ≡ "changes") ⊎ Named (first_label m b ts)
  unfolding first_label Named Matches
  first_label-cases [] h = inl refl
  first_label-cases (t ∷ ts) h =
      let rule = rule_or_zero (transition_rules t) in
      elim (Bool-cases (rule.from == m && rule.to == b)) [
        | inl e ↦ inr (t, Step-of-Matches t h.0 e, rw e (name_of-rule t h.0))
        | inr e ↦ rw e (first_label-cases ts h.1)
      ]

  rules_known : All (λ t. transition_rules t ≢ none) label_order
  unfolding transition_rules
  rules_known =
      (λ e. cc, (λ e. cc, (λ e. cc, (λ e. cc, (λ e. cc, (λ e. cc, (λ e. cc, (λ e. cc, tt))))))))

  -- A label other than "changes" is the name of a transition that leads from the status on main to
  -- the status on the branch.
  pub Step-of-delta_label :
      delta_label m b ≢ "changes"
      → (t : Transition) × Step t m b × (delta_label m b ≡ transition_name t)
  unfolding delta_label Named
  Step-of-delta_label h = elim (first_label-cases label_order rules_known) [
    | inl e ↦ absurd (h e)
    | inr n ↦ n
  ]

if_nonempty :
    (c : Bool) (x y : String)
    → (x == "") ≡ false
    → (y == "") ≡ false
    → ((if c then x else y) == "") ≡ false
if_nonempty true x y hx hy = hx
if_nonempty false x y hx hy = hy

first_label-ne-empty :
    (m b : String) (ts : List Transition)
    → All (λ t. ((rule_or_zero (transition_rules t)).name == "") ≡ false) ts
    → (first_label m b ts == "") ≡ false
unfolding first_label
first_label-ne-empty m b [] h = refl
first_label-ne-empty m b (t ∷ ts) h =
    let rule = rule_or_zero (transition_rules t) in
    if_nonempty (rule.from == m && rule.to == b) rule.name (first_label m b ts) h.0
      (first_label-ne-empty m b ts h.1)

delta_label-ne-empty : (m b : String) → (delta_label m b == "") ≡ false
unfolding delta_label transition_rules rule_or_zero
delta_label-ne-empty m b =
    first_label-ne-empty m b label_order
      (refl, (refl, (refl, (refl, (refl, (refl, (refl, (refl, tt))))))))

-- The delta is empty exactly when there is no branch, whatever the two statuses are.
pub compute_delta-empty :
    (m b : String) (exists : Bool) → (compute_delta m b exists == "") ≡ not exists
unfolding compute_delta
compute_delta-empty m b false = refl
compute_delta-empty m b true =
    if_nonempty (m == "") "new" _ refl
      (if_nonempty (not (m == b)) (delta_label m b) "changes" (delta_label-ne-empty m b) refl)
