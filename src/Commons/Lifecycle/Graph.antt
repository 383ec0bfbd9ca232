-- ===== src/Commons/Lifecycle/Graph.antt =====
-- The lifecycle diagram, independently of the rule table.
use wasteland.Base.{String, ◌≡◌, refl, ◌↔◌, arith, eq_iff}
use wasteland.Commons.Types.{ok}
use wasteland.Commons.Lifecycle.{
  Transition, claim, unclaim, done, accept, reject, close, delete, update, other,
  validate_transition,
}

-- `Step t s s'`: the transition `t` leads from the status `s` to `s'`.
pub data Step (t : Transition) (s s' : String) : Type 0 where
  claiming : t ≡ claim → s ≡ "open" → s' ≡ "claimed" → Step t s s'
  unclaiming : t ≡ unclaim → s ≡ "claimed" → s' ≡ "open" → Step t s s'
  submitting : t ≡ done → s ≡ "claimed" → s' ≡ "in_review" → Step t s s'
  accepting : t ≡ accept → s ≡ "in_review" → s' ≡ "completed" → Step t s s'
  rejecting : t ≡ reject → s ≡ "in_review" → s' ≡ "claimed" → Step t s s'
  closing : t ≡ close → s ≡ "in_review" → s' ≡ "completed" → Step t s s'
  deleting : t ≡ delete → s ≡ "open" → s' ≡ "withdrawn" → Step t s s'
  editing : t ≡ update → s ≡ "open" → s' ≡ "open" → Step t s s'

ruleset steps = (claiming, unclaiming, submitting, accepting, rejecting, closing, deleting, editing)

Step-of-validate : (t : Transition) (s s' : String) → validate_transition s t ≡ ok s' → Step t s s'
unfolding validate_transition
Step-of-validate claim s s' h = claiming refl (ground (arith, eq_iff s "open")) (ground arith)
Step-of-validate unclaim s s' h =
    unclaiming refl (ground (arith, eq_iff s "claimed")) (ground arith)
Step-of-validate done s s' h = submitting refl (ground (arith, eq_iff s "claimed")) (ground arith)
Step-of-validate accept s s' h =
    accepting refl (ground (arith, eq_iff s "in_review")) (ground arith)
Step-of-validate reject s s' h =
    rejecting refl (ground (arith, eq_iff s "in_review")) (ground arith)
Step-of-validate close s s' h = closing refl (ground (arith, eq_iff s "in_review")) (ground arith)
Step-of-validate delete s s' h = deleting refl (ground (arith, eq_iff s "open")) (ground arith)
Step-of-validate update s s' h = editing refl (ground (arith, eq_iff s "open")) (ground arith)
Step-of-validate (other n) s s' h = ground arith

validate-of-Step : (t : Transition) (s s' : String) → Step t s s' → validate_transition s t ≡ ok s'
unfolding validate_transition
validate-of-Step t s s' (claiming p q r) = rw (p, q, r)
validate-of-Step t s s' (unclaiming p q r) = rw (p, q, r)
validate-of-Step t s s' (submitting p q r) = rw (p, q, r)
validate-of-Step t s s' (accepting p q r) = rw (p, q, r)
validate-of-Step t s s' (rejecting p q r) = rw (p, q, r)
validate-of-Step t s s' (closing p q r) = rw (p, q, r)
validate-of-Step t s s' (deleting p q r) = rw (p, q, r)
validate-of-Step t s s' (editing p q r) = rw (p, q, r)

-- `ValidateTransition` accepts a transition from a status, with the new status, exactly when the
-- lifecycle diagram has that step; for every status text and every value of the transition.
pub validate_transition-eq-ok_iff :
    (t : Transition) (s s' : String) → (validate_transition s t ≡ ok s') ↔ Step t s s'
validate_transition-eq-ok_iff t s s' = (Step-of-validate t s s', validate-of-Step t s s')
