-- ===== src/Commons/Lifecycle.antt =====
-- internal/commons/lifecycle.go: the transitions of a wanted item, who may perform them, the labels
-- of a pending change, and what a change must push. The proofs are in the modules below.
pub mod Graph
pub mod Available
pub mod Labels
pub mod Push
use wasteland.Base.{
  if◌then◌else◌, filter_by, show_int, ℤ, pos, String, Bool, true, false, not, ◌&&◌, ◌||◌, Option,
  none, some, List, [], ◌∷◌, ◌==◌,
}
use wasteland.Commons.Types.{WantedItem, lit, failed, Result, ok, err}

-- Any value of the `int` that no constant names is `other`.
pub data Transition : Type 0 where
  claim unclaim done accept reject close delete update : Transition
  other : ℤ → Transition

pub record TransitionRule : Type 0 where
  pub from : String
  pub to : String
  pub name : String

-- The map `transitionRules`.
unfoldable pub transition_rules : Transition → Option TransitionRule
transition_rules claim = some (record { from = "open"; to = "claimed"; name = "claim" })
transition_rules unclaim = some (record { from = "claimed"; to = "open"; name = "unclaim" })
transition_rules done = some (record { from = "claimed"; to = "in_review"; name = "done" })
transition_rules accept = some (record { from = "in_review"; to = "completed"; name = "accept" })
transition_rules reject = some (record { from = "in_review"; to = "claimed"; name = "reject" })
transition_rules close = some (record { from = "in_review"; to = "completed"; name = "close" })
transition_rules delete = some (record { from = "open"; to = "withdrawn"; name = "delete" })
transition_rules update = some (record { from = "open"; to = "open"; name = "update" })
transition_rules (other n) = none

-- The values of the constants, which `iota` counts.
transition_number : Transition → ℤ
transition_number claim = pos 0
transition_number unclaim = pos 1
transition_number done = pos 2
transition_number accept = pos 3
transition_number reject = pos 4
transition_number close = pos 5
transition_number delete = pos 6
transition_number update = pos 7
transition_number (other n) = n

check_rule : String → Transition → Option TransitionRule → Result String
unfolding transition_number
check_rule current_status t none =
    err (failed (lit "unknown transition " ∷ lit (show_int (transition_number t)) ∷ []))
check_rule current_status t (some rule) =
    if current_status == rule.from
    then ok rule.to
    else err (
        failed (
          lit "cannot "
          ∷ lit rule.name
          ∷ lit ": item is "
          ∷ lit current_status
          ∷ lit ", not "
          ∷ lit rule.from
          ∷ []))

unfoldable pub validate_transition : String → Transition → Result String
unfolding transition_rules check_rule
validate_transition current_status t = check_rule current_status t (transition_rules t)

-- The map `Admins`.
unfoldable pub is_admin : String → Bool
is_admin handle = handle == "julianknutsen" || handle == "steveyegge" || handle == "csells"

-- The cases after the test for a nil item.
may_perform : WantedItem → Transition → String → Bool
unfolding is_admin
may_perform item claim actor = true
may_perform item unclaim actor = item.claimed_by == actor || item.posted_by == actor
may_perform item done actor = item.claimed_by == actor
may_perform item accept actor =
    (item.posted_by == actor || is_admin actor) && not (item.claimed_by == actor)
may_perform item reject actor = item.posted_by == actor || is_admin actor
may_perform item close actor = item.posted_by == actor || is_admin actor
may_perform item delete actor = item.posted_by == actor
may_perform item _ actor = false

-- A nil item is `none`.
unfoldable pub can_perform_transition : Option WantedItem → Transition → String → Bool
unfolding may_perform
can_perform_transition none t actor = false
can_perform_transition (some item) t actor = may_perform item t actor

unfoldable pub transition_label : Transition → String
transition_label claim = "Claiming..."
transition_label unclaim = "Unclaiming..."
transition_label reject = "Rejecting..."
transition_label close = "Closing..."
transition_label delete = "Deleting..."
transition_label _ = "Working..."

name_of : Option TransitionRule → String
name_of none = "unknown"
name_of (some rule) = rule.name

unfoldable pub transition_name : Transition → String
unfolding transition_rules name_of
transition_name t = name_of (transition_rules t)

unfoldable pub transition_requires_input : Transition → String
transition_requires_input done = "requires evidence URL"
transition_requires_input accept = "requires quality rating"
transition_requires_input _ = ""

is_ok : {A : Type 0} → Result A → Bool
is_ok (ok a) = true
is_ok (err e) = false

-- The order in which `AvailableTransitions` tries the transitions.
abbrev pub all_transitions : List Transition
all_transitions = claim ∷ unclaim ∷ done ∷ accept ∷ reject ∷ close ∷ delete ∷ []

is_available : WantedItem → String → Transition → Bool
is_available item actor t =
    is_ok (validate_transition item.status t) && can_perform_transition (some item) t actor

unfoldable pub available_transitions : Option WantedItem → String → List Transition
unfolding is_available is_ok
available_transitions none actor = []
available_transitions (some item) actor = filter_by (is_available item actor) all_transitions

-- The order in which `DeltaLabel` tries the rules.
abbrev pub label_order : List Transition
label_order = claim ∷ unclaim ∷ done ∷ accept ∷ reject ∷ close ∷ delete ∷ update ∷ []

-- A missing key of a Go map reads as the zero rule.
rule_or_zero : Option TransitionRule → TransitionRule
rule_or_zero none = record { from = ""; to = ""; name = "" }
rule_or_zero (some rule) = rule

first_label : String → String → List Transition → String
unfolding transition_rules rule_or_zero
first_label main_status branch_status [] = "changes"
first_label main_status branch_status (t ∷ ts) =
    let rule = rule_or_zero (transition_rules t) in
    let rest = first_label main_status branch_status ts in
    if rule.from == main_status && rule.to == branch_status then rule.name else rest

unfoldable pub delta_label : String → String → String
unfolding first_label
delta_label main_status branch_status = first_label main_status branch_status label_order

unfoldable pub compute_delta : String → String → Bool → String
compute_delta main_status branch_status branch_exists =
    if not branch_exists
    then ""
    else if main_status == ""
    then "new"
    else if not (main_status == branch_status)
    then delta_label main_status branch_status
    else "changes"

pub record ItemLocation : Type 0 where
  pub local_status : String
  pub origin_status : String
  pub upstream_status : String
  pub fetched_origin : Bool
  pub fetched_upstream : Bool

pub record PushTarget : Type 0 where
  pub push_origin : Bool
  pub push_upstream : Bool
  pub hint : String

unfoldable pub resolve_push_target : String → ItemLocation → PushTarget
resolve_push_target mode loc =
    if not (mode == "pr")
    then record { push_origin = true; push_upstream = true; hint = "" }
    else if loc.local_status == loc.origin_status
    then record {
      push_origin = false;
      push_upstream = false;
      hint =
          if not (loc.local_status == loc.upstream_status)
          then "Origin is up to date. Create a PR to push changes upstream."
          else "";
    }
    else record {
      push_origin = true;
      push_upstream = false;
      hint =
          if loc.origin_status == loc.upstream_status
            && not (loc.local_status == loc.upstream_status)
          then "Pushed to origin. Create a PR when ready to push upstream."
          else "";
    }
