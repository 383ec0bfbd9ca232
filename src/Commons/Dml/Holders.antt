-- ===== src/Commons/Dml/Holders.antt =====
-- internal/commons/commons.go: who holds an item after the updates of the operations.
use wasteland.Base.{
  if◌then◌else◌, All, String, ◌≡◌, refl, sym, ap, ◌∙◌, ◌≢◌, Bool, true, false, not, ◌&&◌, ◌||◌,
  Option, none, some, List, [], ◌∷◌, arith, ◌==◌, eq_iff,
}
use wasteland.Commons.Types.{WantedItem}
use wasteland.Commons.Dml.Updates.{
  Update, Operation, claiming, unclaiming, closing, deleting, rejecting, submitting, accepting,
  accepting_upstream, closing_upstream, IsNamed, Says, says, update_of, set_fields, set_field,
  meets, field, run_update, update,
}

-- Whether an item of this status has a holder; `none` for a status that no operation gives.
abbrev pub has_holder : String → Option Bool
has_holder status =
    if status == "open" || status == "withdrawn"
    then some false
    else if status == "claimed" || status == "in_review" || status == "completed"
    then some true
    else none

abbrev pub IsWellHeld : WantedItem → Type 0
IsWellHeld item = has_holder item.status ≡ some (not (item.claimed_by == ""))

named : (s : String) → s ≢ "" → (s == "") ≡ false
named s n = ground (arith, eq_iff s "")

first_guard : (a b : Bool) → (a && b) ≡ true → (a && true) ≡ true
first_guard a b h = ground arith

-- What an update makes of an item that it is about.
module _ (item : WantedItem) (w : IsWellHeld item) where
  if-IsWellHeld :
      (a b : Bool) (new : WantedItem)
      → (b ≡ true → IsWellHeld new)
      → IsWellHeld (if a && b then new else item)
  if-IsWellHeld false b new h = w
  if-IsWellHeld true false new h = w
  if-IsWellHeld true true new h = h refl

  -- The holder stays, between two statuses that both have one, or both have none.
  kept :
      (from to : String)
      → has_holder from ≡ has_holder to
      → (item.status == from && true) ≡ true
      → has_holder to ≡ some (not (item.claimed_by == ""))
  kept from to same h =
      sym same ∙ sym (ap has_holder ((eq_iff item.status from).0 (ground arith))) ∙ w

  run_update-IsWellHeld :
      (u : Update)
      → (meets u.guards item ≡ true → IsWellHeld (set_fields (u.first ∷ u.assignments) item))
      → IsWellHeld (run_update u item)
  unfolding run_update
  run_update-IsWellHeld u h =
      if-IsWellHeld (item.id == u.id) (meets u.guards item)
        (set_fields (u.first ∷ u.assignments) item) h

  update-IsWellHeld :
      (id : String) (op : Operation) → IsNamed op → IsWellHeld (run_update (update id op) item)
  unfolding update update_of set_fields set_field meets field
  update-IsWellHeld id op n = run_update-IsWellHeld (update id op) (said_well op n)
    where
      said_well :
          (op : Operation)
          → IsNamed op
          → meets (update id op).guards item ≡ true
          → IsWellHeld (set_fields ((update id op).first ∷ (update id op).assignments) item)
      said_well (claiming rig) n h = ap (λ b. some (not b)) (sym (named rig n))
      said_well unclaiming n h = refl
      said_well closing n h = kept "in_review" "completed" refl h
      said_well deleting n h = kept "open" "withdrawn" refl h
      said_well rejecting n h = kept "in_review" "claimed" refl h
      said_well (submitting completion_id rig evidence uri) n h =
          kept "claimed" "in_review" refl
            (first_guard (item.status == "claimed") (item.claimed_by == rig && true) h)
      said_well (accepting completion_id rig uri stamp) n h = kept "in_review" "completed" refl h
      said_well (accepting_upstream completion_id completed_by evidence rig uri stamp) n h =
          ap (λ b. some (not b)) (sym (named completed_by n))
      said_well (closing_upstream completion_id completed_by evidence uri) n h =
          ap (λ b. some (not b)) (sym (named completed_by n))

-- The updates of operations on items, one after another.
pub run_updates : List (String × Operation) → WantedItem → WantedItem
unfolding run_update update
run_updates [] item = item
run_updates ((id, op) ∷ ops) item = run_updates ops (run_update (update id op) item)

-- Whatever operations on whatever items follow, each by named rigs: of the statements of each, one
-- reads as its update of the item and every one reads so or is on another table; and by these
-- updates an item that is open or withdrawn with no holder, or claimed, in review or completed with
-- one, stays so.
pub run_updates-IsWellHeld :
    (ops : List (String × Operation)) (item : WantedItem)
    → All (λ x. IsNamed x.1) ops
    → IsWellHeld item
    → All Says ops × IsWellHeld (run_updates ops item)
unfolding run_updates
run_updates-IsWellHeld [] item n w = (tt, w)
run_updates-IsWellHeld ((id, op) ∷ ops) item n w =
    let (said_by, held) =
      run_updates-IsWellHeld ops (run_update (update id op) item) n.1
        (update-IsWellHeld item w id op n.0) in
    ((says id op, said_by), held)
