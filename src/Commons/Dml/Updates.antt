-- ===== src/Commons/Dml/Updates.antt =====
-- internal/commons/commons.go: the updates of the operations on items, as SQL says them and as they
-- act on an item.
use wasteland.Base.{
  if◌then◌else◌, All, In, concat, String, ◌<>◌, ◌≡◌, refl, ◌≢◌, ◌⊎◌, inl, inr, Bool, true, ◌&&◌,
  some, List, [], ◌∷◌, ◌++◌, ◌==◌,
}
use wasteland.Commons.Types.{WantedItem, Stamp}
use wasteland.Commons.Sql.Literals.{Token, read_statement, sql, value}
use wasteland.Commons.Dml.{
  claim_wanted_dml, unclaim_wanted_dml, submit_completion_dml, accept_completion_dml,
  close_wanted_dml, delete_wanted_dml, reject_completion_dml, accept_upstream_dml,
  close_upstream_dml, complete_upstream, insert_stamp, update_completion, delete_completion,
  insert_completion,
}
use wasteland.Commons.Dml.Safety.{reading}

-- An assignment of an UPDATE; NULL is read back as the empty text.
pub data Assignment : Type 0 where
  assign : String → String → Assignment
  assign_null : String → Assignment

-- An UPDATE of the items with an id and with given values of some columns.
pub record Update : Type 0 where
  pub first : Assignment
  pub assignments : List Assignment
  pub id : String
  pub guards : List (String × String)

assignment_tokens : Assignment → List Token
unfolding sql value
assignment_tokens (assign column text) = sql column ++ (sql "=" ++ value text)
assignment_tokens (assign_null column) = sql column ++ sql "=NULL"

more_tokens : List Assignment → List Token
unfolding sql assignment_tokens
more_tokens [] = []
more_tokens (a ∷ rest) = sql ", " ++ (assignment_tokens a ++ more_tokens rest)

guard_tokens : List (String × String) → List Token
unfolding sql value
guard_tokens [] = []
guard_tokens ((column, text) ∷ gs) =
    sql " AND " ++ (sql column ++ (sql "=" ++ (value text ++ guard_tokens gs)))

-- The update as SQL says it.
pub said : Update → List Token
unfolding sql value assignment_tokens more_tokens guard_tokens
said u =
    sql "UPDATE wanted SET "
    ++ (assignment_tokens u.first
        ++ (more_tokens u.assignments
            ++ (sql ", updated_at=NOW() WHERE id=" ++ (value u.id ++ guard_tokens u.guards))))

-- What it does to an item; other columns are not of interest here.
unfoldable pub field : WantedItem → String → String
field item column =
    if column == "status"
    then item.status
    else if column == "claimed_by"
    then item.claimed_by
    else ""

unfoldable pub set_field : String → String → WantedItem → WantedItem
set_field column text item =
    if column == "status"
    then record item { status = text }
    else if column == "claimed_by"
    then record item { claimed_by = text }
    else item

unfoldable pub set_fields : List Assignment → WantedItem → WantedItem
unfolding set_field
set_fields [] item = item
set_fields (assign column text ∷ rest) item = set_fields rest (set_field column text item)
set_fields (assign_null column ∷ rest) item = set_fields rest (set_field column "" item)

unfoldable pub meets : List (String × String) → WantedItem → Bool
unfolding field
meets [] item = true
meets ((column, text) ∷ gs) item = field item column == text && meets gs item

unfoldable pub run_update : Update → WantedItem → WantedItem
unfolding set_fields meets
run_update u item =
    if item.id == u.id && meets u.guards item
    then set_fields (u.first ∷ u.assignments) item
    else item

-- The operations that change an item's status, each with what it is given besides the item.
pub data Operation : Type 0 where
  claiming : String → Operation
  unclaiming closing deleting rejecting : Operation
  submitting : String → String → String → String → Operation
  accepting : String → String → String → Stamp → Operation
  accepting_upstream : String → String → String → String → String → Stamp → Operation
  closing_upstream : String → String → String → String → Operation

-- A rig that takes hold of an item has a name.
abbrev pub IsNamed : Operation → Type 0
IsNamed (claiming rig) = rig ≢ ""
IsNamed (accepting_upstream _ completed_by _ _ _ _) = completed_by ≢ ""
IsNamed (closing_upstream _ completed_by _ _) = completed_by ≢ ""
IsNamed _ = Unit

-- The statements of the operation.
pub statements : String → Operation → List String
statements id (claiming rig) = claim_wanted_dml id rig ∷ []
statements id unclaiming = unclaim_wanted_dml id ∷ []
statements id closing = close_wanted_dml id ∷ []
statements id deleting = delete_wanted_dml id ∷ []
statements id rejecting = reject_completion_dml id
statements id (submitting completion_id rig evidence uri) =
    submit_completion_dml completion_id id rig evidence uri
statements id (accepting completion_id rig uri stamp) =
    accept_completion_dml id completion_id rig uri stamp
statements id (accepting_upstream completion_id completed_by evidence rig uri stamp) =
    accept_upstream_dml id completion_id completed_by evidence rig uri stamp
statements id (closing_upstream completion_id completed_by evidence uri) =
    close_upstream_dml id completion_id completed_by evidence uri

unfoldable pub update_of : Assignment → List Assignment → String → List (String × String) → Update
update_of first assignments id guards = record {
  first = first;
  assignments = assignments;
  id = id;
  guards = guards;
}

-- Its update of the item.
unfoldable pub update : String → Operation → Update
unfolding update_of
update id (claiming rig) =
    update_of (assign "claimed_by" rig) (assign "status" "claimed" ∷ []) id
      (("status", "open") ∷ [])
update id unclaiming =
    update_of (assign_null "claimed_by") (assign "status" "open" ∷ []) id
      (("status", "claimed") ∷ [])
update id closing = update_of (assign "status" "completed") [] id (("status", "in_review") ∷ [])
update id deleting = update_of (assign "status" "withdrawn") [] id (("status", "open") ∷ [])
update id rejecting = update_of (assign "status" "claimed") [] id (("status", "in_review") ∷ [])
update id (submitting _ rig evidence _) =
    update_of (assign "status" "in_review") (assign "evidence_url" evidence ∷ []) id
      (("status", "claimed") ∷ ("claimed_by", rig) ∷ [])
update id (accepting _ _ _ _) =
    update_of (assign "status" "completed") [] id (("status", "in_review") ∷ [])
update id (accepting_upstream _ completed_by evidence _ _ _) =
    update_of (assign "status" "completed")
      (assign "claimed_by" completed_by ∷ assign "evidence_url" evidence ∷ []) id []
update id (closing_upstream _ completed_by evidence _) =
    update_of (assign "status" "completed")
      (assign "claimed_by" completed_by ∷ assign "evidence_url" evidence ∷ []) id []

-- How statements on other tables begin.
abbrev elsewhere : List String
elsewhere =
    "DELETE FROM completions WHERE wanted_id='"
    ∷ "INSERT IGNORE INTO completions (id, wanted_id, completed_by, evidence, hop_uri, completed_at) VALUES ('"
    ∷ "INSERT IGNORE INTO completions (id, wanted_id, completed_by, evidence, hop_uri, completed_at) SELECT '"
    ∷ "INSERT INTO stamps (id, author, subject, valence, confidence, severity, context_id, context_type, skill_tags, message, hop_uri, created_at) VALUES ('"
    ∷ "UPDATE completions SET validated_by='" ∷ []

-- A statement that reads, by the rules of SQL literals, as the update, or is on another table.
IsOf : Update → String → Type 0
unfolding said
IsOf u text =
    (read_statement text ≡ some (said u))
    ⊎ ((start : String) × In start elsewhere × (rest : String) × (text ≡ start <> rest))

-- Of the operation's statements one reads as its update, and every one does or is on another table.
pub Says : String × Operation → Type 0
unfolding said update statements IsOf
Says (id, op) =
    ((text : String) × In text (statements id op)
      × (read_statement text ≡ some (said (update id op))))
    × All (IsOf (update id op)) (statements id op)

pub says : (id : String) (op : Operation) → Says (id, op)
unfolding Says said update update_of statements IsOf claim_wanted_dml unclaim_wanted_dml
    close_wanted_dml delete_wanted_dml submit_completion_dml reject_completion_dml
    accept_completion_dml accept_upstream_dml close_upstream_dml complete_upstream insert_stamp
    update_completion delete_completion insert_completion read_statement sql value concat
says id (claiming rig) = ((_, inl refl, simp reading), (inl (simp reading), tt))
says id unclaiming = ((_, inl refl, simp reading), (inl (simp reading), tt))
says id closing = ((_, inl refl, simp reading), (inl (simp reading), tt))
says id deleting = ((_, inl refl, simp reading), (inl (simp reading), tt))
says id rejecting =
    ((_, inr (inl refl), simp reading), (inr (_, inl refl, _, refl), (inl (simp reading), tt)))
says id (submitting completion_id rig evidence uri) = (
  (_, inl refl, simp reading),
  (inl (simp reading), (inr (_, inr (inr (inl refl)), _, refl), tt)),
)
says id (accepting completion_id rig uri stamp) = (
  (_, inr (inr (inl refl)), simp reading),
  (
    inr (_, inr (inr (inr (inl refl))), _, refl),
    (inr (_, inr (inr (inr (inr (inl refl)))), _, refl), (inl (simp reading), tt)),
  ),
)
says id (accepting_upstream completion_id completed_by evidence rig uri stamp) = (
  (_, inr (inr (inl refl)), simp reading),
  (
    inr (_, inl refl, _, refl),
    (
      inr (_, inr (inl refl), _, refl),
      (
        inl (simp reading),
        (
          inr (_, inr (inr (inr (inl refl))), _, refl),
          (inr (_, inr (inr (inr (inr (inl refl)))), _, refl), tt),
        ),
      ),
    ),
  ),
)
says id (closing_upstream completion_id completed_by evidence uri) = (
  (_, inr (inr (inl refl)), simp reading),
  (inr (_, inl refl, _, refl), (inr (_, inr (inl refl), _, refl), (inl (simp reading), tt))),
)
