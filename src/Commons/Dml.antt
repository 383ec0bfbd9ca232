-- ===== src/Commons/Dml.antt =====
-- internal/commons/commons.go: the statements of each operation on the board, as SQL text. The time
-- that `InsertWantedDML` reads from the clock is an argument.
pub mod Safety
pub mod Updates
pub mod Holders
use wasteland.Base.{
  if◌then◌else◌, join, concat, is_nonneg, show_int, String, ◌<>◌, Bool, true, false, not, List, [],
  ◌∷◌, ◌++◌, ◌==◌,
}
use wasteland.Commons.Types.{WantedItem, Stamp, WantedUpdate, lit, failed, Result, ok, err}
use wasteland.Commons.Sql.{escape_sql, quote_sql, field_or_null, format_tags_json}

insert_text : String → WantedItem → String
insert_text now item =
    let tags_json = format_tags_json item.tags in
    let effort_field =
      if item.effort_level == "" then "'medium'" else quote_sql item.effort_level in
    let status = if item.status == "" then "'open'" else quote_sql item.status in
    concat (
      "INSERT INTO wanted (id, title, description, project, type, priority, tags, posted_by, status, effort_level, created_at, updated_at)\nVALUES ('"
      ∷ escape_sql item.id
      ∷ "', '"
      ∷ escape_sql item.title
      ∷ "', "
      ∷ field_or_null item.description
      ∷ ", "
      ∷ field_or_null item.project
      ∷ ", "
      ∷ field_or_null item.type
      ∷ ", "
      ∷ show_int item.priority
      ∷ ", "
      ∷ tags_json
      ∷ ", "
      ∷ field_or_null item.posted_by
      ∷ ", "
      ∷ status
      ∷ ", "
      ∷ effort_field
      ∷ ", '"
      ∷ now
      ∷ "', '"
      ∷ now
      ∷ "')"
      ∷ [])

unfoldable pub insert_wanted_dml : String → WantedItem → Result String
unfolding insert_text
insert_wanted_dml now item =
    if item.id == ""
    then err (failed (lit "wanted item ID cannot be empty" ∷ []))
    else if item.title == ""
    then err (failed (lit "wanted item title cannot be empty" ∷ []))
    else ok (insert_text now item)

unfoldable pub claim_wanted_dml : String → String → String
claim_wanted_dml wanted_id rig_handle = concat (
    "UPDATE wanted SET claimed_by='"
    ∷ escape_sql rig_handle
    ∷ "', status='claimed', updated_at=NOW() WHERE id='"
    ∷ escape_sql wanted_id
    ∷ "' AND status='open'"
    ∷ [])

unfoldable pub unclaim_wanted_dml : String → String
unclaim_wanted_dml wanted_id = concat (
    "UPDATE wanted SET claimed_by=NULL, status='open', updated_at=NOW() WHERE id='"
    ∷ escape_sql wanted_id
    ∷ "' AND status='claimed'"
    ∷ [])

unfoldable pub submit_completion_dml : String → String → String → String → String → List String
submit_completion_dml completion_id wanted_id rig_handle evidence hop_uri =
    (concat (
      "UPDATE wanted SET status='in_review', evidence_url='"
      ∷ escape_sql evidence
      ∷ "', updated_at=NOW() WHERE id='"
      ∷ escape_sql wanted_id
      ∷ "' AND status='claimed' AND claimed_by='"
      ∷ escape_sql rig_handle
      ∷ "'"
      ∷ []))
    ∷ (concat (
        "INSERT IGNORE INTO completions (id, wanted_id, completed_by, evidence, hop_uri, completed_at) SELECT '"
        ∷ escape_sql completion_id
        ∷ "', '"
        ∷ escape_sql wanted_id
        ∷ "', '"
        ∷ escape_sql rig_handle
        ∷ "', '"
        ∷ escape_sql evidence
        ∷ "', "
        ∷ field_or_null hop_uri
        ∷ ", NOW() FROM wanted WHERE id='"
        ∷ escape_sql wanted_id
        ∷ "' AND status='in_review' AND claimed_by='"
        ∷ escape_sql rig_handle
        ∷ "' AND NOT EXISTS (SELECT 1 FROM completions WHERE wanted_id='"
        ∷ escape_sql wanted_id
        ∷ "')"
        ∷ []))
    ∷ []

-- The statements that two of the functions below share word for word.
insert_stamp : String → String → String → Stamp → String
insert_stamp completion_id rig_handle hop_uri stamp =
    let valence = concat (
      "{\"quality\": "
      ∷ show_int stamp.quality
      ∷ ", \"reliability\": "
      ∷ show_int stamp.reliability
      ∷ "}"
      ∷ []) in
    concat (
      "INSERT INTO stamps (id, author, subject, valence, confidence, severity, context_id, context_type, skill_tags, message, hop_uri, created_at) VALUES ('"
      ∷ escape_sql stamp.id
      ∷ "', '"
      ∷ escape_sql rig_handle
      ∷ "', '"
      ∷ escape_sql stamp.subject
      ∷ "', '"
      ∷ escape_sql valence
      ∷ "', 1.0, '"
      ∷ escape_sql stamp.severity
      ∷ "', '"
      ∷ escape_sql completion_id
      ∷ "', 'completion', "
      ∷ format_tags_json stamp.skill_tags
      ∷ ", "
      ∷ field_or_null stamp.message
      ∷ ", "
      ∷ field_or_null hop_uri
      ∷ ", NOW())"
      ∷ [])

update_completion : String → String → String → String
update_completion completion_id rig_handle stamp_id = concat (
    "UPDATE completions SET validated_by='"
    ∷ escape_sql rig_handle
    ∷ "', stamp_id='"
    ∷ escape_sql stamp_id
    ∷ "', validated_at=NOW() WHERE id='"
    ∷ escape_sql completion_id
    ∷ "'"
    ∷ [])

delete_completion : String → String
delete_completion wanted_id =
    concat ("DELETE FROM completions WHERE wanted_id='" ∷ escape_sql wanted_id ∷ "'" ∷ [])

insert_completion : String → String → String → String → String → String
insert_completion completion_id wanted_id completed_by evidence hop_uri = concat (
    "INSERT IGNORE INTO completions (id, wanted_id, completed_by, evidence, hop_uri, completed_at) VALUES ('"
    ∷ escape_sql completion_id
    ∷ "', '"
    ∷ escape_sql wanted_id
    ∷ "', '"
    ∷ escape_sql completed_by
    ∷ "', '"
    ∷ escape_sql evidence
    ∷ "', "
    ∷ field_or_null hop_uri
    ∷ ", NOW())"
    ∷ [])

complete_upstream : String → String → String → String
complete_upstream wanted_id completed_by evidence = concat (
    "UPDATE wanted SET status='completed', claimed_by='"
    ∷ escape_sql completed_by
    ∷ "', evidence_url='"
    ∷ escape_sql evidence
    ∷ "', updated_at=NOW() WHERE id='"
    ∷ escape_sql wanted_id
    ∷ "'"
    ∷ [])

-- `CloseWantedDML`, which `AcceptCompletionDML` repeats.
unfoldable pub close_wanted_dml : String → String
close_wanted_dml wanted_id = concat (
    "UPDATE wanted SET status='completed', updated_at=NOW() WHERE id='"
    ∷ escape_sql wanted_id
    ∷ "' AND status='in_review'"
    ∷ [])

unfoldable pub accept_completion_dml : String → String → String → String → Stamp → List String
unfolding insert_stamp update_completion close_wanted_dml
accept_completion_dml wanted_id completion_id rig_handle hop_uri stamp =
    insert_stamp completion_id rig_handle hop_uri stamp
    ∷ update_completion completion_id rig_handle stamp.id
    ∷ close_wanted_dml wanted_id
    ∷ []

unfoldable pub accept_upstream_dml :
    String → String → String → String → String → String → Stamp → List String
unfolding insert_stamp update_completion delete_completion insert_completion complete_upstream
accept_upstream_dml wanted_id completion_id completed_by evidence rig_handle hop_uri stamp =
    delete_completion wanted_id
    ∷ insert_completion completion_id wanted_id completed_by evidence hop_uri
    ∷ complete_upstream wanted_id completed_by evidence
    ∷ insert_stamp completion_id rig_handle hop_uri stamp
    ∷ update_completion completion_id rig_handle stamp.id
    ∷ []

unfoldable pub close_upstream_dml : String → String → String → String → String → List String
unfolding delete_completion insert_completion complete_upstream
close_upstream_dml wanted_id completion_id completed_by evidence hop_uri =
    delete_completion wanted_id
    ∷ insert_completion completion_id wanted_id completed_by evidence hop_uri
    ∷ complete_upstream wanted_id completed_by evidence
    ∷ []

-- One `if` of `UpdateWantedDML`: a clause that is appended, or not.
clause : Bool → String → List String
clause true text = text ∷ []
clause false text = []

set_clauses : WantedUpdate → List String
unfolding clause
set_clauses f =
    clause (not (f.title == "")) ("title=" <> quote_sql f.title)
    ++ (clause (not (f.description == "")) ("description=" <> quote_sql f.description)
        ++ (clause (not (f.project == "")) ("project=" <> quote_sql f.project)
            ++ (clause (not (f.type == "")) ("type=" <> quote_sql f.type)
                ++ (clause (is_nonneg f.priority) ("priority=" <> show_int f.priority)
                    ++ (clause (not (f.effort_level == ""))
                          ("effort_level=" <> quote_sql f.effort_level)
                        ++ clause f.tags_set ("tags=" <> format_tags_json f.tags))))))

update_text : String → List String → Result String
update_text wanted_id [] = err (failed (lit "no fields to update" ∷ []))
update_text wanted_id (c ∷ cs) = ok (
    concat (
      "UPDATE wanted SET "
      ∷ join ", " ((c ∷ cs) ++ "updated_at=NOW()" ∷ [])
      ∷ " WHERE id='"
      ∷ escape_sql wanted_id
      ∷ "' AND status='open'"
      ∷ []))

unfoldable pub update_wanted_dml : String → WantedUpdate → Result String
unfolding set_clauses update_text
update_wanted_dml wanted_id fields = update_text wanted_id (set_clauses fields)

unfoldable pub delete_wanted_dml : String → String
delete_wanted_dml wanted_id = concat (
    "UPDATE wanted SET status='withdrawn', updated_at=NOW() WHERE id='"
    ∷ escape_sql wanted_id
    ∷ "' AND status='open'"
    ∷ [])

unfoldable pub reject_completion_dml : String → List String
unfolding delete_completion
reject_completion_dml wanted_id =
    delete_completion wanted_id
    ∷ (concat (
        "UPDATE wanted SET status='claimed', updated_at=NOW() WHERE id='"
        ∷ escape_sql wanted_id
        ∷ "' AND status='in_review'"
        ∷ []))
    ∷ []
