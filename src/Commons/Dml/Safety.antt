-- ===== src/Commons/Dml/Safety.antt =====
-- The statements of the operations, read by the rules of SQL text literals.
use wasteland.Base.{
  if◌then◌else◌, Bool-cases, concat, String, ◌≡◌, inl, inr, Option, some, List, [], ◌∷◌, ◌++◌, map,
  ◌==◌,
}
use mathlib.Core.List.{append_assoc}
use wasteland.Commons.Sql.{escape_sql, field_or_null}
use wasteland.Commons.Sql.Literals.{
  Token, inside, read, mode_after, read_statement, sql, chars, value, read-append,
  mode_after-append, read-escape_sql,
}
use wasteland.Commons.Dml.{
  unclaim_wanted_dml, claim_wanted_dml, submit_completion_dml, close_wanted_dml, delete_wanted_dml,
  reject_completion_dml,
}

pub read_escaped : (s : String) → read inside (escape_sql s) ≡ chars s
read_escaped s = (read-escape_sql s).0

pub mode_after_escaped : (s : String) → mode_after inside (escape_sql s) ≡ inside
mode_after_escaped s = (read-escape_sql s).1

pub ruleset reading =
    (read-append, mode_after-append, read_escaped, mode_after_escaped, append_assoc)

-- The claim statement reads back as the update of exactly the given item, by exactly the given rig,
-- guarded by the status open; for all texts, quotes and backslashes included.
pub read-claim_wanted_dml :
    (wanted_id rig_handle : String)
    → read_statement (claim_wanted_dml wanted_id rig_handle)
      ≡ some (
          sql "UPDATE wanted SET claimed_by="
          ++ (value rig_handle
              ++ (sql ", status="
                  ++ (value "claimed"
                      ++ (sql ", updated_at=NOW() WHERE id="
                          ++ (value wanted_id ++ (sql " AND status=" ++ value "open")))))))
unfolding claim_wanted_dml read_statement sql value concat
read-claim_wanted_dml wanted_id rig_handle = simp reading

-- What each statement that changes only the status of an item says, for every text of its id: the
-- new status and the status that it requires.
abbrev pub status_change : String → String → String → Option (List Token)
status_change wanted_id to from = some (
    sql "UPDATE wanted SET status="
    ++ (value to
        ++ (sql ", updated_at=NOW() WHERE id="
            ++ (value wanted_id ++ (sql " AND status=" ++ value from)))))

abbrev pub deletes_completions : String → Option (List Token)
deletes_completions wanted_id =
    some (sql "DELETE FROM completions WHERE wanted_id=" ++ value wanted_id)

-- Close, delete, unclaim and the second statement of reject read back as the change of exactly the given
-- item, guarded by the status that the lifecycle requires; the first statement of reject deletes
-- the completions of exactly that item, and unclaim clears the holder.
pub read_status_changes :
    (wanted_id : String)
    → (read_statement (close_wanted_dml wanted_id)
        ≡ status_change wanted_id "completed" "in_review")
      × (read_statement (delete_wanted_dml wanted_id) ≡ status_change wanted_id "withdrawn" "open")
      × (map read_statement (reject_completion_dml wanted_id)
          ≡ deletes_completions wanted_id ∷ status_change wanted_id "claimed" "in_review" ∷ [])
      × (read_statement (unclaim_wanted_dml wanted_id)
          ≡ some (
              sql "UPDATE wanted SET claimed_by=NULL, status="
              ++ (value "open"
                  ++ (sql ", updated_at=NOW() WHERE id="
                      ++ (value wanted_id ++ (sql " AND status=" ++ value "claimed"))))))
unfolding unclaim_wanted_dml close_wanted_dml delete_wanted_dml reject_completion_dml read_statement
    sql value concat
read_status_changes wanted_id = (simp reading, simp reading, simp reading, simp reading)

-- The value that a field which may be NULL reads back as.
abbrev pub nullable : String → List Token
nullable s = if s == "" then sql "NULL" else value s

-- What submitting a completion says.
abbrev pub submits : String → String → String → String → String → List (Option (List Token))
submits completion_id wanted_id rig_handle evidence hop_uri =
    some (
      sql "UPDATE wanted SET status="
      ++ (value "in_review"
          ++ (sql ", evidence_url="
              ++ (value evidence
                  ++ (sql ", updated_at=NOW() WHERE id="
                      ++ (value wanted_id
                          ++ (sql " AND status="
                              ++ (value "claimed"
                                  ++ (sql " AND claimed_by=" ++ value rig_handle)))))))))
    ∷ some (
        sql
          "INSERT IGNORE INTO completions (id, wanted_id, completed_by, evidence, hop_uri, completed_at) SELECT "
        ++ (value completion_id
            ++ (sql ", "
                ++ (value wanted_id
                    ++ (sql ", "
                        ++ (value rig_handle
                            ++ (sql ", "
                                ++ (value evidence
                                    ++ (sql ", "
                                        ++ (nullable hop_uri
                                            ++ (sql ", NOW() FROM wanted WHERE id="
                                                ++ (value wanted_id
                                                    ++ (sql " AND status="
                                                        ++ (value "in_review"
                                                            ++ (sql " AND claimed_by="
                                                            ++ (value rig_handle
                                                            ++ (sql
                                                            " AND NOT EXISTS (SELECT 1 FROM completions WHERE wanted_id="
                                                            ++ (value wanted_id
                                                            ++ sql ")"))))))))))))))))))
    ∷ []

-- Submitting writes the evidence to the claimed item of the given rig alone, and inserts the
-- completion of that rig for that item, once; every text is read back as it was given.
pub read-submit_completion_dml :
    (completion_id wanted_id rig_handle evidence hop_uri : String)
    → map read_statement (submit_completion_dml completion_id wanted_id rig_handle evidence hop_uri)
      ≡ submits completion_id wanted_id rig_handle evidence hop_uri
unfolding submit_completion_dml field_or_null read_statement sql value concat
read-submit_completion_dml completion_id wanted_id rig_handle evidence hop_uri =
    elim (Bool-cases (hop_uri == "")) [ inl e ↦ rw e (simp reading) | inr e ↦ rw e (simp reading) ]
