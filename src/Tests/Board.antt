-- ===== src/Tests/Board.antt =====
-- Examples on the lifecycle, the statements and the overlaid board.
use wasteland.Base.{
  All, In, put, replace_char, trim_space, concat, split_char, pos, String, ◌≡◌, refl, ◌↔◌, ◌⊎◌,
  true, some, List, [], ◌∷◌, ◌++◌, map,
}
use wasteland.Commons.Types.{WantedItem, ok}
use wasteland.Commons.Rows.{
  query_full_detail_ref, parse_simple_csv, full_detail_of_row, parse_wanted_detail_row,
}
use wasteland.Commons.Queries.ItemState.{effective, resolve_item_state, find_branch_for_item}
use wasteland.Commons.Queries.ItemState.Versions.{Shows, resolve_item_state-Shows}
use wasteland.Commons.Queries.Overrides.{branch_name, query_item_branch_state}
use wasteland.Commons.Lifecycle.{
  claim, accept, validate_transition, available_transitions, can_perform_transition,
}
use wasteland.Commons.Lifecycle.Graph.{Step, validate_transition-eq-ok_iff}
use wasteland.Commons.Lifecycle.Available.{available_transitions_iff}
use wasteland.Commons.Dml.Updates.{Operation, claiming, submitting, rejecting, Says}
use wasteland.Commons.Dml.Holders.{run_updates, IsWellHeld, run_updates-IsWellHeld}
use wasteland.Commons.Sql.{escape_sql}
use wasteland.Commons.Sql.Literals.{
  inside, read, mode_after, read_statement, sql, chars, value, read-escape_sql,
}
use wasteland.Commons.Dml.{claim_wanted_dml, close_wanted_dml, submit_completion_dml}
use wasteland.Commons.Dml.Safety.{
  read-claim_wanted_dml, read_status_changes, read-submit_completion_dml, submits, status_change,
}
use wasteland.Commons.Queries.Browse.{WantedSummary}
use wasteland.Commons.Queries.Overrides.{BranchOverride, detect_all_branch_overrides}
use wasteland.Commons.Queries.Overrides.Detect.{
  IsDistinct, items_of, detect_all_branch_overrides-IsDistinct,
}
use wasteland.Tests.Samples.{rt, db, item, text_ne}

validate_transition-eq-ok_iff_example :
    (validate_transition "open" claim ≡ ok "claimed") ↔ Step claim "open" "claimed"
validate_transition-eq-ok_iff_example = validate_transition-eq-ok_iff claim "open" "claimed"

available_transitions_iff_example :
    In accept (available_transitions (some (item "in_review" "alice")) "bob") ↔ (
      (s : String) × Step accept "in_review" s
      × (can_perform_transition (some (item "in_review" "alice")) accept "bob" ≡ true))
available_transitions_iff_example =
    available_transitions_iff (item "in_review" "alice") "bob" accept

-- The item is claimed, submitted and rejected; another is claimed in between.
abbrev operations : List (String × Operation)
operations =
    ("w1", claiming "alice")
    ∷ ("w2", claiming "bob")
    ∷ ("w1", submitting "c1" "alice" "https://e" "")
    ∷ ("w1", rejecting)
    ∷ []

run_updates-IsWellHeld_example :
    All Says operations × IsWellHeld (run_updates operations (item "open" ""))
run_updates-IsWellHeld_example =
    run_updates-IsWellHeld operations (item "open" "")
      (text_ne "alice" "" refl, (text_ne "bob" "" refl, (tt, (tt, tt)))) refl

read-escape_sql_example :
    (read inside (escape_sql "it's \\ here") ≡ chars "it's \\ here")
    × (mode_after inside (escape_sql "it's \\ here") ≡ inside)
read-escape_sql_example = read-escape_sql "it's \\ here"

read-claim_wanted_dml_example :
    read_statement (claim_wanted_dml "w1" "o'hara")
    ≡ some (
        sql "UPDATE wanted SET claimed_by="
        ++ (value "o'hara"
            ++ (sql ", status="
                ++ (value "claimed"
                    ++ (sql ", updated_at=NOW() WHERE id="
                        ++ (value "w1" ++ (sql " AND status=" ++ value "open")))))))
read-claim_wanted_dml_example = read-claim_wanted_dml "w1" "o'hara"

read_status_changes_example :
    read_statement (close_wanted_dml "w'1") ≡ status_change "w'1" "completed" "in_review"
read_status_changes_example = (read_status_changes "w'1").0

read-submit_completion_dml_example :
    map read_statement (submit_completion_dml "c1" "w1" "alice" "it's done" "")
    ≡ submits "c1" "w1" "alice" "it's done" ""
read-submit_completion_dml_example = read-submit_completion_dml "c1" "w1" "alice" "it's done" ""

abbrev on_main : WantedSummary
on_main = record {
  id = "w1";
  title = "Fix it";
  description = "";
  project = "";
  type = "bug";
  priority = pos 2;
  posted_by = "bob";
  claimed_by = "";
  status = "open";
  effort_level = "medium";
}

abbrev claim_on_branch : BranchOverride
claim_on_branch = record {
  wanted_id = "w1";
  branch = "wl/alice/w1";
  status = "claimed";
  claimed_by = "alice";
}

detect_all_branch_overrides-IsDistinct_example :
    IsDistinct (items_of (detect_all_branch_overrides rt db []).0)
detect_all_branch_overrides-IsDistinct_example = detect_all_branch_overrides-IsDistinct rt db []

-- What is shown for the rig `alice`: the item on her branch.
shown : (i : WantedItem) × (effective (resolve_item_state rt db "alice" "w1" []) ≡ some i)
unfolding effective resolve_item_state find_branch_for_item query_full_detail_ref
    query_item_branch_state parse_simple_csv full_detail_of_row parse_wanted_detail_row split_char
    concat replace_char escape_sql trim_space branch_name put
shown = (_, refl)

resolve_item_state-Shows_example :
    Shows
      (query_full_detail_ref rt db "w1" (find_branch_for_item rt db "alice" "w1" []) [])
      shown.0
      (resolve_item_state rt db "alice" "w1" [])
    ⊎ Shows
        (query_full_detail_ref rt db "w1" "" [])
        shown.0
        (resolve_item_state rt db "alice" "w1" [])
resolve_item_state-Shows_example = resolve_item_state-Shows rt db "alice" "w1" [] shown.0 shown.1
