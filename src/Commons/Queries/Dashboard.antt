-- ===== src/Commons/Queries/Dashboard.antt =====
-- internal/commons/queries.go: the dashboard of a rig, with the changes on its own branches.
use wasteland.Base.{if◌then◌else◌, concat, String, Bool, not, ◌||◌, List, [], ◌∷◌, ◌++◌, ◌==◌}
use wasteland.Commons.Types.{WantedItem, wrapped, Result, ok, err, ◌>>=◌}
use wasteland.Commons.Db.{Db, Runtime}
use wasteland.Commons.Sql.{escape_sql}
use wasteland.Commons.Queries.Browse.{WantedSummary, parse_wanted_summaries}
use wasteland.Commons.Queries.Overrides.{
  BranchOverride, detect_branch_overrides, kept_items, applied_ids, added_items, overrides_by_id,
}

pub record DashboardData : Type 0 where
  pub claimed : List WantedSummary
  pub in_review : List WantedSummary
  pub completed : List WantedSummary

pub data PersonField : Type 0 where
  by_claimer by_poster by_either : PersonField

person_matches : PersonField → String → WantedItem → Bool
person_matches by_claimer person item = item.claimed_by == person
person_matches by_poster person item = item.posted_by == person
person_matches by_either person item = item.posted_by == person || item.claimed_by == person

abbrev select : String
select =
    "SELECT id, title, COALESCE(project,'') as project, COALESCE(type,'') as type, priority, COALESCE(posted_by,'') as posted_by, COALESCE(claimed_by,'') as claimed_by, status, COALESCE(effort_level,'medium') as effort_level FROM wanted WHERE "

claimed_query : String → String
claimed_query h = concat (
    select
    ∷ "status = 'claimed' AND claimed_by = '"
    ∷ escape_sql h
    ∷ "' ORDER BY priority ASC, created_at DESC LIMIT 50"
    ∷ [])

review_query : String → String
review_query h = concat (
    select
    ∷ "status = 'in_review' AND (posted_by = '"
    ∷ escape_sql h
    ∷ "' OR claimed_by = '"
    ∷ escape_sql h
    ∷ "') ORDER BY priority ASC, created_at DESC LIMIT 50"
    ∷ [])

completed_query : String → String
completed_query h = concat (
    select
    ∷ "status = 'completed' AND claimed_by = '"
    ∷ escape_sql h
    ∷ "' ORDER BY updated_at DESC LIMIT 5"
    ∷ [])

in_context : {A : Type 0} → String → Result A → Result A
in_context text (ok a) = ok a
in_context text (err e) = err (wrapped text e)

module _ {S : Type 0} (rt : Runtime) (db : Db S) where
  section : String → String → S → Result (List WantedSummary)
  unfolding in_context
  section context query s = do
    text ← in_context context (db.query query "" s)
    ok (parse_wanted_summaries rt text)

  unfoldable pub query_my_dashboard : String → S → Result DashboardData
  unfolding section claimed_query review_query completed_query
  query_my_dashboard handle s = do
    claimed ← section "dashboard claimed" (claimed_query handle) s
    in_review ← section "dashboard in_review" (review_query handle) s
    completed ← section "dashboard completed" (completed_query handle) s
    ok (record { claimed = claimed; in_review = in_review; completed = completed })

  unfoldable pub apply_dashboard_overrides :
      S
      → List WantedSummary
      → List BranchOverride
      → String
      → PersonField
      → String
      → List WantedSummary
  unfolding person_matches
  apply_dashboard_overrides s items [] status_filter field person = items
  apply_dashboard_overrides s items (o ∷ os) status_filter field person =
      let by_id = overrides_by_id (o ∷ os) in
      let drops = λ (status : String). not (status == status_filter) in
      kept_items drops by_id items
      ++ added_items rt db s drops (person_matches field person) (applied_ids by_id items) (o ∷ os)

  with_overrides : S → String → List BranchOverride → DashboardData → DashboardData
  with_overrides s handle [] data1 = data1
  with_overrides s handle (o ∷ os) data1 = record {
    claimed = apply_dashboard_overrides s data1.claimed (o ∷ os) "claimed" by_claimer handle;
    in_review = apply_dashboard_overrides s data1.in_review (o ∷ os) "in_review" by_either handle;
    completed = apply_dashboard_overrides s data1.completed (o ∷ os) "completed" by_claimer handle;
  }

  unfoldable pub query_my_dashboard_branch_aware : String → String → S → Result DashboardData
  unfolding with_overrides
  query_my_dashboard_branch_aware mode rig_handle s = do
    found ← query_my_dashboard rig_handle s
    ok (
        if not (mode == "pr")
        then found
        else with_overrides s rig_handle (detect_branch_overrides rt db rig_handle s) found)
