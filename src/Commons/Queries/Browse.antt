-- ===== src/Commons/Queries/Browse.antt =====
-- internal/commons/queries.go: filters, the browse query, and summaries.
use wasteland.Base.{
  if◌then◌else◌, get, join, contains, concat, is_nonneg, int_eq, show_int, ℤ, pos, negsuc, zero,
  suc, String, ◌<>◌, Bool, true, false, not, ◌&&◌, ◌||◌, Option, none, some, List, [], ◌∷◌, ◌++◌,
  map, ◌==◌,
}
use wasteland.Commons.Types.{WantedItem, wrapped, Result, ok, err}
use wasteland.Commons.Db.{Db, Runtime}
use wasteland.Commons.Sql.{escape_sql, escape_like}
use wasteland.Commons.Rows.{Row, column, parse_simple_csv}

pub data SortOrder : Type 0 where
  sort_priority sort_newest sort_alpha : SortOrder

unfoldable pub sort_label : SortOrder → String
sort_label sort_newest = "newest"
sort_label sort_alpha = "alpha"
sort_label _ = "priority"

-- A priority below 0 is unset.
pub record BrowseFilter : Type 0 where
  pub status : String
  pub project : String
  pub type : String
  pub priority : ℤ
  pub limit : ℤ
  pub posted_by : String
  pub claimed_by : String
  pub search : String
  pub my_items : String
  pub sort : SortOrder
  pub view : String
  pub long : Bool

pub record WantedSummary : Type 0 where
  pub id : String
  pub title : String
  pub description : String
  pub project : String
  pub type : String
  pub priority : ℤ
  pub posted_by : String
  pub claimed_by : String
  pub status : String
  pub effort_level : String

-- One `if` of `BuildBrowseQuery`: a condition that is appended, or not.
condition : Bool → List String → List String
condition true parts = concat parts ∷ []
condition false parts = []

person_conditions : BrowseFilter → List String
unfolding condition
person_conditions f =
    if not (f.my_items == "")
    then concat (
        "(posted_by = '"
        ∷ escape_sql f.my_items
        ∷ "' OR claimed_by = '"
        ∷ escape_sql f.my_items
        ∷ "')"
        ∷ [])
      ∷ []
    else condition (not (f.posted_by == "")) ("posted_by = '" ∷ escape_sql f.posted_by ∷ "'" ∷ [])
      ++ condition (not (f.claimed_by == ""))
          ("claimed_by = '" ∷ escape_sql f.claimed_by ∷ "'" ∷ [])

conditions : BrowseFilter → List String
unfolding condition person_conditions
conditions f =
    condition (not (f.status == "")) ("status = '" ∷ escape_sql f.status ∷ "'" ∷ [])
    ++ (condition (not (f.project == "")) ("project = '" ∷ escape_sql f.project ∷ "'" ∷ [])
        ++ (condition (not (f.type == "")) ("type = '" ∷ escape_sql f.type ∷ "'" ∷ [])
            ++ (condition (is_nonneg f.priority) ("priority = " ∷ show_int f.priority ∷ [])
                ++ (person_conditions f
                    ++ condition (not (f.search == "")) (
                        "(title LIKE '%"
                        ∷ escape_like f.search
                        ∷ "%' OR COALESCE(description,'') LIKE '%"
                        ∷ escape_like f.search
                        ∷ "%' OR COALESCE(tags,'') LIKE '%"
                        ∷ escape_like f.search
                        ∷ "%')"
                        ∷ [])))))

where_clause : List String → String
where_clause [] = ""
where_clause (c ∷ cs) = " WHERE " <> join " AND " (c ∷ cs)

order_clause : SortOrder → String
order_clause sort_newest = " ORDER BY created_at DESC"
order_clause sort_alpha = " ORDER BY title ASC"
order_clause _ = " ORDER BY priority ASC, created_at DESC"

-- A limit of 0 or less is 50.
effective_limit : ℤ → ℤ
effective_limit (pos zero) = pos 50
effective_limit (pos (suc n)) = pos (suc n)
effective_limit (negsuc n) = pos 50

columns : Bool → String
columns true =
    "id, title, COALESCE(description,'') as description, COALESCE(project,'') as project, COALESCE(type,'') as type, priority, COALESCE(posted_by,'') as posted_by, COALESCE(claimed_by,'') as claimed_by, status, COALESCE(effort_level,'medium') as effort_level"
columns false =
    "id, title, COALESCE(project,'') as project, COALESCE(type,'') as type, priority, COALESCE(posted_by,'') as posted_by, COALESCE(claimed_by,'') as claimed_by, status, COALESCE(effort_level,'medium') as effort_level"

unfoldable pub build_browse_query : BrowseFilter → String
unfolding conditions where_clause order_clause effective_limit columns
build_browse_query f = concat (
    "SELECT "
    ∷ columns f.long
    ∷ " FROM wanted"
    ∷ where_clause (conditions f)
    ∷ order_clause f.sort
    ∷ " LIMIT "
    ∷ show_int (effective_limit f.limit)
    ∷ [])

-- The priority is 2 where the column is missing or is no number.
summary_priority : Runtime → Option String → ℤ
summary_priority rt none = pos 2
summary_priority rt (some v) = elim (rt.scan_int v) [ none ↦ pos 2 | some n ↦ n ]

summary_of_row : Runtime → Row → WantedSummary
unfolding summary_priority
summary_of_row rt row = record {
  id = column row "id";
  title = column row "title";
  description = column row "description";
  project = column row "project";
  type = column row "type";
  priority = summary_priority rt (get "priority" row);
  posted_by = column row "posted_by";
  claimed_by = column row "claimed_by";
  status = column row "status";
  effort_level = column row "effort_level";
}

unfoldable pub parse_wanted_summaries : Runtime → String → List WantedSummary
unfolding summary_of_row
parse_wanted_summaries rt text = map (summary_of_row rt) (parse_simple_csv rt text)

unfoldable pub browse_wanted :
    {S : Type 0} → Runtime → Db S → BrowseFilter → S → Result (List WantedSummary)
browse_wanted rt db f s = elim (db.query (build_browse_query f) "" s) [
  | ok text ↦ ok (parse_wanted_summaries rt text)
  | err e ↦ err (wrapped "querying wanted board" e)
]

any_tag : Runtime → String → List String → Bool
any_tag rt s [] = false
any_tag rt s (tag ∷ tags) = contains (rt.to_lower tag) s || any_tag rt s tags

-- The search term in the title, the description or a tag.
unfoldable pub matches_search : Runtime → WantedItem → String → Bool
unfolding any_tag
matches_search rt item search =
    let s = rt.to_lower search in
    contains (rt.to_lower item.title) s
    || contains (rt.to_lower item.description) s
    || any_tag rt s item.tags

-- A filter field that is set and differs.
abbrev pub excludes : String → String → Bool
excludes wanted actual = not (wanted == "") && not (actual == wanted)

unfoldable pub matches_browse_filter : Runtime → WantedItem → BrowseFilter → Bool
matches_browse_filter rt item f =
    if excludes f.type item.type
    then false
    else if excludes f.project item.project
    then false
    else if is_nonneg f.priority && not (int_eq item.priority f.priority)
    then false
    else if excludes f.posted_by item.posted_by
    then false
    else if excludes f.claimed_by item.claimed_by
    then false
    else if not (f.search == "")
    then matches_search rt item f.search
    else true
