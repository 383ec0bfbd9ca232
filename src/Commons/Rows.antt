-- ===== src/Commons/Rows.antt =====
-- internal/commons/commons.go and dolt.go: reading rows of the board out of the CSV text that a query
-- returns. A row is a map from column names; a missing column reads as the empty text.
use wasteland.Base.{
  if◌then◌else◌, get, put, trim_space, split_char, ℤ, pos, String, ◌<>◌, Bool, true, false, not,
  ◌&&◌, ◌||◌, Option, none, some, List, [], ◌∷◌, ◌==◌,
}
use wasteland.Commons.Types.{
  WantedItem, CompletionRecord, Stamp, lit, quoted, failed, Result, ok, err, ◌>>=◌,
}
use wasteland.Commons.Db.{Db, Runtime}
use wasteland.Commons.Sql.{escape_sql}

abbrev pub Row : Type 0
Row = List (String × String)

-- A read of a Go map of texts.
abbrev pub column : Row → String → String
column row name = elim (get name row) [ none ↦ "" | some v ↦ v ]

-- The fields beyond the headers are dropped, and headers beyond the fields are not set.
fill_row : List String → List String → Row → Row
fill_row [] fields row = row
fill_row (h ∷ hs) [] row = row
fill_row (h ∷ hs) (f ∷ fs) row = fill_row hs fs (put (trim_space h) (trim_space f) row)

is_blank : List String → Bool
is_blank [] = true
is_blank (f ∷ fs) = trim_space f == "" && is_blank fs

rows_of : List String → List (List String) → List Row
unfolding is_blank fill_row
rows_of headers [] = []
rows_of headers (fields ∷ rest) =
    let more = rows_of headers rest in
    if is_blank fields then more else fill_row headers fields [] ∷ more

-- Fewer than two records are no rows.
rows_of_records : Option (List (List String)) → List Row
unfolding rows_of
rows_of_records none = []
rows_of_records (some []) = []
rows_of_records (some (headers ∷ [])) = []
rows_of_records (some (headers ∷ record1 ∷ rest)) = rows_of headers (record1 ∷ rest)

unfoldable pub parse_simple_csv : Runtime → String → List Row
unfolding rows_of_records
parse_simple_csv rt text =
    let trimmed = trim_space text in
    if trimmed == "" then [] else rows_of_records (rt.read_all trimmed)

unfoldable pub parse_tags_json : Runtime → String → List String
parse_tags_json rt s =
    let trimmed = trim_space s in
    if trimmed == "" || trimmed == "NULL"
    then []
    else elim (rt.unmarshal_tags trimmed) [ none ↦ [] | some tags ↦ tags ]

unfoldable pub parse_wanted_detail_row : Runtime → Row → WantedItem
unfolding parse_tags_json
parse_wanted_detail_row rt row = record {
  id = column row "id";
  title = column row "title";
  description = column row "description";
  project = column row "project";
  type = column row "type";
  priority = rt.atoi (column row "priority");
  tags = parse_tags_json rt (column row "tags");
  posted_by = column row "posted_by";
  claimed_by = column row "claimed_by";
  status = column row "status";
  effort_level = column row "effort_level";
  sandbox_required = false;
  created_at = column row "created_at";
  updated_at = column row "updated_at";
}

completion_columns : String → String → String → Row → CompletionRecord
completion_columns id wanted_id stamp_id row = record {
  id = column row id;
  wanted_id = column row wanted_id;
  completed_by = column row "completed_by";
  evidence = column row "evidence";
  stamp_id = column row stamp_id;
  validated_by = column row "validated_by";
}

-- The valence stays zero if the column is empty.
valence_of : Runtime → String → ℤ × ℤ
valence_of rt v = if v == "" then (pos 0, pos 0) else rt.unmarshal_valence v

-- A stamp from the columns whose names have the given prefix; its id has a column of its own.
stamp_columns : Runtime → String → String → Row → Stamp
unfolding parse_tags_json valence_of
stamp_columns rt id prefix row = record {
  id = column row id;
  author = column row (prefix <> "author");
  subject = column row (prefix <> "subject");
  quality = (valence_of rt (column row (prefix <> "valence"))).0;
  reliability = (valence_of rt (column row (prefix <> "valence"))).1;
  severity = column row (prefix <> "severity");
  context_id = column row (prefix <> "context_id");
  context_type = column row (prefix <> "context_type");
  skill_tags = parse_tags_json rt (column row (prefix <> "skill_tags"));
  message = column row (prefix <> "message");
}

-- The first row, or the error of a query that found none.
first_row : String → String → String → List Row → Result Row
first_row kind id ref (row ∷ rows) = ok row
first_row kind id ref [] =
    if not (ref == "")
    then err (failed (lit kind ∷ quoted id ∷ lit " not found on ref " ∷ lit ref ∷ []))
    else err (failed (lit kind ∷ quoted id ∷ lit " not found" ∷ []))

first_completion : String → String → List Row → Result Row
first_completion id ref (row ∷ rows) = ok row
first_completion id ref [] =
    if not (ref == "")
    then err (
        failed
          (lit "no completion found for wanted item " ∷ quoted id ∷ lit " on ref " ∷ lit ref ∷ []))
    else err (failed (lit "no completion found for wanted item " ∷ quoted id ∷ []))

has_completion : String → Bool
has_completion status = status == "in_review" || status == "completed"

-- The parts of the joined row; the item's completion and stamp are read only in the two statuses
-- that have them.
unfoldable pub full_detail_of_row :
    Runtime → Row → WantedItem × Option CompletionRecord × Option Stamp
unfolding has_completion completion_columns stamp_columns parse_wanted_detail_row
full_detail_of_row rt row =
    let item = parse_wanted_detail_row rt row in
    if not (has_completion item.status) then (item, none, none) else (
      item,
      if not (column row "completion_id" == "")
          then some
              (completion_columns "completion_id" "completion_wanted_id" "completion_stamp_id" row)
          else none,
      if not (column row "stamp_record_id" == "")
          then some (stamp_columns rt "stamp_record_id" "stamp_" row)
          else none,
    )

-- The column lists of the queries.
abbrev wanted_columns : String
wanted_columns =
    "SELECT id, title, COALESCE(description,'') as description, COALESCE(project,'') as project, COALESCE(type,'') as type, priority, COALESCE(tags,'') as tags, COALESCE(posted_by,'') as posted_by, COALESCE(claimed_by,'') as claimed_by, status, COALESCE(effort_level,'medium') as effort_level, COALESCE(created_at,'') as created_at, COALESCE(updated_at,'') as updated_at FROM wanted WHERE id='"

abbrev joined_columns : String
joined_columns =
    "SELECT w.id, w.title, COALESCE(w.description,'') as description, COALESCE(w.project,'') as project, COALESCE(w.type,'') as type, w.priority, COALESCE(w.tags,'') as tags, COALESCE(w.posted_by,'') as posted_by, COALESCE(w.claimed_by,'') as claimed_by, w.status, COALESCE(w.effort_level,'medium') as effort_level, COALESCE(w.created_at,'') as created_at, COALESCE(w.updated_at,'') as updated_at, COALESCE(c.id,'') as completion_id, COALESCE(c.wanted_id,'') as completion_wanted_id, COALESCE(c.completed_by,'') as completed_by, COALESCE(c.evidence,'') as evidence, COALESCE(c.stamp_id,'') as completion_stamp_id, COALESCE(c.validated_by,'') as validated_by, COALESCE(s.id,'') as stamp_record_id, COALESCE(s.author,'') as stamp_author, COALESCE(s.subject,'') as stamp_subject, COALESCE(s.valence,'') as stamp_valence, COALESCE(s.severity,'') as stamp_severity, COALESCE(s.context_id,'') as stamp_context_id, COALESCE(s.context_type,'') as stamp_context_type, COALESCE(s.skill_tags,'') as stamp_skill_tags, COALESCE(s.message,'') as stamp_message FROM wanted w LEFT JOIN completions c ON c.wanted_id = w.id LEFT JOIN stamps s ON s.id = c.stamp_id WHERE w.id='"

module _ {S : Type 0} (rt : Runtime) (db : Db S) where
  by_id : String → String → String → S → Result (List Row)
  by_id select id ref s = do
    output ← db.query (select <> escape_sql id <> "'") ref s
    ok (parse_simple_csv rt output)

  unfoldable pub query_wanted : String → S → Result WantedItem
  unfolding by_id first_row
  query_wanted wanted_id s = do
    rows ←
        by_id
          "SELECT id, title, status, COALESCE(claimed_by, '') as claimed_by, COALESCE(posted_by, '') as posted_by FROM wanted WHERE id='"
          wanted_id "" s
    row ← first_row "wanted item " wanted_id "" rows
    ok (record {
      id = column row "id";
      title = column row "title";
      description = "";
      project = "";
      type = "";
      priority = pos 0;
      tags = [];
      posted_by = column row "posted_by";
      claimed_by = column row "claimed_by";
      status = column row "status";
      effort_level = "";
      sandbox_required = false;
      created_at = "";
      updated_at = "";
    })

  -- `QueryCompletion` at the empty ref, and `QueryCompletionAsOf`.
  unfoldable pub query_completion_ref : String → String → S → Result CompletionRecord
  unfolding by_id first_completion completion_columns
  query_completion_ref wanted_id ref s = do
    rows ←
        by_id
          "SELECT id, wanted_id, completed_by, COALESCE(evidence, '') as evidence, COALESCE(stamp_id, '') as stamp_id, COALESCE(validated_by, '') as validated_by FROM completions WHERE wanted_id='"
          wanted_id ref s
    row ← first_completion wanted_id ref rows
    ok (completion_columns "id" "wanted_id" "stamp_id" row)

  -- `QueryStamp` at the empty ref, and `QueryStampAsOf`.
  unfoldable pub query_stamp_ref : String → String → S → Result Stamp
  unfolding by_id first_row stamp_columns
  query_stamp_ref stamp_id ref s = do
    rows ←
        by_id
          "SELECT id, author, subject, valence, severity, COALESCE(context_id,'') as context_id, COALESCE(context_type,'') as context_type, COALESCE(skill_tags,'') as skill_tags, COALESCE(message,'') as message FROM stamps WHERE id='"
          stamp_id ref s
    row ← first_row "stamp " stamp_id ref rows
    ok (stamp_columns rt "id" "" row)

  -- `QueryWantedDetail` at the empty ref, and `QueryWantedDetailAsOf`.
  unfoldable pub query_wanted_detail_ref : String → String → S → Result WantedItem
  unfolding by_id first_row
  query_wanted_detail_ref wanted_id ref s = do
    rows ← by_id wanted_columns wanted_id ref s
    row ← first_row "wanted item " wanted_id ref rows
    ok (parse_wanted_detail_row rt row)

  -- `QueryFullDetail` at the empty ref, and `QueryFullDetailAsOf`.
  unfoldable pub query_full_detail_ref :
      String → String → S → Result (WantedItem × Option CompletionRecord × Option Stamp)
  unfolding by_id first_row
  query_full_detail_ref wanted_id ref s = do
    rows ← by_id joined_columns wanted_id ref s
    row ← first_row "wanted item " wanted_id ref rows
    ok (full_detail_of_row rt row)

  status_line : List String → String × Bool
  status_line (header ∷ line ∷ lines) = (trim_space line, true)
  status_line _ = ("", false)

  -- The status and whether the item was found; an error is the caller's to read.
  unfoldable pub query_item_status : String → String → S → Result (String × Bool)
  unfolding status_line
  query_item_status wanted_id ref s = do
    out ← db.query ("SELECT status FROM wanted WHERE id = '" <> escape_sql wanted_id <> "'") ref s
    ok (status_line (split_char 10 (trim_space out)))

  -- The status alone, as the callers that drop the error read it (`QueryItemStatusAsOf`).
  unfoldable pub item_status : String → String → S → String
  unfolding query_item_status
  item_status wanted_id ref s = elim (query_item_status wanted_id ref s) [
    | ok (status, found) ↦ status
    | err e ↦ ""
  ]
