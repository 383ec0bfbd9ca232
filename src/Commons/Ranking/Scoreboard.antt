-- ===== src/Commons/Ranking/Scoreboard.antt =====
-- internal/commons/scoreboard.go: the rigs by weighted score.
use wasteland.Base.{
  leb, if◌then◌else◌, get, put, show_nat, ℤ, pos, negsuc, ℕ, String, ◌<>◌, none, some, List, [],
  ◌∷◌, map,
}
use wasteland.Commons.Types.{Result, ok, ◌>>=◌}
use wasteland.Commons.Db.{Db, Runtime}
use wasteland.Commons.Rows.{Row, column, parse_simple_csv}
use wasteland.Commons.Ranking.{
  Count, Strconv, clamp_limit, top_n_keys, freq_of, per_rig, in_list, parsing, each,
}
use wasteland.Commons.Ranking.Leaderboard.{in_context}

pub record ScoreboardEntry (F : Type 0) : Type 0 where
  pub rig_handle : String
  pub display_name : String
  pub stamp_count : ℤ
  pub weighted_score : ℤ
  pub unique_towns : ℤ
  pub completions : ℤ
  pub avg_quality : F
  pub avg_reliab : F
  pub avg_creativity : F
  pub top_skills : List String
  pub trust_tier : String

unfoldable pub derive_trust_tier : ℤ → String
derive_trust_tier (negsuc n) = "outsider"
derive_trust_tier (pos n) =
    if leb 50 n
    then "maintainer"
    else if leb 25 n
    then "trusted"
    else if leb 10 n
    then "contributor"
    else if leb 3 n
    then "newcomer"
    else "outsider"

unfoldable pub scoreboard_query : ℕ → String
scoreboard_query limit =
    "SELECT\n  s.subject,\n  COUNT(*) AS stamp_count,\n  SUM(CASE s.severity WHEN 'root' THEN 5 WHEN 'branch' THEN 3 WHEN 'leaf' THEN 1 ELSE 0 END) AS weighted_score,\n  COUNT(DISTINCT s.author) AS unique_towns,\n  COALESCE(AVG(JSON_EXTRACT(s.valence, '$.quality')), 0) AS avg_quality,\n  COALESCE(AVG(JSON_EXTRACT(s.valence, '$.reliability')), 0) AS avg_reliability,\n  COALESCE(AVG(JSON_EXTRACT(s.valence, '$.creativity')), 0) AS avg_creativity\nFROM stamps s\nGROUP BY s.subject\nORDER BY weighted_score DESC, stamp_count DESC, s.subject ASC\nLIMIT "
    <> show_nat limit

unfoldable pub completions_query : List String → String
completions_query handles =
    "SELECT completed_by, COUNT(*) AS completions\nFROM completions\nWHERE stamp_id IS NOT NULL AND completed_by IN ("
    <> in_list handles
    <> ")\nGROUP BY completed_by"

unfoldable pub skills_query : List String → String
skills_query handles =
    "SELECT s.subject, s.skill_tags\nFROM stamps s\nWHERE s.subject IN ("
    <> in_list handles
    <> ") AND s.skill_tags IS NOT NULL AND s.skill_tags != ''\nORDER BY s.subject"

unfoldable pub display_names_query : List String → String
display_names_query handles =
    "SELECT handle, COALESCE(display_name, '') AS display_name\nFROM rigs\nWHERE handle IN ("
    <> in_list handles
    <> ")"

module _ {F : Type 0} where
  unfoldable pub with_completions : List (String × ℤ) → ScoreboardEntry F → ScoreboardEntry F
  with_completions counts e = record e {
    completions = elim (get e.rig_handle counts) [ none ↦ pos 0 | some n ↦ n ];
  }

  unfoldable pub with_skills : List (String × List Count) → ScoreboardEntry F → ScoreboardEntry F
  unfolding freq_of top_n_keys
  with_skills freqs e = record e { top_skills = top_n_keys (freq_of e.rig_handle freqs) 5 }

  unfoldable pub with_display_name : List (String × String) → ScoreboardEntry F → ScoreboardEntry F
  with_display_name names e = record e {
    display_name = elim (get e.rig_handle names) [ none ↦ "" | some n ↦ n ];
  }

  unfoldable pub handles_of : List (ScoreboardEntry F) → List String
  handles_of entries = map (λ e. e.rig_handle) entries

unfoldable pub display_names : List Row → List (String × String) → List (String × String)
display_names [] m = m
display_names (row ∷ rows) m =
    display_names rows (put (column row "handle") (column row "display_name") m)

module _ {F S : Type 0} (rt : Runtime) (conv : Strconv F) (db : Db S) where
  unfoldable pub completion_counts : List Row → List (String × ℤ) → Result (List (String × ℤ))
  unfolding parsing
  completion_counts [] m = ok m
  completion_counts (row ∷ rows) m = do
    let rig = column row "completed_by"
    c ← parsing "completion count" rig (conv.atoi (column row "completions"))
    completion_counts rows (put rig c m)

  unfoldable pub populate_completions :
      List (ScoreboardEntry F) → S → Result (List (ScoreboardEntry F))
  unfolding completions_query completion_counts with_completions handles_of
  populate_completions [] s = ok []
  populate_completions (e ∷ es) s = do
    output ← db.query (completions_query (handles_of (e ∷ es))) "" s
    counts ← completion_counts (parse_simple_csv rt output) []
    ok (map (with_completions counts) (e ∷ es))

  unfoldable pub populate_skills : List (ScoreboardEntry F) → S → Result (List (ScoreboardEntry F))
  unfolding skills_query per_rig with_skills handles_of
  populate_skills [] s = ok []
  populate_skills (e ∷ es) s = do
    output ← db.query (skills_query (handles_of (e ∷ es))) "" s
    let freqs = per_rig rt "subject" (parse_simple_csv rt output) []
    ok (map (with_skills freqs) (e ∷ es))

  unfoldable pub populate_display_names :
      List (ScoreboardEntry F) → S → Result (List (ScoreboardEntry F))
  unfolding display_names_query display_names with_display_name handles_of
  populate_display_names [] s = ok []
  populate_display_names (e ∷ es) s = do
    output ← db.query (display_names_query (handles_of (e ∷ es))) "" s
    ok (map (with_display_name (display_names (parse_simple_csv rt output) [])) (e ∷ es))

  unfoldable pub scoreboard_entry : Row → Result (ScoreboardEntry F)
  unfolding parsing derive_trust_tier
  scoreboard_entry row = do
    let rig = column row "subject"
    stamps ← parsing "stamp_count" rig (conv.atoi (column row "stamp_count"))
    score ← parsing "weighted_score" rig (conv.atoi (column row "weighted_score"))
    towns ← parsing "unique_towns" rig (conv.atoi (column row "unique_towns"))
    q ← parsing "avg_quality" rig (conv.parse_float (column row "avg_quality"))
    r ← parsing "avg_reliability" rig (conv.parse_float (column row "avg_reliability"))
    c ← parsing "avg_creativity" rig (conv.parse_float (column row "avg_creativity"))
    ok (record {
      rig_handle = rig;
      display_name = "";
      stamp_count = stamps;
      weighted_score = score;
      unique_towns = towns;
      completions = pos 0;
      avg_quality = q;
      avg_reliab = r;
      avg_creativity = c;
      top_skills = [];
      trust_tier = derive_trust_tier score;
    })

  unfoldable pub query_scoreboard : ℤ → S → Result (List (ScoreboardEntry F))
  unfolding in_context scoreboard_query clamp_limit each scoreboard_entry populate_completions
      populate_skills populate_display_names
  query_scoreboard limit s = do
    output ←
        in_context "querying scoreboard stamps"
          (db.query (scoreboard_query (clamp_limit limit)) "" s)
    scored ← each scoreboard_entry (parse_simple_csv rt output)
    counted ← in_context "querying scoreboard completions" (populate_completions scored s)
    skilled ← in_context "querying scoreboard skills" (populate_skills counted s)
    in_context "querying scoreboard display names" (populate_display_names skilled s)
