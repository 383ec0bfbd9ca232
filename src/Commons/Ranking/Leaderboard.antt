-- ===== src/Commons/Ranking/Leaderboard.antt =====
-- internal/commons/leaderboard.go: the rigs by validated completions.
use wasteland.Base.{show_nat, ℤ, ℕ, String, ◌<>◌, List, [], ◌∷◌, map}
use wasteland.Commons.Types.{wrapped, Result, ok, err, ◌>>=◌}
use wasteland.Commons.Db.{Db, Runtime}
use wasteland.Commons.Rows.{Row, column, parse_simple_csv}
use wasteland.Commons.Ranking.{
  Count, Strconv, clamp_limit, top_n_keys, freq_of, per_rig, in_list, parsing, each,
}

pub record LeaderboardEntry (F : Type 0) : Type 0 where
  pub rig_handle : String
  pub completions : ℤ
  pub avg_quality : F
  pub avg_reliab : F
  pub avg_creativity : F
  pub top_skills : List String

unfoldable pub leaderboard_query : ℕ → String
leaderboard_query limit =
    "SELECT\n  c.completed_by,\n  COUNT(*) AS completions,\n  COALESCE(AVG(JSON_EXTRACT(s.valence, '$.quality')), 0) AS avg_quality,\n  COALESCE(AVG(JSON_EXTRACT(s.valence, '$.reliability')), 0) AS avg_reliability,\n  COALESCE(AVG(JSON_EXTRACT(s.valence, '$.creativity')), 0) AS avg_creativity\nFROM completions c\nJOIN stamps s ON c.stamp_id = s.id\nGROUP BY c.completed_by\nORDER BY completions DESC, avg_quality DESC, c.completed_by ASC\nLIMIT "
    <> show_nat limit

unfoldable pub top_skills_query : List String → String
top_skills_query handles =
    "SELECT c.completed_by, s.skill_tags\nFROM completions c\nJOIN stamps s ON c.stamp_id = s.id\nWHERE c.completed_by IN ("
    <> in_list handles
    <> ") AND s.skill_tags IS NOT NULL AND s.skill_tags != ''\nORDER BY c.completed_by"

unfoldable pub in_context : {A : Type 0} → String → Result A → Result A
in_context text (ok a) = ok a
in_context text (err e) = err (wrapped text e)

unfoldable pub with_top_skills :
    {F : Type 0} → List (String × List Count) → LeaderboardEntry F → LeaderboardEntry F
unfolding freq_of top_n_keys
with_top_skills freqs e = record e { top_skills = top_n_keys (freq_of e.rig_handle freqs) 5 }

module _ {F S : Type 0} (rt : Runtime) (conv : Strconv F) (db : Db S) where
  unfoldable pub leaderboard_entry : Row → Result (LeaderboardEntry F)
  unfolding parsing
  leaderboard_entry row = do
    let rig = column row "completed_by"
    completions ← parsing "completions" rig (conv.atoi (column row "completions"))
    q ← parsing "avg_quality" rig (conv.parse_float (column row "avg_quality"))
    r ← parsing "avg_reliability" rig (conv.parse_float (column row "avg_reliability"))
    c ← parsing "avg_creativity" rig (conv.parse_float (column row "avg_creativity"))
    ok (record {
      rig_handle = rig;
      completions = completions;
      avg_quality = q;
      avg_reliab = r;
      avg_creativity = c;
      top_skills = [];
    })

  unfoldable pub populate_top_skills :
      List (LeaderboardEntry F) → S → Result (List (LeaderboardEntry F))
  unfolding top_skills_query per_rig with_top_skills
  populate_top_skills [] s = ok []
  populate_top_skills (e ∷ es) s = do
    output ← db.query (top_skills_query (map (λ x. x.rig_handle) (e ∷ es))) "" s
    let freqs = per_rig rt "completed_by" (parse_simple_csv rt output) []
    ok (map (with_top_skills freqs) (e ∷ es))

  unfoldable pub query_leaderboard : ℤ → S → Result (List (LeaderboardEntry F))
  unfolding in_context leaderboard_query clamp_limit each leaderboard_entry populate_top_skills
  query_leaderboard limit s = do
    output ←
        in_context "querying leaderboard" (db.query (leaderboard_query (clamp_limit limit)) "" s)
    entries ← each leaderboard_entry (parse_simple_csv rt output)
    in_context "querying top skills" (populate_top_skills entries s)
