-- ===== src/Backfill/Scoring.antt =====
-- tools/githubprbackfill/scoring.go and types.go: the score of a pull request by its signals. Counts
-- are natural numbers, and a confidence is in hundredths, which is how all of them are written.
-- `strings.ToLower` is a parameter.
pub mod Valid
use wasteland.Base.{
  ltb, leb, if◌then◌else◌, join, contains, ℕ, ◌+◌, ◌-◌, String, ◌<>◌, Bool, false, not, ◌&&◌, ◌||◌,
  Option, none, some, List, [], ◌∷◌, ◌==◌,
}

pub record Signals : Type 0 where
  pub effective_additions : ℕ
  pub effective_deletions : ℕ
  pub effective_changed_files : ℕ
  pub raw_additions : ℕ
  pub raw_deletions : ℕ
  pub raw_changed_files : ℕ
  pub labels : List String
  pub skill_tags : List String
  pub identity_source : String
  pub strong_blocking_review : Bool
  pub maintainer_commits : ℕ
  pub post_review_author_changes : ℕ
  pub review_fixup_commit : Bool
  pub later_reverted : Bool
  pub no_effective_authored_files : Bool
  pub generated_only : Bool
  pub dependency_only : Bool
  pub mechanical_only : Bool
  pub docs_only : Bool
  pub ci_only : Bool
  pub revert_only : Bool
  pub feature_like : Bool
  pub runtime_or_api_like : Bool
  pub subject_conflict : Bool
  pub questionable_attribution : Bool
  pub adopted_original_pr : String
  pub unknown_commit_author_count : ℕ
  pub large_generated_diff : Bool

pub record Score : Type 0 where
  pub quality : ℕ
  pub reliability : ℕ
  pub creativity : ℕ
  pub severity : String
  pub confidence : ℕ
  pub source : String
  pub rationale : List String

unfoldable pub contains_any : String → List String → Bool
unfolding contains
contains_any s [] = false
contains_any s (n ∷ ns) = let rest = contains_any s ns in contains s n || rest

unfoldable pub min_of : ℕ → ℕ → ℕ
min_of a b = if ltb a b then a else b

unfoldable pub clamp : ℕ → ℕ → ℕ → ℕ
unfolding min_of
clamp v lo hi = min_of (if ltb v lo then lo else v) hi

unfoldable pub low_signal : Signals → Bool
low_signal s =
    s.later_reverted || s.no_effective_authored_files || s.generated_only || s.dependency_only
    || s.mechanical_only

-- The deductions with their reasons, in order.
unfoldable pub deductions : Signals → List (Bool × String)
deductions s =
    (s.strong_blocking_review, "strong blocking review")
    ∷ (ltb 0 s.maintainer_commits, "maintainer commits")
    ∷ (
      ltb 0 s.post_review_author_changes && s.strong_blocking_review,
      "post-review author changes after strong signal",
    )
    ∷ []

unfoldable pub deduct : ℕ → List (Bool × String) → ℕ
deduct score [] = score
deduct score ((hit, why) ∷ rest) = deduct (if hit then score - 1 else score) rest

unfoldable pub reasons : List (Bool × String) → List String
reasons [] = []
reasons ((hit, why) ∷ rest) = let more = reasons rest in if hit then why ∷ more else more

unfoldable pub or_default : List String → List String
or_default [] = "merged main PR" ∷ []
or_default (r ∷ rs) = r ∷ rs

unfoldable pub quality_of : Signals → ℕ
unfolding clamp deduct deductions low_signal min_of
quality_of s = clamp (deduct (if low_signal s then min_of 4 3 else 4) (deductions s)) 3 4

unfoldable pub rationale_of : Signals → List String
unfolding or_default reasons deductions low_signal
rationale_of s = or_default (reasons ((low_signal s, "low-signal cap") ∷ deductions s))

unfoldable pub creativity_of : Signals → ℕ
creativity_of s =
    if s.dependency_only || s.generated_only || s.mechanical_only || s.docs_only || s.ci_only
      || s.revert_only || s.no_effective_authored_files
    then 2
    else if s.feature_like || s.runtime_or_api_like
    then 4
    else 3

unfoldable pub severity_of : (String → String) → String → Signals → String
unfolding contains_any join
severity_of to_lower pr_title s =
    let churn = s.effective_additions + s.effective_deletions in
    let text = to_lower pr_title <> " " <> to_lower (join " " s.labels) in
    if s.no_effective_authored_files
    then "leaf"
    else if leb 20 s.effective_changed_files || leb 1500 churn
    then "root"
    else if leb 5 s.effective_changed_files
        || leb 300 churn
        || contains_any text ("feat" ∷ "feature" ∷ "perf" ∷ "performance" ∷ "refactor" ∷ [])
    then "branch"
    else "leaf"

unfoldable pub base_confidence : String → ℕ
base_confidence source = if source == "exact" then 55 else if source == "override" then 53 else 51

unfoldable pub confidence_of : Signals → ℕ
unfolding base_confidence min_of
confidence_of s =
    let base = base_confidence s.identity_source in
    let reviewed =
      if ltb 0 s.maintainer_commits || s.strong_blocking_review then min_of base 49 else base in
    if s.later_reverted || s.subject_conflict || s.questionable_attribution
    then min_of reviewed 46
    else reviewed

unfoldable pub score_pr : (String → String) → String → Signals → Score
unfolding quality_of creativity_of severity_of confidence_of rationale_of
score_pr to_lower pr_title s = record {
  quality = quality_of s;
  reliability = quality_of s;
  creativity = creativity_of s;
  severity = severity_of to_lower pr_title s;
  confidence = confidence_of s;
  source = "formula";
  rationale = rationale_of s;
}

-- What `validateScore` refuses.
pub data ScoreError : Type 0 where
  quality_outside reliability_outside creativity_outside confidence_outside : ℕ → ScoreError
  invalid_severity : String → ScoreError

unfoldable pub validate_score : Score → Option ScoreError
validate_score score =
    if ltb score.quality 1 || ltb 5 score.quality
    then some (quality_outside score.quality)
    else if ltb score.reliability 1 || ltb 5 score.reliability
    then some (reliability_outside score.reliability)
    else if ltb score.creativity 1 || ltb 5 score.creativity
    then some (creativity_outside score.creativity)
    else if not (score.severity == "leaf" || score.severity == "branch" || score.severity == "root")
    then some (invalid_severity score.severity)
    else if ltb 100 score.confidence
    then some (confidence_outside score.confidence)
    else none
