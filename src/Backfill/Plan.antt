-- ===== src/Backfill/Plan.antt =====
-- tools/githubprbackfill/planner.go and signals.go: the signals of a pull request, whether it is
-- stamped, and for whom. `sort.Strings`, `path.Base`, the form of an evidence URL and the handle made
-- from a login are parameters.
use wasteland.Base.{
  ltb, leb, nat_eq, if◌then◌else◌, length, get, member, join, ℕ, ◌+◌, String, ◌<>◌, Bool, false,
  not, ◌&&◌, Option, none, some, List, [], ◌∷◌, ◌++◌, ◌==◌,
}
use wasteland.Backfill.Scoring.{Signals, contains_any}
use wasteland.Backfill.Files.{
  GhFile, Names, generated_or_low_signal, dependency_only, docs_only, ci_only, mechanical_like,
  revert_like, feature_like, runtime_or_api_like, dominant_language, unique_strings,
}
use wasteland.Backfill.Reviews.{
  GhUser, GhCommit, GhReview, GhComment, strong_blocking_signal, maintainer_commit_count,
  post_review_author_changes, review_fixup_commit,
}

pub record GhPull : Type 0 where
  pub number : ℕ
  pub pr_title : String
  pub body : String
  pub html_url : String
  pub user : Option GhUser
  pub base_ref : String
  pub created_at : ℕ
  pub merged_at : Option ℕ
  pub additions : ℕ
  pub deletions : ℕ
  pub changed_files : ℕ

-- The issue is its labels.
pub record FetchedPr : Type 0 where
  pub repo : String
  pub pull : GhPull
  pub labels : List String
  pub files : List GhFile
  pub commits : List GhCommit
  pub reviews : List GhReview
  pub issue_comments : List GhComment
  pub review_comments : List GhComment

pub record Helpers : Type 0 where
  pub names : Names
  pub sort_strings : List String → List String
  pub repo_name : String → String
  pub blocking : String → Bool
  pub fixup : String → Bool
  pub canonical_evidence_url : String → String
  pub github_handle : String → String

-- The order of the list stands for the order in which Go walks the map.
abbrev pub capabilities : List (String × List String)
capabilities =
    ("api", "api" ∷ "openapi" ∷ [])
    ∷ ("cli", "cmd/" ∷ "cli" ∷ [])
    ∷ ("tui", "tui" ∷ [])
    ∷ ("web", "web/" ∷ "react" ∷ "css" ∷ [])
    ∷ ("docs", "docs/" ∷ ".md" ∷ "readme" ∷ [])
    ∷ ("testing", "test" ∷ "_test.go" ∷ ".spec." ∷ [])
    ∷ ("ci", ".github" ∷ "workflow" ∷ "ci" ∷ [])
    ∷ ("devops", "docker" ∷ "deploy" ∷ "k8s" ∷ "terraform" ∷ [])
    ∷ ("storage", "store" ∷ "storage" ∷ "database" ∷ "sql" ∷ [])
    ∷ ("dolt", "dolt" ∷ [])
    ∷ ("sessions", "session" ∷ [])
    ∷ ("runtime", "runtime" ∷ [])
    ∷ ("config", "config" ∷ [])
    ∷ ("security", "security" ∷ "auth" ∷ "token" ∷ [])
    ∷ ("performance", "perf" ∷ "performance" ∷ [])
    ∷ []

unfoldable pub tags_in : String → List (String × List String) → List String
unfolding contains_any
tags_in text [] = []
tags_in text ((tag, patterns) ∷ rest) =
    let more = tags_in text rest in if contains_any text patterns then tag ∷ more else more

unfoldable pub with_files : Names → String → List GhFile → String
with_files names text [] = text
with_files names text (f ∷ fs) = with_files names (text <> " " <> names.to_lower f.filename) fs

-- The files that count, with their lines.
unfoldable pub effective : Names → List GhFile → List GhFile
unfolding generated_or_low_signal
effective names [] = []
effective names (f ∷ fs) =
    let rest = effective names fs in
    if generated_or_low_signal names f.filename then rest else f ∷ rest

unfoldable pub total : (GhFile → ℕ) → List GhFile → ℕ
total count [] = 0
total count (f ∷ fs) = count f + total count fs

module _ (h : Helpers) where
  unfoldable pub labels_from_issue : FetchedPr → List String
  labels_from_issue fp = h.sort_strings fp.labels

  unfoldable pub capability_tags : FetchedPr → List String
  unfolding tags_in with_files labels_from_issue join
  capability_tags fp =
      let text = h.names.to_lower (fp.pull.pr_title <> " " <> join " " (labels_from_issue fp)) in
      tags_in (with_files h.names text fp.files) capabilities

  unfoldable pub skill_tags : FetchedPr → List String
  unfolding dominant_language capability_tags unique_strings
  skill_tags fp =
      let language = dominant_language h.names fp.files in
      unique_strings h.names []
        ((if language == "" then [] else language ∷ []) ++ h.repo_name fp.repo ∷ capability_tags fp)

  unfoldable pub signals_from_fetched : FetchedPr → Signals
  unfolding effective total labels_from_issue skill_tags feature_like runtime_or_api_like
      dependency_only docs_only ci_only mechanical_like revert_like strong_blocking_signal
      maintainer_commit_count post_review_author_changes review_fixup_commit
  signals_from_fetched fp =
      let files = effective h.names fp.files in
      let additions = total (λ f. f.additions) files in
      let deletions = total (λ f. f.deletions) files in
      record {
        effective_additions = additions;
        effective_deletions = deletions;
        effective_changed_files = length files;
        raw_additions = fp.pull.additions;
        raw_deletions = fp.pull.deletions;
        raw_changed_files = fp.pull.changed_files;
        labels = labels_from_issue fp;
        skill_tags = skill_tags fp;
        identity_source = "";
        strong_blocking_review =
            strong_blocking_signal h.names h.blocking fp.reviews fp.issue_comments
              fp.review_comments;
        maintainer_commits = maintainer_commit_count h.names fp.pull.user fp.commits;
        post_review_author_changes =
            post_review_author_changes h.names fp.pull.user fp.commits fp.reviews fp.issue_comments
              fp.review_comments;
        review_fixup_commit = review_fixup_commit h.fixup fp.commits;
        later_reverted = false;
        no_effective_authored_files = nat_eq (length files) 0;
        generated_only = ltb 0 (length fp.files) && nat_eq (length files) 0;
        dependency_only = dependency_only h.names fp.files;
        mechanical_only = mechanical_like h.names fp.pull.pr_title;
        docs_only = docs_only h.names fp.files;
        ci_only = ci_only h.names fp.files;
        revert_only = revert_like h.names fp.pull.pr_title;
        feature_like = feature_like h.names fp.pull.pr_title (labels_from_issue fp);
        runtime_or_api_like = runtime_or_api_like h.names fp.files;
        subject_conflict = false;
        questionable_attribution = false;
        adopted_original_pr = "";
        unknown_commit_author_count = 0;
        large_generated_diff =
            leb 1500 (fp.pull.additions + fp.pull.deletions) && ltb (additions + deletions) 300;
      }

  -- Why a pull request is skipped; "" if it is not.
  unfoldable pub author_reason : List String → FetchedPr → GhUser → String
  author_reason evidence_urls fp u =
      if u.login == ""
      then "skipped_missing_author"
      else if not (u.type == "User")
      then "skipped_bot_actor"
      else if member (h.canonical_evidence_url fp.pull.html_url) evidence_urls
      then "already_stamped"
      else ""

  unfoldable pub eligibility_reason : List String → FetchedPr → String
  unfolding author_reason
  eligibility_reason evidence_urls fp = elim fp.pull.merged_at [
    | none ↦ "not_merged"
    | some at ↦ if not (fp.pull.base_ref == "main") then "non_main_base" else elim fp.pull.user [
      | none ↦ "skipped_missing_author"
      | some u ↦ author_reason evidence_urls fp u
    ]
  ]

  -- The handle, its source and the reason; an override is a handle and a reason.
  unfoldable pub resolve_identity :
      List (String × String) → List (String × (String × String)) → String → String × String × String
  resolve_identity rig_handles overrides login = elim (get (h.names.to_lower login) rig_handles) [
    | some handle ↦ (handle, "exact", "case-insensitive existing rig match")
    | none ↦ elim (get login overrides) [
      | some o ↦ (o.0, "override", o.1)
      | none ↦ (h.github_handle login, "provisional", "created from GitHub login")
    ]
  ]

  unfoldable pub excluded_login_reason : Option GhUser → List (String × String) → Option String
  excluded_login_reason none excluded = none
  excluded_login_reason (some u) excluded = get (h.names.to_lower u.login) excluded
