-- ===== src/Backfill/Reviews.antt =====
-- tools/githubprbackfill/signals.go: what reviews, comments and commits say of a pull request. A time
-- is a natural number, and Go's zero time is 0. The two regular expressions are parameters.
use wasteland.Base.{
  ltb, nat_eq, if◌then◌else◌, count_by, ℕ, String, Bool, false, not, ◌&&◌, ◌||◌, Option, none, some,
  List, [], ◌∷◌, ◌++◌, ◌==◌,
}
use wasteland.Backfill.Files.{Names}

pub record GhUser : Type 0 where
  pub login : String
  pub type : String

pub record GhCommit : Type 0 where
  pub author : Option GhUser
  pub committer : Option GhUser
  pub message : String
  pub date : ℕ

pub record GhReview : Type 0 where
  pub user : Option GhUser
  pub state : String
  pub body : String
  pub submitted_at : Option ℕ

pub record GhComment : Type 0 where
  pub user : Option GhUser
  pub body : String
  pub created_at : ℕ

unfoldable pub is_human : Option GhUser → Bool
is_human none = false
is_human (some u) = u.type == "User"

unfoldable pub is_named_human : GhUser → Bool
is_named_human u = not (u.login == "") && u.type == "User"

module _ (names : Names) where
  unfoldable pub login_of : Option GhUser → Option String
  unfolding is_named_human
  login_of none = none
  login_of (some u) = if is_named_human u then some (names.to_lower u.login) else none

  -- The author of a commit, or else who committed it.
  unfoldable pub commit_human_login : GhCommit → Option String
  unfolding login_of
  commit_human_login c = elim (login_of c.author) [
    | some login ↦ some login
    | none ↦ login_of c.committer
  ]

  -- The login of the pull request's author, in lower case, or "".
  unfoldable pub author_of : Option GhUser → String
  author_of none = ""
  author_of (some u) = names.to_lower u.login

  unfoldable pub blocking_reviews : (String → Bool) → List GhReview → Bool
  unfolding is_human
  blocking_reviews blocking [] = false
  blocking_reviews blocking (r ∷ rs) =
      let rest = blocking_reviews blocking rs in
      (is_human r.user && (names.equal_fold r.state "CHANGES_REQUESTED" || blocking r.body)) || rest

  unfoldable pub blocking_comments : (String → Bool) → List GhComment → Bool
  unfolding is_human
  blocking_comments blocking [] = false
  blocking_comments blocking (c ∷ cs) =
      let rest = blocking_comments blocking cs in (is_human c.user && blocking c.body) || rest

  unfoldable pub strong_blocking_signal :
      (String → Bool) → List GhReview → List GhComment → List GhComment → Bool
  unfolding blocking_reviews blocking_comments
  strong_blocking_signal blocking reviews issue_comments review_comments =
      blocking_reviews blocking reviews
      || blocking_comments blocking (issue_comments ++ review_comments)

  unfoldable pub is_maintainer_commit : String → GhCommit → Bool
  unfolding commit_human_login
  is_maintainer_commit author c = elim (commit_human_login c) [
    | none ↦ false
    | some login ↦ not (names.equal_fold login author)
  ]

  unfoldable pub maintainer_commit_count : Option GhUser → List GhCommit → ℕ
  unfolding is_maintainer_commit author_of count_by
  maintainer_commit_count user commits = count_by (is_maintainer_commit (author_of user)) commits

  -- `consider`: the earlier of what is known and a time, if the actor is a person other than the author.
  unfoldable pub consider : String → GhUser → ℕ → Option ℕ → Option ℕ
  consider author u at known =
      if not (u.type == "User") || names.equal_fold u.login author || nat_eq at 0
      then known
      else elim known [
        | none ↦ some at
        | some earliest ↦ if ltb at earliest then some at else some earliest
      ]

  unfoldable pub consider_review : String → GhReview → Option ℕ → Option ℕ
  unfolding consider
  consider_review author r known = elim r.user [
    | none ↦ known
    | some u ↦ elim r.submitted_at [ none ↦ known | some at ↦ consider author u at known ]
  ]

  unfoldable pub consider_comment : String → GhComment → Option ℕ → Option ℕ
  unfolding consider
  consider_comment author c known = elim c.user [
    | none ↦ known
    | some u ↦ consider author u c.created_at known
  ]

  unfoldable pub earliest_of_reviews : String → List GhReview → Option ℕ → Option ℕ
  unfolding consider_review
  earliest_of_reviews author [] known = known
  earliest_of_reviews author (r ∷ rs) known =
      earliest_of_reviews author rs (consider_review author r known)

  unfoldable pub earliest_of_comments : String → List GhComment → Option ℕ → Option ℕ
  unfolding consider_comment
  earliest_of_comments author [] known = known
  earliest_of_comments author (c ∷ cs) known =
      earliest_of_comments author cs (consider_comment author c known)

  unfoldable pub earliest_non_author_human_review :
      List GhReview → List GhComment → List GhComment → String → Option ℕ
  unfolding earliest_of_reviews earliest_of_comments
  earliest_non_author_human_review reviews issue_comments review_comments author =
      earliest_of_comments author (issue_comments ++ review_comments)
        (earliest_of_reviews author reviews none)

  unfoldable pub is_later_by_author : String → ℕ → GhCommit → Bool
  unfolding commit_human_login
  is_later_by_author author review_at c = elim (commit_human_login c) [
    | none ↦ false
    | some login ↦ names.equal_fold login author && ltb review_at c.date
  ]

  unfoldable pub post_review_author_changes :
      Option GhUser → List GhCommit → List GhReview → List GhComment → List GhComment → ℕ
  unfolding earliest_non_author_human_review is_later_by_author author_of count_by
  post_review_author_changes user commits reviews issue_comments review_comments =
      let author = author_of user in
      elim (earliest_non_author_human_review reviews issue_comments review_comments author) [
        | none ↦ 0
        | some at ↦ count_by (is_later_by_author author at) commits
      ]

unfoldable pub review_fixup_commit : (String → Bool) → List GhCommit → Bool
review_fixup_commit fixup [] = false
review_fixup_commit fixup (c ∷ cs) =
    let rest = review_fixup_commit fixup cs in fixup c.message || rest
