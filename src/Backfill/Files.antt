-- ===== src/Backfill/Files.antt =====
-- tools/githubprbackfill/signals.go and rows.go: what the files and the title of a pull request say.
-- `strings.ToLower`, `strings.EqualFold`, and `filepath.Base` and `filepath.Ext`, are parameters.
use wasteland.Base.{
  ltb, nat_eq, if◌then◌else◌, put, member, count_of, text_less, trim_space, join, has_suffix, ℕ,
  ◌+◌, String, ◌<>◌, Bool, true, false, ◌&&◌, ◌||◌, Option, none, some, List, [], ◌∷◌, ◌++◌, ◌==◌,
}
use text.Mathlib.Text.{starts_with}
use wasteland.Backfill.Scoring.{contains_any}

pub record GhFile : Type 0 where
  pub filename : String
  pub additions : ℕ
  pub deletions : ℕ
  pub changes : ℕ

pub record Names : Type 0 where
  pub to_lower : String → String
  pub equal_fold : String → String → Bool
  pub base : String → String
  pub ext : String → String

unfoldable pub one_of : String → List String → Bool
one_of s ts = member s ts

unfoldable pub any_prefix : String → List String → Bool
any_prefix s [] = false
any_prefix s (p ∷ ps) = let rest = any_prefix s ps in starts_with s p || rest

unfoldable pub any_suffix : String → List String → Bool
any_suffix s [] = false
any_suffix s (p ∷ ps) = let rest = any_suffix s ps in has_suffix s p || rest

abbrev lock_files : List String
lock_files = "go.sum" ∷ "package-lock.json" ∷ "pnpm-lock.yaml" ∷ "bun.lock" ∷ "yarn.lock" ∷ []

-- A loop that returns false at the first file that fails.
unfoldable pub every : (GhFile → Bool) → List GhFile → Bool
every p [] = true
every p (f ∷ fs) = let rest = every p fs in p f && rest

unfoldable pub some_and_every : (GhFile → Bool) → List GhFile → Bool
unfolding every
some_and_every p [] = false
some_and_every p (f ∷ fs) = every p (f ∷ fs)

module _ (names : Names) where
  unfoldable pub generated_or_low_signal : String → Bool
  unfolding any_prefix any_suffix one_of contains_any
  generated_or_low_signal name =
      let n = names.to_lower name in
      let base = names.base n in
      any_prefix n ("vendor/" ∷ "node_modules/" ∷ "dist/" ∷ "build/" ∷ "coverage/" ∷ [])
      || contains_any n ("/vendor/" ∷ "/node_modules/" ∷ "/dist/" ∷ "/build/" ∷ "/coverage/" ∷ [])
      || one_of base lock_files
      || starts_with base "bun.lock"
      || any_suffix n
          (".min.js" ∷ "_gen.go" ∷ "client_gen.go" ∷ "openapi.json" ∷ "openapi.txt" ∷ [])
      || contains_any n ("genclient/" ∷ [])

  unfoldable pub is_dependency : GhFile → Bool
  unfolding one_of
  is_dependency f =
      let base = names.to_lower (names.base f.filename) in
      one_of base ("go.mod" ∷ "package.json" ∷ lock_files) || starts_with base "bun.lock"

  unfoldable pub dependency_only : List GhFile → Bool
  unfolding some_and_every is_dependency
  dependency_only = some_and_every is_dependency

  unfoldable pub docs_only : List GhFile → Bool
  unfolding some_and_every any_suffix
  docs_only = some_and_every (λ f.
      let n = names.to_lower f.filename in
      starts_with n "docs/" || any_suffix n (".md" ∷ ".txt" ∷ []))

  unfoldable pub ci_only : List GhFile → Bool
  unfolding some_and_every contains_any
  ci_only = some_and_every (λ f.
      let n = names.to_lower f.filename in
      starts_with n ".github/" || contains_any n ("/workflows/" ∷ "ci" ∷ []))

  unfoldable pub mechanical_like : String → Bool
  unfolding contains_any
  mechanical_like pr_title =
      contains_any (names.to_lower pr_title) ("format" ∷ "lint" ∷ "rename" ∷ "mechanical" ∷ [])

  unfoldable pub revert_like : String → Bool
  unfolding trim_space
  revert_like pr_title = starts_with (names.to_lower (trim_space pr_title)) "revert"

  -- The labels are sorted.
  unfoldable pub feature_like : String → List String → Bool
  unfolding contains_any join
  feature_like pr_title labels =
      contains_any (names.to_lower (pr_title <> " " <> join " " labels))
        ("feat" ∷ "feature" ∷ "perf" ∷ "performance" ∷ "refactor" ∷ [])

  unfoldable pub runtime_or_api_like : List GhFile → Bool
  unfolding contains_any
  runtime_or_api_like [] = false
  runtime_or_api_like (f ∷ fs) =
      let rest = runtime_or_api_like fs in
      contains_any (names.to_lower f.filename)
        ("api" ∷ "runtime" ∷ "server" ∷ "cmd/" ∷ "internal/" ∷ "web/src" ∷ [])
      || rest

  unfoldable pub language_of_ext : String → Option String
  unfolding one_of
  language_of_ext e =
      if e == ".go"
      then some "go"
      else if one_of e (".ts" ∷ ".tsx" ∷ [])
      then some "typescript"
      else if one_of e (".js" ∷ ".jsx" ∷ [])
      then some "javascript"
      else if e == ".py"
      then some "python"
      else if one_of e (".sh" ∷ ".bash" ∷ ".zsh" ∷ [])
      then some "shell"
      else if e == ".css"
      then some "css"
      else if e == ".html"
      then some "html"
      else if e == ".md"
      then some "docs"
      else none

  unfoldable pub language_for_path : String → String
  unfolding language_of_ext
  language_for_path name = elim (language_of_ext (names.to_lower (names.ext name))) [
    | some lang ↦ lang
    | none ↦ if names.equal_fold (names.base name) "makefile" then "makefile" else ""
  ]

  unfoldable pub language_counts : List GhFile → List (String × ℕ) → List (String × ℕ)
  unfolding generated_or_low_signal language_for_path
  language_counts [] counts = counts
  language_counts (f ∷ fs) counts =
      let lang = language_for_path f.filename in
      language_counts fs (
        if generated_or_low_signal f.filename || lang == ""
        then counts
        else put lang (count_of lang counts + f.changes) counts)

  -- The loop over the counts, in the order in which Go walks the map.
  unfoldable pub best_language : String → ℕ → List (String × ℕ) → String
  unfolding text_less
  best_language best best_count [] = best
  best_language best best_count ((lang, n) ∷ rest) =
      let better = ltb best_count n || (nat_eq n best_count && text_less lang best) in
      best_language (if better then lang else best) (if better then n else best_count) rest

  unfoldable pub dominant_language : List GhFile → String
  unfolding language_counts best_language
  dominant_language files = best_language "" 0 (language_counts files [])

  -- Texts in lower case without spaces around them, each once and none empty.
  unfoldable pub unique_from : List String → List String → List String
  unfolding trim_space
  unique_from seen [] = []
  unique_from seen (v ∷ vs) =
      let w = names.to_lower (trim_space v) in
      let skip = w == "" || member w seen in
      let rest = unique_from (if skip then seen else w ∷ seen) vs in if skip then rest else w ∷ rest

  unfoldable pub unique_strings : List String → List String → List String
  unfolding unique_from
  unique_strings seed values = unique_from [] (seed ++ values)
