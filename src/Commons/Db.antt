-- ===== src/Commons/Db.antt =====
-- internal/commons/commons.go: the interface `DB`, over the state `S` of all that lies outside (the
-- database, its remotes and the pull requests), and the parts of Go's library that are arguments.
use wasteland.Base.{ℤ, String, Bool, Option, List}
use wasteland.Commons.Types.{Error, Result}

-- A call that changes the state returns the text of its error, or `none`.
abbrev pub Call : Type 0 → Type 0
Call S = S → Option String × S

pub record Db (S : Type 0) : Type 0 where
  pub query : String → String → S → Result String
  pub exec : String → String → Bool → List String → Call S
  pub branches : String → S → Result (List String)
  pub delete_branch : String → Call S
  -- The error, and what was written to the log.
  pub push_branch : String → S → (Option String × String) × S
  pub push_main : Call S
  pub sync : Call S
  pub merge_branch : String → Call S
  pub delete_remote_branch : String → Call S
  pub push_with_sync : Call S
  pub can_wild_west : S → Option String

-- `strings.ToLower`, `csv.Reader.ReadAll`, `strconv.Atoi` (the value that it returns beside an error
-- included), `fmt.Sscanf` of `%d`, `json.Unmarshal` of tags and of a valence, `errors.Is` for the two
-- errors of a context, and the text of an error.
pub record Runtime : Type 0 where
  pub to_lower : String → String
  pub read_all : String → Option (List (List String))
  pub atoi : String → ℤ
  pub scan_int : String → Option ℤ
  pub unmarshal_tags : String → Option (List String)
  pub unmarshal_valence : String → ℤ × ℤ
  pub is_context_error : Error → Bool
  pub error_text : Error → String
