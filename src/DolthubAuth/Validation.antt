-- ===== src/DolthubAuth/Validation.antt =====
-- internal/dolthubauth/validation.go: what metadata a connection may have.
pub mod Merged
use wasteland.Base.{
  ltb, leb, nat_eq, if◌then◌else◌, trim_space, concat, cut, ℕ, ◌-◌, String, Bool, true, false, ◌&&◌,
  ◌||◌, Option, none, some, List, [], ◌∷◌, ◌==◌,
}
use Prim.Native.Char.{code}
use wasteland.DolthubAuth.Types.{WastelandConfig, UserMetadata}

is_alphanumeric : ℕ → Bool
is_alphanumeric c =
    (leb b'a' c && leb c b'z') || (leb b'A' c && leb c b'Z') || (leb b'0' c && leb c b'9')

is_slug_char : ℕ → Bool
unfolding is_alphanumeric
is_slug_char c = is_alphanumeric c || nat_eq c b'_' || nat_eq c b'-'

-- At most `room` characters of the class, up to the end.
slug_rest : ℕ → String → Bool
unfolding is_slug_char
slug_rest room String.[] = true
slug_rest room (String.◌∷◌ c s) =
    let rest = slug_rest (room - 1) s in is_slug_char (code c) && ltb 0 room && rest

-- `metadataSlugRe`.
matches_slug : String → Bool
unfolding is_alphanumeric slug_rest
matches_slug String.[] = false
matches_slug (String.◌∷◌ c s) = is_alphanumeric (code c) && slug_rest 63 s

-- Each check gives the text of its error, or `none`.
unfoldable pub validate_slug : String → String → Option String
unfolding matches_slug trim_space
validate_slug field value =
    if matches_slug (trim_space value)
    then none
    else some
        (concat (field ∷ " must be 1-64 alphanumeric characters, hyphens, or underscores" ∷ []))

unfoldable pub normalize_mode : String → String
unfolding trim_space
normalize_mode mode = let mode = trim_space mode in if mode == "" then "pr" else mode

unfoldable pub validate_mode : String → Option String
unfolding normalize_mode
validate_mode mode =
    if normalize_mode mode == "pr" || normalize_mode mode == "wild-west"
    then none
    else some "mode must be \"pr\" or \"wild-west\""

-- The second check, if the first finds nothing.
infixr 20 ◌then_check◌
abbrev pub ◌then_check◌ : Option String → Option String → Option String
none then_check later = later
(some text) then_check later = some text

upstream_parts : Option (String × String) → Option String
unfolding validate_slug
upstream_parts none = some "upstream must be in org/db format"
upstream_parts (some (org, db)) =
    if org == "" || db == ""
    then some "upstream must be in org/db format"
    else validate_slug "upstream org" org then_check validate_slug "upstream db" db

unfoldable pub validate_upstream : String → Option String
unfolding upstream_parts cut
validate_upstream value = upstream_parts (cut b'/' value)

unfoldable pub validate_wasteland_config : WastelandConfig → Option String
unfolding validate_slug validate_upstream validate_mode
validate_wasteland_config wl =
    validate_slug "fork_org" wl.fork_org
    then_check (validate_slug "fork_db" wl.fork_db
        then_check (validate_upstream wl.upstream then_check validate_mode wl.mode))

unfoldable pub validate_each : List WastelandConfig → Option String
unfolding validate_wasteland_config
validate_each [] = none
validate_each (wl ∷ wls) = validate_wasteland_config wl then_check validate_each wls

unfoldable pub some_wasteland : List WastelandConfig → Option String
some_wasteland [] = some "at least one wasteland is required"
some_wasteland (wl ∷ wls) = none

unfoldable pub validate_metadata : UserMetadata → Option String
unfolding validate_slug some_wasteland validate_each
validate_metadata m =
    validate_slug "rig_handle" m.rig_handle
    then_check (some_wasteland m.wastelands then_check validate_each m.wastelands)
