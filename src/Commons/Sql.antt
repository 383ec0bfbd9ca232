-- ===== src/Commons/Sql.antt =====
-- internal/commons/commons.go: SQL text. `EscapeSQL`, `EscapeLIKE`, `CommitSQL`, `formatTagsJSON`.
pub mod Literals
use wasteland.Base.{if◌then◌else◌, replace_char, join, String, ◌<>◌, Bool, List, [], ◌∷◌, map, ◌==◌}

-- Escapes backslashes, then single quotes.
unfoldable pub escape_sql : String → String
escape_sql s = replace_char b'\'' "''" (replace_char b'\\' "\\\\" s)

unfoldable pub escape_like : String → String
unfolding escape_sql
escape_like s = replace_char b'_' "\\_" (replace_char b'%' "\\%" (escape_sql s))

unfoldable pub commit_sql : String → Bool → String
commit_sql msg signed =
    if signed
    then "CALL DOLT_COMMIT('-S', '-m', '" <> (escape_sql msg <> "');\n")
    else "CALL DOLT_COMMIT('-m', '" <> (escape_sql msg <> "');\n")

-- `'%s'` of an escaped text.
unfoldable pub quote_sql : String → String
quote_sql s = "'" <> (escape_sql s <> "'")

-- A text that is NULL when it is empty.
unfoldable pub field_or_null : String → String
unfolding quote_sql
field_or_null s = if s == "" then "NULL" else quote_sql s

escape_json : String → String
escape_json t = replace_char b'"' "\\\"" (replace_char b'\\' "\\\\" t)

-- The JSON array, before its quotes are doubled.
unfoldable pub tags_json : List String → String
unfolding escape_json
tags_json tags = "[\"" <> (join "\",\"" (map escape_json tags) <> "\"]")

unfoldable pub format_tags_json : List String → String
unfolding tags_json
format_tags_json [] = "NULL"
format_tags_json (t ∷ ts) = "'" <> (replace_char b'\'' "''" (tags_json (t ∷ ts)) <> "'")
