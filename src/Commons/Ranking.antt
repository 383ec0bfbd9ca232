-- ===== src/Commons/Ranking.antt =====
-- internal/commons/leaderboard.go and scoreboard.go: what the two rankings of rigs share. A number
-- that Go holds as a float is of a type `F`, and `strconv` is a parameter.
pub mod Top
pub mod Chosen
pub mod Leaderboard
pub mod Scoreboard
use wasteland.Base.{
  ltb, nat_eq, if◌then◌else◌, get, put, count_of, text_less, join, ℤ, pos, negsuc, ℕ, zero, suc,
  String, ◌<>◌, Bool, true, false, ◌&&◌, ◌||◌, Option, none, some, List, [], ◌∷◌, map,
}
use wasteland.Commons.Types.{wrapped_in, lit, quoted, Result, ok, err, ◌>>=◌}
use wasteland.Commons.Sql.{escape_sql}
use wasteland.Commons.Db.{Runtime}
use wasteland.Commons.Rows.{Row, column, parse_tags_json}

pub record Strconv (F : Type 0) : Type 0 where
  pub atoi : String → Result ℤ
  pub parse_float : String → Result F

-- `limit <= 0` is 20, and there are at most 100 rows.
unfoldable pub clamp_limit : ℤ → ℕ
clamp_limit (negsuc n) = 20
clamp_limit (pos n) = if nat_eq n 0 then 20 else if ltb 100 n then 100 else n

abbrev pub Count : Type 0
Count = String × ℕ

-- More, or as many and an earlier name.
unfoldable pub beats : Count → Count → Bool
unfolding text_less
beats (j, m) (k, n) = ltb n m || (nat_eq m n && text_less j k)

-- What a pass of the selection sort finds behind the element `x` at its place, with `best` as the best
-- so far: the best of the rest, which then holds `x` in its stead, or nothing better.
unfoldable pub moved :
    Count → Count → List Count → Option (Count × List Count) → Option (Count × List Count)
moved x y ys none = some (y, x ∷ ys)
moved x y ys (some (w, zs)) = some (w, y ∷ zs)

unfoldable pub passed : Count → Option (Count × List Count) → Option (Count × List Count)
passed y none = none
passed y (some (w, zs)) = some (w, y ∷ zs)

unfoldable pub scan : Count → Count → List Count → Option (Count × List Count)
unfolding beats moved passed
scan x best [] = none
scan x best (y ∷ ys) = elim (beats y best) [
  | true ↦ moved x y ys (scan x y ys)
  | false ↦ passed y (scan x best ys)
]

unfoldable pub swapped : Count → List Count → Option (Count × List Count) → Count × List Count
swapped x xs none = (x, xs)
swapped x xs (some r) = r

-- The places that are filled, and what is left behind them; the fuel `n` is the number of places.
unfoldable pub select : ℕ → List Count → List Count × List Count
unfolding scan swapped
select zero xs = ([], xs)
select (suc n) [] = ([], [])
select (suc n) (x ∷ xs) =
    let (w, zs) = swapped x xs (scan x x xs) in let (picks, rest) = select n zs in (w ∷ picks, rest)

-- The keys of a map of counts, in whatever order Go walks it.
unfoldable pub top_n_keys : List Count → ℕ → List String
unfolding select
top_n_keys freq n = map (λ kv. kv.0) (select n freq).0

-- The counts of tags, in lower case, of each rig.
unfoldable pub count_tags : Runtime → List String → List Count → List Count
count_tags rt [] freq = freq
count_tags rt (tag ∷ tags) freq =
    let key = rt.to_lower tag in count_tags rt tags (put key (suc (count_of key freq)) freq)

unfoldable pub freq_of : String → List (String × List Count) → List Count
freq_of rig m = elim (get rig m) [ none ↦ [] | some freq ↦ freq ]

unfoldable pub add_tags :
    Runtime → String → List String → List (String × List Count) → List (String × List Count)
unfolding count_tags freq_of
add_tags rt rig [] m = m
add_tags rt rig (tag ∷ tags) m = put rig (count_tags rt (tag ∷ tags) (freq_of rig m)) m

unfoldable pub per_rig :
    Runtime → String → List Row → List (String × List Count) → List (String × List Count)
unfolding add_tags
per_rig rt column_name [] m = m
per_rig rt column_name (row ∷ rows) m =
    per_rig rt column_name rows
      (add_tags rt (column row column_name) (parse_tags_json rt (column row "skill_tags")) m)

-- The list of an `IN`.
unfoldable pub in_list : List String → String
in_list handles = join "," (map (λ h. "'" <> escape_sql h <> "'") handles)

-- A field that does not parse ends the query, with the column and the rig in the message.
unfoldable pub parsing : {A : Type 0} → String → String → Result A → Result A
parsing what rig (ok a) = ok a
parsing what rig (err e) =
    err (wrapped_in (lit ("parsing " <> what <> " for ") ∷ quoted rig ∷ []) e)

unfoldable pub each : {A B : Type 0} → (A → Result B) → List A → Result (List B)
each f [] = ok []
each f (x ∷ xs) = f x >>= λ y. each f xs >>= λ ys. ok (y ∷ ys)
