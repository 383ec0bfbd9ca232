-- ===== src/Base/Text.antt =====
-- Go's `strings` package, as far as the code uses it. A text is a list of characters.
use Prim.Native.Nat.{ℕ}
use Prim.Native.Char.{Char, code}
use Prim.Native.String.{String, ◌++◌}
use mathlib.Core.Bool.{Bool, true, false, ◌&&◌, ◌||◌}
use mathlib.Core.Option.{Option, none, some}
use mathlib.Core.List.{List, [], ◌∷◌}
use mathlib.Core.Path.{refl, ◌≡◌}
use text.Mathlib.TextLemmas.{nil-append, cons-append}
use text.Mathlib.Text.{starts_with, ◌==◌}
use text.Mathlib.TextPositions.{eq_refl}
use native.Mathlib.Omega.{arith}
use wasteland.Base.Tests.{if◌then◌else◌, nat_eq, leb}

-- `strings.ReplaceAll` of a one-character text.
unfoldable pub replace_char : ℕ → String → String → String
replace_char n by String.[] = ""
replace_char n by (String.◌∷◌ c s) =
    let rest = replace_char n by s in if nat_eq (code c) n then by ++ rest else String.◌∷◌ c rest

-- `unicode.IsSpace`.
unfoldable pub is_space : ℕ → Bool
is_space c =
    (leb 9 c && leb c 13)
    || nat_eq c 32
    || nat_eq c 0x85
    || nat_eq c 0xa0
    || nat_eq c 0x1680
    || (leb 0x2000 c && leb c 0x200a)
    || nat_eq c 0x2028
    || nat_eq c 0x2029
    || nat_eq c 0x202f
    || nat_eq c 0x205f
    || nat_eq c 0x3000

unfoldable pub trim_left : String → String
unfolding is_space
trim_left String.[] = ""
trim_left (String.◌∷◌ c s) =
    let rest = trim_left s in if is_space (code c) then rest else String.◌∷◌ c s

unfoldable pub trim_right : String → String
unfolding is_space
trim_right String.[] = ""
trim_right (String.◌∷◌ c s) =
    let rest = trim_right s in if is_space (code c) && is_empty rest then "" else String.◌∷◌ c rest
  where
    is_empty : String → Bool
    is_empty String.[] = true
    is_empty (String.◌∷◌ c s) = false

-- `strings.TrimSpace`.
unfoldable pub trim_space : String → String
unfolding trim_left trim_right
trim_space s = trim_right (trim_left s)

-- `strings.Join`.
unfoldable pub join : String → List String → String
join sep [] = ""
join sep (s ∷ []) = s
join sep (s ∷ rest) = s ++ sep ++ join sep rest

-- `strings.Contains`.
unfoldable pub contains : String → String → Bool
contains String.[] t = starts_with "" t
contains (String.◌∷◌ c s) t = starts_with (String.◌∷◌ c s) t || contains s t

-- The result of a `fmt.Sprintf` with texts for its verbs: the fixed parts and the texts in turn.
unfoldable pub concat : List String → String
concat [] = ""
concat (s ∷ ss) = s ++ concat ss

add_to_head : Char → List String → List String
add_to_head c [] = String.◌∷◌ c "" ∷ []
add_to_head c (s ∷ ss) = String.◌∷◌ c s ∷ ss

-- `strings.Split` by a one-character text.
unfoldable pub split_char : ℕ → String → List String
unfolding add_to_head
split_char n String.[] = "" ∷ []
split_char n (String.◌∷◌ c s) =
    let rest = split_char n s in if nat_eq (code c) n then "" ∷ rest else add_to_head c rest

-- `strings.TrimPrefix` and `strings.HasPrefix`; `none` if the text does not begin with the prefix.
unfoldable pub cut_prefix : String → String → Option String
cut_prefix String.[] s = some s
cut_prefix (String.◌∷◌ p ps) String.[] = none
cut_prefix (String.◌∷◌ p ps) (String.◌∷◌ c s) =
    let rest = cut_prefix ps s in if nat_eq (code p) (code c) then rest else none

unfoldable pub trim_prefix : String → String → String
unfolding cut_prefix
trim_prefix p s = elim (cut_prefix p s) [ none ↦ s | some rest ↦ rest ]

-- What follows the first occurrence of a character; `none` if there is none.
unfoldable pub cut_after : ℕ → String → Option String
cut_after n String.[] = none
cut_after n (String.◌∷◌ c s) =
    let rest = cut_after n s in if nat_eq (code c) n then some s else rest

add_before : Char → Option (String × String) → Option (String × String)
add_before c none = none
add_before c (some (s, t)) = some (String.◌∷◌ c s, t)

-- `strings.Cut` by a character: what comes before its first occurrence, and after.
unfoldable pub cut : ℕ → String → Option (String × String)
unfolding add_before
cut n String.[] = none
cut n (String.◌∷◌ c s) =
    let rest = cut n s in if nat_eq (code c) n then some ("", s) else add_before c rest

add_before-none : (c : Char) (r : Option (String × String)) → add_before c r ≡ none → r ≡ none
unfolding add_before
add_before-none c none h = refl
add_before-none c (some (s, t)) h = cc

-- Cutting at the first occurrence gives the parts back, if the first part has none.
module _ (n : ℕ) (d : Char) (hit : nat_eq (code d) n ≡ true) (t : String) where
  cut-here : cut n (String.◌∷◌ d t) ≡ some ("", t)
  unfolding cut
  cut-here = rw hit refl

  cut-cons :
      (c : Char) (s : String)
      → (b : Bool) → (if b then some ("", s) else add_before c (cut n s)) ≡ none
      → (cut n s ≡ none → cut n (s ++ String.◌∷◌ d t) ≡ some (s, t))
      → (if b then some ("", s ++ String.◌∷◌ d t) else add_before c (cut n (s ++ String.◌∷◌ d t)))
        ≡ some (String.◌∷◌ c s, t)
  unfolding add_before
  cut-cons c s true h ih = cc
  cut-cons c s false h ih = rw (ih (add_before-none c (cut n s) h)) refl

  pub cut-append : (s : String) → cut n s ≡ none → cut n (s ++ String.◌∷◌ d t) ≡ some (s, t)
  unfolding cut
  cut-append String.[] h = rw (nil-append (String.◌∷◌ d t)) cut-here
  cut-append (String.◌∷◌ c s) h =
      rw (cons-append c s (String.◌∷◌ d t)) (cut-cons c s (nat_eq (code c) n) h (cut-append s))

-- `strings.HasSuffix`.
unfoldable pub has_suffix : String → String → Bool
has_suffix String.[] t = "" == t
has_suffix (String.◌∷◌ c s) t = let rest = has_suffix s t in String.◌∷◌ c s == t || rest

pub has_suffix_self : (t : String) → has_suffix t t ≡ true
unfolding has_suffix
has_suffix_self String.[] = eq_refl ""
has_suffix_self (String.◌∷◌ c s) = ground (arith, eq_refl (String.◌∷◌ c s))

pub has_suffix_left : (s t x : String) → has_suffix t x ≡ true → has_suffix (s ++ t) x ≡ true
unfolding has_suffix
has_suffix_left String.[] t x h = rw (nil-append t) h
has_suffix_left (String.◌∷◌ c s) t x h =
    rw (cons-append c s t) (ground (arith, has_suffix_left s t x h))
