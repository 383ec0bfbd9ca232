-- ===== src/Commons/Sql/Literals.antt =====
-- How Dolt, as MySQL, reads the text literals of a statement: this is the documented syntax
-- ('' and \ escapes), not code of the repository. Against it, what `EscapeSQL` writes is read back
-- as the text that was escaped.
use wasteland.Base.{
  nat_eq, if◌then◌else◌, Bool-cases, replace_char, String, ◌<>◌, ◌≡◌, refl, sym, ap, ◌∙◌, inl, inr,
  true, false, ◌||◌, Option, none, some, List, [], ◌∷◌, ◌++◌, arith,
}
use Prim.Native.Char.{Char, code}
use text.Mathlib.TextEquality.{Char-path}
use mathlib.Core.List.{append_assoc}
use wasteland.Commons.Sql.{escape_sql}
use text.Mathlib.TextLemmas.{nil-append, cons-append}

-- `raw` stands outside of any literal; `open` and `close` are a literal's ends, `ch` its characters.
pub data Token : Type 0 where
  raw : Char → Token
  open_quote close_quote : Token
  ch : Char → Token

-- Outside; inside; inside after a backslash; after a quote that ends the literal or is doubled.
pub data Mode : Type 0 where
  outside inside escaped quoted : Mode

-- The character that a backslash and `c` stand for; before `%` and `_` the backslash stays.
unescape : Char → List Token
unescape c =
    if nat_eq (code c) b'n'
    then ch "\n" ∷ []
    else if nat_eq (code c) b't'
    then ch "\t" ∷ []
    else if nat_eq (code c) b'r'
    then ch "\r" ∷ []
    else if nat_eq (code c) b'%' || nat_eq (code c) b'_'
    then ch "\\" ∷ ch c ∷ []
    else ch c ∷ []

pub step : Mode → Char → List Token × Mode
unfolding unescape
step outside c = if nat_eq (code c) b'\'' then (open_quote ∷ [], inside) else (raw c ∷ [], outside)
step inside c =
    if nat_eq (code c) b'\''
    then ([], quoted)
    else if nat_eq (code c) b'\\'
    then ([], escaped)
    else (ch c ∷ [], inside)
step escaped c = (unescape c, inside)
step quoted c =
    if nat_eq (code c) b'\'' then (ch c ∷ [], inside) else (close_quote ∷ raw c ∷ [], outside)

-- What a text adds, and the mode that it leaves.
unfoldable pub read : Mode → String → List Token
unfolding step
read m String.[] = []
read m (String.◌∷◌ c s) = (step m c).0 ++ read (step m c).1 s

unfoldable pub mode_after : Mode → String → Mode
unfolding step
mode_after m String.[] = m
mode_after m (String.◌∷◌ c s) = mode_after (step m c).1 s

-- A whole statement: `none` if a literal does not end.
finish : Mode → Option (List Token)
finish outside = some []
finish quoted = some (close_quote ∷ [])
finish _ = none

add : List Token → Option (List Token) → Option (List Token)
add ts none = none
add ts (some us) = some (ts ++ us)

unfoldable pub read_statement : String → Option (List Token)
unfolding read mode_after finish add
read_statement s = add (read outside s) (finish (mode_after outside s))

-- The tokens of plain SQL text, and of a literal with a given value.
unfoldable pub sql : String → List Token
sql String.[] = []
sql (String.◌∷◌ c s) = raw c ∷ sql s

unfoldable pub chars : String → List Token
chars String.[] = []
chars (String.◌∷◌ c s) = ch c ∷ chars s

unfoldable pub value : String → List Token
unfolding chars
value s = open_quote ∷ (chars s ++ close_quote ∷ [])

pub read-append : (m : Mode) (s t : String) → read m (s <> t) ≡ read m s ++ read (mode_after m s) t
unfolding read mode_after
read-append m String.[] t = rw (nil-append t)
read-append m (String.◌∷◌ c s) t =
    rw (cons-append c s t, read-append (step m c).1 s t) (sym (append_assoc (step m c).0 _ _))

pub mode_after-append :
    (m : Mode) (s t : String) → mode_after m (s <> t) ≡ mode_after (mode_after m s) t
unfolding mode_after
mode_after-append m String.[] t = rw (nil-append t)
mode_after-append m (String.◌∷◌ c s) t = rw (cons-append c s t) (mode_after-append (step m c).1 s t)

is_char : (c d : Char) → nat_eq (code c) (code d) ≡ true → c ≡ d
is_char c d h = Char-path c d (ground arith)

-- A doubled character in front of a text.
twice :
    (c : Char) (s : String) → String.◌∷◌ c (String.◌∷◌ c "") <> s ≡ String.◌∷◌ c (String.◌∷◌ c s)
twice c s =
    cons-append c (String.◌∷◌ c "") s
    ∙ ap (String.◌∷◌ c) (cons-append c "" s ∙ ap (String.◌∷◌ c) (nil-append s))

-- One character of an escaped text, read inside a literal.
module _ (c : Char) (s : String)
    (ih : (read inside (escape_sql s) ≡ chars s)
      × (mode_after inside (escape_sql s) ≡ inside)) where
  plain_escape :
      nat_eq (code c) b'\\' ≡ false
      → nat_eq (code c) b'\'' ≡ false
      → escape_sql (String.◌∷◌ c s) ≡ String.◌∷◌ c (escape_sql s)
  unfolding escape_sql replace_char
  plain_escape e q = simp (e, q)

  plain_step :
      nat_eq (code c) b'\\' ≡ false
      → nat_eq (code c) b'\'' ≡ false
      → step inside c ≡ (ch c ∷ [], inside)
  unfolding step
  plain_step e q = simp (e, q)

  read-escape_sql-cons :
      (read inside (escape_sql (String.◌∷◌ c s)) ≡ chars (String.◌∷◌ c s))
      × (mode_after inside (escape_sql (String.◌∷◌ c s)) ≡ inside)
  unfolding escape_sql replace_char read mode_after chars
  read-escape_sql-cons = elim (Bool-cases (nat_eq (code c) b'\\')) [
    | inl e ↦
        rw (is_char c "\\" e)
          (rw (twice "\\" (replace_char b'\\' "\\\\" s)) (ap (λ ts. ch "\\" ∷ ts) ih.0, ih.1))
    | inr e ↦ elim (Bool-cases (nat_eq (code c) b'\'')) [
      | inl q ↦ rw (is_char c "'" q) (
          rw (twice "'" (replace_char b'\'' "''" (replace_char b'\\' "\\\\" s)))
            (ap (λ ts. ch "'" ∷ ts) ih.0, ih.1))
      | inr q ↦ rw (plain_escape e q) (
        simp (e, q) (ap (λ ts. ch c ∷ ts) ih.0),
        ap (λ (p : List Token × Mode). mode_after p.1 (escape_sql s)) (plain_step e q) ∙ ih.1,
      )
    ]
  ]

-- An escaped text, read inside a literal, gives the characters of the text, and leaves the literal
-- open.
pub read-escape_sql :
    (s : String)
    → (read inside (escape_sql s) ≡ chars s) × (mode_after inside (escape_sql s) ≡ inside)
unfolding escape_sql replace_char read mode_after chars
read-escape_sql String.[] = (refl, refl)
read-escape_sql (String.◌∷◌ c s) = read-escape_sql-cons c s (read-escape_sql s)
