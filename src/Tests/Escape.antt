-- ===== src/Tests/Escape.antt =====
-- An escaping of texts for the examples: each character in unary.
use wasteland.Base.{cut, ℕ, zero, suc, String, ◌≡◌, refl, sym, ap, ◌≢◌, none, arith}
use Prim.Native.Char.{Char, code}
use text.Mathlib.TextEquality.{Char-path}
use text.Mathlib.TextLemmas.{cons-ne-nil, head-eq_of_cons-eq, tail-eq_of_cons-eq}
use wasteland.Api.CacheScope.Keys.{Escapes}

abbrev one : Char
one = "a"

abbrev stop : Char
stop = "b"

unfoldable pub unary : ℕ → String → String
unary zero t = String.◌∷◌ stop t
unary (suc n) t = String.◌∷◌ one (unary n t)

unfoldable pub coded : String → String
unfolding unary
coded String.[] = ""
coded (String.◌∷◌ c s) = unary (code c) (coded s)

cut-unary : (n : ℕ) (t : String) → cut b':' t ≡ none → cut b':' (unary n t) ≡ none
unfolding unary cut
cut-unary zero t h = rw h refl
cut-unary (suc n) t h = rw (cut-unary n t h) refl

unary-inj : (m n : ℕ) (s t : String) → unary m s ≡ unary n t → (m ≡ n) × (s ≡ t)
unfolding unary
unary-inj zero zero s t h = (refl, tail-eq_of_cons-eq h)
unary-inj zero (suc n) s t h = absurd (omega (arith, ap code (head-eq_of_cons-eq h)))
unary-inj (suc m) zero s t h = absurd (omega (arith, ap code (head-eq_of_cons-eq h)))
unary-inj (suc m) (suc n) s t h =
    let (same, rest) = unary-inj m n s t (tail-eq_of_cons-eq h) in (ap suc same, rest)

unary-ne : (n : ℕ) (t : String) → unary n t ≢ ""
unfolding unary
unary-ne zero t = cons-ne-nil stop t
unary-ne (suc n) t = cons-ne-nil one (unary n t)

coded-inj : (s t : String) → coded s ≡ coded t → s ≡ t
unfolding coded
coded-inj String.[] String.[] h = refl
coded-inj String.[] (String.◌∷◌ d t) h = absurd (unary-ne (code d) (coded t) (sym h))
coded-inj (String.◌∷◌ c s) String.[] h = absurd (unary-ne (code c) (coded s) h)
coded-inj (String.◌∷◌ c s) (String.◌∷◌ d t) h =
    let (same, rest) = unary-inj (code c) (code d) (coded s) (coded t) h in
    rw (Char-path c d same) (rw (coded-inj s t rest) refl)

cut-coded : (s : String) → cut b':' (coded s) ≡ none
unfolding coded cut
cut-coded String.[] = refl
cut-coded (String.◌∷◌ c s) = cut-unary (code c) (coded s) (cut-coded s)

pub coded-Escapes : Escapes coded
coded-Escapes = record { no_colon = cut-coded; injective = coded-inj }
