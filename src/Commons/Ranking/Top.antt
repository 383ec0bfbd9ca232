-- ===== src/Commons/Ranking/Top.antt =====
-- internal/commons/leaderboard.go: the order of `topNKeys`, and what a pass of its sort finds.
use wasteland.Base.{
  Bool-cases, length, All, count_by, count_by-swap, count_by-cons, text_less_irrefl,
  text_less_trans, suc, ◌≡◌, refl, ap, ◌∙◌, inl, inr, Bool, true, false, Option, none, some, List,
  [], ◌∷◌, arith,
}
use wasteland.Commons.Ranking.{Count, beats, moved, passed, scan, swapped}

beats_irrefl : (a : Count) → beats a a ≡ false
unfolding beats
beats_irrefl (k, n) = ground (arith, text_less_irrefl k)

beats_trans : (a b c : Count) → beats a b ≡ true → beats b c ≡ true → beats a c ≡ true
unfolding beats
beats_trans (j, m) (k, n) (l, o) h i = ground (arith, text_less_trans j k l)

-- No element of the list beats `w`.
abbrev pub Unbeaten : Count → List Count → Type 0
Unbeaten w = All (λ y. beats y w ≡ false)

-- The same elements, as often.
abbrev pub SameCounts : List Count → List Count → Type 0
SameCounts xs ys = (p : Count → Bool) → count_by p xs ≡ count_by p ys

unfoldable Found : Count → Count → List Count → Option (Count × List Count) → Type 0
Found x best ys none = Unbeaten best ys
Found x best ys (some (w, zs)) =
    (beats w best ≡ true) × Unbeaten w zs × SameCounts (x ∷ ys) (w ∷ zs) × (length zs ≡ length ys)

beats_trans_not : (a b c : Count) → beats b c ≡ true → beats a c ≡ false → beats a b ≡ false
beats_trans_not a b c h k = elim (Bool-cases (beats a b)) [
  | inl e ↦ cc (beats_trans a b c e h)
  | inr e ↦ e
]

swap_cons :
    (p : Count → Bool) (x y w : Count) (ys zs : List Count)
    → count_by p (x ∷ ys) ≡ count_by p (w ∷ zs)
    → count_by p (x ∷ y ∷ ys) ≡ count_by p (w ∷ y ∷ zs)
swap_cons p x y w ys zs h =
    count_by-swap p x y ys ∙ count_by-cons p y (x ∷ ys) (w ∷ zs) h ∙ count_by-swap p y w zs

-- The better element `y` was met, and `best` is left behind.
moved-Found :
    (x best y : Count) (ys : List Count) (r : Option (Count × List Count))
    → beats x best ≡ false
    → beats y best ≡ true
    → Found x y ys r
    → Found x best (y ∷ ys) (moved x y ys r)
unfolding Found moved count_by
moved-Found x best y ys none hx hy h =
    (hy, (beats_trans_not x y best hy hx, h), λ p. count_by-swap p x y ys, refl)
moved-Found x best y ys (some (w, zs)) hx hy (better, unbeaten, same, len) = (
  beats_trans w y best better hy,
  (beats_trans_not y w y better (beats_irrefl y), unbeaten),
  λ p. swap_cons p x y w ys zs (same p),
  ap suc len,
)

passed-Found :
    (x best y : Count) (ys : List Count) (r : Option (Count × List Count))
    → beats y best ≡ false
    → Found x best ys r
    → Found x best (y ∷ ys) (passed y r)
unfolding Found passed count_by
passed-Found x best y ys none hy h = (hy, h)
passed-Found x best y ys (some (w, zs)) hy (better, unbeaten, same, len) = (
  better,
  (beats_trans_not y w best better hy, unbeaten),
  λ p. swap_cons p x y w ys zs (same p),
  ap suc len,
)

chosen-Found :
    (x best y : Count) (ys : List Count) (b : Bool)
    → beats x best ≡ false
    → beats y best ≡ b
    → (beats x y ≡ false → Found x y ys (scan x y ys))
    → Found x best ys (scan x best ys)
    → Found x best
        (y ∷ ys)
        (elim b [ true ↦ moved x y ys (scan x y ys) | false ↦ passed y (scan x best ys) ])
chosen-Found x best y ys true hx e other same =
    moved-Found x best y ys (scan x y ys) hx e (other (beats_trans_not x y best e hx))
chosen-Found x best y ys false hx e other same = passed-Found x best y ys (scan x best ys) e same

scan-Found :
    (x best : Count) (ys : List Count) → beats x best ≡ false → Found x best ys (scan x best ys)
unfolding Found scan
scan-Found x best [] hx = tt
scan-Found x best (y ∷ ys) hx =
    chosen-Found x best y ys (beats y best) hx refl (λ h. scan-Found x y ys h)
      (scan-Found x best ys hx)

-- The first place holds an element that none of the others beats.
pub swapped_sound :
    (x : Count) (xs : List Count)
    → let r = swapped x xs (scan x x xs) in
      Unbeaten r.0 r.1 × SameCounts (x ∷ xs) (r.0 ∷ r.1) × (length r.1 ≡ length xs)
unfolding swapped Found
swapped_sound x xs = first (scan x x xs) (scan-Found x x xs (beats_irrefl x))
  where
    first :
        (r : Option (Count × List Count))
        → Found x x xs r
        → Unbeaten (swapped x xs r).0 (swapped x xs r).1
          × SameCounts (x ∷ xs) ((swapped x xs r).0 ∷ (swapped x xs r).1)
          × (length (swapped x xs r).1 ≡ length xs)
    first none h = (h, λ p. refl, refl)
    first (some (w, zs)) (better, unbeaten, same, len) = (unbeaten, same, len)
