-- ===== src/Commons/Ranking/Chosen.antt =====
-- internal/commons/leaderboard.go: the keys that `topNKeys` returns.
use wasteland.Base.{
  ltb, if◌then◌else◌, length, count_by, count_by-zero, none_of_count_by, ℕ, zero, suc, ◌+◌, ◌≡◌,
  refl, sym, ◌∙◌, Bool, List, [], ◌∷◌, arith,
}
use wasteland.Commons.Ranking.{Count, beats, scan, swapped, select}
use wasteland.Commons.Ranking.Top.{Unbeaten, swapped_sound}

-- No pick is beaten by a later pick or by what is left.
unfoldable pub TopOf : List Count → List Count → Type 0
TopOf [] rest = Unit
TopOf (p ∷ ps) rest = Unbeaten p ps × Unbeaten p rest × TopOf ps rest

parts_of_zero :
    (w : Count) (zs picks rest : List Count)
    → Unbeaten w zs
    → ((p : Count → Bool) → count_by p zs ≡ count_by p picks + count_by p rest)
    → Unbeaten w picks × Unbeaten w rest
parts_of_zero w zs picks rest h counts = (
  none_of_count_by better picks (omega (arith, nothing)),
  none_of_count_by better rest (omega (arith, nothing)),
)
  where
    better : Count → Bool
    better y = beats y w

    nothing : count_by better picks + count_by better rest ≡ 0
    nothing = sym (counts better) ∙ count_by-zero better zs h

split_counts :
    (p : Count → Bool) (w : Count) (zs picks rest : List Count)
    → count_by p zs ≡ count_by p picks + count_by p rest
    → count_by p (w ∷ zs) ≡ count_by p (w ∷ picks) + count_by p rest
unfolding count_by
split_counts p w zs picks rest h = ground arith

-- The picks of `topNKeys` stand in order, by more and then by name, and nothing that is left beats
-- one of them; picks and rest are the counts that were given, each as often; and there are as many
-- picks as were asked for, or all.
pub select_sound :
    (n : ℕ) (xs : List Count)
    → TopOf (select n xs).0 (select n xs).1
      × ((p : Count → Bool)
          → count_by p xs ≡ count_by p (select n xs).0 + count_by p (select n xs).1)
      × (length (select n xs).0 ≡ (if ltb n (length xs) then n else length xs))
unfolding select TopOf count_by
select_sound zero xs = (tt, λ p. omega arith, ground arith)
select_sound (suc n) [] = (tt, λ p. refl, ground arith)
select_sound (suc n) (x ∷ xs) =
    let (unbeaten, same, len) = swapped_sound x xs in
    let r = swapped x xs (scan x x xs) in
    let (top, counts, size) = select_sound n r.1 in
    let kept = parts_of_zero r.0 r.1 (select n r.1).0 (select n r.1).1 unbeaten counts in
    (
      (kept.0, kept.1, top),
      λ p. same p ∙ split_counts p r.0 r.1 (select n r.1).0 (select n r.1).1 (counts p),
      ground arith,
    )
