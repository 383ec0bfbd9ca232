-- ===== src/Base/Sort.antt =====
-- Go's `sort.Slice`, as insertion sort by a test, and what a sort keeps.
use Prim.Native.Nat.{ℕ, suc, ◌≤◌}
use mathlib.Core.Path.{◌≡◌, refl, ap, ◌∙◌}
use mathlib.Core.Logic.{◌⊎◌, ◌↔◌, inl, inr}
use mathlib.Core.Bool.{Bool, true, false}
use mathlib.Core.List.{List, [], ◌∷◌}
use native.Mathlib.Omega.{arith}
use wasteland.Base.Tests.{if◌then◌else◌, Bool-cases}
use wasteland.Base.Lists.{length, All, In}

module _ {A : Type 0} (less : A → A → Bool) where
  unfoldable pub insert_by : A → List A → List A
  insert_by x [] = x ∷ []
  insert_by x (y ∷ ys) = let rest = insert_by x ys in if less y x then y ∷ rest else x ∷ y ∷ ys

  unfoldable pub sort_by : List A → List A
  unfolding insert_by
  sort_by [] = []
  sort_by (x ∷ xs) = insert_by x (sort_by xs)

module _ {A : Type 0} (p : A → Bool) where
  unfoldable pub count_by : List A → ℕ
  count_by [] = 0
  count_by (x ∷ xs) = let rest = count_by xs in if p x then suc rest else rest

  pub count_by-le : (xs : List A) → count_by xs ≤ length xs
  unfolding count_by
  count_by-le [] = omega arith
  count_by-le (x ∷ xs) = ground (arith, count_by-le xs)

module _ {A : Type 0} (p : A → Bool) where
  pub count_by-swap : (x y : A) (xs : List A) → count_by p (x ∷ y ∷ xs) ≡ count_by p (y ∷ x ∷ xs)
  unfolding count_by
  count_by-swap x y xs = ground arith

  pub count_by-cons :
      (x : A) (xs ys : List A)
      → count_by p xs ≡ count_by p ys
      → count_by p (x ∷ xs) ≡ count_by p (x ∷ ys)
  unfolding count_by
  count_by-cons x xs ys h = ground arith

  -- No element passes, by the elements and by the number.
  pub count_by-zero : (xs : List A) → All (λ x. p x ≡ false) xs → count_by p xs ≡ 0
  unfolding count_by
  count_by-zero [] h = refl
  count_by-zero (x ∷ xs) (e, h) = rw e (count_by-zero xs h)

  pub none_of_count_by : (xs : List A) → count_by p xs ≡ 0 → All (λ x. p x ≡ false) xs
  unfolding count_by
  none_of_count_by [] h = tt
  none_of_count_by (x ∷ xs) h = elim (Bool-cases (p x)) [
    | inl e ↦ absurd (ground arith)
    | inr e ↦ (e, none_of_count_by xs (ground arith))
  ]

module _ {A : Type 0} (less : A → A → Bool) (p : A → Bool) where
  count_by-insert_by :
      (x : A) (xs : List A) → count_by p (insert_by less x xs) ≡ count_by p (x ∷ xs)
  unfolding insert_by count_by
  count_by-insert_by x [] = refl
  count_by-insert_by x (y ∷ ys) = elim (Bool-cases (less y x)) [
    | inl e ↦ rw e (ground (arith, count_by-insert_by x ys))
    | inr e ↦ rw e refl
  ]

  -- A sort keeps the number of the elements that pass a test.
  pub count_by-sort_by : (xs : List A) → count_by p (sort_by less xs) ≡ count_by p xs
  unfolding sort_by count_by
  count_by-sort_by [] = refl
  count_by-sort_by (x ∷ xs) =
      rw (count_by-insert_by x (sort_by less xs)) (ground (arith, count_by-sort_by xs))

module _ {A : Type 0} (less : A → A → Bool) where
  length-insert_by : (x : A) (xs : List A) → length (insert_by less x xs) ≡ suc (length xs)
  unfolding insert_by
  length-insert_by x [] = refl
  length-insert_by x (y ∷ ys) = elim (Bool-cases (less y x)) [
    | inl e ↦ rw e (ap suc (length-insert_by x ys))
    | inr e ↦ rw e refl
  ]

  pub length-sort_by : (xs : List A) → length (sort_by less xs) ≡ length xs
  unfolding sort_by
  length-sort_by [] = refl
  length-sort_by (x ∷ xs) = length-insert_by x (sort_by less xs) ∙ ap suc (length-sort_by xs)

-- An insertion, and so a sort, keeps the elements.
module _ {A : Type 0} (a : A) (y x : A) (ys zs : List A) (ih : In a zs ↔ ((a ≡ x) ⊎ In a ys)) where
  behind-In : In a (y ∷ zs) ↔ ((a ≡ x) ⊎ In a (y ∷ ys))
  behind-In = (to, from)
    where
      to : In a (y ∷ zs) → (a ≡ x) ⊎ In a (y ∷ ys)
      to (inl q) = inr (inl q)
      to (inr h) = elim (ih.0 h) [ inl q ↦ inl q | inr m ↦ inr (inr m) ]

      from : (a ≡ x) ⊎ In a (y ∷ ys) → In a (y ∷ zs)
      from (inl q) = inr (ih.1 (inl q))
      from (inr (inl q)) = inl q
      from (inr (inr m)) = inr (ih.1 (inr m))

module _ {A : Type 0} (less : A → A → Bool) (a : A) where
  insert_by-In : (x : A) (xs : List A) → In a (insert_by less x xs) ↔ ((a ≡ x) ⊎ In a xs)
  unfolding insert_by
  insert_by-In x [] = (λ h. h, λ h. h)
  insert_by-In x (y ∷ ys) = elim (Bool-cases (less y x)) [
    | inl e ↦ rw e (behind-In a y x ys (insert_by less x ys) (insert_by-In x ys))
    | inr e ↦ rw e (λ h. h, λ h. h)
  ]

  pub sort_by-In : (xs : List A) → In a (sort_by less xs) ↔ In a xs
  unfolding sort_by
  sort_by-In [] = (λ h. h, λ h. h)
  sort_by-In (x ∷ xs) =
      let step = insert_by-In x (sort_by less xs) in
      let ih = sort_by-In xs in
      (
        λ h. elim (step.0 h) [ inl q ↦ inl q | inr m ↦ inr (ih.0 m) ],
        λ h. step.1 (elim h [ inl q ↦ inl q | inr m ↦ inr (ih.1 m) ]),
      )

-- No element comes before one that stands ahead of it.
abbrev pub Sorted : {A : Type 0} → (A → A → Bool) → List A → Type 0
Sorted less [] = Unit
Sorted less (x ∷ xs) = All (λ y. less y x ≡ false) xs × Sorted less xs

module _ {A : Type 0} (less : A → A → Bool) (asym : (x y : A) → less x y ≡ true → less y x ≡ false)
    (chain : (x y z : A) → less y x ≡ false → less z y ≡ false → less z x ≡ false) where
  none_ahead :
      (w y : A) (xs : List A)
      → less y w ≡ false
      → All (λ z. less z y ≡ false) xs
      → All (λ z. less z w ≡ false) xs
  none_ahead w y [] e h = tt
  none_ahead w y (z ∷ zs) e (f, h) = (chain w y z e f, none_ahead w y zs e h)

  none_ahead_insert :
      (w x : A) (xs : List A)
      → less x w ≡ false
      → All (λ z. less z w ≡ false) xs
      → All (λ z. less z w ≡ false) (insert_by less x xs)
  unfolding insert_by
  none_ahead_insert w x [] e h = (e, tt)
  none_ahead_insert w x (y ∷ ys) e (f, h) = elim (Bool-cases (less y x)) [
    | inl q ↦ rw q (f, none_ahead_insert w x ys e h)
    | inr q ↦ rw q (e, (f, h))
  ]

  insert_by-Sorted : (x : A) (xs : List A) → Sorted less xs → Sorted less (insert_by less x xs)
  unfolding insert_by
  insert_by-Sorted x [] h = (tt, tt)
  insert_by-Sorted x (y ∷ ys) (first, h) = elim (Bool-cases (less y x)) [
    | inl q ↦ rw q (none_ahead_insert y x ys (asym y x q) first, insert_by-Sorted x ys h)
    | inr q ↦ rw q ((q, none_ahead x y ys q first), (first, h))
  ]

  -- A sort by a strict order in which incomparable elements are alike sorts.
  pub sort_by-Sorted : (xs : List A) → Sorted less (sort_by less xs)
  unfolding sort_by
  sort_by-Sorted [] = tt
  sort_by-Sorted (x ∷ xs) = insert_by-Sorted x (sort_by less xs) (sort_by-Sorted xs)
