-- ===== src/Base/Lists.antt =====
-- Lists measured by native numbers, predicates over lists, and association lists for Go's maps.
use Prim.Native.Nat.{ℕ, suc}
use Prim.Native.String.{String}
use mathlib.Core.Path.{◌≡◌, ◌∙◌, ap}
use mathlib.Core.Logic.{◌⊎◌, ◌↔◌, inl, inr}
use mathlib.Core.Option.{Option, none, some}
use mathlib.Core.Bool.{Bool, true, false, ◌||◌}
use mathlib.Core.List.{List, [], ◌∷◌}
use text.Mathlib.Text.{◌==◌}
use wasteland.Base.Tests.{if◌then◌else◌, Bool-cases}

module _ {ℓ} {A : Type ℓ} where
  abbrev pub length : List A → ℕ
  length [] = 0
  length (x ∷ xs) = suc (length xs)

-- Every element has the property.
abbrev pub All {ℓ κ} : {A : Type ℓ} → (A → Type κ) → List A → Type κ
All P [] = Unit
All P (x ∷ xs) = P x × All P xs

-- The element stands in the list, by position.
abbrev pub In : {A : Type 0} → A → List A → Type 0
In a [] = ⊥
In a (x ∷ xs) = (a ≡ x) ⊎ In a xs

-- A Go map with string keys.
module _ {ℓ} {V : Type ℓ} where
  abbrev pub get : String → List (String × V) → Option V
  get k [] = none
  get k ((j, v) ∷ m) = if j == k then some v else get k m

  unfoldable pub put : String → V → List (String × V) → List (String × V)
  put k v [] = (k, v) ∷ []
  put k v ((j, w) ∷ m) = if j == k then (k, v) ∷ m else (j, w) ∷ put k v m

-- A loop that appends the elements that pass a test.
module _ {A : Type 0} where
  unfoldable pub filter_by : (A → Bool) → List A → List A
  filter_by p [] = []
  filter_by p (x ∷ xs) = let rest = filter_by p xs in if p x then x ∷ rest else rest

module _ {A : Type 0} (p : A → Bool) (a x : A) (xs : List A) where
  filter_by-cons-In :
      In a (filter_by p xs) ↔ (In a xs × (p a ≡ true))
      → In a (filter_by p (x ∷ xs)) ↔ (In a (x ∷ xs) × (p a ≡ true))
  unfolding filter_by
  filter_by-cons-In ih = elim (Bool-cases (p x)) [
    | inl e ↦ rw e (from_kept e, λ h. to_kept h.0 h.1)
    | inr e ↦ rw e (λ m. (inr (ih.0 m).0, (ih.0 m).1), λ h. to_dropped e h.0 h.1)
  ]
    where
      from_kept : p x ≡ true → In a (x ∷ filter_by p xs) → In a (x ∷ xs) × (p a ≡ true)
      from_kept e (inl q) = (inl q, ap p q ∙ e)
      from_kept e (inr m) = (inr (ih.0 m).0, (ih.0 m).1)

      to_kept : In a (x ∷ xs) → p a ≡ true → In a (x ∷ filter_by p xs)
      to_kept (inl q) h = inl q
      to_kept (inr m) h = inr (ih.1 (m, h))

      to_dropped : p x ≡ false → In a (x ∷ xs) → p a ≡ true → In a (filter_by p xs)
      to_dropped e (inl q) h = cc (ap p q)
      to_dropped e (inr m) h = ih.1 (m, h)

module _ {A : Type 0} (p : A → Bool) where
  -- The loop keeps exactly the elements that pass.
  pub filter_by-In : (a : A) (xs : List A) → In a (filter_by p xs) ↔ (In a xs × (p a ≡ true))
  unfolding filter_by
  filter_by-In a [] = (λ h. absurd h, λ h. absurd h.0)
  filter_by-In a (x ∷ xs) = filter_by-cons-In p a x xs (filter_by-In a xs)

-- Membership as Go tests it in a map of texts to Booleans, and a missing count as 0.
abbrev pub member : String → List String → Bool
member k [] = false
member k (j ∷ js) = j == k || member k js

abbrev pub count_of : String → List (String × ℕ) → ℕ
count_of k m = elim (get k m) [ none ↦ 0 | some n ↦ n ]
