-- ===== src/Base/Maps.antt =====
-- What a lookup finds after an update of a Go map with string keys.
use Prim.Native.String.{String}
use mathlib.Core.Path.{◌≡◌, refl, sym, ap, ◌∙◌}
use mathlib.Core.Logic.{◌⊎◌, ◌↔◌, inl, inr}
use mathlib.Core.Bool.{Bool, true, false}
use mathlib.Core.Option.{none, some}
use mathlib.Core.List.{List, [], ◌∷◌, map}
use Prim.Native.Nat.{◌≤◌}
use native.Mathlib.Omega.{arith}
use text.Mathlib.Text.{◌==◌}
use text.Mathlib.TextEquality.{eq_iff}
use text.Mathlib.TextPositions.{eq_refl}
use wasteland.Base.Tests.{if◌then◌else◌, Bool-cases}
use wasteland.Base.Lists.{get, put, length, In}

module _ {ℓ} {V : Type ℓ} where
  unfoldable pub delete_key : String → List (String × V) → List (String × V)
  delete_key k [] = []
  delete_key k ((j, w) ∷ m) = let rest = delete_key k m in if j == k then rest else (j, w) ∷ rest

-- Lookup after an insertion and after a deletion, at any key.
module _ {V : Type 0} where
  pub get-put :
      (j k : String) (v : V) (m : List (String × V))
      → get j (put k v m) ≡ (if k == j then some v else get j m)
  unfolding put
  get-put j k v [] = refl
  get-put j k v ((i, w) ∷ m) = ground (arith, eq_iff k j, eq_iff i k, eq_iff i j, get-put j k v m)

  pub get-delete_key :
      (j k : String) (m : List (String × V))
      → get j (delete_key k m) ≡ (if k == j then none else get j m)
  unfolding delete_key
  get-delete_key j k [] = ground arith
  get-delete_key j k ((i, w) ∷ m) =
      ground (arith, eq_iff k j, eq_iff i k, eq_iff i j, get-delete_key j k m)

pub same_text : (j k : String) → (j == k) ≡ (k == j)
same_text j k = ground (arith, eq_iff j k, eq_iff k j)

module _ {V : Type 0} where
  pub get-delete_key-inv :
      (j k : String) (v : V) (m : List (String × V))
      → get j (delete_key k m) ≡ some v
      → (k == j ≡ false) × (get j m ≡ some v)
  get-delete_key-inv j k v m h = left (k == j) (sym (get-delete_key j k m) ∙ h)
    where
      left : (b : Bool) → (if b then none else get j m) ≡ some v → (b ≡ false) × (get j m ≡ some v)
      left true h = cc
      left false h = (refl, h)

  pub get-put-inv :
      (j k : String) (v w : V) (m : List (String × V))
      → get j (put k v m) ≡ some w
      → ((k ≡ j) × (v ≡ w)) ⊎ ((k == j ≡ false) × (get j m ≡ some w))
  get-put-inv j k v w m h = left (k == j) (eq_iff k j).0 (sym (get-put j k v m) ∙ h)
    where
      left :
          (b : Bool)
          → (b ≡ true → k ≡ j)
          → (if b then some v else get j m) ≡ some w
          → ((k ≡ j) × (v ≡ w)) ⊎ ((b ≡ false) × (get j m ≡ some w))
      left true same h = inl (same refl, cc h)
      left false same h = inr (refl, h)

  pub length-delete_key : (k : String) (m : List (String × V)) → length (delete_key k m) ≤ length m
  unfolding delete_key
  length-delete_key k [] = omega arith
  length-delete_key k ((j, w) ∷ m) = ground (arith, length-delete_key k m)

-- No key stands twice.
abbrev pub Distinct : {V : Type 0} → List (String × V) → Type 0
Distinct [] = Unit
Distinct ((k, v) ∷ m) = (get k m ≡ none) × Distinct m

module _ {V : Type 0} where
  pub Distinct-delete_key :
      (k : String) (m : List (String × V)) → Distinct m → Distinct (delete_key k m)
  unfolding delete_key
  Distinct-delete_key k [] h = tt
  Distinct-delete_key k ((j, w) ∷ m) (new, h) = elim (Bool-cases (j == k)) [
    | inl e ↦ rw e (Distinct-delete_key k m h)
    | inr e ↦ rw e (rw (get-delete_key j k m) (ground arith), Distinct-delete_key k m h)
  ]

  pub Distinct-put :
      (k : String) (v : V) (m : List (String × V)) → Distinct m → Distinct (put k v m)
  unfolding put
  Distinct-put k v [] h = (refl, tt)
  Distinct-put k v ((j, w) ∷ m) (new, h) = elim (Bool-cases (j == k)) [
    | inl e ↦ rw e (rw (← (eq_iff j k).0 e) new, h)
    | inr e ↦
        rw e (rw (get-put j k v m) (ground (arith, eq_iff k j, eq_iff j k)), Distinct-put k v m h)
  ]

module _ {V : Type 0} (v : V) (j : String) (w : V) (m : List (String × V)) (new : get j m ≡ none)
    (ih : In v (map (λ kv. kv.1) m) ↔ ((k : String) × (get k m ≡ some v))) where
  value_cons :
      (k : String) (b : Bool)
      → (b ≡ true → j ≡ k)
      → (if b then some w else get k m) ≡ some v
      → (w ≡ v) ⊎ In v (map (λ kv. kv.1) m)
  value_cons k true same e = inl (cc e)
  value_cons k false same e = inr (ih.1 (k, e))

  values-cons-In :
      In v (map (λ kv. kv.1) ((j, w) ∷ m)) ↔ ((k : String) × (get k ((j, w) ∷ m) ≡ some v))
  values-cons-In = (to, from)
    where
      to : In v (w ∷ map (λ kv. kv.1) m) → (k : String) × (get k ((j, w) ∷ m) ≡ some v)
      to (inl q) = (j, rw (eq_refl j) (ap some (sym q)))
      to (inr h) =
          let (k, e) = ih.0 h in
          (
            k,
            elim (Bool-cases (j == k)) [
              | inl q ↦ absurd (cc (ap (λ i. get i m) ((eq_iff j k).0 q), new, e))
              | inr q ↦ rw q e
            ],
          )

      from : (k : String) × (get k ((j, w) ∷ m) ≡ some v) → In v (w ∷ map (λ kv. kv.1) m)
      from h = elim (value_cons h.0 (j == h.0) (eq_iff j h.0).0 h.1) [
        | inl q ↦ inl (sym q)
        | inr q ↦ inr q
      ]

module _ {V : Type 0} where
  -- The values of such a map are what its keys find.
  pub values-In :
      (v : V) (m : List (String × V))
      → Distinct m
      → In v (map (λ kv. kv.1) m) ↔ ((k : String) × (get k m ≡ some v))
  values-In v [] h = (λ h. absurd h, λ h. cc h.1)
  values-In v ((j, w) ∷ m) (new, h) = values-cons-In v j w m new (values-In v m h)
