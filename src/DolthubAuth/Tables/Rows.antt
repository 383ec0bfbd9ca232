-- ===== src/DolthubAuth/Tables/Rows.antt =====
-- Rows that are found, changed and kept.
use wasteland.Base.{
  if◌then◌else◌, Bool-cases, filter_by, ◌≡◌, refl, sym, ap, ◌∙◌, inl, inr, Bool, true, false, ◌&&◌,
  ◌||◌, some, List, [], ◌∷◌, ◌++◌, arith,
}
use wasteland.DolthubAuth.Tables.{find_row, change_rows, any_row}

module _ {A : Type 0} (p : A → Bool) where
  -- A row that passes the filter stays.
  pub any_row-filter_by :
      (q : A → Bool)
      → ((x : A) → p x ≡ true → q x ≡ true)
      → (xs : List A) → any_row p xs ≡ true
      → any_row p (filter_by q xs) ≡ true
  unfolding any_row filter_by
  any_row-filter_by q h [] e = e
  any_row-filter_by q h (x ∷ xs) e = ground (arith, h x, any_row-filter_by q h xs)

  pub any_row-append : (xs ys : List A) → any_row p (xs ++ ys) ≡ (any_row p xs || any_row p ys)
  unfolding any_row
  any_row-append [] ys = refl
  any_row-append (x ∷ xs) ys = ground (arith, any_row-append xs ys)

  pub any_row-le :
      (q : A → Bool)
      → ((x : A) → p x ≡ true → q x ≡ true)
      → (xs : List A) → any_row p xs ≡ true
      → any_row q xs ≡ true
  unfolding any_row
  any_row-le q h [] e = e
  any_row-le q h (x ∷ xs) e = ground (arith, h x, any_row-le q h xs)

  pub any_row-filter-false :
      (q : A → Bool) (xs : List A) → any_row p xs ≡ false → any_row p (filter_by q xs) ≡ false
  unfolding any_row filter_by
  any_row-filter-false q [] e = e
  any_row-filter-false q (x ∷ xs) e = ground (arith, any_row-filter-false q xs)

pub filter_by-append :
    {A : Type 0} (q : A → Bool) (xs ys : List A)
    → filter_by q (xs ++ ys) ≡ filter_by q xs ++ filter_by q ys
unfolding filter_by
filter_by-append q [] ys = refl
filter_by-append q (x ∷ xs) ys = ground (arith, filter_by-append q xs ys)

module _ {A : Type 0} (p q : A → Bool) (f : A → A) where
  pub any_row-change-false :
      ((x : A) → p x ≡ false → p (f x) ≡ false)
      → (xs : List A) → any_row p xs ≡ false
      → any_row p (change_rows q f xs) ≡ false
  unfolding any_row change_rows
  any_row-change-false h [] e = e
  any_row-change-false h (x ∷ xs) e = ground (arith, h x, any_row-change-false h xs)

  -- If the change takes the test from every row that it meets, and no other row passes it.
  pub any_row-changed :
      ((x : A) → p (if q x then f x else x) ≡ false)
      → (xs : List A) → any_row p (change_rows q f xs) ≡ false
  unfolding any_row change_rows
  any_row-changed h [] = refl
  any_row-changed h (x ∷ xs) = rw (h x) (any_row-changed h xs)

module _ {A : Type 0} (p : A → Bool) where
  pub find_row-passes : (x : A) (xs : List A) → find_row p xs ≡ some x → p x ≡ true
  unfolding find_row
  find_row-passes x [] e = cc
  find_row-passes x (y ∷ ys) e = elim (Bool-cases (p y)) [
    | inl h ↦ let e' : some y ≡ some x = rw h at e in let e'' : y ≡ x = cc e' in ap p (sym e'') ∙ h
    | inr h ↦ find_row-passes x ys (rw h at e)
  ]

  -- No row that passes has the other property.
  pub find_row-free :
      (q : A → Bool) (x : A) (xs : List A)
      → any_row (λ y. p y && q y) xs ≡ false
      → find_row p xs ≡ some x
      → q x ≡ false
  unfolding find_row any_row
  find_row-free q x [] h e = cc
  find_row-free q x (y ∷ ys) h e =
      first (p y) (q y) (any_row (λ z. p z && q z) ys) refl h e (find_row-free q x ys)
    where
      first :
          (b c d : Bool)
          → q y ≡ c
          → (b && c || d) ≡ false
          → (if b then some y else find_row p ys) ≡ some x
          → (d ≡ false → find_row p ys ≡ some x → q x ≡ false)
          → q x ≡ false
      first true true d k h e ih = cc
      first true false d k h e ih = let same : y ≡ x = cc e in ap q (sym same) ∙ k
      first false c d k h e ih = ih h e

  pub find_row-append :
      (x : A) (xs ys : List A) → find_row p xs ≡ some x → find_row p (xs ++ ys) ≡ some x
  unfolding find_row
  find_row-append x [] ys e = cc
  find_row-append x (y ∷ xs) ys e = ground (arith, find_row-append x xs ys)

  pub find_row-change :
      (q : A → Bool) (f : A → A)
      → ((x : A) → p (f x) ≡ p x)
      → (x : A) (xs : List A) → find_row p xs ≡ some x
      → find_row p (change_rows q f xs) ≡ some (if q x then f x else x)
  unfolding find_row change_rows
  find_row-change q f same x [] e = cc
  find_row-change q f same x (y ∷ xs) e =
      step (p y) (q y) refl refl e (find_row-change q f same x xs)
    where
      step :
          (b c : Bool)
          → p y ≡ b
          → q y ≡ c
          → (if b then some y else find_row p xs) ≡ some x
          → (find_row p xs ≡ some x
              → find_row p (change_rows q f xs) ≡ some (if q x then f x else x))
          → (if p (if c then f y else y)
              then some (if c then f y else y)
              else find_row p (change_rows q f xs))
            ≡ some (if q x then f x else x)
      step true true hp hq e ih =
          let eq : y ≡ x = cc e in
          rw (same y, hp) (ap some (ap f eq ∙ rw (ap q (sym eq) ∙ hq) refl))
      step true false hp hq e ih =
          let eq : y ≡ x = cc e in rw hp (ap some (eq ∙ rw (ap q (sym eq) ∙ hq) refl))
      step false true hp hq e ih = rw (same y, hp) (ih e)
      step false false hp hq e ih = rw hp (ih e)

  -- A change of other rows.
  pub find_row-other :
      (q : A → Bool) (f : A → A)
      → ((x : A) → p (f x) ≡ p x)
      → ((x : A) → q x ≡ true → p x ≡ false)
      → (xs : List A) → find_row p (change_rows q f xs) ≡ find_row p xs
  unfolding find_row change_rows
  find_row-other q f same other [] = refl
  find_row-other q f same other (x ∷ xs) = step (q x) (other x) (find_row-other q f same other xs)
    where
      step :
          (b : Bool)
          → (b ≡ true → p x ≡ false)
          → find_row p (change_rows q f xs) ≡ find_row p xs
          → (if p (if b then f x else x)
              then some (if b then f x else x)
              else find_row p (change_rows q f xs))
            ≡ (if p x then some x else find_row p xs)
      step true h ih = rw (same x, h refl) ih
      step false h ih = rw ih refl
