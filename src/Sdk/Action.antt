-- ===== src/Sdk/Action.antt =====
-- Go functions of the client that may fail and that change the outside: what was done before an
-- error stays done, so the state comes back beside it.
use wasteland.Base.{if◌then◌else◌, String, ◌≡◌, refl, Bool, true, false, Option, none, some}
use wasteland.Commons.Types.{Error, external, Result, ok, err}
use wasteland.Commons.Db.{Call}

abbrev pub Action : Type 0 → Type 0 → Type 0
Action S A = S → Result A × S

module _ {S A : Type 0} where
  abbrev pub pure : A → Action S A
  pure a s = (ok a, s)

  abbrev pub raise : Error → Action S A
  raise e s = (err e, s)

  -- A read.
  abbrev pub reads : (S → A) → Action S A
  reads f s = (ok (f s), s)

  -- A read that may fail.
  abbrev pub lift : (S → Result A) → Action S A
  lift f s = (f s, s)

call_result : Option String → Result (Unit {0})
call_result none = ok tt
call_result (some text) = err (external text)

module _ {S : Type 0} where
  -- A call whose error is returned.
  unfoldable pub call : Call S → Action S (Unit {0})
  unfolding call_result
  call c s = let (e, s') = c s in (call_result e, s')

  -- A call whose error is dropped.
  unfoldable pub attempt : Call S → Action S (Unit {0})
  attempt c s = (ok tt, (c s).1)

module _ {S A B : Type 0} where
  continue : Result A → (A → Action S B) → Action S B
  continue (ok a) f s = f a s
  continue (err e) f s = (err e, s)

  infixl 5 ◌>>=◌
  unfoldable pub ◌>>=◌ : Action S A → (A → Action S B) → Action S B
  unfolding continue
  ◌>>=◌ m f s = let (r, s') = m s in continue r f s'

module _ {S B : Type 0} where
  infixl 5 ◌>>◌
  abbrev pub ◌>>◌ : Action S (Unit {0}) → Action S B → Action S B
  m >> k = m >>= λ _. k

module _ {S A B : Type 0} where
  pub bind-ok :
      (m : Action S A) (f : A → Action S B) (s s' : S) (a : A)
      → m s ≡ (ok a, s')
      → (m >>= f) s ≡ f a s'
  unfolding ◌>>=◌
  bind-ok m f s s' a h = rw h refl

module _ {S A B : Type 0} (f : A → Action S B) (b : B) (s' : S) where
  continue-inv :
      (r : Result A) (s : S)
      → continue r f s ≡ (ok b, s')
      → (a : A) × ((r ≡ ok a) × (f a s ≡ (ok b, s')))
  unfolding continue
  continue-inv (ok a) s h = (a, (refl, h))
  continue-inv (err e) s h = cc

  -- A chain that succeeds consists of two steps that succeed.
  pub bind-inv :
      (m : Action S A) (s : S)
      → (m >>= f) s ≡ (ok b, s')
      → (a : A) × (((m s).0 ≡ ok a) × (f a (m s).1 ≡ (ok b, s')))
  unfolding ◌>>=◌
  bind-inv m s h = continue-inv (m s).0 (m s).1 h

call_result-inv : (o : Option String) (u : Unit {0}) → call_result o ≡ ok u → o ≡ none
unfolding call_result
call_result-inv none u h = refl
call_result-inv (some e) u h = cc

module _ {S : Type 0} where
  pub call-inv : (c : Call S) (s : S) (u : Unit {0}) → (call c s).0 ≡ ok u → (c s).0 ≡ none
  unfolding call
  call-inv c s u h = call_result-inv (c s).0 u h

-- An action keeps a predicate of the state, whether it returns or fails.
pub record Keeps {S A : Type 0} (P : S → Type 0) (m : Action S A) : Type 0 where
  pub at : (s : S) → P s → P (m s).1

module _ {S A B : Type 0} {P : S → Type 0} where
  pub Keeps-bind :
      (m : Action S A) (f : A → Action S B)
      → Keeps P m
      → ((a : A) → Keeps P (f a))
      → Keeps P (m >>= f)
  unfolding ◌>>=◌
  Keeps-bind m f km kf = record { at = λ s h. go (m s).0 (m s).1 (km.at s h) }
    where
      go : (r : Result A) (s : S) → P s → P (continue r f s).1
      go (ok a) s h = (kf a).at s h
      go (err e) s h = h

module _ {S A : Type 0} {P : S → Type 0} where
  pub Keeps-pure : (a : A) → Keeps P (pure {S = S} a)
  Keeps-pure a = record { at = λ s h. h }

  pub Keeps-raise : (e : Error) → Keeps P (raise {S = S} {A = A} e)
  Keeps-raise e = record { at = λ s h. h }

  pub Keeps-reads : (f : S → A) → Keeps P (reads f)
  Keeps-reads f = record { at = λ s h. h }

  pub Keeps-lift : (f : S → Result A) → Keeps P (lift f)
  Keeps-lift f = record { at = λ s h. h }

  pub Keeps-if :
      (b : Bool) (m n : Action S A) → Keeps P m → Keeps P n → Keeps P (if b then m else n)
  Keeps-if true m n km kn = km
  Keeps-if false m n km kn = kn

module _ {S : Type 0} {P : S → Type 0} where
  pub Keeps-call : (c : Call S) → ((s : S) → P s → P (c s).1) → Keeps P (call c)
  unfolding call
  Keeps-call c h = record { at = h }

  pub Keeps-attempt : (c : Call S) → ((s : S) → P s → P (c s).1) → Keeps P (attempt c)
  unfolding attempt
  Keeps-attempt c h = record { at = h }

pub ruleset keeps_rules = (
  Keeps-bind, Keeps-pure, Keeps-raise, Keeps-reads, Keeps-lift, Keeps-if, Keeps-call, Keeps-attempt,
)
