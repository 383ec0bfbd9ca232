-- ===== src/DolthubAuth/Tables/Inv.antt =====
-- What a transaction that succeeds has done.
use wasteland.Base.{if◌then◌else◌, String, ◌≡◌, refl, Bool, true, false, Option, none, some, arith}
use wasteland.DolthubAuth.Types.{AuthError, Outcome, ok, err}
use wasteland.DolthubAuth.Tables.{
  Tables, Tx, pure, raise, reads, continue, ◌>>=◌, guard, required, Outside, finish, transaction,
}
use wasteland.DolthubAuth.Tables.Keeps.{After, TxKeeps}

module _ {A B : Type 0} (f : A → Tx B) (b : B) (s' : Tables) where
  continue-inv :
      (x : Outcome (A × Tables))
      → continue x f ≡ ok (b, s')
      → (a : A) × (s1 : Tables) × (x ≡ ok (a, s1)) × (f a s1 ≡ ok (b, s'))
  unfolding continue
  continue-inv (ok (a, s1)) h = (a, s1, refl, h)
  continue-inv (err e) h = cc

  -- A chain that succeeds consists of two steps that succeed.
  pub bind-inv :
      (m : Tx A) (s : Tables)
      → (m >>= f) s ≡ ok (b, s')
      → (a : A) × (s1 : Tables) × (m s ≡ ok (a, s1)) × (f a s1 ≡ ok (b, s'))
  unfolding ◌>>=◌
  bind-inv m s h = continue-inv (m s) h

module _ {A B C : Type 0} (f : A → Tx B) (g : B → Tx C) where
  pub bind_assoc : (m : Tx A) (s : Tables) → ((m >>= f) >>= g) s ≡ (m >>= (λ a. f a >>= g)) s
  unfolding ◌>>=◌ continue
  bind_assoc m s = go (m s)
    where
      go : (x : Outcome (A × Tables)) → continue (continue x f) g ≡ continue x (λ a. f a >>= g)
      go (ok (a, s)) = refl
      go (err e) = refl

module _ {A B : Type 0} (g : A → Tx B) (s : Tables) where
  pub pure-bind : (a : A) → (pure a >>= g) s ≡ g a s
  unfolding ◌>>=◌ continue
  pure-bind a = refl

  pub raise-bind : (e : AuthError) → (raise e >>= g) s ≡ err e
  unfolding ◌>>=◌ continue
  raise-bind e = refl

-- The same where the first step changes nothing.
module _ {B : Type 0} (b : B) (s s' : Tables) where
  pub guard-inv :
      (f : Unit {0} → Tx B) (c : Bool) (e : AuthError)
      → (guard c e >>= f) s ≡ ok (b, s')
      → (c ≡ true) × (f tt s ≡ ok (b, s'))
  unfolding ◌>>=◌ continue
  guard-inv f true e h = (refl, h)
  guard-inv f false e h = cc

-- And where it writes unless it fails.
module _ {B : Type 0} (b : B) (s' : Tables) (g : Unit {0} → Tx B) where
  unless-inv :
      (c : Bool) (e : AuthError) (s1 : Tables)
      → continue (if c then err e else ok (tt, s1)) g ≡ ok (b, s')
      → g tt s1 ≡ ok (b, s')
  unfolding continue
  unless-inv true e s1 h = cc
  unless-inv false e s1 h = h

  pub write-inv :
      (m : Tx (Unit {0})) (s : Tables) (c : Bool) (e : AuthError) (s1 : Tables)
      → m s ≡ (if c then err e else ok (tt, s1))
      → (m >>= g) s ≡ ok (b, s')
      → g tt s1 ≡ ok (b, s')
  unfolding ◌>>=◌
  write-inv m s c e s1 step h = unless-inv c e s1 (rw step at h)

module _ {A B : Type 0} (b : B) (s s' : Tables) (f : A → Tx B) where
  pub reads-inv :
      (g : Tables → Outcome A)
      → (reads g >>= f) s ≡ ok (b, s')
      → (a : A) × (g s ≡ ok a) × (f a s ≡ ok (b, s'))
  unfolding ◌>>=◌ continue
  reads-inv g h = go (g s) h
    where
      go :
          (x : Outcome A)
          → (reads (λ _. x) >>= f) s ≡ ok (b, s')
          → (a : A) × (x ≡ ok a) × (f a s ≡ ok (b, s'))
      go (ok a) h = (a, refl, h)
      go (err e) h = cc

  pub required-inv :
      (o : Option A) (e : AuthError)
      → (required o e >>= f) s ≡ ok (b, s')
      → (a : A) × (o ≡ some a) × (f a s ≡ ok (b, s'))
  unfolding ◌>>=◌ continue
  required-inv none e h = cc
  required-inv (some a) e h = (a, refl, h)

module _ {A : Type 0} (o : Outside) (begin_context commit_context : String) (a : A) where
  finish-ok :
      (s : Tables) (x : Outcome (A × Tables))
      → (finish o begin_context commit_context s x).0 ≡ ok a
      → x ≡ ok (a, (finish o begin_context commit_context s x).1)
  unfolding finish
  finish-ok s (err e) h = cc
  finish-ok s (ok (c, s')) h = ground arith

  pub transaction-ok :
      (m : Tx A) (s : Tables)
      → (transaction o begin_context commit_context m s).0 ≡ ok a
      → m s ≡ ok (a, (transaction o begin_context commit_context m s).1)
  unfolding transaction
  transaction-ok m s h = ground (arith, finish-ok s (m s))

-- Wherever it starts, the action makes `P` hold.
pub record TxMakes {A : Type 0} (P : Tables → Type 0) (m : Tx A) : Type 0 where
  pub at : (s : Tables) → After P (m s)

module _ {A B : Type 0} {P : Tables → Type 0} where
  pub TxMakes-last : (m : Tx A) (f : A → Tx B) → ((a : A) → TxMakes P (f a)) → TxMakes P (m >>= f)
  unfolding ◌>>=◌ continue
  TxMakes-last m f h = record { at = λ s. go (m s) }
    where
      go : (x : Outcome (A × Tables)) → After P (continue x f)
      go (ok (a, s)) = (h a).at s
      go (err e) = tt

  pub TxMakes-first :
      (m : Tx A) (f : A → Tx B) → TxMakes P m → ((a : A) → TxKeeps P (f a)) → TxMakes P (m >>= f)
  unfolding ◌>>=◌ continue
  TxMakes-first m f h k = record { at = λ s. go (m s) (h.at s) }
    where
      go : (x : Outcome (A × Tables)) → After P x → After P (continue x f)
      go (ok (a, s)) p = (k a).at s p
      go (err e) p = tt
