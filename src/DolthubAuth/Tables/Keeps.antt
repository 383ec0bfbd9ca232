-- ===== src/DolthubAuth/Tables/Keeps.antt =====
-- What a transaction keeps, whether it is committed or taken back.
use wasteland.Base.{if◌then◌else◌, String, ◌≡◌, refl, Bool, true, false, Option, none, some}
use wasteland.DolthubAuth.Types.{AuthError, Outcome, ok, err, failed}
use wasteland.DolthubAuth.Tables.{
  Tables, Tx, pure, raise, reads, continue, ◌>>=◌, guard, required, changes, Outside, finish,
  transaction, commit, begin,
}

-- The tables after a success satisfy `P`.
abbrev pub After : {A : Type 0} → (Tables → Type 0) → Outcome (A × Tables) → Type 0
After P (ok (a, s)) = P s
After P (err e) = Unit {0}

pub record TxKeeps {A : Type 0} (P : Tables → Type 0) (m : Tx A) : Type 0 where
  pub at : (s : Tables) → P s → After P (m s)

module _ {A B : Type 0} {P : Tables → Type 0} where
  continue-keep :
      (f : A → Tx B)
      → ((a : A) → TxKeeps P (f a))
      → (x : Outcome (A × Tables)) → After P x
      → After P (continue x f)
  unfolding continue
  continue-keep f h (ok (a, s)) p = (h a).at s p
  continue-keep f h (err e) p = tt

  pub TxKeeps-bind :
      (m : Tx A) (f : A → Tx B) → TxKeeps P m → ((a : A) → TxKeeps P (f a)) → TxKeeps P (m >>= f)
  unfolding ◌>>=◌
  TxKeeps-bind m f km kf = record { at = λ s p. continue-keep f kf (m s) (km.at s p) }

module _ {A : Type 0} {P : Tables → Type 0} where
  pub TxKeeps-pure : (a : A) → TxKeeps P (pure a)
  TxKeeps-pure a = record { at = λ s p. p }

  pub TxKeeps-raise : (e : AuthError) → TxKeeps P (raise {A = A} e)
  TxKeeps-raise e = record { at = λ s p. tt }

  pub TxKeeps-reads : (f : Tables → Outcome A) → TxKeeps P (reads f)
  TxKeeps-reads f = record { at = λ s p. go s p (f s) }
    where
      go : (s : Tables) → P s → (x : Outcome A) → After P (reads (λ _. x) s)
      go s p (ok a) = p
      go s p (err e) = tt

  pub TxKeeps-required : (o : Option A) (e : AuthError) → TxKeeps P (required o e)
  TxKeeps-required none e = record { at = λ s p. tt }
  TxKeeps-required (some a) e = record { at = λ s p. p }

module _ {P : Tables → Type 0} where
  pub TxKeeps-guard : (b : Bool) (e : AuthError) → TxKeeps P (guard b e)
  TxKeeps-guard true e = record { at = λ s p. p }
  TxKeeps-guard false e = record { at = λ s p. tt }

  pub TxKeeps-changes :
      (f : Tables → Tables) → ((s : Tables) → P s → P (f s)) → TxKeeps P (changes f)
  TxKeeps-changes f h = record { at = h }

-- What follows a read may rest on what is read, and what follows a value on where it is from.
module _ {A B : Type 0} {P : Tables → Type 0} where
  pub TxKeeps-read :
      (f : Tables → Outcome A) (g : A → Tx B) (R : A → Type 0)
      → ((s : Tables) → P s → (a : A) → f s ≡ ok a → R a)
      → ((a : A) → R a → TxKeeps P (g a))
      → TxKeeps P (reads f >>= g)
  unfolding ◌>>=◌ continue
  TxKeeps-read f g R known h = record { at = λ s p. go s p (f s) (known s p) }
    where
      go :
          (s : Tables)
          → P s
          → (x : Outcome A) → ((a : A) → x ≡ ok a → R a)
          → After P ((reads (λ _. x) >>= g) s)
      go s p (ok a) r = (h a (r a refl)).at s p
      go s p (err e) r = tt

  pub TxKeeps-value :
      (o : Option A) (e : AuthError) (g : A → Tx B)
      → ((a : A) → o ≡ some a → TxKeeps P (g a))
      → TxKeeps P (required o e >>= g)
  unfolding ◌>>=◌ continue
  TxKeeps-value none e g h = record { at = λ s p. tt }
  TxKeeps-value (some a) e g h = h a refl

pub ruleset tx_rules =
    (TxKeeps-bind, TxKeeps-pure, TxKeeps-raise, TxKeeps-reads, TxKeeps-required, TxKeeps-guard)

pub if-keep :
    {A : Type 0} (P : Tables → Type 0) (b : Bool) (x y : A × Tables)
    → P x.1
    → P y.1
    → P (if b then x else y).1
if-keep P true x y p q = p
if-keep P false x y p q = q

if_either : (P : Tables → Type 0) (b : Bool) (s t : Tables) → P s → P t → P (if b then s else t)
if_either P true s t p q = p
if_either P false s t p q = q

module _ {A : Type 0} (P : Tables → Type 0) (o : Outside)
    (begin_context commit_context : String) where
  finish-keep :
      (s : Tables) (x : Outcome (A × Tables))
      → P s
      → After P x
      → P (finish o begin_context commit_context s x).1
  unfolding finish
  finish-keep s (err e) p q = p
  finish-keep s (ok (a, s')) p q =
      if-keep P (o.fails commit) (err (failed commit_context), if o.commit_made then s' else s)
        (ok a, s') (if_either P o.commit_made s' s q p) q

  pub transaction-keep :
      (m : Tx A)
      → TxKeeps P m
      → (s : Tables) → P s
      → P (transaction o begin_context commit_context m s).1
  unfolding transaction
  transaction-keep m k s p =
      if-keep P (o.fails begin) (err (failed begin_context), s)
        (finish o begin_context commit_context s (m s)) p (finish-keep s (m s) p (k.at s p))
