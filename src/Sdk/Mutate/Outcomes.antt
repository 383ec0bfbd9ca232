-- ===== src/Sdk/Mutate/Outcomes.antt =====
-- What a mutation on main that succeeds has done.
use wasteland.Base.{
  Bool-cases, String, ◌≡◌, refl, sym, ap, ◌∙◌, ◌⊎◌, inl, inr, true, false, Option, none, some, List,
}
use wasteland.Commons.Types.{external, Result, ok, err}
use wasteland.Commons.Db.{Runtime}
use wasteland.Sdk.Action.{call, bind-inv, call-inv}
use wasteland.Sdk.Client.{Client, MutationResult}
use wasteland.Sdk.Mutate.{mutate_wild_west, check_wild_west, push_if_wanted}

-- The branch that a result names.
abbrev pub branch_of : Result MutationResult → String
branch_of (ok r) = r.branch
branch_of (err e) = ""

module _ {S : Type 0} (rt : Runtime) (c : Client S) (id msg : String) (stmts : List String)
    (s : S) where
  check-inv : (u : Unit {0}) → (check_wild_west rt c s).0 ≡ ok u → c.db.can_wild_west s ≡ none
  unfolding check_wild_west
  check-inv u h = go (c.db.can_wild_west s) h
    where
      go :
          (o : Option String)
          → (elim o as (λ _. Result (Unit {0})) [ none ↦ ok tt | some e ↦ err (external e) ])
            ≡ ok tt
          → o ≡ none
      go none h = refl
      go (some e) h = cc

  -- The state once the statements are committed on main.
  abbrev pub committed : S
  committed = (c.db.exec "" msg c.signing stmts s).1

  -- What a success on main means: it was allowed, the commit was made, and the state is the
  -- committed one, pushed unless pushing is off.
  pub record IsOnMain (r : MutationResult) (s' : S) : Type 0 where
    pub allowed : c.db.can_wild_west s ≡ none
    pub executed : (c.db.exec "" msg c.signing stmts s).0 ≡ none
    pub pushed :
        ((c.no_push ≡ true) × (s' ≡ committed))
        ⊎ ((c.no_push ≡ false)
            × ((c.db.push_with_sync committed).0 ≡ none)
            × (s' ≡ (c.db.push_with_sync committed).1))
    pub no_branch : r.branch ≡ ""

  push-inv :
      (u : Unit {0}) (s1 : S)
      → (push_if_wanted rt c s1).0 ≡ ok u
      → ((c.no_push ≡ true) × ((push_if_wanted rt c s1).1 ≡ s1))
        ⊎ ((c.no_push ≡ false)
            × ((c.db.push_with_sync s1).0 ≡ none)
            × ((push_if_wanted rt c s1).1 ≡ (c.db.push_with_sync s1).1))
  unfolding push_if_wanted call
  push-inv u s1 h = elim (Bool-cases c.no_push) [
    | inl e ↦ inl (e, rw e refl)
    | inr e ↦ inr (e, call-inv c.db.push_with_sync s1 u (rw e at h), rw e refl)
  ]

  -- In the wild-west mode a mutation succeeds only if the database allows it, the commit on main is
  -- made and, unless pushing is off, the push succeeds; its result names no branch, and the state is
  -- the one that the commit, and the push if there is one, have left.
  pub mutate_wild_west-IsOnMain :
      (r : MutationResult) (s' : S)
      → mutate_wild_west rt c id msg stmts s ≡ (ok r, s')
      → IsOnMain r s'
  unfolding mutate_wild_west call check_wild_west
  mutate_wild_west-IsOnMain r s' h =
      let h1 = bind-inv _ r s' _ s h in
      let h2 = bind-inv _ r s' _ _ h1.1.1 in
      let h3 = bind-inv _ r s' _ _ h2.1.1 in
      let h4 = bind-inv _ r s' _ _ h3.1.1 in
      let moved : (push_if_wanted rt c committed).1 ≡ s' = ap (λ x. x.1) h4.1.1 in
      record {
        allowed = check-inv h1.0 h1.1.0;
        executed = call-inv (c.db.exec "" msg c.signing stmts) s h2.0 h2.1.0;
        pushed = elim (push-inv h3.0 committed h3.1.0) [
          | inl (e, q) ↦ inl (e, sym moved ∙ q)
          | inr (e, k, q) ↦ inr (e, k, sym moved ∙ q)
        ];
        no_branch = sym (ap branch_of (ap (λ x. x.0) h4.1.1));
      }
