-- ===== src/Sdk/Branches/Frame.antt =====
-- What the operations on a mutation branch leave alone, and an action with a wrapped error.
use wasteland.Base.{String, ◌≡◌, refl, Bool, Option, none, some, List}
use wasteland.Commons.Types.{Result, ok}
use wasteland.Commons.Db.{Call}
use wasteland.Commons.Queries.Overrides.{branch_name}
use wasteland.Sdk.Action.{Action, Keeps, keeps_rules, Keeps-bind, Keeps-attempt}
use wasteland.Sdk.Client.{Client}
use wasteland.Sdk.Branches.{
  after_deletion, cleanup_branch, discard_branch, remove_branch, clear_branch_data, under,
  attempt_callback,
}

-- A predicate of the state, such as what main holds, that writing to a mutation branch, pushing or
-- deleting one, and the callbacks on pull requests all keep.
pub record KeptByBranches {S : Type 0} (P : S → Type 0) (c : Client S) : Type 0 where
  pub exec :
      (rig_handle id msg : String) (signed : Bool) (stmts : List String) (s : S)
      → P s
      → P (c.db.exec (branch_name rig_handle id) msg signed stmts s).1
  pub push_branch : (branch : String) (s : S) → P s → P (c.db.push_branch branch s).1
  pub delete_branch : (branch : String) (s : S) → P s → P (c.db.delete_branch branch s).1
  pub delete_remote_branch :
      (branch : String) (s : S) → P s → P (c.db.delete_remote_branch branch s).1
  pub create_pr :
      (f : String → S → Result String × S)
      → c.create_pr ≡ some f
      → (branch : String) (s : S) → P s
      → P (f branch s).1
  pub close_pr :
      (f : String → Call S)
      → c.close_pr ≡ some f
      → (branch : String) (s : S) → P s
      → P (f branch s).1
  pub close_upstream_pr :
      (f : String → Call S)
      → c.close_upstream_pr ≡ some f
      → (url : String) (s : S) → P s
      → P (f url s).1

module _ {S : Type 0} {P : S → Type 0} where
  pub Keeps-under :
      {A : Type 0} (context : String) (m : Action S A) → Keeps P m → Keeps P (under context m)
  unfolding under
  Keeps-under context m k = record { at = k.at }

  pub Keeps-attempt_callback :
      (o : Option (String → Call S)) (text : String)
      → ((f : String → Call S) → o ≡ some f → (s : S) → P s → P (f text s).1)
      → Keeps P (attempt_callback o text)
  unfolding attempt_callback
  Keeps-attempt_callback none text h = search keeps_rules
  Keeps-attempt_callback (some f) text h = Keeps-attempt (f text) (h f refl)

module _ {S : Type 0} {P : S → Type 0} (c : Client S) (kept : KeptByBranches P c) where
  Keeps-clear_branch_data :
      (rig_handle id : String) → Keeps P (clear_branch_data c.db (branch_name rig_handle id))
  unfolding clear_branch_data
  Keeps-clear_branch_data rig_handle id = search (keeps_rules, Keeps-under, kept.exec)

  Keeps-after_deletion :
      (rig_handle id : String) (e : Option String)
      → Keeps P (after_deletion c.db (branch_name rig_handle id) e)
  unfolding after_deletion
  Keeps-after_deletion rig_handle id none = search (keeps_rules, kept.delete_remote_branch)
  Keeps-after_deletion rig_handle id (some e) = Keeps-clear_branch_data rig_handle id

  Keeps-remove_branch :
      (rig_handle id : String) → Keeps P (remove_branch c.db (branch_name rig_handle id))
  unfolding remove_branch
  Keeps-remove_branch rig_handle id = record {
    at = λ s h.
        let branch = branch_name rig_handle id in
        (Keeps-after_deletion rig_handle id (c.db.delete_branch branch s).0).at
          (c.db.delete_branch branch s).1 (kept.delete_branch branch s h);
  }

  Keeps-discard_branch :
      (rig_handle id : String) → Keeps P (discard_branch c (branch_name rig_handle id))
  unfolding discard_branch
  Keeps-discard_branch rig_handle id =
      Keeps-bind _ _
        (Keeps-attempt_callback c.close_pr (branch_name rig_handle id)
          (λ f e. kept.close_pr f e (branch_name rig_handle id)))
        (λ _. Keeps-remove_branch rig_handle id)

  pub Keeps-cleanup_branch :
      (rig_handle id : String) → Keeps P (cleanup_branch c (branch_name rig_handle id))
  unfolding cleanup_branch
  Keeps-cleanup_branch rig_handle id = record { at = (Keeps-discard_branch rig_handle id).at }

module _ {S A : Type 0} where
  pub under-ok :
      (context : String) (m : Action S A) (s s' : S) (a : A)
      → m s ≡ (ok a, s')
      → under context m s ≡ (ok a, s')
  unfolding under
  under-ok context m s s' a h = rw h refl
