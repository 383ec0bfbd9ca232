-- ===== src/Sdk/Mutate/Landed.antt =====
-- What a mutation in PR mode that succeeds has done.
use wasteland.Base.{String, ◌≡◌, ◌≢◌, true, false, Option, none, some, List}
use wasteland.Commons.Types.{WantedItem}
use wasteland.Commons.Db.{Runtime}
use wasteland.Commons.Queries.Overrides.{branch_name}
use wasteland.Sdk.Action.{Action}
use wasteland.Sdk.Client.{Client, DetailResult, MutationResult}
use wasteland.Sdk.Mutate.{push_branch, pr_detail}
use wasteland.Commons.Rows.{item_status}
use wasteland.Sdk.Branches.{cleanup_branch}

-- The item has the status that main has it with.
abbrev pub IsReverted : String → Option WantedItem → Type 0
IsReverted main_status item =
    (i : WantedItem) × (item ≡ some i) × (main_status ≢ "") × (i.status ≡ main_status)

module _ {S : Type 0} (rt : Runtime) (c : Client S) (branch main_status : String) (d : DetailResult)
    (r : MutationResult) (s s' : S) where
  -- Once the branch is pushed: the result names no branch, which is cleaned up, if the item is back
  -- as it is on main; or it names the branch, of which a PR may have been opened.
  pub data Pushed : Type 0 where
    reverted :
        IsReverted main_status d.item → r.branch ≡ "" → s' ≡ (cleanup_branch c branch s).1 → Pushed
    proposed :
        ¬ IsReverted main_status d.item
        → r.branch ≡ branch
        → s' ≡ (elim c.create_pr [ none ↦ s | some f ↦ (f branch s).1 ])
        → Pushed

module _ {S : Type 0} (rt : Runtime) (c : Client S) (branch main_status : String) (d : DetailResult)
    (r : MutationResult) (s s' : S) where
  -- Once the statements are committed: they stay where they are if pushing is off, or else the branch
  -- is pushed.
  pub data Finished : Type 0 where
    unpushed : c.no_push ≡ true → r.branch ≡ branch → s' ≡ s → Finished
    sent :
        c.no_push ≡ false
        → (c.db.push_branch branch s).0.0 ≡ none
        → Pushed rt c branch main_status d r (c.db.push_branch branch s).1 s'
        → Finished

module _ {S : Type 0} (rt : Runtime) (c : Client S) (id msg : String) (stmts : List String)
    (s : S) where
  abbrev pub branch : String
  branch = branch_name c.rig_handle id

  -- The state once the statements are committed on the branch.
  abbrev pub committed : S
  committed = (c.db.exec branch msg c.signing stmts s).1

  -- What a success on the branch means.
  pub record IsLanded (r : MutationResult) (s' : S) : Type 0 where
    pub executed : (c.db.exec branch msg c.signing stmts s).0 ≡ none
    pub finished :
        Finished rt c branch
          (item_status rt c.db id "main" s)
          (pr_detail rt c id branch (item_status rt c.db id "main" s) committed)
          r
          committed
          s'
