-- ===== src/Sdk/Mutate/Frame.antt =====
-- What a mutation in PR mode leaves alone.
use wasteland.Base.{String, ◌≡◌, refl, ap, Option, none, some, List, ◌==◌}
use wasteland.Commons.Types.{Result}
use wasteland.Commons.Db.{Runtime}
use wasteland.Commons.Queries.Overrides.{branch_name}
use wasteland.Sdk.Action.{Keeps, keeps_rules}
use wasteland.Sdk.Branches.Frame.{KeptByBranches, Keeps-cleanup_branch}
use wasteland.Sdk.Client.{Client, DetailResult}
use wasteland.Sdk.Mutate.{
  mutate, mutate_pr, push_branch, after_push, after_exec, submit_with, auto_submit,
}

module _ {S : Type 0} {P : S → Type 0} (rt : Runtime) (c : Client S)
    (kept : KeptByBranches P c) where
  Keeps-push_branch : (branch : String) → Keeps P (push_branch rt c branch)
  unfolding push_branch
  Keeps-push_branch branch = record { at = kept.push_branch branch }

  Keeps-submit_with :
      (d : DetailResult) (branch : String) (o : Option (String → S → Result String × S))
      → ((f : String → S → Result String × S) → o ≡ some f → (s : S) → P s → P (f branch s).1)
      → Keeps P (submit_with rt c d branch o)
  unfolding submit_with
  Keeps-submit_with d branch none h = record { at = λ s k. k }
  Keeps-submit_with d branch (some f) h = record { at = h f refl }

  Keeps-auto_submit : (d : DetailResult) (branch : String) → Keeps P (auto_submit rt c d branch)
  unfolding auto_submit
  Keeps-auto_submit d branch =
      Keeps-submit_with d branch c.create_pr (λ f e. kept.create_pr f e branch)

  Keeps-after_push :
      (rig_handle id main_status : String) (d : DetailResult)
      → Keeps P (after_push rt c (branch_name rig_handle id) main_status d)
  unfolding after_push
  Keeps-after_push rig_handle id main_status d =
      search (keeps_rules, Keeps-cleanup_branch c kept, Keeps-auto_submit)

  Keeps-after_exec :
      (rig_handle id main_status : String) (d : DetailResult)
      → Keeps P (after_exec rt c (branch_name rig_handle id) main_status d)
  unfolding after_exec
  Keeps-after_exec rig_handle id main_status d =
      search (keeps_rules, Keeps-push_branch, Keeps-after_push)

  pub Keeps-mutate_pr :
      (id msg : String) (stmts : List String) → Keeps P (mutate_pr rt c id msg stmts)
  unfolding mutate_pr
  Keeps-mutate_pr id msg stmts =
      search (keeps_rules, kept.exec c.rig_handle id, Keeps-after_exec c.rig_handle id) depth 12

  pub Keeps-mutate :
      c.mode ≡ "pr" → (id msg : String) (stmts : List String) → Keeps P (mutate rt c id msg stmts)
  unfolding mutate
  Keeps-mutate h id msg stmts = rw (ap (λ m. m == "pr") h) (Keeps-mutate_pr id msg stmts)
