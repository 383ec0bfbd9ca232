-- ===== src/Sdk/Mutate.antt =====
-- internal/sdk/mutate.go: a mutation of an item, on main in the wild-west mode and on the rig's
-- branch in PR mode.
pub mod Frame
pub mod Outcomes
pub mod Landed
use wasteland.Base.{
  if◌then◌else◌, trim_space, String, ◌<>◌, Bool, true, false, not, ◌&&◌, ◌||◌, Option, none, some,
  List, [], ◌∷◌, ◌==◌,
}
use wasteland.Commons.Types.{
  WantedItem, CompletionRecord, Stamp, lit, failed, wrapped, external, Result, ok, err,
}
use wasteland.Commons.Db.{Runtime}
use wasteland.Commons.Lifecycle.{Transition, available_transitions, compute_delta}
use wasteland.Commons.Rows.{item_status, query_full_detail_ref}
use wasteland.Commons.Queries.Overrides.{branch_name}
use wasteland.Sdk.Action.{Action, pure, reads, lift, call, ◌>>=◌, ◌>>◌}
use wasteland.Sdk.Client.{Client, Detail, DetailResult, MutationResult}
use wasteland.Sdk.Reads.{url_of, compute_branch_actions, detail_wild_west}
use wasteland.Sdk.Branches.{cleanup_branch}

abbrev saved_locally : String
saved_locally = "changes saved locally (--no-push)"

-- The branch's detail, or main's where the branch has none.
item_or_main :
    Result Detail → Result Detail → Option WantedItem × Option CompletionRecord × Option Stamp
item_or_main (ok (item, completion, stamp)) main = (some item, completion, stamp)
item_or_main (err e) (ok (item, completion, stamp)) = (some item, completion, stamp)
item_or_main (err e) (err _) = (none, none, none)

actions_and_delta : String → String → Option WantedItem → List Transition × String
actions_and_delta rig_handle main_status none = ([], "")
actions_and_delta rig_handle main_status (some item) =
    (available_transitions (some item) rig_handle, compute_delta main_status item.status true)

module _ {S : Type 0} (rt : Runtime) (c : Client S) where
  result_of_detail :
      String → String → Option WantedItem × Option CompletionRecord × Option Stamp → DetailResult
  unfolding actions_and_delta
  result_of_detail branch main_status (item, completion, stamp) =
      let (actions, delta) = actions_and_delta c.rig_handle main_status item in
      let base : DetailResult = record {
        item = item;
        completion = completion;
        stamp = stamp;
        branch = branch;
        branch_url = url_of c branch;
        main_status = main_status;
        pr_url = "";
        delta = delta;
        actions = actions;
        branch_actions = [];
        upstream_prs = [];
        pending_read_incomplete = false;
      } in
      record base { branch_actions = compute_branch_actions c base }

  -- `mutatePRResult`: the detail and the branch of the result, which has no hint yet.
  unfoldable pub pr_detail : String → String → String → S → DetailResult
  unfolding result_of_detail item_or_main
  pr_detail wanted_id branch main_status s = result_of_detail branch main_status (
      item_or_main (query_full_detail_ref rt c.db wanted_id branch s)
        (query_full_detail_ref rt c.db wanted_id "" s))

  -- The result that `prIdempotent` returns in place of the mutation, if it does.
  unfoldable pub pr_idempotent : String → String → S → Option MutationResult
  unfolding pr_detail
  pr_idempotent wanted_id target s =
      let branch = branch_name c.rig_handle wanted_id in
      let branch_status = item_status rt c.db wanted_id branch s in
      let main_status = item_status rt c.db wanted_id "main" s in
      if not (c.mode == "pr") || not (branch_status == target) || (branch_status == main_status)
      then none
      else some (record {
        detail = some (pr_detail wanted_id branch main_status s);
        branch = branch;
        hint = "";
      })

  push_outcome : Option String × String → Result (Unit {0})
  push_outcome (none, log) = ok tt
  push_outcome (some e, log) =
      if not (trim_space log == "")
      then err (failed (lit (trim_space log) ∷ []))
      else err (wrapped "push branch" (external e))

  push_branch : String → Action S (Unit {0})
  unfolding push_outcome
  push_branch branch s = let (r, s') = c.db.push_branch branch s in (push_outcome r, s')

  -- Whether the branch now has the item as main has it.
  is_reverted : String → Option WantedItem → Bool
  is_reverted main_status none = false
  is_reverted main_status (some item) = not (main_status == "") && item.status == main_status

  reverted_result : DetailResult → MutationResult
  reverted_result d = record {
    detail = some (record d {
      branch = "";
      branch_url = "";
      main_status = "";
      delta = "";
      pr_url = "";
      branch_actions = [];
    });
    branch = "";
    hint = "reverted — branch cleaned up";
  }

  -- The result with the PR that was created for it, or with the reason why none was.
  created : DetailResult → String → Result String → MutationResult
  created d branch (ok url) =
      let with_url = record d { pr_url = url } in
      record {
        detail = some (record with_url { branch_actions = compute_branch_actions c with_url });
        branch = branch;
        hint = "";
      }
  created d branch (err e) = record {
    detail = some d;
    branch = branch;
    hint = "PR creation failed: " <> rt.error_text e;
  }

  submit_with :
      DetailResult → String → Option (String → S → Result String × S) → Action S MutationResult
  unfolding created
  submit_with d branch none s = (ok (record { detail = some d; branch = branch; hint = "" }), s)
  submit_with d branch (some f) s = let (r, s') = f branch s in (ok (created d branch r), s')

  -- The branch is not empty here and the detail has no PR yet.
  auto_submit : DetailResult → String → Action S MutationResult
  unfolding submit_with
  auto_submit d branch = submit_with d branch c.create_pr

  -- What follows the push of the branch.
  after_push : String → String → DetailResult → Action S MutationResult
  unfolding is_reverted reverted_result auto_submit
  after_push branch main_status d =
      if is_reverted main_status d.item
      then (do cleanup_branch c branch; pure (reverted_result d))
      else auto_submit d branch

  after_exec : String → String → DetailResult → Action S MutationResult
  unfolding push_branch after_push
  after_exec branch main_status d =
      if c.no_push
      then pure (record { detail = some d; branch = branch; hint = saved_locally })
      else (do push_branch branch; after_push branch main_status d)

  unfoldable pub mutate_pr : String → String → List String → Action S MutationResult
  unfolding after_exec pr_detail
  mutate_pr wanted_id msg stmts = do
    main_status ← reads (item_status rt c.db wanted_id "main")
    call (c.db.exec (branch_name c.rig_handle wanted_id) msg c.signing stmts)
    d ← reads (pr_detail wanted_id (branch_name c.rig_handle wanted_id) main_status)
    after_exec (branch_name c.rig_handle wanted_id) main_status d

  -- The check before a write to main changes nothing.
  check_wild_west : Action S (Unit {0})
  check_wild_west s = (elim (c.db.can_wild_west s) [ none ↦ ok tt | some e ↦ err (external e) ], s)

  push_if_wanted : Action S (Unit {0})
  push_if_wanted = if c.no_push then pure tt else call c.db.push_with_sync

  unfoldable pub mutate_wild_west : String → String → List String → Action S MutationResult
  unfolding check_wild_west push_if_wanted
  mutate_wild_west wanted_id msg stmts = do
    check_wild_west
    call (c.db.exec "" msg c.signing stmts)
    push_if_wanted
    d ← lift (detail_wild_west rt c wanted_id)
    pure (record { detail = some d; branch = ""; hint = if c.no_push then saved_locally else "" })

  unfoldable pub mutate : String → String → List String → Action S MutationResult
  mutate wanted_id msg stmts =
      if c.mode == "pr" then mutate_pr wanted_id msg stmts else mutate_wild_west wanted_id msg stmts
