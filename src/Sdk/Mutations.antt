-- ===== src/Sdk/Mutations.antt =====
-- internal/sdk/mutations.go: the operations on items. An id that the code makes from the clock is an
-- argument, as is the time of a post. The lock that makes each operation one step is not modelled,
-- nor is the cache of GitHub handles that a stamp fills afterwards.
pub mod Frame
use wasteland.Base.{
  if◌then◌else◌, concat, ℤ, String, ◌<>◌, false, not, ◌&&◌, Option, none, some, List, [], ◌∷◌, ◌==◌,
}
use wasteland.Commons.Types.{
  WantedItem, CompletionRecord, Stamp, WantedUpdate, lit, failed, conflict, Error,
}
use wasteland.Commons.Db.{Call, Runtime}
use wasteland.Commons.Dml.{
  insert_wanted_dml, claim_wanted_dml, unclaim_wanted_dml, submit_completion_dml,
  accept_completion_dml, accept_upstream_dml, close_upstream_dml, update_wanted_dml,
  close_wanted_dml, delete_wanted_dml, reject_completion_dml,
}
use wasteland.Commons.Store.{with_reason}
use wasteland.Commons.Rows.{item_status, query_completion_ref}
use wasteland.Commons.Queries.Overrides.{branch_name}
use wasteland.Sdk.Action.{Action, pure, raise, reads, lift, call, ◌>>=◌, ◌>>◌}
use wasteland.Sdk.Pending.{PendingItem, UpstreamSubmissionSelector, match_upstream_submission}
use wasteland.Sdk.Client.{Client, MutationResult}
use wasteland.Sdk.Reads.{list_pending_items, can_list_pending_items, pending_of}
use wasteland.Sdk.Branches.{cleanup_branch, under, attempt_callback}
use wasteland.Sdk.Mutate.{pr_idempotent, mutate}

pub record AcceptInput : Type 0 where
  pub quality : ℤ
  pub reliability : ℤ
  pub severity : String
  pub skill_tags : List String
  pub message : String

pub record PostInput : Type 0 where
  pub title : String
  pub description : String
  pub project : String
  pub type : String
  pub priority : ℤ
  pub effort_level : String
  pub tags : List String

-- The item that a post inserts.
posted_item : String → String → PostInput → WantedItem
posted_item rig_handle id input = record {
  id = id;
  title = input.title;
  description = input.description;
  project = input.project;
  type = input.type;
  priority = input.priority;
  tags = input.tags;
  posted_by = rig_handle;
  claimed_by = "";
  status = "";
  effort_level = input.effort_level;
  sandbox_required = false;
  created_at = "";
  updated_at = "";
}

-- The stamp that a rig issues for a completion of another.
stamp_for : String → String → String → String → AcceptInput → Stamp
stamp_for stamp_id rig_handle subject completion_id input = record {
  id = stamp_id;
  author = rig_handle;
  subject = subject;
  quality = input.quality;
  reliability = input.reliability;
  severity = input.severity;
  context_id = completion_id;
  context_type = "completion";
  skill_tags = input.skill_tags;
  message = input.message;
}

-- The error that a stamp to oneself gives, with the command that serves instead.
abbrev pub self_stamp : String → Error
self_stamp command =
    conflict (lit "cannot issue a stamp to yourself; use \"" ∷ lit command ∷ lit "\"" ∷ [])

unless_done : {S A : Type 0} → Option A → Action S A → Action S A
unless_done (some r) m = pure r
unless_done none m = m

module _ {S : Type 0} (rt : Runtime) (c : Client S) where
  -- An operation that returns at once if the branch already has its status.
  unfoldable pub idempotent : String → String → Action S MutationResult → Action S MutationResult
  unfolding unless_done
  idempotent wanted_id target m s = unless_done (pr_idempotent rt c wanted_id target s) m s

  unfoldable pub claim : String → Action S MutationResult
  claim wanted_id = idempotent wanted_id "claimed" (
      mutate rt c wanted_id ("wl claim: " <> wanted_id)
        (claim_wanted_dml wanted_id c.rig_handle ∷ []))

  unfoldable pub unclaim : String → Action S MutationResult
  unclaim wanted_id =
      idempotent wanted_id "open"
        (mutate rt c wanted_id ("wl unclaim: " <> wanted_id) (unclaim_wanted_dml wanted_id ∷ []))

  unfoldable pub done : String → String → String → Action S MutationResult
  done completion_id wanted_id evidence = idempotent wanted_id "in_review" (
      mutate rt c wanted_id ("wl done: " <> wanted_id)
        (submit_completion_dml completion_id wanted_id c.rig_handle evidence c.hop_uri))

  -- A stamp for a completion, but not for one of one's own.
  issue : String → String → AcceptInput → CompletionRecord → Action S MutationResult
  unfolding stamp_for
  issue stamp_id wanted_id input completion =
      if completion.completed_by == c.rig_handle
      then raise (self_stamp ("wl close " <> wanted_id))
      else mutate rt c wanted_id ("wl accept: " <> wanted_id) (
          accept_completion_dml wanted_id completion.id c.rig_handle c.hop_uri
            (stamp_for stamp_id c.rig_handle completion.completed_by completion.id input))

  unfoldable pub accept : String → String → AcceptInput → Action S MutationResult
  unfolding issue
  accept stamp_id wanted_id input = idempotent wanted_id "completed" (do
    completion ← under "querying completion" (lift (query_completion_ref rt c.db wanted_id ""))
    issue stamp_id wanted_id input completion)

  -- `findUpstreamSubmissionSelected`, which `acceptUpstreamLocked` repeats.
  unfoldable pub find_upstream_submission :
      String → UpstreamSubmissionSelector → Action S PendingItem
  find_upstream_submission wanted_id sel =
      if can_list_pending_items c
      then (do
        items ← under "listing pending items" (lift (list_pending_items c))
        lift (λ _. match_upstream_submission (pending_of c wanted_id items) sel))
      else raise (failed (lit "upstream PR listing not available" ∷ []))

  -- A submission is taken over only if it is in review and says who completed it.
  reviewable : PendingItem → Action S (Unit {0})
  reviewable p =
      if not (p.status == "in_review")
      then raise (failed (lit "submission is not in review" ∷ []))
      else if p.completed_by == ""
      then raise (failed (lit "submission has no completion data" ∷ []))
      else pure tt

  -- The first id is the completion's.
  adopt :
      String
      → String
      → String
      → UpstreamSubmissionSelector
      → AcceptInput
      → PendingItem
      → Action S MutationResult
  unfolding stamp_for
  adopt completion_id stamp_id wanted_id sel input p =
      if p.completed_by == c.rig_handle
      then raise (
          self_stamp (
            concat (
              "wl close-upstream "
              ∷ wanted_id
              ∷ " "
              ∷ (if sel.rig_handle == "" then p.rig_handle else sel.rig_handle)
              ∷ [])))
      else mutate rt c wanted_id ("wl accept-upstream: " <> wanted_id) (
          accept_upstream_dml wanted_id completion_id p.completed_by p.evidence c.rig_handle
            c.hop_uri (stamp_for stamp_id c.rig_handle p.completed_by completion_id input))

  unfoldable pub accept_upstream :
      String → String → String → UpstreamSubmissionSelector → AcceptInput → Action S MutationResult
  unfolding reviewable adopt
  accept_upstream completion_id stamp_id wanted_id sel input = idempotent wanted_id "completed" (do
    p ← find_upstream_submission wanted_id sel
    reviewable p
    adopt completion_id stamp_id wanted_id sel input p)

  close_with : String → Option (String → Call S) → Action S (Unit {0})
  close_with url none = raise (failed (lit "upstream PR closing not available" ∷ []))
  close_with url (some f) = call (f url)

  close_pr_of : PendingItem → Action S (Unit {0})
  unfolding close_with
  close_pr_of p =
      if p.pr_url == ""
      then raise (failed (lit "submission has no upstream PR to close" ∷ []))
      else close_with p.pr_url c.close_upstream_pr

  unfoldable pub reject_upstream : String → UpstreamSubmissionSelector → Action S (Unit {0})
  unfolding close_pr_of
  reject_upstream wanted_id sel = do p ← find_upstream_submission wanted_id sel; close_pr_of p

  -- The submission's PR is closed if it can be.
  notify : PendingItem → Action S (Unit {0})
  notify p = if p.pr_url == "" then pure tt else attempt_callback c.close_upstream_pr p.pr_url

  unfoldable pub close_upstream :
      String → String → UpstreamSubmissionSelector → Action S MutationResult
  unfolding reviewable notify
  close_upstream completion_id wanted_id sel = idempotent wanted_id "completed" (do
    p ← find_upstream_submission wanted_id sel
    reviewable p
    r ←
        mutate rt c wanted_id ("wl close-upstream: " <> wanted_id)
          (close_upstream_dml wanted_id completion_id p.completed_by p.evidence c.hop_uri)
    notify p
    pure r)

  unfoldable pub reject : String → String → Action S MutationResult
  reject wanted_id reason = idempotent wanted_id "claimed" (
      mutate rt c wanted_id (with_reason ("wl reject: " <> wanted_id) reason)
        (reject_completion_dml wanted_id))

  unfoldable pub close : String → Action S MutationResult
  close wanted_id =
      idempotent wanted_id "completed"
        (mutate rt c wanted_id ("wl close: " <> wanted_id) (close_wanted_dml wanted_id ∷ []))

  withdraw : String → Action S MutationResult
  withdraw wanted_id =
      mutate rt c wanted_id ("wl delete: " <> wanted_id) (delete_wanted_dml wanted_id ∷ [])

  -- In PR mode, of an item that main does not have.
  delete_branch_only : String → Action S MutationResult
  delete_branch_only branch = do
    cleanup_branch c branch
    pure (record { detail = none; branch = branch; hint = "branch-only item — branch deleted" })

  unfoldable pub delete : String → Action S MutationResult
  unfolding withdraw delete_branch_only
  delete wanted_id = idempotent wanted_id "withdrawn" (do
    main_status ← reads (item_status rt c.db wanted_id "main")
    if c.mode == "pr" && main_status == ""
        then delete_branch_only (branch_name c.rig_handle wanted_id)
        else withdraw wanted_id)

  unfoldable pub post : String → String → PostInput → Action S MutationResult
  unfolding posted_item
  post id now input = do
    dml ← lift (λ _. insert_wanted_dml now (posted_item c.rig_handle id input))
    mutate rt c id ("wl post: " <> id) (dml ∷ [])

  unfoldable pub update : String → WantedUpdate → Action S MutationResult
  update wanted_id fields = do
    dml ← lift (λ _. update_wanted_dml wanted_id fields)
    mutate rt c wanted_id ("wl update: " <> wanted_id) (dml ∷ [])
