-- ===== src/Sdk/Mutations/Frame.antt =====
-- What the client's operations leave alone in PR mode.
use wasteland.Base.{String, ◌≡◌, refl, Option, none, some}
use wasteland.Commons.Types.{WantedUpdate}
use wasteland.Commons.Db.{Call, Runtime}
use wasteland.Sdk.Action.{Action, Keeps, Keeps-if, Keeps-call, Keeps-raise, Keeps-pure, keeps_rules}
use wasteland.Sdk.Pending.{PendingItem, UpstreamSubmissionSelector}
use wasteland.Sdk.Branches.Frame.{
  KeptByBranches, Keeps-cleanup_branch, Keeps-under, Keeps-attempt_callback,
}
use wasteland.Sdk.Mutate.{pr_idempotent}
use wasteland.Sdk.Mutate.Frame.{Keeps-mutate}
use wasteland.Sdk.Client.{Client, MutationResult}
use wasteland.Sdk.Mutations.{
  AcceptInput, PostInput, idempotent, unless_done, claim, unclaim, done, accept, issue,
  accept_upstream, adopt, reviewable, find_upstream_submission, reject_upstream, close_pr_of,
  close_with, notify, close_upstream, reject, close, delete, delete_branch_only, withdraw, post,
  update,
}

module _ {S : Type 0} {P : S → Type 0} (rt : Runtime) (c : Client S) where
  Keeps-idempotent :
      (id target : String) (m : Action S MutationResult)
      → Keeps P m
      → Keeps P (idempotent rt c id target m)
  unfolding idempotent unless_done
  Keeps-idempotent id target m k = record { at = λ s. go s (pr_idempotent rt c id target s) }
    where
      go : (s : S) (o : Option MutationResult) → P s → P (unless_done o m s).1
      go s none h = k.at s h
      go s (some r) h = h

  Keeps-find_upstream_submission :
      (id : String) (sel : UpstreamSubmissionSelector)
      → Keeps P (find_upstream_submission rt c id sel)
  unfolding find_upstream_submission
  Keeps-find_upstream_submission id sel = search (keeps_rules, Keeps-under) depth 12

  Keeps-reviewable : (p : PendingItem) → Keeps P (reviewable rt c p)
  unfolding reviewable
  Keeps-reviewable p = search keeps_rules

module _ {S : Type 0} {P : S → Type 0} (rt : Runtime) (c : Client S) (kept : KeptByBranches P c)
    (in_pr_mode : c.mode ≡ "pr") where
  Keeps-close_pr_of : (p : PendingItem) → Keeps P (close_pr_of rt c p)
  unfolding close_pr_of close_with
  Keeps-close_pr_of p =
      Keeps-if _ _ _ (Keeps-raise _) (go c.close_upstream_pr kept.close_upstream_pr)
    where
      go :
          (o : Option (String → Call S))
          → ((f : String → Call S) → o ≡ some f → (url : String) (s : S) → P s → P (f url s).1)
          → Keeps P (close_with rt c p.pr_url o)
      go none h = search keeps_rules
      go (some f) h = Keeps-call (f p.pr_url) (h f refl p.pr_url)

  Keeps-notify : (p : PendingItem) → Keeps P (notify rt c p)
  unfolding notify
  Keeps-notify p = Keeps-if _ _ _ (Keeps-pure tt) (
      Keeps-attempt_callback c.close_upstream_pr p.pr_url
        (λ f e. kept.close_upstream_pr f e p.pr_url))

  -- The operations on the submissions of others.
  module _ (completion_id stamp_id id : String) (sel : UpstreamSubmissionSelector)
      (input : AcceptInput) where
    Keeps-accept_upstream : Keeps P (accept_upstream rt c completion_id stamp_id id sel input)
    unfolding accept_upstream adopt
    Keeps-accept_upstream =
        search
          (
            keeps_rules,
            Keeps-idempotent,
            Keeps-find_upstream_submission,
            Keeps-reviewable,
            Keeps-mutate rt c kept in_pr_mode,
          )
          depth 12

    Keeps-reject_upstream : Keeps P (reject_upstream rt c id sel)
    unfolding reject_upstream
    Keeps-reject_upstream =
        search (keeps_rules, Keeps-find_upstream_submission, Keeps-close_pr_of) depth 12

    Keeps-close_upstream : Keeps P (close_upstream rt c completion_id id sel)
    unfolding close_upstream
    Keeps-close_upstream =
        search
          (
            keeps_rules,
            Keeps-idempotent,
            Keeps-find_upstream_submission,
            Keeps-reviewable,
            Keeps-notify,
            Keeps-mutate rt c kept in_pr_mode,
          )
          depth 16

  Keeps-accept :
      (stamp_id id : String) (input : AcceptInput) → Keeps P (accept rt c stamp_id id input)
  unfolding accept issue
  Keeps-accept stamp_id id input =
      search (keeps_rules, Keeps-under, Keeps-idempotent, Keeps-mutate rt c kept in_pr_mode) depth
        12

  Keeps-delete : (id : String) → Keeps P (delete rt c id)
  unfolding delete delete_branch_only withdraw
  Keeps-delete id =
      search
        (
          keeps_rules,
          Keeps-idempotent,
          Keeps-cleanup_branch c kept,
          Keeps-mutate rt c kept in_pr_mode,
        )
        depth 12

  Keeps-post : (id now : String) (input : PostInput) → Keeps P (post rt c id now input)
  unfolding post
  Keeps-post id now input = search (keeps_rules, Keeps-mutate rt c kept in_pr_mode)

  Keeps-update : (id : String) (fields : WantedUpdate) → Keeps P (update rt c id fields)
  unfolding update
  Keeps-update id fields = search (keeps_rules, Keeps-mutate rt c kept in_pr_mode)

  -- Operations that are one mutation each.
  module _ (id text text2 : String) where
    single-Keeps :
        Keeps P (claim rt c id)
        × Keeps P (unclaim rt c id)
        × Keeps P (done rt c text id text2)
        × Keeps P (reject rt c id text)
        × Keeps P (close rt c id)
    unfolding claim unclaim done reject close
    single-Keeps = search (Keeps-idempotent, Keeps-mutate rt c kept in_pr_mode)

  module _ (id text text2 now : String) (sel : UpstreamSubmissionSelector) (input : AcceptInput)
      (fields : WantedUpdate) (new : PostInput) where
    -- In PR mode none of the twelve mutations of items (claim, unclaim, done, reject, close, accept,
    -- delete, post, update, accept_upstream, close_upstream, reject_upstream) changes what a write
    -- to a mutation branch, its push or its deletion, and the callbacks on pull requests leave
    -- alone, such as the data on main: each keeps every predicate of the state that these keep,
    -- whether it returns or fails. Applying a branch and a sync, which do write to main, are not
    -- among them.
    pub operations-Keeps :
        (Keeps P (claim rt c id)
          × Keeps P (unclaim rt c id)
          × Keeps P (done rt c text id text2)
          × Keeps P (reject rt c id text)
          × Keeps P (close rt c id))
        × Keeps P (accept rt c text id input)
        × Keeps P (delete rt c id)
        × Keeps P (post rt c id now new)
        × Keeps P (update rt c id fields)
        × Keeps P (accept_upstream rt c text text2 id sel input)
        × Keeps P (close_upstream rt c text id sel)
        × Keeps P (reject_upstream rt c id sel)
    operations-Keeps = (
      single-Keeps id text text2,
      Keeps-accept text id input,
      Keeps-delete id,
      Keeps-post id now new,
      Keeps-update id fields,
      Keeps-accept_upstream text text2 id sel input,
      Keeps-close_upstream text text2 id sel input,
      Keeps-reject_upstream text text2 id sel input,
    )
