-- ===== src/Sdk/Branches.antt =====
-- internal/sdk/branches.go: the operations on a mutation branch, and the settings.
pub mod Frame
pub mod Names
use wasteland.Base.{
  if◌then◌else◌, concat, cut, String, ◌<>◌, Bool, false, Option, none, some, [], ◌∷◌, ◌==◌,
}
use wasteland.Commons.Types.{lit, failed, wrapped, external, Error, ok, err}
use wasteland.Commons.Db.{Call, Db}
use wasteland.Commons.Sql.{escape_sql}
use wasteland.Sdk.Action.{Action, pure, raise, lift, call, attempt, ◌>>=◌, ◌>>◌}
use wasteland.Sdk.Client.{Client}

third_part : String → Option (String × String) → String
third_part first none = ""
third_part first (some (rig_handle, id)) = if first == "wl" then id else ""

wanted_part : Option (String × String) → String
unfolding third_part
wanted_part none = ""
wanted_part (some (first, rest)) = third_part first (cut b'/' rest)

-- `SplitN` by the slash into three parts is two cuts.
unfoldable pub extract_wanted_id : String → String
unfolding wanted_part
extract_wanted_id branch = wanted_part (cut b'/' branch)

delete_completions : String → String
delete_completions wanted_id =
    concat ("DELETE FROM completions WHERE wanted_id='" ∷ escape_sql wanted_id ∷ "'" ∷ [])

delete_wanted : String → String
delete_wanted wanted_id = concat ("DELETE FROM wanted WHERE id='" ∷ escape_sql wanted_id ∷ "'" ∷ [])

-- An action of which the error is wrapped.
unfoldable pub under : {S A : Type 0} → String → Action S A → Action S A
under context m s =
    let (r, s') = m s in (elim r [ ok a ↦ ok a | err e ↦ err (wrapped context e) ], s')

-- A callback that may be missing and whose error is dropped.
unfoldable pub attempt_callback :
    {S : Type 0} → Option (String → Call S) → String → Action S (Unit {0})
attempt_callback none text = pure tt
attempt_callback (some f) text = attempt (f text)

module _ {S : Type 0} (db : Db S) where
  unfoldable pub clear_branch_data : String → Action S (Unit {0})
  unfolding delete_completions delete_wanted
  clear_branch_data branch =
      let id = extract_wanted_id branch in
      if id == "" then pure tt else do
        under "delete completions"
            (call (db.exec branch ("wl discard: " <> id) false (delete_completions id ∷ [])))
        call (db.exec branch ("wl discard: " <> id) false (delete_wanted id ∷ []))

  -- What follows the deletion of a branch, by its error.
  after_deletion : String → Option String → Action S (Unit {0})
  after_deletion branch none = attempt (db.delete_remote_branch branch)
  after_deletion branch (some e) = clear_branch_data branch

  -- The deletion of a branch, or the clearing of its data where it cannot be deleted.
  unfoldable pub remove_branch : String → Action S (Unit {0})
  unfolding after_deletion
  remove_branch branch s = let (e, s') = db.delete_branch branch s in after_deletion branch e s'

module _ {S : Type 0} (c : Client S) where
  unfoldable pub discard_branch : String → Action S (Unit {0})
  discard_branch branch = do attempt_callback c.close_pr branch; remove_branch c.db branch

  -- It does the same and drops the error.
  unfoldable pub cleanup_branch : String → Action S (Unit {0})
  cleanup_branch branch s = (ok tt, (discard_branch branch s).1)

  unfoldable pub apply_branch : String → Action S (Unit {0})
  apply_branch branch = do
    call (c.db.merge_branch branch)
    under "delete local branch" (call (c.db.delete_branch branch))
    under "push origin main" (call c.db.push_main)

  unfoldable pub submit_pr : String → Action S String
  submit_pr branch = elim c.create_pr [
    | none ↦ raise (failed (lit "PR creation not available" ∷ []))
    | some f ↦ f branch
  ]

  unfoldable pub branch_diff : String → Action S String
  branch_diff branch = elim c.load_diff [
    | none ↦ raise (failed (lit "diff loading not available" ∷ []))
    | some f ↦ lift (f branch)
  ]

  -- The client changes only if the settings were saved.
  saved : String → Bool → Option String × S → (Option Error × Client S) × S
  saved mode signing (none, s) = ((none, record c { mode = mode; signing = signing }), s)
  saved mode signing (some e, s) = ((some (external e), c), s)

  unfoldable pub save_settings : String → Bool → S → (Option Error × Client S) × S
  unfolding saved
  save_settings mode signing s = elim c.save_config [
    | none ↦ ((some (failed (lit "settings persistence not available" ∷ [])), c), s)
    | some f ↦ saved mode signing (f mode signing s)
  ]

  unfoldable pub sync : Action S (Unit {0})
  sync = call c.db.sync
