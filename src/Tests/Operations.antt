-- ===== src/Tests/Operations.antt =====
-- Examples on the client and on pending submissions.
use wasteland.Base.{
  In, filter_by, member, replace_char, trim_space, concat, split_char, cut, pos, negsuc, String,
  ◌≡◌, refl, ◌≢◌, ◌↔◌, ◌⊎◌, false, some, List, [], ◌∷◌,
}
use wasteland.Commons.Types.{ok}
use wasteland.Commons.Rows.{query_full_detail_ref, parse_simple_csv, full_detail_of_row}
use wasteland.Commons.Sql.{escape_sql}
use wasteland.Sdk.Reads.{detail_wild_west}
use wasteland.Commons.Lifecycle.{accept}
use wasteland.Commons.Queries.Overrides.{branch_name}
use wasteland.Sdk.Action.{Keeps, call, ◌>>=◌}
use wasteland.Sdk.Pending.{
  PendingItem, UpstreamSubmissionSelector, match_upstream_submission, is_from,
  with_upstream_submission_actions,
}
use wasteland.Sdk.Pending.Selection.{IsSelected, match_upstream_submission_sound}
use wasteland.Sdk.Pending.Actions.{IsReviewer, IsAdded, with_upstream_submission_actions_iff}
use wasteland.Sdk.Client.{MutationResult}
use wasteland.Sdk.Branches.{extract_wanted_id}
use wasteland.Sdk.Branches.Names.{extract_wanted_id-branch_name}
use wasteland.Sdk.Branches.Frame.{KeptByBranches}
use wasteland.Sdk.Mutate.{mutate_wild_west}
use wasteland.Sdk.Mutate.Outcomes.{IsOnMain, mutate_wild_west-IsOnMain}
use wasteland.Sdk.Mutations.{AcceptInput, claim}
use wasteland.Sdk.Mutations.Frame.{operations-Keeps}
use wasteland.Tests.Samples.{rt, client, item, pending}

abbrev alices : PendingItem
alices = pending "alice" "in_review" "https://d/pulls/1"

abbrev carols : PendingItem
carols = pending "carol" "claimed" "https://d/pulls/2"

abbrev by_rig : UpstreamSubmissionSelector
by_rig = record { rig_handle = "alice"; pr_url = "" }

found : match_upstream_submission (carols ∷ alices ∷ []) by_rig ≡ ok alices
unfolding match_upstream_submission filter_by is_from
found = refl

match_upstream_submission_sound_example :
    In alices (carols ∷ alices ∷ [])
    × IsSelected by_rig alices
    × ((by_rig.pr_url ≢ "") ⊎ (by_rig.rig_handle ≢ ""))
match_upstream_submission_sound_example =
    match_upstream_submission_sound (carols ∷ alices ∷ []) by_rig alices found

with_upstream_submission_actions_iff_example :
    In accept
      (with_upstream_submission_actions "bob" (some (item "open" "")) (carols ∷ alices ∷ []) [])
    ↔ (In accept [] ⊎ (IsReviewer "bob" (item "open" "") × IsAdded (carols ∷ alices ∷ []) accept))
with_upstream_submission_actions_iff_example =
    with_upstream_submission_actions_iff "bob" (item "open" "") carols (alices ∷ []) [] accept

extract_wanted_id-branch_name_example : extract_wanted_id (branch_name "alice" "w/1") ≡ "w/1"
unfolding cut
extract_wanted_id-branch_name_example = extract_wanted_id-branch_name "alice" "w/1" refl

-- A mutation on main, and what it returns.
mutated :
    (r : MutationResult) × (mutate_wild_west rt (client "wild-west") "w1" "msg" ("UPDATE" ∷ []) []
      ≡ (ok r, "push" ∷ "exec" ∷ []))
unfolding mutate_wild_west call ◌>>=◌ detail_wild_west query_full_detail_ref parse_simple_csv
    escape_sql trim_space full_detail_of_row split_char concat replace_char
mutated = (_, refl)

mutate_wild_west-IsOnMain_example :
    IsOnMain rt (client "wild-west") "w1" "msg" ("UPDATE" ∷ []) [] mutated.0 ("push" ∷ "exec" ∷ [])
mutate_wild_west-IsOnMain_example =
    mutate_wild_west-IsOnMain rt (client "wild-west") "w1" "msg" ("UPDATE" ∷ []) [] mutated.0
      ("push" ∷ "exec" ∷ []) mutated.1

-- A log in which nothing was pushed to main.
abbrev NoPush : List String → Type 0
NoPush log = member "push" log ≡ false

kept : KeptByBranches NoPush (client "pr")
kept = record {
  exec = λ rig_handle id msg signed stmts s h. h;
  push_branch = λ branch s h. h;
  delete_branch = λ branch s h. h;
  delete_remote_branch = λ branch s h. h;
  create_pr = λ f e branch s h. cc;
  close_pr = λ f e branch s h. cc;
  close_upstream_pr = λ f e url s h. cc;
}

abbrev input : AcceptInput
input = record {
  quality = pos 3;
  reliability = pos 3;
  severity = "leaf";
  skill_tags = [];
  message = "";
}

operations-Keeps_example : Keeps NoPush (claim rt (client "pr") "w1")
operations-Keeps_example =
    (operations-Keeps {P = NoPush} rt (client "pr") kept refl "w1" "c1" "s1" "now" by_rig input
      (record {
        title = "New";
        description = "";
        project = "";
        type = "";
        priority = negsuc 0;
        effort_level = "";
        tags = [];
        tags_set = false;
      })
      (record {
        title = "New";
        description = "";
        project = "";
        type = "";
        priority = pos 2;
        effort_level = "";
        tags = [];
      })).0.0
