-- ===== src/Tests/Samples.antt =====
-- A small board for the examples. The state is a log of what was done. The rig `alice` has claimed
-- `w1` on her branch; on main `w1` is open. The CSV reader splits at line ends and commas.
use wasteland.Base.{
  if◌then◌else◌, concat, split_char, pos, negsuc, String, ◌≡◌, ◌≢◌, false, none, some, List, [],
  ◌∷◌, arith, ◌==◌, eq_iff,
}
use text.Mathlib.Text.{starts_with}
use wasteland.Commons.Types.{WantedItem, ok}
use wasteland.Commons.Db.{Call, Db, Runtime}
use wasteland.Commons.Queries.Browse.{BrowseFilter, sort_priority}
use wasteland.Sdk.Pending.{PendingItem}
use wasteland.Sdk.Client.{Client}

abbrev fields : List String → List (List String)
fields [] = []
fields (l ∷ ls) = split_char b',' l ∷ fields ls

abbrev pub rt : Runtime
rt = record {
  to_lower = λ s. s;
  read_all = λ s. some (fields (split_char 10 s));
  atoi = λ s. pos 0;
  scan_int = λ s. none;
  unmarshal_tags = λ s. none;
  unmarshal_valence = λ s. (pos 0, pos 0);
  is_context_error = λ e. false;
  error_text = λ e. "";
}

-- The status on a branch, or on main.
abbrev status : String → String
status ref = if ref == "wl/alice/w1" then "claimed" else "open"

-- The answer to a query for the status alone, for the completion, or for more of the item.
abbrev rows : String → String → String
rows query ref =
    if starts_with query "SELECT status FROM wanted"
    then concat ("status\n" ∷ status ref ∷ [])
    else if starts_with query "SELECT id, wanted_id"
    then "id,wanted_id,completed_by\nc1,w1,alice"
    else concat ("id,status,claimed_by\nw1," ∷ status ref ∷ ",alice" ∷ [])

abbrev add : String → Call (List String)
add line log = (none, line ∷ log)

abbrev pub db : Db (List String)
db = record {
  query = λ sql ref log. ok (rows sql ref);
  exec = λ ref msg signed stmts. add "exec";
  branches = λ prefix log. ok ("wl/alice/w1" ∷ []);
  delete_branch = λ b. add "delete branch";
  push_branch = λ b log. ((none, ""), "push branch" ∷ log);
  push_main = add "push main";
  sync = add "sync";
  merge_branch = λ b. add "merge";
  delete_remote_branch = λ b. add "delete remote branch";
  push_with_sync = add "push";
  can_wild_west = λ log. none;
}

abbrev pub client : String → Client (List String)
client mode = record {
  db = db;
  rig_handle = "alice";
  upstream = "";
  mode = mode;
  signing = false;
  hop_uri = "";
  no_push = false;
  best_effort_pending_reads = false;
  create_pr = none;
  check_pr = none;
  check_pr_context = none;
  close_pr = none;
  load_diff = none;
  load_pending_item = none;
  load_pending_item_context = none;
  load_pending_detail = none;
  load_pending_detail_context = none;
  save_config = none;
  list_pending_items = none;
  list_pending_items_context = none;
  branch_url = none;
  close_upstream_pr = none;
}

abbrev pub item : String → String → WantedItem
item status claimed_by = record {
  id = "w1";
  title = "Fix it";
  description = "";
  project = "";
  type = "bug";
  priority = pos 2;
  tags = [];
  posted_by = "bob";
  claimed_by = claimed_by;
  status = status;
  effort_level = "medium";
  sandbox_required = false;
  created_at = "";
  updated_at = "";
}

abbrev pub pending : String → String → String → PendingItem
pending rig status url = record {
  rig_handle = rig;
  status = status;
  claimed_by = rig;
  branch = "";
  branch_url = "";
  pr_url = url;
  fork_owner = rig;
  completed_by = rig;
  evidence = "";
}

abbrev pub open_filter : BrowseFilter
open_filter = record {
  status = "open";
  project = "";
  type = "";
  priority = negsuc 0;
  limit = pos 0;
  posted_by = "";
  claimed_by = "";
  search = "";
  my_items = "";
  sort = sort_priority;
  view = "all";
  long = false;
}

pub text_ne : (a b : String) → (a == b) ≡ false → a ≢ b
text_ne a b h = λ e. ground (arith, eq_iff a b)
