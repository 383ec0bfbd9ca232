-- ===== src/Commons/Store.antt =====
-- internal/commons/commons.go: the operations of `WLCommons`. Each runs its statements on main in one
-- commit; an error that says that nothing changed is a conflict.
use wasteland.Base.{
  ltb, if◌then◌else◌, contains, String, ◌<>◌, Bool, ◌||◌, Option, none, some, List, [], ◌∷◌, ◌==◌,
}
use Prim.Native.String.{len, slice}
use wasteland.Commons.Types.{
  WantedItem, Stamp, WantedUpdate, Part, lit, quoted, Error, conflict, wrapped, external, Result,
  ok, err,
}
use wasteland.Commons.Db.{Db, Runtime}
use wasteland.Commons.Dml.{
  insert_wanted_dml, claim_wanted_dml, unclaim_wanted_dml, submit_completion_dml,
  accept_completion_dml, update_wanted_dml, close_wanted_dml, delete_wanted_dml,
  reject_completion_dml,
}

unfoldable pub is_nothing_to_commit : Runtime → String → Bool
is_nothing_to_commit rt text =
    contains (rt.to_lower text) "nothing to commit"
    || contains (rt.to_lower text) "sqlwrite.tocommitid"

-- How the operations report the outcome of `Exec`.
outcome : Runtime → List Part → String → Option String → Option Error
unfolding is_nothing_to_commit
outcome rt unchanged context none = none
outcome rt unchanged context (some text) =
    if is_nothing_to_commit rt text
    then some (conflict unchanged)
    else some (wrapped context (external text))

item_is_not : String → String → List Part
item_is_not wanted_id state =
    lit "wanted item " ∷ quoted wanted_id ∷ lit (" is not " <> state <> " or does not exist") ∷ []

-- A commit message carries at most 500 bytes of the reason; a cut inside a character drops it.
unfoldable pub with_reason : String → String → String
with_reason msg reason =
    if reason == ""
    then msg
    else msg <> " — " <> (if ltb 500 (len reason) then slice reason 0 500 <> "..." else reason)

module _ {S : Type 0} (rt : Runtime) (db : Db S) where
  run : Bool → String → List String → List Part → String → S → Option Error × S
  run signed msg stmts unchanged context s =
      let (text, s') = db.exec "" msg signed stmts s in (outcome rt unchanged context text, s')

  unfoldable pub claim_wanted : String → String → Bool → S → Option Error × S
  unfolding run outcome item_is_not
  claim_wanted wanted_id rig_handle signed =
      run signed ("wl claim: " <> wanted_id) (claim_wanted_dml wanted_id rig_handle ∷ [])
        (item_is_not wanted_id "open") "claim failed"

  unfoldable pub unclaim_wanted : String → Bool → S → Option Error × S
  unfolding run outcome item_is_not
  unclaim_wanted wanted_id signed =
      run signed ("wl unclaim: " <> wanted_id) (unclaim_wanted_dml wanted_id ∷ [])
        (item_is_not wanted_id "claimed") "unclaim failed"

  unfoldable pub submit_completion :
      String → String → String → String → String → Bool → S → Option Error × S
  unfolding run outcome
  submit_completion completion_id wanted_id rig_handle evidence hop_uri signed =
      run signed ("wl done: " <> wanted_id)
        (submit_completion_dml completion_id wanted_id rig_handle evidence hop_uri)
        (lit "wanted item "
          ∷ quoted wanted_id
          ∷ lit " is not claimed by "
          ∷ quoted rig_handle
          ∷ lit " or does not exist"
          ∷ [])
        "completion failed"

  unfoldable pub accept_completion :
      String → String → String → String → Stamp → Bool → S → Option Error × S
  unfolding run outcome item_is_not
  accept_completion wanted_id completion_id rig_handle hop_uri stamp signed =
      run signed ("wl accept: " <> wanted_id)
        (accept_completion_dml wanted_id completion_id rig_handle hop_uri stamp)
        (item_is_not wanted_id "in_review") "accept failed"

  unfoldable pub close_wanted : String → Bool → S → Option Error × S
  unfolding run outcome item_is_not
  close_wanted wanted_id signed =
      run signed ("wl close: " <> wanted_id) (close_wanted_dml wanted_id ∷ [])
        (item_is_not wanted_id "in_review") "close failed"

  unfoldable pub delete_wanted : String → Bool → S → Option Error × S
  unfolding run outcome item_is_not
  delete_wanted wanted_id signed =
      run signed ("wl delete: " <> wanted_id) (delete_wanted_dml wanted_id ∷ [])
        (item_is_not wanted_id "open") "delete failed"

  unfoldable pub reject_completion : String → String → String → Bool → S → Option Error × S
  unfolding run outcome item_is_not with_reason
  reject_completion wanted_id rig_handle reason signed =
      run signed (with_reason ("wl reject by " <> rig_handle <> ": " <> wanted_id) reason)
        (reject_completion_dml wanted_id) (item_is_not wanted_id "in_review") "reject failed"

  insert_checked : WantedItem → Bool → Result String → S → Option Error × S
  insert_checked item signed (err e) s = (some e, s)
  insert_checked item signed (ok dml) s =
      let (text, s') = db.exec "" ("wl post: " <> item.title) signed (dml ∷ []) s in
      (elim text [ none ↦ none | some t ↦ some (external t) ], s')

  unfoldable pub insert_wanted : String → WantedItem → Bool → S → Option Error × S
  unfolding insert_checked
  insert_wanted now item signed = insert_checked item signed (insert_wanted_dml now item)

  update_checked : String → Bool → Result String → S → Option Error × S
  update_checked wanted_id signed (err e) s = (some e, s)
  update_checked wanted_id signed (ok dml) s =
      run signed ("wl update: " <> wanted_id) (dml ∷ []) (item_is_not wanted_id "open")
        "update failed" s

  unfoldable pub update_wanted : String → WantedUpdate → Bool → S → Option Error × S
  unfolding update_checked run outcome item_is_not
  update_wanted wanted_id fields signed =
      update_checked wanted_id signed (update_wanted_dml wanted_id fields)
