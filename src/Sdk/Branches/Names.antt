-- ===== src/Sdk/Branches/Names.antt =====
-- The item in the name of a mutation branch.
use wasteland.Base.{concat, cut, cut-append, String, ◌<>◌, ◌≡◌, refl, sym, ap, ◌∙◌, none}
use Prim.Native.Char.{Char}
use text.Mathlib.TextLemmas.{append-nil, nil-append, cons-append}
use wasteland.Commons.Queries.Overrides.{branch_name}
use wasteland.Sdk.Branches.{extract_wanted_id}

abbrev slash : Char
slash = "/"

after_slash : (t : String) → "/" <> t ≡ String.◌∷◌ slash t
after_slash t = cons-append slash "" t ∙ ap (String.◌∷◌ slash) (nil-append t)

module _ (t : String) where
  name_start : "wl/" <> t ≡ "wl" <> String.◌∷◌ slash t
  name_start =
      cons-append "w" "l/" t
      ∙ ap (String.◌∷◌ "w") (cons-append "l" "/" t ∙ ap (String.◌∷◌ "l") (after_slash t))
      ∙ sym (
          cons-append "w" "l" _
          ∙ ap (String.◌∷◌ "w") (cons-append "l" "" _ ∙ ap (String.◌∷◌ "l") (nil-append _)))

module _ (rig_handle id : String) where
  -- The item of a branch name is the item that the name was made for, if the rig's handle has no
  -- slash.
  pub extract_wanted_id-branch_name :
      cut b'/' rig_handle ≡ none → extract_wanted_id (branch_name rig_handle id) ≡ id
  unfolding extract_wanted_id branch_name concat cut
  extract_wanted_id-branch_name h =
      rw
        (
          name_start,
          cut-append b'/' slash refl _ "wl" refl,
          append-nil id,
          after_slash id,
          cut-append b'/' slash refl id rig_handle h,
        )
        refl
