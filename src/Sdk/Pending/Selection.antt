-- ===== src/Sdk/Pending/Selection.antt =====
-- Which submission a selector means.
use wasteland.Base.{
  Bool-cases, In, filter_by, filter_by-In, String, ◌≡◌, refl, sym, ◌≢◌, ◌⊎◌, inl, inr, true, List,
  [], ◌∷◌, arith, ◌==◌, eq_iff,
}
use mathlib.Core.Path.{subst}
use wasteland.Commons.Types.{ok}
use wasteland.Sdk.Pending.{
  PendingItem, UpstreamSubmissionSelector, match_by_url, single, is_from, match_upstream_submission,
}

-- The item meets every part of the selector that is set.
abbrev pub IsSelected : UpstreamSubmissionSelector → PendingItem → Type 0
IsSelected sel p =
    (sel.pr_url ≢ "" → p.pr_url ≡ sel.pr_url)
    × (sel.rig_handle ≢ "" → p.rig_handle ≡ sel.rig_handle)

match_by_url_sound :
    (sel : UpstreamSubmissionSelector) (items : List PendingItem) (p : PendingItem)
    → match_by_url sel items ≡ ok p
    → In p items × (p.pr_url ≡ sel.pr_url) × (sel.rig_handle ≢ "" → p.rig_handle ≡ sel.rig_handle)
unfolding match_by_url
match_by_url_sound sel [] p h = ground arith
match_by_url_sound sel (q ∷ qs) p h = elim (Bool-cases (q.pr_url == sel.pr_url)) [
  | inl e ↦ (
    inl (ground arith),
    ground (arith, eq_iff q.pr_url sel.pr_url),
    λ n. ground (arith, eq_iff sel.rig_handle "", eq_iff q.rig_handle sel.rig_handle),
  )
  | inr e ↦ let ih = match_by_url_sound sel qs p (ground arith) in (inr ih.0, ih.1, ih.2)
]

single_sound :
    (rig : String) (items : List PendingItem) (p : PendingItem)
    → single rig items ≡ ok p
    → items ≡ p ∷ []
unfolding single
single_sound rig [] p h = cc
single_sound rig (q ∷ []) p h = cc
single_sound rig (q ∷ r ∷ rs) p h = cc

-- The rig's only pending item.
single-of-filter :
    (rig : String) (items : List PendingItem) (p : PendingItem)
    → single rig (filter_by (is_from rig) items) ≡ ok p
    → (In p items × (is_from rig p ≡ true))
      × ((q : PendingItem) → In q items → is_from rig q ≡ true → q ≡ p)
single-of-filter rig items p h =
    let only = single_sound rig (filter_by (is_from rig) items) p h in
    (
      (filter_by-In (is_from rig) p items).0 (subst (In p) (sym only) (inl refl)),
      λ q m e. only_element q (subst (In q) only ((filter_by-In (is_from rig) q items).1 (m, e))),
    )
  where
    only_element : (q : PendingItem) → In q (p ∷ []) → q ≡ p
    only_element q (inl e) = e
    only_element q (inr m) = absurd m

-- A submission that is matched stands among the pending items, meets every part of the selector
-- that is set, and some part is set.
pub match_upstream_submission_sound :
    (items : List PendingItem) (sel : UpstreamSubmissionSelector) (p : PendingItem)
    → match_upstream_submission items sel ≡ ok p
    → In p items × IsSelected sel p × ((sel.pr_url ≢ "") ⊎ (sel.rig_handle ≢ ""))
unfolding match_upstream_submission
match_upstream_submission_sound items sel p h = elim (Bool-cases (sel.pr_url == "")) [
  | inr e ↦
      let found = match_by_url_sound sel items p (ground arith) in
      (found.0, (λ n. found.1, found.2), inl (ground (arith, eq_iff sel.pr_url "")))
  | inl e ↦
      let found = (single-of-filter sel.rig_handle items p (ground arith)).0 in
      (
        found.0,
        (λ n. absurd (n ((eq_iff sel.pr_url "").0 e)), λ n. from_rig found.1),
        inr (ground (arith, eq_iff sel.rig_handle "")),
      )
]
  where
    from_rig : is_from sel.rig_handle p ≡ true → p.rig_handle ≡ sel.rig_handle
    from_rig e = unfold is_from in (eq_iff p.rig_handle sel.rig_handle).0 e

-- Without a PR, a submission is matched only if it is the rig's only one.
pub match_upstream_submission_unique :
    (items : List PendingItem) (rig : String) (p : PendingItem)
    → match_upstream_submission items (record { rig_handle = rig; pr_url = "" }) ≡ ok p
    → (q : PendingItem) → In q items
    → q.rig_handle ≡ rig
    → q ≡ p
unfolding match_upstream_submission is_from
match_upstream_submission_unique items rig p h q m e =
    (single-of-filter rig items p (ground arith)).1 q m ((eq_iff q.rig_handle rig).1 e)
