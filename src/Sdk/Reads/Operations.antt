-- ===== src/Sdk/Reads/Operations.antt =====
-- What may be done with a mutation branch.
use wasteland.Base.{
  Bool-cases, In, String, ◌≡◌, ap, ◌↔◌, ◌⊎◌, inl, inr, Bool, true, false, ◌||◌, arith, ◌==◌, eq_iff,
}
use wasteland.Sdk.Reads.{branch_actions_for}

-- The operation is offered in the mode: submitting only without a PR, and discarding only where the
-- item itself cannot be deleted.
abbrev pub IsOffered : String → String → Bool → String → Type 0
IsOffered mode pr_url has_delete a =
    ((a ≡ "submit_pr") × (mode ≡ "pr") × (pr_url ≡ ""))
    ⊎ ((a ≡ "apply") × (mode ≡ "wild-west"))
    ⊎ ((a ≡ "discard") × ((mode ≡ "pr") ⊎ (mode ≡ "wild-west")) × (has_delete ≡ false))

one_mode : (mode : String) → (mode == "pr") ≡ true → (mode == "wild-west") ≡ false
one_mode mode p = ap (λ m. m == "wild-west") ((eq_iff mode "pr").0 p)

ruleset mode_tests = (eq_iff, one_mode)

module _ (mode branch delta pr_url : String) (has_delete : Bool) (a : String) where
  -- An operation is offered on a branch exactly when there is a branch that changes the item and,
  -- in PR mode, it is to submit a branch that has no PR, or in the wild-west mode to apply it, or in
  -- either mode to discard it where the item cannot be deleted.
  pub branch_actions_for_iff :
      In a (branch_actions_for mode branch delta pr_url has_delete)
      ↔ (((branch == "") ≡ false) × ((delta == "") ≡ false) × IsOffered mode pr_url has_delete a)
  unfolding branch_actions_for
  branch_actions_for_iff = elim (Bool-cases (branch == "" || delta == "")) [
    | inl e ↦ rw e (grind (arith, mode_tests))
    | inr e ↦ elim (Bool-cases (mode == "pr")) [
      | inl p ↦
          rw (e, p)
            (elim (Bool-cases (pr_url == "")) [
              | inl u ↦ rw u (elim (Bool-cases has_delete) [
                | inl d ↦ rw d (grind (arith, mode_tests))
                | inr d ↦ rw d (grind (arith, mode_tests))
              ])
              | inr u ↦ rw u (elim (Bool-cases has_delete) [
                | inl d ↦ rw d (grind (arith, mode_tests))
                | inr d ↦ rw d (grind (arith, mode_tests))
              ])
            ])
      | inr p ↦ elim (Bool-cases (mode == "wild-west")) [
        | inl w ↦
            rw (e, p, w)
              (elim (Bool-cases has_delete) [
                | inl d ↦ rw d (grind (arith, mode_tests))
                | inr d ↦ rw d (grind (arith, mode_tests))
              ])
        | inr w ↦ rw (e, p, w) grind (arith, mode_tests)
      ]
    ]
  ]
