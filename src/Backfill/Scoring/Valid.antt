-- ===== src/Backfill/Scoring/Valid.antt =====
-- tools/githubprbackfill/scoring.go: the scores that the formula gives.
use wasteland.Base.{
  if◌then◌else◌, ℕ, ◌≤◌, String, ◌≡◌, refl, Bool, true, false, ◌||◌, none, arith, ◌==◌,
}
use wasteland.Backfill.Scoring.{
  Signals, min_of, clamp, quality_of, creativity_of, severity_of, base_confidence, confidence_of,
  score_pr, validate_score, deduct, deductions, low_signal,
}

clamp-bounds : (v lo hi : ℕ) → lo ≤ hi → (lo ≤ clamp v lo hi) × (clamp v lo hi ≤ hi)
unfolding clamp min_of
clamp-bounds v lo hi h = ground arith

creativity-bounds : (s : Signals) → (1 ≤ creativity_of s) × (creativity_of s ≤ 5)
unfolding creativity_of
creativity-bounds s = ground arith

known : String → Bool
known severity = severity == "leaf" || severity == "branch" || severity == "root"

choose-known :
    (a b c : Bool)
    → known (if a then "leaf" else if b then "root" else if c then "branch" else "leaf") ≡ true
unfolding known
choose-known true b c = refl
choose-known false true c = refl
choose-known false false true = refl
choose-known false false false = refl

severity-known : (f : String → String) (t : String) (s : Signals) → known (severity_of f t s) ≡ true
unfolding severity_of
severity-known f t s = choose-known s.no_effective_authored_files _ _

base-le : (source : String) → base_confidence source ≤ 55
unfolding base_confidence
base-le source = ground arith

confidence-le : (s : Signals) → confidence_of s ≤ 55
unfolding confidence_of min_of
confidence-le s = ground (arith, base-le s.identity_source)

quality-bounds : (s : Signals) → (3 ≤ quality_of s) × (quality_of s ≤ 4)
unfolding quality_of
quality-bounds s =
    clamp-bounds (deduct (if low_signal s then min_of 4 3 else 4) (deductions s)) 3 4 (omega arith)

-- Every score of the formula is valid: the three grades are from 1 to 5, the severity is one of the
-- three, and the confidence is at most 1; and the quality is 3 or 4.
pub validate_score-score_pr :
    (to_lower : String → String) (pr_title : String) (s : Signals)
    → (validate_score (score_pr to_lower pr_title s) ≡ none)
      × (3 ≤ quality_of s)
      × (quality_of s ≤ 4)
unfolding validate_score score_pr known
validate_score-score_pr to_lower pr_title s =
    let (least, most) = quality-bounds s in
    (
      ground (arith, creativity-bounds s, confidence-le s, severity-known to_lower pr_title s),
      least,
      most,
    )
