-- ===== src/Api/RateLimit/Ready.antt =====
-- internal/api/ratelimit.go: when a request passes, from the bucket of its client.
use wasteland.Base.{
  ltb, Bool-cases, ℕ, ◌+◌, ◌-◌, ◌*◌, ◌/◌, ◌≤◌, ◌<◌, ◌≡◌, refl, inl, inr, true, false, Option, none,
  some, arith,
}
use native.Mathlib.Nat.{le-div_iff_mul-le, mul-le-mul}
use wasteland.Api.RateLimit.{Bucket, RateLimiter, refill, take, meter, ten_minutes}
use wasteland.Api.RateLimit.Window.{swept}

-- Nothing was added to the bucket since.
unfoldable pub Waiting : ℕ → Option Bucket → Type 0
Waiting t none = Unit
Waiting t (some b) = b.last_fill ≤ t

module _ (rl : RateLimiter) (now : ℕ) (b : Bucket) (full : 1 ≤ rl.burst) where
  take-of_refill :
      ltb 0 ((now - b.last_fill) / rl.interval * rl.rate) ≡ true → (take (refill rl now b)).0 ≡ true
  unfolding take refill
  take-of_refill e = rw e (ground arith)

  take-same :
      ltb 0 ((now - b.last_fill) / rl.interval * rl.rate) ≡ false
      → (take (refill rl now b)).1.last_fill ≡ b.last_fill
  unfolding take refill
  take-same e = rw e (ground arith)

module _ (rl : RateLimiter) (t now : ℕ) (full : 1 ≤ rl.burst) where
  pub meter-Waiting :
      (o : Option Bucket)
      → Waiting t o
      → (meter rl now o).0 ≡ false
      → Waiting t (some (meter rl now o).1)
  unfolding Waiting meter
  meter-Waiting none h refused = cc
  meter-Waiting (some b) h refused =
      elim (Bool-cases (ltb 0 ((now - b.last_fill) / rl.interval * rl.rate))) [
        | inl e ↦ cc (take-of_refill rl now b full e)
        | inr e ↦ omega (arith, take-same rl now b full e)
      ]

  pub swept-Waiting : (o : Option Bucket) → Waiting t o → Waiting t (swept now o)
  unfolding Waiting swept
  swept-Waiting none h = tt
  swept-Waiting (some b) h = elim (Bool-cases (ltb (b.last_fill + ten_minutes) now)) [
    | inl e ↦ rw e tt
    | inr e ↦ rw e h
  ]

  pub meter-passes :
      1 ≤ rl.rate
      → 0 < rl.interval
      → t + rl.interval ≤ now
      → (o : Option Bucket) → Waiting t o
      → (meter rl now o).0 ≡ true
  unfolding Waiting meter
  meter-passes r i late none h = refl
  meter-passes r i late (some b) h =
      let one : 1 ≤ (now - b.last_fill) / rl.interval =
        (le-div_iff_mul-le {x = 1} {y = now - b.last_fill} i).1 (omega arith) in
      take-of_refill rl now b full (ground (arith, mul-le-mul one r))
