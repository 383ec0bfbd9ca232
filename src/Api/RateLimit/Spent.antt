-- ===== src/Api/RateLimit/Spent.antt =====
-- internal/api/ratelimit.go: what a client has used of its tokens since a time, read off its bucket.
use wasteland.Base.{
  ltb, if◌then◌else◌, Bool-cases, ℕ, zero, suc, ◌+◌, ◌-◌, ◌*◌, ◌/◌, ◌≤◌, ◌<◌, ◌≡◌, ap, ◌⊎◌, inl,
  inr, Option, none, some, arith,
}
use native.Mathlib.Nat.{div-mul-le_self, lt-div-mul-add, mul-le-mul_left}
use wasteland.Api.RateLimit.{Bucket, RateLimiter, refill, take, meter, ten_minutes}
use wasteland.Api.RateLimit.Window.{tally, swept}

-- The limits under which a bucket that is dropped would be full again.
unfoldable pub Limits : RateLimiter → Type 0
Limits rl = (1 ≤ rl.burst) × (0 < rl.interval) × (rl.burst ≤ rl.rate * (ten_minutes / rl.interval))

module _ (rl : RateLimiter) (t₀ : ℕ) where
  -- The intervals `m` since the start pay for what was used and for what the bucket holds.
  unfoldable pub Paid : ℕ → Bucket → Type 0
  Paid n b =
      (m : ℕ) × (n + b.tokens ≤ rl.burst + rl.rate * m)
      × (m * rl.interval + t₀ ≤ b.last_fill + rl.interval)

  unfoldable pub Spent : ℕ → ℕ → Option Bucket → Type 0
  unfolding Paid
  Spent now n none = (m : ℕ) × (n ≤ rl.rate * m) × (m * rl.interval + t₀ ≤ now + rl.interval)
  Spent now n (some b) = (b.tokens ≤ rl.burst) × (b.last_fill ≤ now) × ((n ≡ 0) ⊎ Paid n b)

pub rate-pos : (rate m burst : ℕ) → 1 ≤ burst → burst ≤ rate * m → 1 ≤ rate
rate-pos zero m burst h k = omega arith
rate-pos (suc rate) m burst h k = omega arith

module _ (rl : RateLimiter) (t₀ now n : ℕ) (limits : Limits rl) (start : t₀ ≤ now) where
  -- With `q` whole intervals since the last fill.
  module _ (b : Bucket) (q : ℕ) (whole : q * rl.interval ≤ now - b.last_fill)
      (part : now - b.last_fill < q * rl.interval + rl.interval) (past : b.last_fill ≤ now) where
    added :
        (n ≡ 0) ⊎ Paid rl t₀ n b
        → Paid rl t₀ n (record {
          tokens =
              if ltb rl.burst (b.tokens + q * rl.rate) then rl.burst else b.tokens + q * rl.rate;
          last_fill = b.last_fill + q * rl.interval;
        })
    unfolding Paid
    added (inl e) = (0, ground arith, omega arith)
    added (inr (m, used, time)) = (m + q, ground arith, omega arith)

    unchanged : (n ≡ 0) ⊎ Paid rl t₀ n b → b.tokens ≤ rl.burst → q ≡ 0 → Paid rl t₀ n b
    unfolding Paid
    unchanged (inl e) small none_added =
        (0, omega arith, omega (arith, ap (λ x. x * rl.interval) none_added))
    unchanged (inr paid) small none_added = paid

  refill-Paid :
      (b : Bucket)
      → b.tokens ≤ rl.burst
      → b.last_fill ≤ now
      → ((n ≡ 0) ⊎ Paid rl t₀ n b)
      → ((refill rl now b).tokens ≤ rl.burst)
        × ((refill rl now b).last_fill ≤ now)
        × Paid rl t₀ n (refill rl now b)
  unfolding refill Limits
  refill-Paid b small past paid = elim (Bool-cases (ltb 0 (q * rl.rate))) [
    | inl e ↦ rw e (ground arith, omega (arith, whole, past), added b q whole part past paid)
    | inr e ↦
        rw e (small, past, unchanged b q whole part past paid small (ground (arith, no_interval)))
  ]
    where
      q : ℕ
      q = (now - b.last_fill) / rl.interval

      whole : q * rl.interval ≤ now - b.last_fill
      whole = div-mul-le_self (now - b.last_fill) rl.interval

      part : now - b.last_fill < q * rl.interval + rl.interval
      part = lt-div-mul-add limits.1

      no_interval : q * rl.rate ≡ 0 → q ≡ 0
      no_interval e = omega (
        arith,
        mul-le-mul_left q (rate-pos rl.rate (ten_minutes / rl.interval) rl.burst limits.0 limits.2),
      )

  take-Spent :
      (b : Bucket)
      → b.tokens ≤ rl.burst
      → b.last_fill ≤ now
      → Paid rl t₀ n b
      → Spent rl t₀ now (n + tally (take b).0) (some (take b).1)
  unfolding Spent take tally Paid
  take-Spent b small past (m, used, time) = elim (Bool-cases (ltb 0 b.tokens)) [
    | inl e ↦ rw e (omega arith, past, inr (m, ground arith, time))
    | inr e ↦ rw e (small, past, inr (m, omega arith, time))
  ]

  pub meter-Spent :
      (o : Option Bucket)
      → Spent rl t₀ now n o
      → Spent rl t₀ now (n + tally (meter rl now o).0) (some (meter rl now o).1)
  unfolding Spent meter tally Paid Limits
  meter-Spent none (m, used, time) = (omega arith, omega arith, inr (m, omega arith, time))
  meter-Spent (some b) (small, past, paid) =
      let r = refill-Paid b small past paid in take-Spent (refill rl now b) r.0 r.1 r.2

module _ (rl : RateLimiter) (t₀ t now n : ℕ) (later : t ≤ now) where
  -- Time passes.
  pub wait-Spent : (o : Option Bucket) → Spent rl t₀ t n o → Spent rl t₀ now n o
  unfolding Spent
  wait-Spent none (m, used, time) = (m, used, omega arith)
  wait-Spent (some b) (small, past, paid) = (small, omega arith, paid)

  dropped-Spent :
      (b : Bucket)
      → Limits rl
      → t₀ ≤ t
      → b.last_fill + ten_minutes < now
      → (n ≡ 0) ⊎ Paid rl t₀ n b
      → Spent rl t₀ now n none
  unfolding Spent Paid Limits
  dropped-Spent b limits start stale (inl e) = (0, omega arith, omega arith)
  dropped-Spent b limits start stale (inr (m, used, time)) = (
    m + ten_minutes / rl.interval,
    omega arith,
    omega (arith, div-mul-le_self ten_minutes rl.interval),
  )

  pub swept-Spent :
      (o : Option Bucket) → Limits rl → t₀ ≤ t → Spent rl t₀ t n o → Spent rl t₀ now n (swept now o)
  unfolding swept Spent
  swept-Spent none limits start h = wait-Spent none h
  swept-Spent (some b) limits start h = elim (Bool-cases (ltb (b.last_fill + ten_minutes) now)) [
    | inl e ↦ rw e (dropped-Spent b limits start (ground arith) h.2)
    | inr e ↦ rw e (wait-Spent (some b) h)
  ]
