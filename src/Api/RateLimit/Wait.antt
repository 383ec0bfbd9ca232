-- ===== src/Api/RateLimit/Wait.antt =====
-- internal/api/ratelimit.go: how long a client waits at most.
use wasteland.Base.{
  if◌then◌else◌, Bool-cases, get, get-put, ℕ, ◌+◌, ◌/◌, ◌≤◌, String, ◌≡◌, refl, sym, ◌∙◌, inl, inr,
  Bool, true, false, Option, none, some, List, arith, ◌==◌, eq_iff,
}
use wasteland.Api.RateLimit.{
  Bucket, RateLimiter, ten_minutes, new_rate_limiter, meter, allow, cleanup,
}
use wasteland.Api.RateLimit.Window.{Serve, begin, request, tick, log, times, tally, get-drop_stale}
use wasteland.Api.RateLimit.Spent.{Limits, Spent, rate-pos}
use wasteland.Api.RateLimit.Bound.{Kept, Serve-fields, times-log, new-Kept}
use wasteland.Api.RateLimit.Ready.{Waiting, meter-Waiting, swept-Waiting, meter-passes}

Spent-Waiting :
    (rl : RateLimiter) (t₀ t n : ℕ) (o : Option Bucket) → Spent rl t₀ t n o → Waiting t o
unfolding Spent Waiting
Spent-Waiting rl t₀ t n none h = tt
Spent-Waiting rl t₀ t n (some b) h = h.1

tally-zero : (b : Bool) → tally b ≡ 0 → b ≡ false
unfolding tally
tally-zero true h = cc
tally-zero false h = refl

none_counted : (b : Bool) (n m : ℕ) → (if b then n + m else n) ≡ 0 → (n ≡ 0) × (b ≡ true → m ≡ 0)
none_counted true n m h = (omega arith, λ e. omega arith)
none_counted false n m h = (h, λ e. cc)

-- No request passed before, nor this one.
log-none :
    (k j : String) (b : Bool) (keys : List String)
    → times k (log b j keys) ≡ 0
    → (times k keys ≡ 0) × (j == k ≡ true → tally b ≡ 0)
log-none k j b keys h =
    none_counted (j == k) (times k keys) (tally b) (sym (times-log k j b keys) ∙ h)

module _ (t : ℕ) (k : String) where
  allow-Waiting :
      (rl : RateLimiter) (now : ℕ) (keys : List String) (j : String)
      → 1 ≤ rl.burst
      → Waiting t (get k rl.buckets)
      → times k (log (allow rl now j).0 j keys) ≡ 0
      → Waiting t (get k (allow rl now j).1.buckets)
  unfolding allow
  allow-Waiting rl now keys j full h none_passed =
      rw (get-put k j (meter rl now (get j rl.buckets)).1 rl.buckets) (elim (Bool-cases (j == k)) [
        | inl e ↦ rw e (own ((eq_iff j k).0 e) (counted.1 e))
        | inr e ↦ rw e h
      ])
    where
      passed : Bool
      passed = (meter rl now (get j rl.buckets)).0

      counted : (times k keys ≡ 0) × (j == k ≡ true → tally passed ≡ 0)
      counted = log-none k j passed keys none_passed

      own : j ≡ k → tally passed ≡ 0 → Waiting t (some (meter rl now (get j rl.buckets)).1)
      own e z = meter-Waiting rl t now full (get j rl.buckets) (rw e h) (tally-zero passed z)

  Serve-Waiting :
      {s : RateLimiter} {t₀ : ℕ} {rl : RateLimiter} {now : ℕ} {keys : List String}
      → 1 ≤ s.burst
      → Waiting t (get k s.buckets)
      → Serve s t₀ rl now keys
      → times k keys ≡ 0
      → Waiting t (get k rl.buckets)
  unfolding cleanup
  Serve-Waiting full h begin z = h
  Serve-Waiting full h (request {rl} {keys = keys} r now later j) z =
      allow-Waiting rl now keys j (omega (arith, (Serve-fields r).1))
        (Serve-Waiting full h r (log-none k j (allow rl now j).0 keys z).0) z
  Serve-Waiting full h (tick {rl} r now later) z = rw (get-drop_stale now k rl.buckets) (
      swept-Waiting rl t now (omega (arith, (Serve-fields r).1)) (get k rl.buckets)
        (Serve-Waiting full h r z))

-- In a limiter in use whose burst and interval are positive, and whose burst is no more than it
-- refills in the ten minutes after which an idle client is forgotten, a client of which no request
-- was let through for an interval is let through at its next request, whatever other clients asked
-- meanwhile.
pub allow-after_interval :
    (rate burst interval : ℕ)
    → Limits (new_rate_limiter rate burst interval)
    → {s rl : RateLimiter} {t₀ t : ℕ} {before after : List String}
    → Serve (new_rate_limiter rate burst interval) 0 s t₀ before
    → Serve s t₀ rl t after
    → (k : String) → times k after ≡ 0
    → (now : ℕ) → t₀ + interval ≤ now
    → (allow rl now k).0 ≡ true
unfolding new_rate_limiter allow Kept Limits
allow-after_interval rate burst interval limits {s} {rl} {t₀} {t} {before} {after} r q k z now
      late =
    let ((full, whole, fills), start, spent) = new-Kept rate burst interval limits r k in
    let (r1, b1, i1) = Serve-fields r in
    let (r2, b2, i2) = Serve-fields q in
    let waits =
      Serve-Waiting t₀ k full (Spent-Waiting s 0 t₀ (times k before) (get k s.buckets) spent) q z in
    let one = rate-pos rate (ten_minutes / interval) burst limits.0 limits.2 in
    meter-passes rl t₀ now (omega arith) (omega arith) (omega arith) (omega arith)
      (get k rl.buckets) waits
