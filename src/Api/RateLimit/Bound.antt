-- ===== src/Api/RateLimit/Bound.antt =====
-- internal/api/ratelimit.go: the number of requests of one client in any stretch of time.
use wasteland.Base.{
  if◌then◌else◌, Bool-cases, get, get-put, ℕ, zero, suc, ◌+◌, ◌-◌, ◌*◌, ◌/◌, ◌≤◌, ◌<◌, String, ◌≡◌,
  refl, ◌∙◌, inl, inr, Bool, true, false, Option, none, some, List, [], arith, ◌==◌, eq_iff,
}
use native.Mathlib.Nat.{le-div_iff_mul-le, mul-le-mul_left}
use wasteland.Api.RateLimit.{Bucket, RateLimiter, new_rate_limiter, meter, allow, cleanup}
use wasteland.Api.RateLimit.Window.{Serve, begin, request, tick, log, times, tally, get-drop_stale}
use wasteland.Api.RateLimit.Spent.{Limits, Spent, Paid, meter-Spent, wait-Spent, swept-Spent}

pub times-log :
    (k j : String) (b : Bool) (keys : List String)
    → times k (log b j keys) ≡ (if j == k then times k keys + tally b else times k keys)
unfolding log times tally
times-log k j true keys = ground (arith, eq_iff j k)
times-log k j false keys = ground (arith, eq_iff j k)

module _ (rl : RateLimiter) (t₀ now n : ℕ) (m : List (String × Bucket)) where
  Spent-buckets :
      (o : Option Bucket) → Spent rl t₀ now n o → Spent (record rl { buckets = m }) t₀ now n o
  unfolding Spent Paid
  Spent-buckets none h = h
  Spent-buckets (some b) h = h

module _ (t₀ : ℕ) (k : String) where
  unfoldable pub Kept : RateLimiter → ℕ → List String → Type 0
  Kept rl t keys = Limits rl × (t₀ ≤ t) × Spent rl t₀ t (times k keys) (get k rl.buckets)

  allow-Kept :
      (rl : RateLimiter) (t now : ℕ) (keys : List String) (j : String)
      → t ≤ now
      → Kept rl t keys
      → Kept (allow rl now j).1 now (log (allow rl now j).0 j keys)
  unfolding Kept Limits allow
  allow-Kept rl t now keys j later (limits, start, spent) = (
    limits,
    omega arith,
    Spent-buckets rl t₀ now _ _ _ (
        rw (times-log k j (meter rl now (get j rl.buckets)).0 keys) (
          rw (get-put k j (meter rl now (get j rl.buckets)).1 rl.buckets)
            (elim (Bool-cases (j == k)) [
              | inl e ↦ rw e (
                  rw ((eq_iff j k).0 e) (
                    meter-Spent rl t₀ now (times k keys) limits (omega arith) (get k rl.buckets)
                      (wait-Spent rl t₀ t now (times k keys) later _ spent)))
              | inr e ↦ rw e (wait-Spent rl t₀ t now (times k keys) later _ spent)
            ]))),
  )

  cleanup-Kept :
      (rl : RateLimiter) (t now : ℕ) (keys : List String)
      → t ≤ now
      → Kept rl t keys
      → Kept (cleanup rl now) now keys
  unfolding Kept Limits cleanup
  cleanup-Kept rl t now keys later (limits, start, spent) = (
    limits,
    omega arith,
    Spent-buckets rl t₀ now _ _ _ (
        rw (get-drop_stale now k rl.buckets)
          (swept-Spent rl t₀ t now (times k keys) later (get k rl.buckets) limits start spent)),
  )

  pub Serve-Kept :
      {s rl : RateLimiter} {t : ℕ} {keys : List String}
      → Kept s t₀ []
      → Serve s t₀ rl t keys
      → Kept rl t keys
  Serve-Kept h begin = h
  Serve-Kept h (request r now later j) = allow-Kept _ _ now _ j later (Serve-Kept h r)
  Serve-Kept h (tick r now later) = cleanup-Kept _ _ now _ later (Serve-Kept h r)

module _ {s : RateLimiter} {t₀ : ℕ} where
  pub Serve-fields :
      {rl : RateLimiter} {t : ℕ} {keys : List String}
      → Serve s t₀ rl t keys
      → (rl.rate ≡ s.rate) × (rl.burst ≡ s.burst) × (rl.interval ≡ s.interval)
  unfolding allow cleanup
  Serve-fields begin = (refl, refl, refl)
  Serve-fields (request r now later j) = Serve-fields r
  Serve-fields (tick r now later) = Serve-fields r

le-same :
    (d : ℕ) {n r b i r' b' i' : ℕ}
    → r ≡ r'
    → b ≡ b'
    → i ≡ i'
    → n ≤ b + r * (d / i + 1)
    → n ≤ b' + r' * (d / i' + 1)
le-same d er eb ei h = rw (← er) (rw (← eb) (rw (← ei) h))

intervals-le : (i m t t₀ : ℕ) → 0 < i → m * i + t₀ ≤ t + i → m ≤ (t - t₀) / i + 1
intervals-le i zero t t₀ h k = omega arith
intervals-le i (suc m) t t₀ h k =
    omega (arith, (le-div_iff_mul-le {x = m} {y = t - t₀} h).1 (omega arith))

module _ (rl : RateLimiter) (t₀ t n : ℕ) where
  -- What was used, from the bucket.
  Spent-le :
      (o : Option Bucket)
      → 0 < rl.interval
      → Spent rl t₀ t n o
      → n ≤ rl.burst + rl.rate * ((t - t₀) / rl.interval + 1)
  unfolding Spent Paid
  Spent-le none h (m, used, time) =
      omega (arith, mul-le-mul_left rl.rate (intervals-le rl.interval m t t₀ h time))
  Spent-le (some b) h (small, past, inl e) = omega arith
  Spent-le (some b) h (small, past, inr (m, used, time)) =
      omega (arith, mul-le-mul_left rl.rate (intervals-le rl.interval m t t₀ h (omega arith)))

  -- A bucket kept within its limits has used nothing since now.
  Spent-anew : (o : Option Bucket) → Spent rl t₀ t n o → Spent rl t t 0 o
  unfolding Spent
  Spent-anew none s = (0, omega arith, omega arith)
  Spent-anew (some b) s = (s.0, s.1, inl refl)

pub new-Kept :
    (rate burst interval : ℕ)
    → Limits (new_rate_limiter rate burst interval)
    → {s : RateLimiter} {t : ℕ} {keys : List String}
    → Serve (new_rate_limiter rate burst interval) 0 s t keys
    → (k : String) → Kept 0 k s t keys
unfolding new_rate_limiter Kept Limits Spent times
new-Kept rate burst interval limits r k =
    Serve-Kept 0 k {s = new_rate_limiter rate burst interval}
      (limits, omega arith, (0, omega arith, omega arith)) r

-- A limiter in use, with tokens for whole intervals and a burst that ten minutes fill again, lets
-- through at most a burst and the tokens of the stretch of time and of one interval more of any
-- one client, from any moment on, whatever other clients ask and whenever the background task ticks.
pub times-le :
    (rate burst interval : ℕ)
    → Limits (new_rate_limiter rate burst interval)
    → {s rl : RateLimiter} {t₀ t : ℕ} {before after : List String}
    → Serve (new_rate_limiter rate burst interval) 0 s t₀ before
    → Serve s t₀ rl t after
    → (k : String) → times k after ≤ burst + rate * ((t - t₀) / interval + 1)
unfolding new_rate_limiter Kept Limits Spent times
times-le rate burst interval limits {s} {rl} {t₀} {t} {before} {after} r q k =
    let first = new-Kept rate burst interval limits r k in
    let last =
      Serve-Kept t₀ k
        (first.0, omega arith, Spent-anew s 0 t₀ (times k before) (get k s.buckets) first.2) q in
    let le = Spent-le rl t₀ t (times k after) (get k rl.buckets) last.0.1 last.2 in
    let (r1, b1, i1) = Serve-fields r in
    let (r2, b2, i2) = Serve-fields q in le-same (t - t₀) (r2 ∙ r1) (b2 ∙ b1) (i2 ∙ i1) le
