-- ===== src/Api/RateLimit.antt =====
-- internal/api/ratelimit.go: token buckets, one for each client. Times are in nanoseconds; a
-- request carries the time at which it is served. A bucket never holds less than no tokens: the
-- code's -1, of a burst of 0, is refused like 0.
pub mod Window
pub mod Spent
pub mod Bound
pub mod Ready
pub mod Wait
use wasteland.Base.{
  ltb, if◌then◌else◌, get, put, delete_key, trim_space, cut, ℕ, ◌+◌, ◌-◌, ◌*◌, ◌/◌, String, Bool,
  true, false, Option, none, some, List, [], ◌∷◌, ◌==◌,
}

pub record Bucket : Type 0 where
  pub tokens : ℕ
  pub last_fill : ℕ

pub record RateLimiter : Type 0 where
  pub buckets : List (String × Bucket)
  pub rate : ℕ
  pub burst : ℕ
  pub interval : ℕ

unfoldable pub new_rate_limiter : ℕ → ℕ → ℕ → RateLimiter
new_rate_limiter rate burst interval = record {
  buckets = [];
  rate = rate;
  burst = burst;
  interval = interval;
}

-- Tokens for the whole intervals since the last fill; the rest of the time is kept for the next.
unfoldable pub refill : RateLimiter → ℕ → Bucket → Bucket
refill rl now b =
    let intervals = (now - b.last_fill) / rl.interval in
    let added = intervals * rl.rate in
    if ltb 0 added
    then record {
      tokens = if ltb rl.burst (b.tokens + added) then rl.burst else b.tokens + added;
      last_fill = b.last_fill + intervals * rl.interval;
    }
    else b

-- Takes a token, if there is one.
unfoldable pub take : Bucket → Bool × Bucket
take b = if ltb 0 b.tokens then (true, record b { tokens = b.tokens - 1 }) else (false, b)

-- The answer to a request, and the bucket after it; a new client gets a full bucket.
unfoldable pub meter : RateLimiter → ℕ → Option Bucket → Bool × Bucket
unfolding take refill
meter rl now none = (true, record { tokens = rl.burst - 1; last_fill = now })
meter rl now (some b) = take (refill rl now b)

unfoldable pub allow : RateLimiter → ℕ → String → Bool × RateLimiter
unfolding meter
allow rl now key =
    let r = meter rl now (get key rl.buckets) in
    (r.0, record rl { buckets = put key r.1 rl.buckets })

abbrev pub ten_minutes : ℕ
ten_minutes = 600000000000

unfoldable pub drop_stale : ℕ → List (String × Bucket) → List (String × Bucket)
drop_stale now [] = []
drop_stale now ((key, b) ∷ rest) =
    let kept = drop_stale now rest in
    if ltb (b.last_fill + ten_minutes) now then delete_key key kept else (key, b) ∷ kept

-- One tick of the background task.
unfoldable pub cleanup : RateLimiter → ℕ → RateLimiter
unfolding drop_stale
cleanup rl now = record rl { buckets = drop_stale now rl.buckets }

-- The client's address: the first of the forwarded ones, or else the peer without its port.
-- `net.SplitHostPort` is a parameter.
unfoldable pub client_ip : (String → Option String) → String → String → String
unfolding trim_space cut
client_ip split_host_port xff remote_addr =
    if xff == ""
    then elim (split_host_port remote_addr) [ none ↦ remote_addr | some host ↦ host ]
    else elim (cut b',' xff) [ some (ip, rest) ↦ trim_space ip | none ↦ trim_space xff ]

pub data Reply (R : Type 0) : Type 0 where
  too_many_requests : Reply R
  served : R → Reply R

-- The middleware, around a handler.
unfoldable pub rate_limit : {R : Type 0} → R → RateLimiter → ℕ → String → Reply R × RateLimiter
unfolding allow
rate_limit next rl now ip =
    let r = allow rl now ip in (if r.0 then served next else too_many_requests, r.1)
