-- ===== src/Api/RateLimit/Window.antt =====
-- internal/api/ratelimit.go: requests and ticks in turn, and how many requests of a client pass.
use wasteland.Base.{
  ltb, if◌then◌else◌, get, get-delete_key, ℕ, suc, ◌+◌, ◌≤◌, String, ◌≡◌, refl, Bool, Option, none,
  some, List, [], ◌∷◌, arith, ◌==◌, eq_iff,
}
use wasteland.Api.RateLimit.{Bucket, RateLimiter, allow, ten_minutes, drop_stale, cleanup}

unfoldable pub log : Bool → String → List String → List String
log b key keys = if b then key ∷ keys else keys

-- The limiter serves requests at times that do not decrease; the keys let through are listed.
pub data Serve (s : RateLimiter) (t₀ : ℕ) : RateLimiter → ℕ → List String → Type 0 where
  begin : Serve s t₀ s t₀ []
  request :
      {rl : RateLimiter} {t : ℕ} {keys : List String}
      → Serve s t₀ rl t keys
      → (now : ℕ) → t ≤ now
      → (key : String) → Serve s t₀ (allow rl now key).1 now (log (allow rl now key).0 key keys)
  tick :
      {rl : RateLimiter} {t : ℕ} {keys : List String}
      → Serve s t₀ rl t keys
      → (now : ℕ) → t ≤ now
      → Serve s t₀ (cleanup rl now) now keys

unfoldable pub times : String → List String → ℕ
times k [] = 0
times k (j ∷ js) = let rest = times k js in if j == k then suc rest else rest

unfoldable pub tally : Bool → ℕ
tally b = if b then 1 else 0

-- What a tick leaves of a bucket.
unfoldable pub swept : ℕ → Option Bucket → Option Bucket
swept now none = none
swept now (some b) = if ltb (b.last_fill + ten_minutes) now then none else some b

pub get-drop_stale :
    (now : ℕ) (k : String) (m : List (String × Bucket))
    → get k (drop_stale now m) ≡ swept now (get k m)
unfolding drop_stale swept
get-drop_stale now k [] = refl
get-drop_stale now k ((j, b) ∷ m) =
    ground (arith, eq_iff j k, get-delete_key k j (drop_stale now m), get-drop_stale now k m)
