-- ===== src/DolthubAuth/Requests/Ttl.antt =====
-- internal/dolthubauth/server.go: for how long a connect token lives.
use wasteland.Base.{ℤ, pos, negsuc, ℕ, ◌+◌, ◌*◌, ◌≤◌, ◌≡◌, arith}
use wasteland.DolthubAuth.Requests.{wrap_int64, at_most_ttl, token_ttl, add_duration}

at_most : (now : ℕ) (n : ℤ) → add_duration now (at_most_ttl n) ≤ now + 300000000000
unfolding add_duration at_most_ttl
at_most now (pos n) = ground arith
at_most now (negsuc n) = omega arith

ttl-le : (now : ℕ) (n : ℤ) → add_duration now (token_ttl n) ≤ now + 300000000000
unfolding add_duration token_ttl
ttl-le now (pos n) = ground (arith, at_most now (wrap_int64 (n * 1000000000)))
ttl-le now (negsuc n) = omega arith

-- A token expires at most five minutes after it is made, whatever life `n` is asked for; after `m`
-- seconds if that is what is asked for, up to five minutes; and after five minutes if no life, or a
-- negative one, is asked for.
pub token_ttl-bounds :
    (now : ℕ) (n : ℤ) (m k : ℕ)
    → 1 ≤ m
    → m ≤ 300
    → (add_duration now (token_ttl n) ≤ now + 300000000000)
      × (add_duration now (token_ttl (pos m)) ≡ now + m * 1000000000)
      × (add_duration now (token_ttl (pos 0)) ≡ now + 300000000000)
      × (add_duration now (token_ttl (negsuc k)) ≡ now + 300000000000)
unfolding token_ttl wrap_int64 at_most_ttl add_duration
token_ttl-bounds now n m k least most = (ttl-le now n, ground arith, omega arith, omega arith)

-- The product in nanoseconds wraps around: a token for which a life from 9223372037 to 18446744073
-- seconds is asked has expired when it is made, instead of living for the maximum.
pub token_ttl-overflow :
    (now n : ℕ) → 9223372037 ≤ n → n ≤ 18446744073 → add_duration now (token_ttl (pos n)) ≤ now
unfolding token_ttl wrap_int64 at_most_ttl add_duration
token_ttl-overflow now n low high = ground arith
