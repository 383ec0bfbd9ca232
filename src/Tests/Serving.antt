-- ===== src/Tests/Serving.antt =====
-- Examples on the rate limiter and the read cache.
use wasteland.Base.{
  ltb, if◌then◌else◌, In, put, delete_key, count_by, Sorted, text_less, trim_space, ℕ, ◌+◌, ◌-◌,
  ◌*◌, ◌/◌, ◌≤◌, String, ◌≡◌, refl, ◌↔◌, inl, Bool, true, false, none, some, List, [], ◌∷◌, arith,
}
use wasteland.Commons.Types.{ok}
use wasteland.Api.RateLimit.{RateLimiter, new_rate_limiter, allow, meter, refill, take}
use wasteland.Api.RateLimit.Window.{begin, request, times, log}
use wasteland.Api.RateLimit.Bound.{times-le}
use wasteland.Api.RateLimit.Wait.{allow-after_interval}
use wasteland.Api.ReadCache.{
  Call, ReadCache, new_read_cache, attempt, run_fetch, invalidate_key, get_stale, wait, hit_or_join,
  join_or_start, start_call, get_fresh, set_call, store, evict,
}
use wasteland.Api.ReadCache.Run.{begin, read, fetched}
use wasteland.Api.ReadCache.Bounds.{one_fetch, entries-le}
use wasteland.Api.ReadCache.Invalidated.{invalidate_key_sound}
use wasteland.Api.RateLimit.Spent.{Limits}
use wasteland.Api.CacheScope.{
  ReadCacheScope, detail_cache_key, scoped_key, cache_key_part, ResolvedReadIdentity, Caches,
  invalidate_read_caches,
}
use wasteland.Api.CacheScope.Keys.{SameScope, cache_key-inj}
use wasteland.Sdk.Workspace.{
  UpstreamInfo, new_workspace, client, client_or_error, upstreams, by_upstream,
}
use wasteland.Sdk.Workspace.Registry.{
  Op, join_up, leave, run, registered, client_of, info_of, run-refines,
}
use wasteland.Commons.Ranking.{Count, select, scan, beats, swapped, moved, passed}
use wasteland.Commons.Ranking.Chosen.{TopOf, select_sound}
use wasteland.Tests.Samples.{client as rig_client}
use wasteland.Tests.Escape.{coded, coded-Escapes}

abbrev minute : ℕ
minute = 60000000000

-- Two requests of one client and one of another.
abbrev limiter : RateLimiter
limiter = new_rate_limiter 10 10 minute

times-le_example :
    times "1.2.3.4" ("1.2.3.4" ∷ "1.2.3.4" ∷ []) ≤ 10 + 10 * ((minute - 0) / minute + 1)
unfolding new_rate_limiter Limits allow meter refill take log put
times-le_example =
    times-le 10 10 minute (omega arith, omega arith, omega arith) begin
      (request (request begin 5 (omega arith) "1.2.3.4") minute (omega arith) "1.2.3.4") "1.2.3.4"

-- A client has used the only token, is refused at once, and asks again a minute later.
abbrev single : RateLimiter
single = new_rate_limiter 1 1 minute

abbrev used : RateLimiter
used = (allow single 5 "1.2.3.4").1

abbrev refused_once : RateLimiter
refused_once = (allow used 9 "1.2.3.4").1

allow-after_interval_example : (allow refused_once (5 + minute) "1.2.3.4").0 ≡ true
unfolding new_rate_limiter Limits times allow meter refill take log put
allow-after_interval_example =
    allow-after_interval 1 1 minute (omega arith, omega arith, omega arith) {t₀ = 5}
      (request begin 5 (omega arith) "1.2.3.4") (request begin 9 (omega arith) "1.2.3.4") "1.2.3.4"
      refl (5 + minute) (omega arith)

-- A fetch of "a" runs.
abbrev empty : ReadCache
empty = new_read_cache 30 2

abbrev fetch_a : Call
fetch_a = record { key = "a"; generation = 0; invalidated = false; result = none }

one_fetch_example : ◌≡◌ {A = ℕ} 0 0
unfolding new_read_cache attempt hit_or_join join_or_start start_call get_fresh set_call put
one_fetch_example =
    one_fetch 30 2 {Q = λ id key bytes. Unit} (read (read begin 5 "a") 6 "a") 0 0 fetch_a fetch_a
      refl refl refl (refl, refl) (refl, refl)

-- A fetch of "a" is stored.
entries-le_example : 1 ≤ 2
unfolding new_read_cache attempt hit_or_join join_or_start start_call get_fresh set_call run_fetch
    store evict put delete_key
entries-le_example =
    entries-le 30 2 {Q = λ id key bytes. Unit}
      (fetched (read begin 5 "a") 7 0 fetch_a (ok "x") refl refl (λ b e. tt))

-- A fetch of "a" that is invalidated, and ends while another runs.
abbrev asked : ReadCache
asked = (attempt empty 5 "a").1

abbrev dropped_a : Call
dropped_a = record fetch_a { invalidated = true }

abbrev second_a : Call
second_a = record fetch_a { generation = 1 }

abbrev asked_again : ReadCache
asked_again = (attempt (invalidate_key asked "a") 6 "a").1

abbrev ended : ReadCache
ended = run_fetch (run_fetch asked_again 7 0 dropped_a (ok "old")) 8 1 second_a (ok "new")

invalidate_key_sound_example :
    ((bytes : String) → get_stale ended "a" ≡ some bytes → bytes ≡ "new")
    × ((now id : ℕ) → (attempt ended now "a").0 ≡ wait id → 1 ≤ id)
unfolding new_read_cache attempt hit_or_join join_or_start start_call get_fresh set_call
    invalidate_key run_fetch store evict put delete_key
invalidate_key_sound_example =
    invalidate_key_sound (λ bytes. bytes ≡ "new") "a" 30 2 {Q = λ id key bytes. Unit}
      (read begin 5 "a")
      (fetched
        (fetched (read begin 6 "a") 7 0 dropped_a (ok "old") refl refl
          (λ b e le same. absurd (omega (arith, le))))
        8 1 second_a (ok "new") refl refl (λ b e le same. cc e))

-- The same read, asked twice with other spaces.
abbrev spaced : ReadCacheScope
spaced = record {
  upstream = " up";
  viewer = "user:ann";
  mode = "pr";
  impersonate = "";
  cacheable = true;
}

abbrev plain : ReadCacheScope
plain = record spaced { upstream = "up" }

cache_key-inj_example : SameScope spaced plain × (trim_space "w-1 " ≡ trim_space "w-1")
unfolding detail_cache_key scoped_key cache_key_part
cache_key-inj_example = cache_key-inj coded coded-Escapes spaced plain "w-1 " "w-1" (inl refl)

-- A fetch of the item that began before the mutation ends after it.
abbrev key : String
key = "detail:up:user:ann:pr::w-1"

abbrev reading : ReadCache
reading = (attempt empty 5 key).1

abbrev dropped : Call
dropped = record { key = key; generation = 0; invalidated = true; result = none }

abbrev ann : ResolvedReadIdentity
ann = record { upstream = "up"; viewer = "ann"; public = false }

abbrev mutated : Caches
mutated =
    (invalidate_read_caches (λ s. s) none true (some ann) "" (rig_client "pr") "w-1"
      (record { browse_cache = empty; detail_cache = reading }, [])).0

abbrev late : ReadCache
late = run_fetch mutated.detail_cache 7 0 dropped (ok "old")

-- Two joins and a leave.
abbrev info_a : UpstreamInfo
info_a = record { upstream = "a/db"; fork_org = "o"; fork_db = "db"; mode = "pr" }

abbrev visits : List (Op ℕ)
visits = join_up info_a 1 ∷ join_up (record info_a { upstream = "b/db" }) 2 ∷ leave "b/db" ∷ []

run-refines_example :
    let w = run (new_workspace "rig") visits in
    let r = registered (λ k. none) visits in
    ((k : String) → client w k ≡ client_or_error k (client_of (r k)))
    × ((i : UpstreamInfo) → In i (upstreams w) ↔ (info_of (r i.upstream) ≡ some i))
    × Sorted by_upstream (upstreams w)
run-refines_example = run-refines "rig" visits

-- Three tags, of which two are asked for.
abbrev tags : List Count
tags = ("go", 1) ∷ ("sql", 3) ∷ ("css", 1) ∷ []

select_sound_example :
    TopOf (("sql", 3) ∷ ("css", 1) ∷ []) (("go", 1) ∷ [])
    × ((p : Count → Bool)
        → count_by p tags ≡ count_by p (("sql", 3) ∷ ("css", 1) ∷ []) + count_by p (("go", 1) ∷ []))
    × ◌≡◌ {A = ℕ} 2 (if ltb 2 3 then 2 else 3)
unfolding select scan beats text_less swapped moved passed
select_sound_example = select_sound 2 tags
