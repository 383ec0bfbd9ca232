-- ===== src/Api/CacheScope/Dropped.antt =====
-- internal/api/handlers.go: the entries that an invalidation drops.
use wasteland.Base.{ℕ, ◌≤◌, String, ◌≡◌, Bool, Option, some}
use wasteland.Api.ReadCache.{ReadCache, get_stale, new_read_cache, attempt, wait}
use wasteland.Api.CacheScope.{
  ReadCacheScope, ResolvedReadIdentity, Caches, read_cache_scope, invalidate_read_caches,
  detail_cache_key, browse_cache_key,
}
use wasteland.Api.ReadCache.Run.{Run}
use wasteland.Sdk.Client.{Client}

-- What a reader finds for the key, fresh or stale, satisfies `P`, and it waits only for a fetch that
-- has a number from `n` on.
abbrev pub OnlyNew : (String → Type 0) → String → ℕ → ReadCache → Type 0
OnlyNew P key n c =
    ((bytes : String) → get_stale c key ≡ some bytes → P bytes)
    × ((now id : ℕ) → (attempt c now key).0 ≡ wait id → n ≤ id)

module _ {S : Type 0} (query_escape : String → String) (invalidator : Option (S → S))
    (hosted : Bool) (identity : Option ResolvedReadIdentity) (impersonate : String)
    (client : Client S) (scope : ReadCacheScope)
    (same : scope.upstream ≡ (read_cache_scope hosted identity impersonate client).upstream)
    (P : String → Type 0) (wanted_id query : String) (age size : ℕ)
    {Q R : ℕ → String → String → Type 0} (browse detail : ReadCache)
    (board_run : Run Q (new_read_cache age size) browse)
    (detail_run : Run R (new_read_cache age size) detail) where
  abbrev detail_key : String
  detail_key = detail_cache_key query_escape scope wanted_id

  abbrev browse_key : String
  browse_key = browse_cache_key query_escape scope query

  abbrev upstream : String
  upstream = (read_cache_scope hosted identity impersonate client).upstream

  -- The caches as the handler of a mutation of the item leaves them.
  abbrev pub after_mutation : S → Caches
  after_mutation out =
      (invalidate_read_caches query_escape invalidator hosted identity impersonate client wanted_id
        (record { browse_cache = browse; detail_cache = detail }, out)).0
