-- ===== src/Api/ReadCache/Run.antt =====
-- internal/api/read_cache.go: the holders of the lock in turn.
use wasteland.Base.{ℕ, String, ◌≡◌, Bool, none, some}
use wasteland.Commons.Types.{Result, ok}
use wasteland.Api.ReadCache.{
  Call, ReadCache, attempt, run_fetch, invalidate_key, invalidate_matching, invalidate,
}

-- Readers, fetches that end and invalidations, in any order and at any times. Each call's fetch
-- ends at most once; what a fetch of a key returns satisfies `Q`.
pub data Run (Q : ℕ → String → String → Type 0) (s : ReadCache) : ReadCache → Type 0 where
  begin : Run Q s s
  read : {c : ReadCache} → Run Q s c → (now : ℕ) (key : String) → Run Q s (attempt c now key).1
  fetched :
      {c : ReadCache}
      → Run Q s c
      → (now id : ℕ) (cl : Call) (r : Result String) → c.calls id ≡ some cl
      → cl.result ≡ none
      → ((bytes : String) → r ≡ ok bytes → Q id cl.key bytes)
      → Run Q s (run_fetch c now id cl r)
  drop_key : {c : ReadCache} → Run Q s c → (key : String) → Run Q s (invalidate_key c key)
  drop_matching :
      {c : ReadCache}
      → Run Q s c
      → (matches : String → Bool) → Run Q s (invalidate_matching c matches)
  drop_all : {c : ReadCache} → Run Q s c → Run Q s (invalidate c)
