-- ===== src/Api/ReadCache/Seen.antt =====
-- internal/api/read_cache.go: the keys that an invalidation of matching keys meets.
use wasteland.Base.{
  if◌then◌else◌, get, member, String, ◌≡◌, refl, Bool, true, false, Option, none, some, List, [],
  ◌∷◌, arith, ◌==◌, eq_iff,
}
use wasteland.Api.ReadCache.{
  ReadCache, delete_all, invalidate_key, add_keys, invalidate_keys, invalidate_matching,
}
use wasteland.Api.ReadCache.Evict.{get-delete_all}

module _ (matches : String → Bool) (k : String) where
  member-add_keys :
      {V : Type 0} (v : V) (m : List (String × V)) (seen : List String)
      → matches k ≡ true
      → get k m ≡ some v
      → member k (add_keys matches m seen) ≡ true
  unfolding add_keys
  member-add_keys v [] seen hit h = cc
  member-add_keys v ((j, w) ∷ m) seen hit h =
      ground (arith, eq_iff j k, hits, member-add_keys v m seen)
    where
      hits : j == k ≡ true → matches j ≡ true
      hits e = rw ((eq_iff j k).0 e) hit

  seen-add_keys :
      {V : Type 0} (m : List (String × V)) (seen : List String)
      → member k seen ≡ true
      → member k (add_keys matches m seen) ≡ true
  unfolding add_keys
  seen-add_keys [] seen h = h
  seen-add_keys ((j, w) ∷ m) seen h = ground (arith, seen-add_keys m seen)

none-unless :
    {V : Type 0} (b : Bool) (o : Option V)
    → ((v : V) → o ≡ some v → b ≡ true)
    → (if b then none else o) ≡ none
none-unless true o h = refl
none-unless false none h = refl
none-unless false (some v) h = cc (h v refl)

invalidate_keys-maps :
    (c : ReadCache) (keys : List String)
    → ((invalidate_keys c keys).entries ≡ delete_all keys c.entries)
      × ((invalidate_keys c keys).inflight ≡ delete_all keys c.inflight)
unfolding invalidate_keys invalidate_key delete_all
invalidate_keys-maps c [] = (refl, refl)
invalidate_keys-maps c (key ∷ keys) = invalidate_keys-maps (invalidate_key c key) keys

-- A key that matches is neither cached nor being fetched for readers afterwards.
pub invalidate_matching-gone :
    (c : ReadCache) (matches : String → Bool) (k : String)
    → matches k ≡ true
    → (get k (invalidate_matching c matches).entries ≡ none)
      × (get k (invalidate_matching c matches).inflight ≡ none)
unfolding invalidate_matching
invalidate_matching-gone c matches k hit =
    let maps = invalidate_keys-maps c seen in
    (
      rw maps.0 (
          rw (get-delete_all k seen c.entries) (
            none-unless (member k seen) (get k c.entries) (λ v e.
              seen-add_keys matches k c.inflight first
                (member-add_keys matches k v c.entries [] hit e)))),
      rw maps.1 (
          rw (get-delete_all k seen c.inflight) (
            none-unless (member k seen) (get k c.inflight)
              (λ v e. member-add_keys matches k v c.inflight first hit e))),
    )
  where
    first : List String
    first = add_keys matches c.entries []

    seen : List String
    seen = add_keys matches c.inflight first
