-- ===== src/Api/CacheScope.antt =====
-- internal/api/cache_scope.go and the invalidations of handlers.go: the keys under which a read is
-- cached. A request is the identity that its context holds, its header `X-Impersonate` and its
-- query; `url.QueryEscape` and `url.Values.Encode` are parameters.
pub mod Keys
pub mod Dropped
use wasteland.Base.{
  if◌then◌else◌, trim_space, join, has_suffix, String, ◌<>◌, Bool, true, false, not, ◌&&◌, ◌||◌,
  Option, none, some, [], ◌∷◌, ◌==◌,
}
use text.Mathlib.Text.{starts_with}
use wasteland.Sdk.Client.{Client}
use wasteland.Api.ReadCache.{ReadCache, invalidate_matching, invalidate}

pub record ReadCacheScope : Type 0 where
  pub upstream : String
  pub viewer : String
  pub mode : String
  pub impersonate : String
  pub cacheable : Bool

pub record ResolvedReadIdentity : Type 0 where
  pub upstream : String
  pub viewer : String
  pub public : Bool

unfoldable pub canonical_hosted_cache_upstream : String → String
unfolding trim_space
canonical_hosted_cache_upstream upstream =
    let trimmed = trim_space upstream in
    if trimmed == "hop/wl-commons" then "wasteland/wl-commons" else trimmed

unfoldable pub canonical_hosted_cache_viewer : String → String
unfolding trim_space
canonical_hosted_cache_viewer viewer =
    let trimmed = trim_space viewer in if trimmed == "" then "anon" else "user:" <> trimmed

-- The identity as the context keeps it.
unfoldable pub with_resolved_read_identity : ResolvedReadIdentity → ResolvedReadIdentity
unfolding canonical_hosted_cache_upstream
with_resolved_read_identity identity = record identity {
  upstream = canonical_hosted_cache_upstream identity.upstream;
  viewer = trim_space identity.viewer;
}

unfoldable pub normalize_read_cache_scope : Bool → ReadCacheScope → ReadCacheScope
unfolding canonical_hosted_cache_viewer
normalize_read_cache_scope hosted scope = record scope {
  upstream = if scope.upstream == "" then "local" else scope.upstream;
  viewer = if hosted then canonical_hosted_cache_viewer scope.viewer else scope.viewer;
}

-- The scope of a hosted read; without a whole identity it is not cached.
unfoldable pub hosted_scope : ReadCacheScope → Option ResolvedReadIdentity → ReadCacheScope
hosted_scope scope none = record scope { cacheable = false }
hosted_scope scope (some identity) =
    if identity.public
    then (if identity.upstream == ""
        then record scope { cacheable = false }
        else record scope { upstream = identity.upstream })
    else if identity.upstream == "" || identity.viewer == ""
    then record scope { cacheable = false }
    else record scope { upstream = identity.upstream; viewer = identity.viewer }

unfoldable pub read_cache_scope :
    {S : Type 0} → Bool → Option ResolvedReadIdentity → String → Client S → ReadCacheScope
unfolding normalize_read_cache_scope hosted_scope trim_space
read_cache_scope hosted identity impersonate client =
    let scope : ReadCacheScope = record {
      upstream = "";
      viewer = "";
      mode = trim_space client.mode;
      impersonate = trim_space impersonate;
      cacheable = true;
    } in
    normalize_read_cache_scope hosted (
      if hosted then hosted_scope scope identity else record scope {
        upstream = trim_space client.upstream;
        viewer = trim_space client.rig_handle;
      })

module _ (query_escape : String → String) where
  unfoldable pub cache_key_part : String → String
  unfolding trim_space
  cache_key_part value = query_escape (trim_space value)

  -- The parts of a key of either cache.
  unfoldable pub scoped_key : String → ReadCacheScope → String → String
  unfolding cache_key_part
  scoped_key kind scope last = join ":" (
      kind
      ∷ cache_key_part scope.upstream
      ∷ cache_key_part scope.viewer
      ∷ cache_key_part scope.mode
      ∷ cache_key_part scope.impersonate
      ∷ cache_key_part last
      ∷ [])

  unfoldable pub detail_cache_key : ReadCacheScope → String → String
  unfolding scoped_key
  detail_cache_key scope wanted_id = scoped_key "detail" scope wanted_id

  -- With the canonical text of the query.
  unfoldable pub browse_cache_key : ReadCacheScope → String → String
  unfolding scoped_key
  browse_cache_key scope query = scoped_key "browse" scope query

  unfoldable pub browse_cache_prefix : String → String
  unfolding cache_key_part
  browse_cache_prefix upstream = join ":" ("browse" ∷ cache_key_part upstream ∷ []) <> ":"

  unfoldable pub detail_cache_prefix : String → String
  unfolding cache_key_part
  detail_cache_prefix upstream = join ":" ("detail" ∷ cache_key_part upstream ∷ []) <> ":"

  unfoldable pub detail_cache_suffix : String → String
  unfolding cache_key_part
  detail_cache_suffix wanted_id = ":" <> cache_key_part wanted_id

  unfoldable pub invalidate_browse_caches : String → ReadCache → ReadCache
  unfolding browse_cache_prefix
  invalidate_browse_caches upstream c =
      invalidate_matching c (λ key. starts_with key (browse_cache_prefix upstream))

  unfoldable pub invalidate_detail_caches : String → String → ReadCache → ReadCache
  unfolding detail_cache_prefix detail_cache_suffix
  invalidate_detail_caches upstream wanted_id c = invalidate_matching c (λ key.
      starts_with key (detail_cache_prefix upstream)
      && has_suffix key (detail_cache_suffix wanted_id))

-- The two caches of a server, and the state outside, which the hook of the server acts on first.
pub record Caches : Type 0 where
  pub browse_cache : ReadCache
  pub detail_cache : ReadCache

unfoldable pub invalidate_all_caches : Caches → Caches
invalidate_all_caches s = record {
  browse_cache = invalidate s.browse_cache;
  detail_cache = invalidate s.detail_cache;
}

unfoldable pub has_canonical_hosted_read_identity : Bool → Option ResolvedReadIdentity → Bool
has_canonical_hosted_read_identity hosted none = not hosted
has_canonical_hosted_read_identity hosted (some identity) =
    not hosted || (not (identity.upstream == "") && not (identity.viewer == ""))

unfoldable pub run_invalidator : {S : Type 0} → Option (S → S) → S → S
run_invalidator none s = s
run_invalidator (some f) s = f s

module _ {S : Type 0} (query_escape : String → String) (invalidator : Option (S → S))
    (hosted : Bool) (identity : Option ResolvedReadIdentity) (impersonate : String)
    (client : Client S) where
  unfoldable pub invalidate_item : String → Caches → Caches
  unfolding invalidate_browse_caches invalidate_detail_caches invalidate_all_caches
      has_canonical_hosted_read_identity read_cache_scope
  invalidate_item wanted_id s =
      if hosted && not (has_canonical_hosted_read_identity hosted identity)
      then invalidate_all_caches s
      else (let scope = read_cache_scope hosted identity impersonate client in
          record {
            browse_cache = invalidate_browse_caches query_escape scope.upstream s.browse_cache;
            detail_cache =
                invalidate_detail_caches query_escape scope.upstream wanted_id s.detail_cache;
          })

  unfoldable pub invalidate_read_caches : String → Caches × S → Caches × S
  unfolding invalidate_item run_invalidator
  invalidate_read_caches wanted_id (s, out) =
      (invalidate_item wanted_id s, run_invalidator invalidator out)

  unfoldable pub invalidate_board : Caches → Caches
  unfolding invalidate_browse_caches invalidate_all_caches has_canonical_hosted_read_identity
      read_cache_scope
  invalidate_board s =
      if hosted && not (has_canonical_hosted_read_identity hosted identity)
      then invalidate_all_caches s
      else record s {
        browse_cache =
            invalidate_browse_caches query_escape
              (read_cache_scope hosted identity impersonate client).upstream s.browse_cache;
      }

  unfoldable pub invalidate_browse_read_caches : Caches × S → Caches × S
  unfolding invalidate_board run_invalidator
  invalidate_browse_read_caches (s, out) = (invalidate_board s, run_invalidator invalidator out)

  unfoldable pub invalidate_upstream : Caches → Caches
  unfolding invalidate_browse_caches detail_cache_prefix invalidate_all_caches
      has_canonical_hosted_read_identity read_cache_scope
  invalidate_upstream s =
      if hosted && not (has_canonical_hosted_read_identity hosted identity)
      then invalidate_all_caches s
      else (let scope = read_cache_scope hosted identity impersonate client in
          record {
            browse_cache = invalidate_browse_caches query_escape scope.upstream s.browse_cache;
            detail_cache =
                invalidate_matching s.detail_cache
                  (λ key. starts_with key (detail_cache_prefix query_escape scope.upstream));
          })

  unfoldable pub invalidate_upstream_read_caches : Caches × S → Caches × S
  unfolding invalidate_upstream run_invalidator
  invalidate_upstream_read_caches (s, out) =
      (invalidate_upstream s, run_invalidator invalidator out)
