-- ===== src/Api/CacheScope/Keys.antt =====
-- internal/api/cache_scope.go: when two reads have one key.
use wasteland.Base.{
  trim_space, join, cut, cut-append, String, ◌<>◌, ◌≡◌, refl, sym, ap, ◌∙◌, ◌⊎◌, inl, inr, Option,
  none, some,
}
use Prim.Native.Char.{Char}
use text.Mathlib.TextLemmas.{nil-append, cons-append, append_cancel_left}
use wasteland.Api.CacheScope.{
  ReadCacheScope, cache_key_part, scoped_key, detail_cache_key, browse_cache_key,
}

-- `url.QueryEscape` writes no colon, and different texts differently.
pub record Escapes (query_escape : String → String) : Type 0 where
  pub no_colon : (s : String) → cut b':' (query_escape s) ≡ none
  pub injective : (s t : String) → query_escape s ≡ query_escape t → s ≡ t

abbrev colon : Char
colon = ":"

cut_at : (s t : String) → cut b':' s ≡ none → cut b':' (s <> ":" <> t) ≡ some (s, t)
cut_at s t h = rw (cons-append colon "" t, nil-append t) (cut-append b':' colon refl t s h)

pair_inv :
    {s t s' t' : String}
    → ◌≡◌ {A = Option (String × String)} (some (s, t)) (some (s', t'))
    → (s ≡ s') × (t ≡ t')
pair_inv e = (cc e, cc e)

-- The first parts before a colon agree, and what follows.
colon-inv :
    (s t s' t' : String)
    → cut b':' s ≡ none
    → cut b':' s' ≡ none
    → s <> ":" <> t ≡ s' <> ":" <> t'
    → (s ≡ s') × (t ≡ t')
colon-inv s t s' t' h h' e = pair_inv (sym (cut_at s t h) ∙ ap (cut b':') e ∙ cut_at s' t' h')

-- Two scopes that agree up to the spaces around their parts.
abbrev pub SameScope : ReadCacheScope → ReadCacheScope → Type 0
SameScope a b =
    (trim_space a.upstream ≡ trim_space b.upstream)
    × (trim_space a.viewer ≡ trim_space b.viewer)
    × (trim_space a.mode ≡ trim_space b.mode)
    × (trim_space a.impersonate ≡ trim_space b.impersonate)

module _ (query_escape : String → String) (escapes : Escapes query_escape) where
  part-inv :
      (s t : String)
      → cache_key_part query_escape s ≡ cache_key_part query_escape t
      → trim_space s ≡ trim_space t
  unfolding cache_key_part
  part-inv s t h = escapes.injective (trim_space s) (trim_space t) h

  next :
      (s t : String) (x y : String)
      → cache_key_part query_escape s <> ":" <> x ≡ cache_key_part query_escape t <> ":" <> y
      → (trim_space s ≡ trim_space t) × (x ≡ y)
  unfolding cache_key_part
  next s t x y h =
      let (same, rest) =
        colon-inv _ x _ y (escapes.no_colon (trim_space s)) (escapes.no_colon (trim_space t)) h in
      (escapes.injective (trim_space s) (trim_space t) same, rest)

  scoped_key-inv :
      (kind : String) (a b : ReadCacheScope) (x y : String)
      → scoped_key query_escape kind a x ≡ scoped_key query_escape kind b y
      → SameScope a b × (trim_space x ≡ trim_space y)
  unfolding scoped_key join
  scoped_key-inv kind a b x y h =
      let start = append_cancel_left ":" _ _ (append_cancel_left kind _ _ h) in
      let (upstream, h1) = next a.upstream b.upstream _ _ start in
      let (viewer, h2) = next a.viewer b.viewer _ _ h1 in
      let (mode, h3) = next a.mode b.mode _ _ h2 in
      let (impersonate, h4) = next a.impersonate b.impersonate _ _ h3 in
      ((upstream, viewer, mode, impersonate), part-inv x y h4)

  -- If the escape of a part writes no colon and differs for different texts, two reads of items, and
  -- two reads of the board, share an entry only if their upstream, viewer, mode, impersonated rig and
  -- item, or query, are the same up to the spaces around them.
  pub cache_key-inj :
      (a b : ReadCacheScope) (x y : String)
      → (detail_cache_key query_escape a x ≡ detail_cache_key query_escape b y)
        ⊎ (browse_cache_key query_escape a x ≡ browse_cache_key query_escape b y)
      → SameScope a b × (trim_space x ≡ trim_space y)
  unfolding detail_cache_key browse_cache_key
  cache_key-inj a b x y (inl h) = scoped_key-inv "detail" a b x y h
  cache_key-inj a b x y (inr h) = scoped_key-inv "browse" a b x y h
