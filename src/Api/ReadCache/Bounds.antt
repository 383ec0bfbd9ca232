-- ===== src/Api/ReadCache/Bounds.antt =====
-- internal/api/read_cache.go: how many entries and fetches there are at a time.
use wasteland.Base.{
  nat_eq, Bool-cases, length, get, put, count_of, length-delete_key, ℕ, ◌≤◌, String, ◌≡◌, refl, ap,
  inl, inr, Bool, true, false, Option, none, some, List, [], ◌∷◌, arith,
}
use wasteland.Commons.Types.{Result, ok, err}
use wasteland.Api.ReadCache.{
  Call, ReadCache, new_read_cache, start_call, join_or_start, hit_or_join, attempt, get_fresh,
  store, run_fetch, invalidate_key, add_keys, invalidate_keys, invalidate_matching, invalidate,
  set_call, release,
}
use wasteland.Api.ReadCache.Run.{Run, begin, read, fetched, drop_key, drop_matching, drop_all}
use wasteland.Api.ReadCache.Evict.{length-evict}
use wasteland.Api.ReadCache.Inv.{new-Inv, Run-Inv}

-- In every state that readers, fetches and invalidations reach in any order, two fetches of one key
-- that are running and not invalidated are the same one: readers of a key share its fetch.
pub one_fetch :
    (age size : ℕ) {Q : ℕ → String → String → Type 0} {c : ReadCache}
    → Run Q (new_read_cache age size) c
    → (i j : ℕ) (a b : Call) → c.calls i ≡ some a
    → c.calls j ≡ some b
    → a.key ≡ b.key
    → (a.result ≡ none) × (a.invalidated ≡ false)
    → (b.result ≡ none) × (b.invalidated ≡ false)
    → i ≡ j
one_fetch age size {c = c} r i j a b ea eb same ra rb =
    let inv = Run-Inv (new-Inv age size) r in
    cc (inv.running i a ea ra.0 ra.1, inv.running j b eb rb.0 rb.1, ap (λ k. get k c.inflight) same)

unfoldable Within : ℕ → ReadCache → Type 0
Within size c = (length c.entries ≤ size) × (c.max_entries ≡ size)

module _ (size : ℕ) where
  hit_or_join-Within :
      (c : ReadCache)
      → Within size c
      → (key : String) (o : Option String) → Within size (hit_or_join c key o).1
  unfolding hit_or_join join_or_start start_call Within
  hit_or_join-Within c h key (some bytes) = h
  hit_or_join-Within c h key none = joined (get key c.inflight)
    where
      joined : (o : Option ℕ) → Within size (join_or_start c key o).1
      joined (some id) = h
      joined none = h

  store-Within :
      (c : ReadCache)
      → Within size c
      → (now : ℕ) (cl : Call) (r : Result String) → Within size (store c now cl r)
  unfolding store Within
  store-Within c h now cl (err e) = h
  store-Within c h now cl (ok bytes) =
      elim (Bool-cases (nat_eq (count_of cl.key c.generation) cl.generation)) [
        | inl e ↦ rw e (
          omega (
            arith,
            length-evict c.max_entries
                (put cl.key (record { bytes = bytes; stored_at = now }) c.entries),
            h.1,
          ),
          h.1,
        )
        | inr e ↦ rw e h
      ]

  invalidate_keys-Within :
      (c : ReadCache) → Within size c → (keys : List String) → Within size (invalidate_keys c keys)
  unfolding invalidate_keys invalidate_key Within
  invalidate_keys-Within c h [] = h
  invalidate_keys-Within c h (key ∷ keys) =
      invalidate_keys-Within (invalidate_key c key)
        (omega (arith, length-delete_key key c.entries, h.0), h.1) keys

  run_fetch-Within :
      (c : ReadCache)
      → Within size c
      → (now id : ℕ) (cl : Call) (r : Result String) → Within size (run_fetch c now id cl r)
  unfolding run_fetch Within
  run_fetch-Within c h now id cl r =
      store-Within
        (record c {
          calls = set_call id (record cl { result = some r }) c.calls;
          inflight = release cl.key id c.inflight;
        })
        h now cl r

  invalidate_matching-Within :
      (c : ReadCache)
      → Within size c
      → (matches : String → Bool) → Within size (invalidate_matching c matches)
  unfolding invalidate_matching
  invalidate_matching-Within c h matches =
      invalidate_keys-Within c h (add_keys matches c.inflight (add_keys matches c.entries []))

  invalidate-Within : (c : ReadCache) → Within size c → Within size (invalidate c)
  unfolding invalidate Within
  invalidate-Within c h = (omega arith, (invalidate_matching-Within c h (λ key. true)).1)

  Run-Within :
      {Q : ℕ → String → String → Type 0} {s c : ReadCache}
      → Within size s
      → Run Q s c
      → Within size c
  unfolding attempt invalidate_key invalidate_keys
  Run-Within h begin = h
  Run-Within h (read {c} r now key) =
      hit_or_join-Within c (Run-Within h r) key (get_fresh c now key)
  Run-Within h (fetched {c} r now id cl result e unfinished good) =
      run_fetch-Within c (Run-Within h r) now id cl result
  Run-Within h (drop_key {c} r key) = invalidate_keys-Within c (Run-Within h r) (key ∷ [])
  Run-Within h (drop_matching {c} r matches) = invalidate_matching-Within c (Run-Within h r) matches
  Run-Within h (drop_all {c} r) = invalidate-Within c (Run-Within h r)

-- In every state that readers, fetches and invalidations reach in any order, the cache holds no more
-- entries than its capacity.
pub entries-le :
    (age size : ℕ) {Q : ℕ → String → String → Type 0} {c : ReadCache}
    → Run Q (new_read_cache age size) c
    → length c.entries ≤ size
unfolding Within new_read_cache
entries-le age size r = (Run-Within size (omega arith, refl) r).0
