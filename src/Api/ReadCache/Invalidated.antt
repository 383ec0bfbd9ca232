-- ===== src/Api/ReadCache/Invalidated.antt =====
-- internal/api/read_cache.go: a key that was invalidated.
use wasteland.Base.{
  Bool-cases, get, get-delete_key, ℕ, ◌≤◌, String, ◌≡◌, refl, ap, inl, inr, Bool, true, Option,
  none, some, List, [], ◌∷◌, arith, eq_refl,
}
use wasteland.Api.ReadCache.{
  CacheEntry, ReadCache, new_read_cache, join_or_start, hit_or_join, attempt, get_fresh, get_stale,
  wait, invalidate, invalidate_key, invalidate_keys, add_keys, invalidate_matching,
}
use wasteland.Api.ReadCache.Run.{Run, begin, read, fetched, drop_key, drop_matching, drop_all}
use wasteland.Api.ReadCache.Inv.{Inv, new-Inv, invalidate_key-Inv, invalidate_matching-Inv, Run-Inv}
use wasteland.Api.ReadCache.Old.{Old, Run-Old, invalidate_key-Old, invalidate_matching-Old}
use wasteland.Api.ReadCache.Seen.{invalidate_matching-gone}
use wasteland.Api.ReadCache.Fresh.{
  Fresh, hit_or_join-Fresh, run_fetch-Fresh, invalidate_key-Fresh, invalidate_matching-Fresh,
  invalidate-Fresh,
}

waits : (i j : ℕ) → wait i ≡ wait j → i ≡ j
waits i j h = cc h

module _ (P : String → Type 0) (k : String) (n : ℕ) where
  -- A fetch with a number from `n` on of the key returns data that satisfies `P`.
  abbrev pub Good : ℕ → String → String → Type 0
  Good id key bytes = n ≤ id → key ≡ k → P bytes

  Run-Fresh : {s c : ReadCache} → Fresh P k n s → Run Good s c → Fresh P k n c
  unfolding attempt
  Run-Fresh fresh begin = fresh
  Run-Fresh fresh (read {c} r now key) =
      hit_or_join-Fresh P k n c (Run-Fresh fresh r) key (get_fresh c now key)
  Run-Fresh fresh (fetched {c} r now id cl result e unfinished good) =
      run_fetch-Fresh P k n c (Run-Fresh fresh r) now id cl result e unfinished good
  Run-Fresh fresh (drop_key {c} r key) = invalidate_key-Fresh P k n c (Run-Fresh fresh r) key
  Run-Fresh fresh (drop_matching {c} r matches) =
      invalidate_matching-Fresh P k n c (Run-Fresh fresh r) matches
  Run-Fresh fresh (drop_all {c} r) = invalidate-Fresh P k n c (Run-Fresh fresh r)

  waits-ahead :
      (c : ReadCache)
      → Fresh P k n c
      → (o : Option String) (id : ℕ) → (hit_or_join c k o).0 ≡ wait id
      → n ≤ id
  unfolding hit_or_join join_or_start
  waits-ahead c fresh (some bytes) id h = cc
  waits-ahead c fresh none id h = joined (get k c.inflight) refl h
    where
      joined : (o : Option ℕ) → get k c.inflight ≡ o → (join_or_start c k o).0 ≡ wait id → n ≤ id
      joined (some j) e h = omega (arith, fresh.joined j e, waits j id h)
      joined none e h = omega (arith, fresh.ahead, waits c.next_call id h)

stale-inv :
    (o : Option CacheEntry) (bytes : String)
    → elim o [ none ↦ none | some e ↦ some e.bytes ] ≡ some bytes
    → (e : CacheEntry) × (o ≡ some e) × (e.bytes ≡ bytes)
stale-inv none bytes h = cc
stale-inv (some e) bytes h = (e, refl, cc h)

-- Right after an invalidation that leaves no entry and no fetch to join for the key.
gone-Fresh :
    (P : String → Type 0) (k : String) (n : ℕ) (c : ReadCache)
    → n ≤ c.next_call
    → Inv c
    → Old c
    → get k c.entries ≡ none
    → get k c.inflight ≡ none
    → Fresh P k n c
gone-Fresh P k n c ahead inv h no_entry no_fetch = record {
  ahead = ahead;
  old = λ id cl lt there same runs. elim (Bool-cases cl.invalidated) [
    | inl dead ↦ rw (← same) (h.stale id cl there dead)
    | inr live ↦
        absurd (cc (inv.running id cl there runs live, ap (λ i. get i c.inflight) same, no_fetch))
  ];
  joined = λ id e. cc;
  cached = λ e there. cc;
}

-- The number of the next call does not change.
next-invalidate_keys :
    (c : ReadCache) (keys : List String) → (invalidate_keys c keys).next_call ≡ c.next_call
unfolding invalidate_keys invalidate_key
next-invalidate_keys c [] = refl
next-invalidate_keys c (key ∷ keys) = next-invalidate_keys (invalidate_key c key) keys

-- What is known of a key once `Fresh` holds and more steps are taken.
later :
    (P : String → Type 0) (k : String) (n : ℕ) {s c : ReadCache}
    → Fresh P k n s
    → Run (Good P k n) s c
    → ((bytes : String) → get_stale c k ≡ some bytes → P bytes)
      × ((now id : ℕ) → (attempt c now k).0 ≡ wait id → n ≤ id)
unfolding get_stale attempt
later P k n {c = c} start after =
    let fresh = Run-Fresh P k n start after in
    (
      λ bytes h.
          let (e, there, same) = stale-inv (get k c.entries) bytes h in
          rw (← same) (fresh.cached e there),
      λ now id h. waits-ahead P k n c fresh (get_fresh c now k) id h,
    )

by_key :
    (P : String → Type 0) (k : String) (s : ReadCache)
    → Inv s
    → Old s
    → Fresh P k s.next_call (invalidate_key s k)
unfolding invalidate_key
by_key P k s inv h =
    gone-Fresh P k s.next_call (invalidate_key s k) (omega arith) (invalidate_key-Inv s inv k)
      (invalidate_key-Old s inv h k) (rw (get-delete_key k k s.entries) (rw (eq_refl k) refl))
      (rw (get-delete_key k k s.inflight) (rw (eq_refl k) refl))

pub by_match :
    (P : String → Type 0) (k : String) (s : ReadCache)
    → Inv s
    → Old s
    → (matches : String → Bool) → matches k ≡ true
    → Fresh P k s.next_call (invalidate_matching s matches)
unfolding invalidate_matching
by_match P k s inv h matches hit =
    let gone = invalidate_matching-gone s matches k hit in
    gone-Fresh P k s.next_call (invalidate_matching s matches)
      (omega (
        arith,
        next-invalidate_keys s (add_keys matches s.inflight (add_keys matches s.entries [])),
      ))
      (invalidate_matching-Inv s inv matches) (invalidate_matching-Old s inv h matches) gone.0
      gone.1

-- After an invalidation of a key, fetches of the key that began before it may still end in any
-- order. If those that begin later return data that satisfies `P`, what is cached for the key, fresh
-- or stale, satisfies `P` at all times after, and a reader that has to wait waits for a later fetch.
pub invalidate_key_sound :
    (P : String → Type 0) (k : String) (age size : ℕ) {Q : ℕ → String → String → Type 0}
    {s c : ReadCache}
    → Run Q (new_read_cache age size) s
    → Run (Good P k s.next_call) (invalidate_key s k) c
    → ((bytes : String) → get_stale c k ≡ some bytes → P bytes)
      × ((now id : ℕ) → (attempt c now k).0 ≡ wait id → s.next_call ≤ id)
invalidate_key_sound P k age size {s = s} r after =
    later P k s.next_call (by_key P k s (Run-Inv (new-Inv age size) r) (Run-Old age size r)) after

-- The same for any key that matches, after an invalidation of those that match.
pub invalidate_matching_sound :
    (P : String → Type 0) (k : String) (age size : ℕ) {Q : ℕ → String → String → Type 0}
    {s c : ReadCache} (matches : String → Bool)
    → Run Q (new_read_cache age size) s
    → matches k ≡ true
    → Run (Good P k s.next_call) (invalidate_matching s matches) c
    → ((bytes : String) → get_stale c k ≡ some bytes → P bytes)
      × ((now id : ℕ) → (attempt c now k).0 ≡ wait id → s.next_call ≤ id)
invalidate_matching_sound P k age size {s = s} matches r hit after =
    later P k s.next_call
      (by_match P k s (Run-Inv (new-Inv age size) r) (Run-Old age size r) matches hit) after

all_Fresh :
    (P : String → Type 0) (k : String) (n : ℕ) (s : ReadCache)
    → Fresh P k n (invalidate_matching s (λ key. true))
    → Fresh P k n (invalidate s)
unfolding invalidate
all_Fresh P k n s fresh = record {
  ahead = fresh.ahead;
  old = fresh.old;
  joined = λ id e. cc;
  cached = λ e there. cc;
}

-- The same for any key, after an invalidation of all.
pub invalidate_sound :
    (P : String → Type 0) (k : String) (age size : ℕ) {Q : ℕ → String → String → Type 0}
    {s c : ReadCache}
    → Run Q (new_read_cache age size) s
    → Run (Good P k s.next_call) (invalidate s) c
    → ((bytes : String) → get_stale c k ≡ some bytes → P bytes)
      × ((now id : ℕ) → (attempt c now k).0 ≡ wait id → s.next_call ≤ id)
invalidate_sound P k age size {s = s} r after =
    later P k s.next_call
      (all_Fresh P k s.next_call s
        (by_match P k s (Run-Inv (new-Inv age size) r) (Run-Old age size r) (λ key. true) refl))
      after
