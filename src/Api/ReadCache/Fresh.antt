-- ===== src/Api/ReadCache/Fresh.antt =====
-- internal/api/read_cache.go: what readers of a key see after it was invalidated.
use wasteland.Base.{
  ltb, nat_eq, Bool-cases, get, put, count_of, get-delete_key-inv, get-put-inv, ℕ, suc, ◌≤◌, ◌<◌,
  String, ◌≡◌, refl, ap, ◌∙◌, inl, inr, Bool, true, Option, none, some, List, [], ◌∷◌, arith,
}
use wasteland.Commons.Types.{Result, ok, err}
use wasteland.Api.ReadCache.{
  Call, CacheEntry, ReadCache, set_call, start_call, join_or_start, hit_or_join, release, store,
  run_fetch, invalidate_key, add_keys, invalidate_keys, invalidate_matching, invalidate,
}
use wasteland.Api.ReadCache.Calls.{set_call-inv, Before, mark-before, release-keeps}
use wasteland.Api.ReadCache.Evict.{get-evict}
use wasteland.Api.ReadCache.Inv.{count_of-bump, bump-le}

module _ (P : String → Type 0) (k : String) (n : ℕ) where
  -- Calls with numbers under `n` that still run are of a past generation of the key, its readers join none of
  -- them, and what is cached for it satisfies `P`.
  pub record Fresh (c : ReadCache) : Type 0 where
    pub ahead : n ≤ c.next_call
    pub old :
        (id : ℕ) (cl : Call)
        → id < n
        → c.calls id ≡ some cl
        → cl.key ≡ k
        → cl.result ≡ none
        → cl.generation < count_of k c.generation
    pub joined : (id : ℕ) → get k c.inflight ≡ some id → n ≤ id
    pub cached : (e : CacheEntry) → get k c.entries ≡ some e → P e.bytes

  module _ (c : ReadCache) (fresh : Fresh c) where
    start_call-Fresh : (key : String) → Fresh (start_call c key)
    unfolding start_call
    start_call-Fresh key = record {
      ahead = omega (arith, fresh.ahead);
      old = λ id cl lt h same runs. elim (set_call-inv c.calls id cl c.next_call _ h) [
        | inl (i, new) ↦ absurd (omega (arith, fresh.ahead))
        | inr (i, before) ↦ fresh.old id cl lt before same runs
      ];
      joined = λ id h. elim (get-put-inv k key c.next_call id c.inflight h) [
        | inl (same, new) ↦ omega (arith, fresh.ahead)
        | inr (other, before) ↦ fresh.joined id before
      ];
      cached = fresh.cached;
    }

    pub invalidate_key-Fresh : (key : String) → Fresh (invalidate_key c key)
    unfolding invalidate_key Before
    invalidate_key-Fresh key = record {
      ahead = fresh.ahead;
      old = λ id cl lt h e runs.
          let (o, there, same, gen, res) = mark-before c.calls id cl (get key c.inflight) h in
          rw (count_of-bump k key (suc (count_of key c.generation)) c.generation) (
            omega (
              arith,
              bump-le key k c.generation {a = suc cl.generation}
                  (omega (arith, gen, fresh.old id o lt there (same ∙ e) (res ∙ runs))),
            ));
      joined = λ id h. fresh.joined id (get-delete_key-inv k key id c.inflight h).1;
      cached = λ e h. fresh.cached e (get-delete_key-inv k key e c.entries h).1;
    }

    fetch-Fresh :
        (id : ℕ) (cl : Call) (r : Result String)
        → c.calls id ≡ some cl
        → Fresh (record c {
          calls = set_call id (record cl { result = some r }) c.calls;
          inflight = release cl.key id c.inflight;
        })
    fetch-Fresh id cl r e = record {
      ahead = fresh.ahead;
      old = λ j new lt h same runs. elim (set_call-inv c.calls j new id _ h) [
        | inl (i, eq) ↦ absurd (cc (ap (λ c. c.result) eq, runs))
        | inr (i, before) ↦ fresh.old j new lt before same runs
      ];
      joined = λ j h. fresh.joined j (release-keeps k cl.key id j c.inflight h);
      cached = fresh.cached;
    }

    store-Fresh :
        (now : ℕ) (cl : Call) (r : Result String)
        → ((bytes : String)
            → r ≡ ok bytes
            → cl.key ≡ k
            → count_of k c.generation ≡ cl.generation
            → P bytes)
        → Fresh (store c now cl r)
    unfolding store
    store-Fresh now cl (err e) good = fresh
    store-Fresh now cl (ok bytes) good =
        elim (Bool-cases (nat_eq (count_of cl.key c.generation) cl.generation)) [
          | inl e ↦ rw e (record {
            ahead = fresh.ahead;
            old = fresh.old;
            joined = fresh.joined;
            cached = λ entry h.
                elim (get-put-inv k cl.key new entry c.entries
                  (get-evict k c.max_entries (put cl.key new c.entries) entry h)) [
                    | inl (same, eq) ↦ rw (← eq) (good bytes refl same (ground (arith, same)))
                    | inr (other, before) ↦ fresh.cached entry before
                  ];
          })
          | inr e ↦ rw e fresh
        ]
      where
        new : CacheEntry
        new = record { bytes = bytes; stored_at = now }

    pub hit_or_join-Fresh : (key : String) (o : Option String) → Fresh (hit_or_join c key o).1
    unfolding hit_or_join join_or_start
    hit_or_join-Fresh key (some bytes) = fresh
    hit_or_join-Fresh key none = joined_or_started (get key c.inflight)
      where
        joined_or_started : (o : Option ℕ) → Fresh (join_or_start c key o).1
        joined_or_started (some id) = fresh
        joined_or_started none = start_call-Fresh key

  pub run_fetch-Fresh :
      (c : ReadCache) (fresh : Fresh c) (now id : ℕ) (cl : Call) (r : Result String)
      → c.calls id ≡ some cl
      → cl.result ≡ none
      → ((bytes : String) → r ≡ ok bytes → n ≤ id → cl.key ≡ k → P bytes)
      → Fresh (run_fetch c now id cl r)
  unfolding run_fetch
  run_fetch-Fresh c fresh now id cl r e runs good =
      store-Fresh _ (fetch-Fresh c fresh id cl r e) now cl r
        (λ bytes q same gen. good bytes q (later same gen) same)
    where
      later : cl.key ≡ k → count_of k c.generation ≡ cl.generation → n ≤ id
      later same gen = elim (Bool-cases (ltb id n)) [
        | inl lt ↦ absurd (omega (arith, fresh.old id cl (ground arith) e same runs))
        | inr ge ↦ ground arith
      ]

  invalidate_keys-Fresh :
      (c : ReadCache) → Fresh c → (keys : List String) → Fresh (invalidate_keys c keys)
  unfolding invalidate_keys
  invalidate_keys-Fresh c fresh [] = fresh
  invalidate_keys-Fresh c fresh (key ∷ keys) =
      invalidate_keys-Fresh (invalidate_key c key) (invalidate_key-Fresh c fresh key) keys

  pub invalidate_matching-Fresh :
      (c : ReadCache) → Fresh c → (matches : String → Bool) → Fresh (invalidate_matching c matches)
  unfolding invalidate_matching
  invalidate_matching-Fresh c fresh matches =
      invalidate_keys-Fresh c fresh (add_keys matches c.inflight (add_keys matches c.entries []))

  pub invalidate-Fresh : (c : ReadCache) → Fresh c → Fresh (invalidate c)
  unfolding invalidate
  invalidate-Fresh c fresh = record {
    ahead = all.ahead;
    old = all.old;
    joined = λ id h. cc;
    cached = λ e h. cc;
  }
    where
      all : Fresh (invalidate_matching c (λ key. true))
      all = invalidate_matching-Fresh c fresh (λ key. true)
