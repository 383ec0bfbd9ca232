-- ===== src/Api/ReadCache/Old.antt =====
-- internal/api/read_cache.go: calls that were invalidated, and the calls that readers join.
use wasteland.Base.{
  nat_eq, if◌then◌else◌, Bool-cases, get, count_of, get-delete_key-inv, get-put-inv, ℕ, suc, ◌≤◌,
  ◌<◌, String, ◌≡◌, sym, ap, ◌∙◌, inl, inr, Bool, true, Option, none, some, List, [], ◌∷◌, arith,
  ◌==◌, eq_iff,
}
use wasteland.Commons.Types.{Result, ok, err}
use wasteland.Api.ReadCache.{
  Call, ReadCache, new_read_cache, set_call, start_call, join_or_start, hit_or_join, attempt,
  get_fresh, release, store, run_fetch, invalidate_key, add_keys, invalidate_keys,
  invalidate_matching, invalidate,
}
use wasteland.Api.ReadCache.Run.{Run, begin, read, fetched, drop_key, drop_matching, drop_all}
use wasteland.Api.ReadCache.Calls.{
  set_call-inv, set_call-ne, set_call-eq, Marked, mark-Marked, mark-key, release-keeps,
}
use wasteland.Api.ReadCache.Inv.{
  Inv, new-Inv, count_of-bump, past-same, bump-le, invalidate_key-Inv, fetch-Inv, Run-Inv,
}

-- An invalidated call is of a past generation; the call that readers of a key join is for the key.
pub record Old (c : ReadCache) : Type 0 where
  pub stale :
      (id : ℕ) (cl : Call)
      → c.calls id ≡ some cl
      → cl.invalidated ≡ true
      → cl.generation < count_of cl.key c.generation
  pub shared :
      (k : String) (id : ℕ)
      → get k c.inflight ≡ some id
      → (cl : Call) × (c.calls id ≡ some cl) × (cl.key ≡ k)

some_inj : {a b : Call} → ◌≡◌ {A = Option Call} (some a) (some b) → a ≡ b
some_inj e = cc e

now_bumped :
    (j k : String) (m : List (String × ℕ)) {a : ℕ}
    → j ≡ k
    → a ≤ count_of k m
    → a < (if j == k then suc (count_of j m) else count_of k m)
now_bumped j k m e h = rw ((eq_iff j k).1 e) (omega (arith, ap (λ i. count_of i m) e))

module _ (c : ReadCache) (inv : Inv c) (h : Old c) where
  start_call-Old : (key : String) → Old (start_call c key)
  unfolding start_call
  start_call-Old key = record {
    stale = λ id cl e dead. elim (set_call-inv c.calls id cl c.next_call _ e) [
      | inl (i, new) ↦ absurd (cc (ap (λ c. c.invalidated) new, dead))
      | inr (i, before) ↦ h.stale id cl before dead
    ];
    shared = λ k id e. elim (get-put-inv k key c.next_call id c.inflight e) [
      | inl (same, new) ↦ rw (← new) (_, set_call-eq c.calls c.next_call _, same)
      | inr (other, before) ↦
          let (cl, there, q) = h.shared k id before in
          (
            cl,
            set_call-ne c.calls id cl c.next_call _ (λ i. cc (inv.known id (omega arith), there))
                ∙ there,
            q,
          )
    ];
  }

  pub invalidate_key-Old : (key : String) → Old (invalidate_key c key)
  unfolding invalidate_key Marked
  invalidate_key-Old key = record {
    stale = λ id cl e dead.
        let (old, was, k, g, how) = mark-Marked c.calls id cl (get key c.inflight) e in
        rw (count_of-bump cl.key key (suc (count_of key c.generation)) c.generation) (elim how [
          | inl same ↦ omega (
            arith,
            bump-le key cl.key c.generation {a = suc cl.generation} (
                past-same c.generation {a = suc old.generation} {b = suc cl.generation} k (ap suc g)
                  (h.stale id old was (same ∙ dead))),
          )
          | inr here ↦
              let (found, there, q) = h.shared key id here in
              let own : key ≡ cl.key = sym q ∙ ap (λ c. c.key) (some_inj (sym there ∙ was)) ∙ k in
              now_bumped key cl.key c.generation own
                (past-same c.generation k g (inv.past id old was))
        ]);
    shared = λ k id e.
        let (cl, there, q) = h.shared k id (get-delete_key-inv k key id c.inflight e).1 in
        let (new, now_there, same) = mark-key c.calls id cl (get key c.inflight) there in
        (new, now_there, same ∙ q);
  }

  fetch-Old :
      (id : ℕ) (cl : Call) (r : Result String)
      → c.calls id ≡ some cl
      → Old (record c {
        calls = set_call id (record cl { result = some r }) c.calls;
        inflight = release cl.key id c.inflight;
      })
  fetch-Old id cl r e = record {
    stale = λ j new there dead. elim (set_call-inv c.calls j new id _ there) [
      | inl (i, same) ↦ rw (← same) (h.stale id cl e (ap (λ c. c.invalidated) same ∙ dead))
      | inr (i, before) ↦ h.stale j new before dead
    ];
    shared = λ k j there.
        let (old, was, q) = h.shared k j (release-keeps k cl.key id j c.inflight there) in
        elim (Bool-cases (nat_eq j id)) [
          | inl same ↦
              let here : j ≡ id = ground arith in
              (
                done,
                rw here (set_call-eq c.calls id done),
                ap (λ c. c.key) (some_inj (sym e ∙ ap c.calls (sym here) ∙ was)) ∙ q,
              )
          | inr other ↦ (old, set_call-ne c.calls j old id done (ground arith) ∙ was, q)
        ];
  }
    where
      done : Call
      done = record cl { result = some r }

  store-Old : (now : ℕ) (cl : Call) (r : Result String) → Old (store c now cl r)
  unfolding store
  store-Old now cl (err e) = h
  store-Old now cl (ok bytes) =
      elim (Bool-cases (nat_eq (count_of cl.key c.generation) cl.generation)) [
        | inl e ↦ rw e (record { stale = h.stale; shared = h.shared })
        | inr e ↦ rw e h
      ]

  hit_or_join-Old : (key : String) (o : Option String) → Old (hit_or_join c key o).1
  unfolding hit_or_join join_or_start
  hit_or_join-Old key (some bytes) = h
  hit_or_join-Old key none = joined_or_started (get key c.inflight)
    where
      joined_or_started : (o : Option ℕ) → Old (join_or_start c key o).1
      joined_or_started (some id) = h
      joined_or_started none = start_call-Old key

run_fetch-Old :
    (c : ReadCache)
    → Inv c
    → Old c
    → (now id : ℕ) (cl : Call) (r : Result String) → c.calls id ≡ some cl
    → Old (run_fetch c now id cl r)
unfolding run_fetch
run_fetch-Old c inv h now id cl r e =
    store-Old
      (record c {
        calls = set_call id (record cl { result = some r }) c.calls;
        inflight = release cl.key id c.inflight;
      })
      (fetch-Inv c inv id cl r e) (fetch-Old c inv h id cl r e) now cl r

invalidate_keys-Old :
    (c : ReadCache) → Inv c → Old c → (keys : List String) → Old (invalidate_keys c keys)
unfolding invalidate_keys
invalidate_keys-Old c inv h [] = h
invalidate_keys-Old c inv h (key ∷ keys) =
    invalidate_keys-Old (invalidate_key c key) (invalidate_key-Inv c inv key)
      (invalidate_key-Old c inv h key) keys

pub invalidate_matching-Old :
    (c : ReadCache)
    → Inv c
    → Old c
    → (matches : String → Bool) → Old (invalidate_matching c matches)
unfolding invalidate_matching
invalidate_matching-Old c inv h matches =
    invalidate_keys-Old c inv h (add_keys matches c.inflight (add_keys matches c.entries []))

invalidate-Old : (c : ReadCache) → Inv c → Old c → Old (invalidate c)
unfolding invalidate
invalidate-Old c inv h =
    let all = invalidate_matching-Old c inv h (λ key. true) in
    record { stale = all.stale; shared = λ k id e. cc }

new-Old : (age n : ℕ) → Old (new_read_cache age n)
unfolding new_read_cache
new-Old age n = record { stale = λ id cl e. cc; shared = λ k id e. cc }

-- Both invariants hold after any steps of a new cache.
pub Run-Old :
    (age n : ℕ) {Q : ℕ → String → String → Type 0} {c : ReadCache}
    → Run Q (new_read_cache age n) c
    → Old c
unfolding attempt
Run-Old age n begin = new-Old age n
Run-Old age n (read {c} r now key) =
    hit_or_join-Old c (Run-Inv (new-Inv age n) r) (Run-Old age n r) key (get_fresh c now key)
Run-Old age n (fetched {c} r now id cl result e unfinished good) =
    run_fetch-Old c (Run-Inv (new-Inv age n) r) (Run-Old age n r) now id cl result e
Run-Old age n (drop_key {c} r key) =
    invalidate_key-Old c (Run-Inv (new-Inv age n) r) (Run-Old age n r) key
Run-Old age n (drop_matching {c} r matches) =
    invalidate_matching-Old c (Run-Inv (new-Inv age n) r) (Run-Old age n r) matches
Run-Old age n (drop_all {c} r) = invalidate-Old c (Run-Inv (new-Inv age n) r) (Run-Old age n r)
