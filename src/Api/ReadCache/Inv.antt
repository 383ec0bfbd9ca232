-- ===== src/Api/ReadCache/Inv.antt =====
-- internal/api/read_cache.go: how the calls stand to the maps in every state.
use wasteland.Base.{
  nat_eq, if◌then◌else◌, Bool-cases, get, put, count_of, get-put, get-delete_key, ℕ, suc, ◌≤◌,
  String, ◌≡◌, refl, ap, ◌∙◌, inl, inr, Bool, true, false, Option, none, some, List, [], ◌∷◌, arith,
  ◌==◌, eq_iff, eq_refl,
}
use wasteland.Commons.Types.{Result, ok, err}
use wasteland.Api.ReadCache.{
  Call, ReadCache, new_read_cache, set_call, start_call, join_or_start, attempt, get_fresh, release,
  store, run_fetch, invalidate_key, add_keys, invalidate_keys, invalidate_matching, invalidate,
  hit_or_join,
}
use wasteland.Api.ReadCache.Seen.{invalidate_matching-gone}
use wasteland.Api.ReadCache.Run.{Run, begin, read, fetched, drop_key, drop_matching, drop_all}
use wasteland.Api.ReadCache.Calls.{
  set_call-inv, Before, mark-before, mark-live, set_call-ne, mark-none, release-other,
}

-- Numbers ahead are free; no call is of a generation to come; a call that runs and is not
-- invalidated is the one that readers of its key join.
pub record Inv (c : ReadCache) : Type 0 where
  pub known : (id : ℕ) → c.next_call ≤ id → c.calls id ≡ none
  pub past :
      (id : ℕ) (cl : Call) → c.calls id ≡ some cl → cl.generation ≤ count_of cl.key c.generation
  pub running :
      (id : ℕ) (cl : Call)
      → c.calls id ≡ some cl
      → cl.result ≡ none
      → cl.invalidated ≡ false
      → get cl.key c.inflight ≡ some id

pub new-Inv : (age n : ℕ) → Inv (new_read_cache age n)
unfolding new_read_cache
new-Inv age n = record { known = λ id h. refl; past = λ id cl h. cc; running = λ id cl h. cc }

pub count_of-bump :
    (j k : String) (n : ℕ) (m : List (String × ℕ))
    → count_of j (put k n m) ≡ (if k == j then n else count_of j m)
count_of-bump j k n m =
    ap (λ o. elim o [ none ↦ 0 | some i ↦ i ]) (get-put j k n m)
    ∙ elim (Bool-cases (k == j)) [ inl e ↦ rw e refl | inr e ↦ rw e refl ]

pub past-same :
    (m : List (String × ℕ)) {j k : String} {a b : ℕ}
    → j ≡ k
    → a ≡ b
    → a ≤ count_of j m
    → b ≤ count_of k m
past-same m ej ea h = rw (← ej) (rw (← ea) h)

pub bump-le :
    (j k : String) (m : List (String × ℕ)) {a : ℕ}
    → a ≤ count_of k m
    → a ≤ (if j == k then suc (count_of j m) else count_of k m)
bump-le j k m h = elim (Bool-cases (j == k)) [
  | inl e ↦ rw e (omega (arith, ap (λ i. count_of i m) ((eq_iff j k).0 e)))
  | inr e ↦ rw e h
]

module _ (c : ReadCache) (inv : Inv c) where
  start_call-Inv : (key : String) → get key c.inflight ≡ none → Inv (start_call c key)
  unfolding start_call
  start_call-Inv key idle = record {
    known = λ id h.
        set_call-ne c.calls id fresh c.next_call fresh (λ e. absurd (omega arith))
        ∙ inv.known id (omega arith);
    past = λ id cl h. elim (set_call-inv c.calls id cl c.next_call fresh h) [
      | inl (i, same) ↦ rw (← same) (omega arith)
      | inr (i, before) ↦ inv.past id cl before
    ];
    running = λ id cl h unfinished live. elim (set_call-inv c.calls id cl c.next_call fresh h) [
      | inl (i, same) ↦
          rw (← same) (rw i (rw (get-put key key c.next_call c.inflight) (rw (eq_refl key) refl)))
      | inr (i, before) ↦
          rw (get-put cl.key key c.next_call c.inflight)
            (ground (arith, eq_iff key cl.key, inv.running id cl before unfinished live))
    ];
  }
    where
      fresh : Call
      fresh = record {
        key = key;
        generation = count_of key c.generation;
        invalidated = false;
        result = none;
      }

  pub invalidate_key-Inv : (key : String) → Inv (invalidate_key c key)
  unfolding invalidate_key Before
  invalidate_key-Inv key = record {
    known = λ id h. mark-none c.calls id (get key c.inflight) (inv.known id h);
    past = λ id cl h.
        let (old, e, k, g, res) = mark-before c.calls id cl (get key c.inflight) h in
        rw (count_of-bump cl.key key (suc (count_of key c.generation)) c.generation)
          (bump-le key cl.key c.generation (past-same c.generation k g (inv.past id old e)));
    running = λ id cl h unfinished live.
        let (e, ne) = mark-live c.calls id cl (get key c.inflight) h live in
        rw (get-delete_key cl.key key c.inflight)
          (ground (arith, eq_iff key cl.key, inv.running id cl e unfinished live, ne));
  }

  pub fetch-Inv :
      (id : ℕ) (cl : Call) (r : Result String)
      → c.calls id ≡ some cl
      → Inv (record c {
        calls = set_call id (record cl { result = some r }) c.calls;
        inflight = release cl.key id c.inflight;
      })
  fetch-Inv id cl r e = record {
    known = λ j h.
        set_call-ne c.calls j done id done (λ q. cc (inv.known j h, e, ap c.calls q))
        ∙ inv.known j h;
    past = λ j new h. elim (set_call-inv c.calls j new id done h) [
      | inl (i, same) ↦ rw (← same) (inv.past id cl e)
      | inr (i, before) ↦ inv.past j new before
    ];
    running = λ j new h unfinished live. elim (set_call-inv c.calls j new id done h) [
      | inl (i, same) ↦ absurd (cc (ap (λ c. c.result) same, unfinished))
      | inr (i, before) ↦
          release-other new.key cl.key id j c.inflight i (inv.running j new before unfinished live)
    ];
  }
    where
      done : Call
      done = record cl { result = some r }

  store-Inv : (now : ℕ) (cl : Call) (r : Result String) → Inv (store c now cl r)
  unfolding store
  store-Inv now cl (err e) = inv
  store-Inv now cl (ok bytes) =
      elim (Bool-cases (nat_eq (count_of cl.key c.generation) cl.generation)) [
        | inl e ↦ rw e (record { known = inv.known; past = inv.past; running = inv.running })
        | inr e ↦ rw e inv
      ]

  join_or_start-Inv :
      (key : String) (o : Option ℕ) → get key c.inflight ≡ o → Inv (join_or_start c key o).1
  unfolding join_or_start
  join_or_start-Inv key (some id) h = inv
  join_or_start-Inv key none h = start_call-Inv key h

  hit_or_join-Inv : (key : String) (o : Option String) → Inv (hit_or_join c key o).1
  unfolding hit_or_join
  hit_or_join-Inv key (some bytes) = inv
  hit_or_join-Inv key none = join_or_start-Inv key (get key c.inflight) refl

  attempt-Inv : (now : ℕ) (key : String) → Inv (attempt c now key).1
  unfolding attempt
  attempt-Inv now key = hit_or_join-Inv key (get_fresh c now key)

run_fetch-Inv :
    (c : ReadCache) (inv : Inv c) (now id : ℕ) (cl : Call) (r : Result String)
    → c.calls id ≡ some cl
    → Inv (run_fetch c now id cl r)
unfolding run_fetch
run_fetch-Inv c inv now id cl r e = store-Inv _ (fetch-Inv c inv id cl r e) now cl r

invalidate_keys-Inv : (c : ReadCache) → Inv c → (keys : List String) → Inv (invalidate_keys c keys)
unfolding invalidate_keys
invalidate_keys-Inv c inv [] = inv
invalidate_keys-Inv c inv (key ∷ keys) =
    invalidate_keys-Inv (invalidate_key c key) (invalidate_key-Inv c inv key) keys

pub invalidate_matching-Inv :
    (c : ReadCache) → Inv c → (matches : String → Bool) → Inv (invalidate_matching c matches)
unfolding invalidate_matching
invalidate_matching-Inv c inv matches =
    invalidate_keys-Inv c inv (add_keys matches c.inflight (add_keys matches c.entries []))

idle-invalidate :
    (c : ReadCache) (k : String) → get k (invalidate_matching c (λ key. true)).inflight ≡ none
idle-invalidate c k = (invalidate_matching-gone c (λ key. true) k refl).1

invalidate-Inv : (c : ReadCache) → Inv c → Inv (invalidate c)
unfolding invalidate
invalidate-Inv c inv = record {
  known = all.known;
  past = all.past;
  running = λ id cl h unfinished live.
      absurd (cc (all.running id cl h unfinished live, idle-invalidate c cl.key));
}
  where
    all : Inv (invalidate_matching c (λ key. true))
    all = invalidate_matching-Inv c inv (λ key. true)

-- The invariant holds after any steps from a state in which it holds.
pub Run-Inv : {Q : ℕ → String → String → Type 0} {s c : ReadCache} → Inv s → Run Q s c → Inv c
Run-Inv inv begin = inv
Run-Inv inv (read r now key) = attempt-Inv _ (Run-Inv inv r) now key
Run-Inv inv (fetched r now id cl result e unfinished fresh) =
    run_fetch-Inv _ (Run-Inv inv r) now id cl result e
Run-Inv inv (drop_key r key) = invalidate_key-Inv _ (Run-Inv inv r) key
Run-Inv inv (drop_matching r matches) = invalidate_matching-Inv _ (Run-Inv inv r) matches
Run-Inv inv (drop_all r) = invalidate-Inv _ (Run-Inv inv r)
