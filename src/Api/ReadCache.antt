-- ===== src/Api/ReadCache.antt =====
-- internal/api/read_cache.go: a read-through cache whose readers share a fetch. Each function is
-- what one holder of the lock does. The calls are a store by number, as pointers are; a call's
-- result is there once its channel is closed. Data is never nil, and is a text, `bytes`. The order of a list stands for the
-- order in which Go walks a map. Tracing is left out.
pub mod Evict
pub mod Run
pub mod Calls
pub mod Seen
pub mod Inv
pub mod Old
pub mod Fresh
pub mod Invalidated
pub mod Bounds
use wasteland.Base.{
  ltb, leb, nat_eq, if◌then◌else◌, length, get, put, member, count_of, delete_key, sort_by, ℕ, zero,
  suc, ◌-◌, String, Bool, true, false, not, ◌&&◌, Option, none, some, List, [], ◌∷◌,
}
use wasteland.Commons.Types.{Result, ok, err}

pub record CacheEntry : Type 0 where
  pub bytes : String
  pub stored_at : ℕ

pub record Call : Type 0 where
  pub key : String
  pub generation : ℕ
  pub invalidated : Bool
  pub result : Option (Result String)

pub record ReadCache : Type 0 where
  pub entries : List (String × CacheEntry)
  pub inflight : List (String × ℕ)
  pub generation : List (String × ℕ)
  pub max_age : ℕ
  pub max_entries : ℕ
  pub calls : ℕ → Option Call
  pub next_call : ℕ

unfoldable pub new_read_cache : ℕ → ℕ → ReadCache
new_read_cache max_age max_entries = record {
  entries = [];
  inflight = [];
  generation = [];
  max_age = max_age;
  max_entries = max_entries;
  calls = λ id. none;
  next_call = 0;
}

unfoldable pub set_call : ℕ → Call → (ℕ → Option Call) → ℕ → Option Call
set_call id cl calls j = if nat_eq j id then some cl else calls j

-- Fresh data, at a time.
unfoldable pub get_fresh : ReadCache → ℕ → String → Option String
get_fresh c now key = elim (get key c.entries) [
  | none ↦ none
  | some e ↦ if ltb c.max_age (now - e.stored_at) then none else some e.bytes
]

unfoldable pub get_stale : ReadCache → String → Option String
get_stale c key = elim (get key c.entries) [ none ↦ none | some e ↦ some e.bytes ]

-- One pass of a reader: data, or the call to wait for.
pub data Attempt : Type 0 where
  hit : String → Attempt
  wait : ℕ → Attempt

unfoldable pub start_call : ReadCache → String → ReadCache
unfolding set_call
start_call c key = record c {
  calls =
      set_call c.next_call
        (record {
          key = key;
          generation = count_of key c.generation;
          invalidated = false;
          result = none;
        })
        c.calls;
  inflight = put key c.next_call c.inflight;
  next_call = suc c.next_call;
}

unfoldable pub join_or_start : ReadCache → String → Option ℕ → Attempt × ReadCache
unfolding start_call
join_or_start c key (some id) = (wait id, c)
join_or_start c key none = (wait c.next_call, start_call c key)

unfoldable pub hit_or_join : ReadCache → String → Option String → Attempt × ReadCache
unfolding join_or_start
hit_or_join c key (some bytes) = (hit bytes, c)
hit_or_join c key none = join_or_start c key (get key c.inflight)

unfoldable pub attempt : ReadCache → ℕ → String → Attempt × ReadCache
unfolding get_fresh hit_or_join
attempt c now key = hit_or_join c key (get_fresh c now key)

-- The reader that waits: nothing yet, an order to try again, or the result of the fetch. A request
-- that was given up gets its own error in place of nothing and of the order.
pub data Waited : Type 0 where
  blocked : Waited
  given_up : Waited
  retry : Waited
  answer : Result String → Waited

unfoldable pub wait_for_call : Bool → Call → Waited
wait_for_call cancelled cl = elim cl.result [
  | none ↦ if cancelled then given_up else blocked
  | some r ↦ if cl.invalidated then (if cancelled then given_up else retry) else answer r
]

unfoldable pub take_keys : ℕ → List (String × CacheEntry) → List String
take_keys zero items = []
take_keys (suc n) [] = []
take_keys (suc n) ((key, e) ∷ items) = key ∷ take_keys n items

unfoldable pub older : String × CacheEntry → String × CacheEntry → Bool
older (j, a) (k, b) = ltb a.stored_at b.stored_at

unfoldable pub delete_all : {V : Type 0} → List String → List (String × V) → List (String × V)
delete_all [] m = m
delete_all (key ∷ keys) m = delete_all keys (delete_key key m)

-- Deletes the oldest entries beyond the capacity.
unfoldable pub evict : ℕ → List (String × CacheEntry) → List (String × CacheEntry)
unfolding take_keys older delete_all
evict max_entries entries =
    if leb (length entries) max_entries
    then entries
    else delete_all (take_keys (length entries - max_entries) (sort_by older entries)) entries

unfoldable pub release_if : String → ℕ → Option ℕ → List (String × ℕ) → List (String × ℕ)
release_if key id none m = m
release_if key id (some j) m = if nat_eq j id then delete_key key m else m

unfoldable pub release : String → ℕ → List (String × ℕ) → List (String × ℕ)
unfolding release_if
release key id m = release_if key id (get key m) m

-- A result is stored, unless its key was invalidated since the fetch began.
unfoldable pub store : ReadCache → ℕ → Call → Result String → ReadCache
unfolding evict
store c now cl (err e) = c
store c now cl (ok bytes) =
    if nat_eq (count_of cl.key c.generation) cl.generation
    then record c {
      entries =
          evict c.max_entries (put cl.key (record { bytes = bytes; stored_at = now }) c.entries);
    }
    else c

-- The end of `runFetch`, with what the fetch returned; a panic is an error.
unfoldable pub run_fetch : ReadCache → ℕ → ℕ → Call → Result String → ReadCache
unfolding store release set_call
run_fetch c now id cl r =
    store
      (record c {
        calls = set_call id (record cl { result = some r }) c.calls;
        inflight = release cl.key id c.inflight;
      })
      now cl r

unfoldable pub mark_call : ℕ → Option Call → (ℕ → Option Call) → ℕ → Option Call
unfolding set_call
mark_call id none calls = calls
mark_call id (some cl) calls = set_call id (record cl { invalidated = true }) calls

unfoldable pub mark : Option ℕ → (ℕ → Option Call) → ℕ → Option Call
unfolding mark_call
mark none calls = calls
mark (some id) calls = mark_call id (calls id) calls

unfoldable pub invalidate_key : ReadCache → String → ReadCache
unfolding mark
invalidate_key c key = record c {
  entries = delete_key key c.entries;
  calls = mark (get key c.inflight) c.calls;
  inflight = delete_key key c.inflight;
  generation = put key (suc (count_of key c.generation)) c.generation;
}

-- The keys of a map that match, added to a set.
unfoldable pub add_keys :
    {V : Type 0} → (String → Bool) → List (String × V) → List String → List String
add_keys matches [] seen = seen
add_keys matches ((key, v) ∷ m) seen =
    let rest = add_keys matches m seen in
    if matches key && not (member key rest) then key ∷ rest else rest

unfoldable pub invalidate_keys : ReadCache → List String → ReadCache
unfolding invalidate_key
invalidate_keys c [] = c
invalidate_keys c (key ∷ keys) = invalidate_keys (invalidate_key c key) keys

unfoldable pub invalidate_matching : ReadCache → (String → Bool) → ReadCache
unfolding invalidate_keys add_keys
invalidate_matching c matches =
    invalidate_keys c (add_keys matches c.inflight (add_keys matches c.entries []))

unfoldable pub invalidate : ReadCache → ReadCache
unfolding invalidate_matching
invalidate c = record (invalidate_matching c (λ key. true)) { entries = []; inflight = [] }
