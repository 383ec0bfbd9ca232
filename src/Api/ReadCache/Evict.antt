-- ===== src/Api/ReadCache/Evict.antt =====
-- internal/api/read_cache.go: what eviction leaves.
use wasteland.Base.{
  leb, if◌then◌else◌, Bool-cases, length, get, member, delete_key, get-delete_key, same_text,
  sort_by, count_by, count_by-le, count_by-sort_by, length-sort_by, ℕ, zero, suc, ◌-◌, ◌≤◌, String,
  ◌≡◌, refl, sym, ap, ◌∙◌, inl, inr, Bool, true, false, not, none, some, List, [], ◌∷◌, arith, ◌==◌,
  eq_refl,
}
use wasteland.Api.ReadCache.{CacheEntry, take_keys, older, delete_all, evict}

delete_all-cons :
    {V : Type 0} (ks : List String) (j : String) (w : V) (m : List (String × V))
    → delete_all ks ((j, w) ∷ m)
      ≡ (if member j ks then delete_all ks m else (j, w) ∷ delete_all ks m)
unfolding delete_all delete_key
delete_all-cons [] j w m = refl
delete_all-cons (k ∷ ks) j w m = elim (Bool-cases (j == k)) [
  | inl e ↦ rw e (rw (← same_text j k) (rw e refl))
  | inr e ↦ rw e (rw (delete_all-cons ks j w (delete_key k m)) (rw (← same_text j k) (rw e refl)))
]

unfoldable stays : {V : Type 0} → List String → String × V → Bool
stays ks (j, w) = not (member j ks)

length-delete_all :
    {V : Type 0} (ks : List String) (m : List (String × V))
    → length (delete_all ks m) ≡ count_by (stays ks) m
unfolding delete_all count_by stays delete_key
length-delete_all [] [] = refl
length-delete_all (k ∷ ks) [] = length-delete_all ks []
length-delete_all ks ((j, w) ∷ m) = rw (delete_all-cons ks j w m) (elim (Bool-cases (member j ks)) [
  | inl e ↦ rw e (length-delete_all ks m)
  | inr e ↦ rw e (ap suc (length-delete_all ks m))
])

pub get-delete_all :
    {V : Type 0} (j : String) (ks : List String) (m : List (String × V))
    → get j (delete_all ks m) ≡ (if member j ks then none else get j m)
unfolding delete_all
get-delete_all j [] m = refl
get-delete_all j (k ∷ ks) m =
    rw (get-delete_all j ks (delete_key k m)) (rw (get-delete_key j k m) (ground arith))

count_by-take_keys :
    (ks : List String) (n : ℕ) (m : List (String × CacheEntry))
    → ((j : String) → member j (take_keys n m) ≡ true → member j ks ≡ true)
    → count_by (stays ks) m ≤ length m - n
unfolding count_by stays take_keys
count_by-take_keys ks zero m inc = omega (arith, count_by-le (stays ks) m)
count_by-take_keys ks (suc n) [] inc = omega arith
count_by-take_keys ks (suc n) ((j, e) ∷ m) inc =
    rw (inc j (ground (arith, eq_refl j)))
      (omega (arith, count_by-take_keys ks n m (λ i h. inc i (ground arith))))

-- After a result is stored and the cache is cut to size, it holds no more entries than its capacity.
pub length-evict : (n : ℕ) (m : List (String × CacheEntry)) → length (evict n m) ≤ n
unfolding evict
length-evict n m = elim (Bool-cases (leb (length m) n)) [
  | inl e ↦ rw e (ground arith)
  | inr e ↦ rw e (
      rw (length-delete_all ks m)
        (omega (arith, within, length-sort_by older m, count_by-sort_by older (stays ks) m)))
]
  where
    items : List (String × CacheEntry)
    items = sort_by older m

    ks : List String
    ks = take_keys (length m - n) items

    within : count_by (stays ks) items ≤ length items - (length m - n)
    within = count_by-take_keys ks (length m - n) items (λ j h. h)

pub get-evict :
    (k : String) (n : ℕ) (m : List (String × CacheEntry)) (e : CacheEntry)
    → get k (evict n m) ≡ some e
    → get k m ≡ some e
unfolding evict
get-evict k n m e = left (leb (length m) n)
  where
    ks : List String
    ks = take_keys (length m - n) (sort_by older m)

    there : (b : Bool) → (if b then none else get k m) ≡ some e → get k m ≡ some e
    there true h = cc
    there false h = h

    left : (b : Bool) → get k (if b then m else delete_all ks m) ≡ some e → get k m ≡ some e
    left true h = h
    left false h = there (member k ks) (sym (get-delete_all k ks m) ∙ h)
