-- ===== src/Api/ReadCache/Calls.antt =====
-- internal/api/read_cache.go: what a step does to the calls.
use wasteland.Base.{
  nat_eq, if◌then◌else◌, Bool-cases, get, delete_key, get-delete_key, get-delete_key-inv, ℕ, String,
  ◌≡◌, refl, sym, ap, ◌∙◌, ◌≢◌, ◌⊎◌, inl, inr, Bool, true, false, Option, none, some, List, arith,
  eq_iff,
}
use wasteland.Api.ReadCache.{Call, set_call, mark_call, mark, release_if, release}

module _ (calls : ℕ → Option Call) (id : ℕ) (cl : Call) where
  pub set_call-inv :
      (j : ℕ) (new : Call)
      → set_call j new calls id ≡ some cl
      → ((id ≡ j) × (new ≡ cl)) ⊎ ((id ≢ j) × (calls id ≡ some cl))
  unfolding set_call
  set_call-inv j new h = elim (Bool-cases (nat_eq id j)) [
    | inl e ↦ inl (ground arith)
    | inr e ↦ inr (ground arith)
  ]

  unfoldable pub Before : Type 0
  Before =
      (old : Call) × (calls id ≡ some old)
      × (old.key ≡ cl.key)
      × (old.generation ≡ cl.generation)
      × (old.result ≡ cl.result)

  mark_call-before :
      (j : ℕ) (o : Option Call) → calls j ≡ o → mark_call j o calls id ≡ some cl → Before
  unfolding mark_call Before
  mark_call-before j none e h = (cl, h, refl, refl, refl)
  mark_call-before j (some old) e h = elim (set_call-inv j (record old { invalidated = true }) h) [
    | inl (i, same) ↦
        (old, rw i e, ap (λ c. c.key) same, ap (λ c. c.generation) same, ap (λ c. c.result) same)
    | inr (i, same) ↦ (cl, same, refl, refl, refl)
  ]

  -- A call after marking was there before, with the same key and generation.
  pub mark-before : (o : Option ℕ) → mark o calls id ≡ some cl → Before
  unfolding mark Before
  mark-before none h = (cl, h, refl, refl, refl)
  mark-before (some j) h = mark_call-before j (calls j) refl h

  mark_call-live :
      (j : ℕ) (o : Option Call)
      → calls j ≡ o
      → mark_call j o calls id ≡ some cl
      → cl.invalidated ≡ false
      → (calls id ≡ some cl) × (j ≢ id)
  unfolding mark_call
  mark_call-live j none e h live = (h, λ i. cc (ap calls i))
  mark_call-live j (some old) e h live =
      elim (set_call-inv j (record old { invalidated = true }) h) [
        | inl (i, same) ↦ cc (ap (λ c. c.invalidated) same)
        | inr (i, same) ↦ (same, λ k. i (sym k))
      ]

  -- And it is the same if it is not marked.
  pub mark-live :
      (o : Option ℕ)
      → mark o calls id ≡ some cl
      → cl.invalidated ≡ false
      → (calls id ≡ some cl) × (o ≢ some id)
  unfolding mark
  mark-live none h live = (h, cc)
  mark-live (some j) h live =
      let r = mark_call-live j (calls j) refl h live in (r.0, λ e. r.1 (cc e))

  pub set_call-ne : (j : ℕ) (new : Call) → id ≢ j → set_call j new calls id ≡ calls id
  unfolding set_call
  set_call-ne j new h = ground arith

module _ (calls : ℕ → Option Call) (id : ℕ) (cl : Call) where
  pub set_call-eq : set_call id cl calls id ≡ some cl
  unfolding set_call
  set_call-eq = ground arith

  mark_call-key :
      (j : ℕ) (o : Option Call)
      → calls j ≡ o
      → calls id ≡ some cl
      → (new : Call) × (mark_call j o calls id ≡ some new) × (new.key ≡ cl.key)
  unfolding mark_call set_call
  mark_call-key j none e h = (cl, h, refl)
  mark_call-key j (some old) e h = elim (Bool-cases (nat_eq id j)) [
    | inl q ↦ rw q (record old { invalidated = true }, refl, same (ap calls (ground arith) ∙ e))
    | inr q ↦ rw q (cl, h, refl)
  ]
    where
      same : calls id ≡ some old → old.key ≡ cl.key
      same there = ap (λ o. elim o [ none ↦ "" | some c ↦ c.key ]) (sym there ∙ h)

  -- A marked call stays, with its key.
  pub mark-key :
      (o : Option ℕ)
      → calls id ≡ some cl
      → (new : Call) × (mark o calls id ≡ some new) × (new.key ≡ cl.key)
  unfolding mark
  mark-key none h = (cl, h, refl)
  mark-key (some j) h = mark_call-key j (calls j) refl h

  unfoldable pub Marked : Option ℕ → Type 0
  Marked o =
      (old : Call) × (calls id ≡ some old)
      × (old.key ≡ cl.key)
      × (old.generation ≡ cl.generation)
      × ((old.invalidated ≡ cl.invalidated) ⊎ (o ≡ some id))

  mark_call-Marked :
      (j : ℕ) (o : Option Call) → calls j ≡ o → mark_call j o calls id ≡ some cl → Marked (some j)
  unfolding mark_call Marked
  mark_call-Marked j none e h = (cl, h, refl, refl, inl refl)
  mark_call-Marked j (some old) e h =
      elim (set_call-inv calls id cl j (record old { invalidated = true }) h) [
        | inl (i, same) ↦
            (old, rw i e, ap (λ c. c.key) same, ap (λ c. c.generation) same, inr (ap some (sym i)))
        | inr (i, same) ↦ (cl, same, refl, refl, inl refl)
      ]

  -- A call after marking was marked now, or is as it was.
  pub mark-Marked : (o : Option ℕ) → mark o calls id ≡ some cl → Marked o
  unfolding mark Marked
  mark-Marked none h = (cl, h, refl, refl, inl refl)
  mark-Marked (some j) h = mark_call-Marked j (calls j) refl h

module _ (calls : ℕ → Option Call) (id : ℕ) where
  marked-none : (o : Option ℕ) (r : Option Call) → calls id ≡ none → mark o calls id ≡ r → r ≡ none
  unfolding Before
  marked-none o none h e = refl
  marked-none o (some cl) h e =
      let (old, q, same, gen, res) = mark-before calls id cl o e in absurd (cc (h, q))

  pub mark-none : (o : Option ℕ) → calls id ≡ none → mark o calls id ≡ none
  mark-none o h = marked-none o (mark o calls id) h refl

module _ (k key : String) (id j : ℕ) (m : List (String × ℕ)) (other : j ≢ id) where
  release_if-other :
      (o : Option ℕ) → get key m ≡ o → get k m ≡ some j → get k (release_if key id o m) ≡ some j
  unfolding release_if
  release_if-other none e h = h
  release_if-other (some i) e h = elim (Bool-cases (nat_eq i id)) [
    | inl q ↦ rw q (rw (get-delete_key k key m) (ground (arith, eq_iff key k)))
    | inr q ↦ rw q h
  ]

  -- A finished call releases only itself.
  pub release-other : get k m ≡ some j → get k (release key id m) ≡ some j
  unfolding release
  release-other h = release_if-other (get key m) refl h

module _ (k key : String) (id j : ℕ) (m : List (String × ℕ)) where
  release_if-keeps : (o : Option ℕ) → get k (release_if key id o m) ≡ some j → get k m ≡ some j
  unfolding release_if
  release_if-keeps none h = h
  release_if-keeps (some i) h = deleted (nat_eq i id) h
    where
      deleted : (b : Bool) → get k (if b then delete_key key m else m) ≡ some j → get k m ≡ some j
      deleted true h = (get-delete_key-inv k key j m h).1
      deleted false h = h

  pub release-keeps : get k (release key id m) ≡ some j → get k m ≡ some j
  unfolding release
  release-keeps h = release_if-keeps (get key m) h
