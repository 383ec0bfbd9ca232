-- ===== src/DolthubAuth/Patch/Nonces.antt =====
-- internal/dolthubauth/store.go: for how long a nonce is known.
use wasteland.Base.{
  ltb, leb, filter_by, ℕ, ◌<◌, String, ◌≡◌, refl, ◌∙◌, Bool, true, false, ◌&&◌, ◌||◌, List, [], ◌∷◌,
  ◌++◌, arith, eq_refl,
}
use wasteland.DolthubAuth.Types.{ok, err, failed}
use wasteland.DolthubAuth.Tables.{
  NonceRow, Tables, any_row, is_nonce, nonce_taken, Outside, reap, insert_nonce,
}
use wasteland.DolthubAuth.Tables.Rows.{
  any_row-filter_by, any_row-append, any_row-le, any_row-filter-false, filter_by-append,
}
use wasteland.DolthubAuth.Store.{reap_expired_service_nonces}
use wasteland.DolthubAuth.Patch.{record_nonce, use_service_nonce}
use wasteland.DolthubAuth.Tables.Keeps.{if-keep}

-- A predicate of the other tables is kept.
module _ (P : Tables → Type 0)
    (others : (s : Tables) (rows : List NonceRow)
      → P s
      → P (record s { service_request_nonces = rows })) where
  record-others : (o : Outside) (row : NonceRow) (s : Tables) → P s → P (record_nonce o row s).1
  unfolding record_nonce
  record-others o row s p =
      if-keep P (o.fails insert_nonce) _ _ p
        (if-keep P (nonce_taken row s) _ _ p (others s (s.service_request_nonces ++ row ∷ []) p))

  pub use-others :
      (o : Outside) (now : ℕ) (k n : String) (e : ℕ) (s : Tables)
      → P s
      → P (use_service_nonce o k n now e s).1
  unfolding use_service_nonce reap_expired_service_nonces
  use-others o now k n e s p =
      if-keep P (o.fails reap) (err (failed "reap expired nonces"), s)
        (record_nonce o (record { key_id = k; nonce = n; expires_at = e })
          (reap_expired_service_nonces now s))
        p
        (record-others o (record { key_id = k; nonce = n; expires_at = e })
          (reap_expired_service_nonces now s) (others s _ p))

module _ (key_id nonce : String) (until : ℕ) where
  abbrev lasts : NonceRow → Bool
  lasts row = is_nonce key_id nonce row && leb until row.expires_at

  -- A row of the nonce is kept until then.
  abbrev pub HasNonce : Tables → Type 0
  HasNonce s = any_row lasts s.service_request_nonces ≡ true

  lasts-fresh :
      (now : ℕ) → now < until → (row : NonceRow) → lasts row ≡ true → ltb now row.expires_at ≡ true
  lasts-fresh now early row e = ground arith

  reap-HasNonce :
      (now : ℕ)
      → now < until
      → (s : Tables) → HasNonce s
      → HasNonce (reap_expired_service_nonces now s)
  unfolding reap_expired_service_nonces
  reap-HasNonce now early s h =
      any_row-filter_by lasts (λ row. ltb now row.expires_at) (lasts-fresh now early)
        s.service_request_nonces h

  record-HasNonce :
      (o : Outside) (row : NonceRow) (s : Tables) → HasNonce s → HasNonce (record_nonce o row s).1
  unfolding record_nonce
  record-HasNonce o row s h =
      ground (arith, any_row-append lasts s.service_request_nonces (row ∷ []))

  -- Nothing that is done before then drops the nonce.
  pub use-HasNonce :
      (o : Outside) (now : ℕ)
      → now < until
      → (k n : String) (e : ℕ) (s : Tables) → HasNonce s
      → HasNonce (use_service_nonce o k n now e s).1
  unfolding use_service_nonce
  use-HasNonce o now early k n e s h = ground (
    arith,
    record-HasNonce o (record { key_id = k; nonce = n; expires_at = e })
        (reap_expired_service_nonces now s),
    reap-HasNonce now early s,
  )

  abbrev row_of : ℕ → NonceRow
  row_of e = record { key_id = key_id; nonce = nonce; expires_at = e }

  record-known :
      (o : Outside) (e : ℕ) (s : Tables) → HasNonce s → (record_nonce o (row_of e) s).0 ≡ ok tt → ⊥
  unfolding record_nonce nonce_taken
  record-known o e s h = ground (
    arith,
    any_row-le lasts (is_nonce key_id nonce) (λ row e. ground arith) s.service_request_nonces h,
  )

  -- A nonce that is known is refused.
  pub use-known :
      (o : Outside) (now e : ℕ)
      → now < until
      → (s : Tables) → HasNonce s
      → (use_service_nonce o key_id nonce now e s).0 ≡ ok tt
      → ⊥
  unfolding use_service_nonce
  use-known o now e early s h =
      ground
        (arith, record-known o e (reap_expired_service_nonces now s), reap-HasNonce now early s h)

  lasts-own : lasts (row_of until) ≡ true
  lasts-own = ground (arith, eq_refl key_id, eq_refl nonce)

  -- A nonce that is used is known.
  pub use-recorded :
      (o : Outside) (now : ℕ) (s : Tables)
      → (use_service_nonce o key_id nonce now until s).0 ≡ ok tt
      → (nonce_taken (row_of until) (reap_expired_service_nonces now s) ≡ false)
        × ((use_service_nonce o key_id nonce now until s).1
            ≡ record (reap_expired_service_nonces now s) {
              service_request_nonces =
                  (reap_expired_service_nonces now s).service_request_nonces ++ row_of until ∷ [];
            })
  unfolding use_service_nonce record_nonce
  use-recorded o now s = ground arith

  pub use-HasNonce_new :
      (o : Outside) (now : ℕ) (s : Tables)
      → (use_service_nonce o key_id nonce now until s).0 ≡ ok tt
      → HasNonce (use_service_nonce o key_id nonce now until s).1
  unfolding any_row
  use-HasNonce_new o now s h = rw (use-recorded o now s h).1 (
      any_row-append lasts (reap_expired_service_nonces now s).service_request_nonces
        (row_of until ∷ [])
      ∙ last (any_row lasts (reap_expired_service_nonces now s).service_request_nonces))
    where
      last : (b : Bool) → (b || (lasts (row_of until) || false)) ≡ true
      last true = refl
      last false = rw lasts-own refl

  rows-forgotten :
      (rows : List NonceRow)
      → any_row (is_nonce key_id nonce) rows ≡ false
      → any_row
          (is_nonce key_id nonce)
          (filter_by (λ row. ltb until row.expires_at) (rows ++ row_of until ∷ []))
        ≡ false
  unfolding filter_by any_row
  rows-forgotten rows free =
      rw (filter_by-append (λ row. ltb until row.expires_at) rows (row_of until ∷ [])) (
        rw
          (any_row-append (is_nonce key_id nonce) (filter_by (λ row. ltb until row.expires_at) rows)
            (filter_by (λ row. ltb until row.expires_at) (row_of until ∷ [])))
          (ground (
            arith,
            any_row-filter-false (is_nonce key_id nonce) (λ row. ltb until row.expires_at) rows
                free,
          )))

  nonce-forgotten :
      (o : Outside) (t : Tables) (rows : List NonceRow)
      → any_row (is_nonce key_id nonce) rows ≡ false
      → o.fails reap ≡ false
      → o.fails insert_nonce ≡ false
      → (use_service_nonce o key_id nonce until until
          (record t { service_request_nonces = rows ++ row_of until ∷ [] })).0
        ≡ ok tt
  unfolding use_service_nonce record_nonce nonce_taken reap_expired_service_nonces
  nonce-forgotten o t rows free reaps inserts = rw (reaps, inserts, rows-forgotten rows free) refl

  -- At the moment when a nonce runs out it is forgotten, and is taken again.
  pub use-forgotten :
      (o o' : Outside) (now : ℕ) (s : Tables)
      → (use_service_nonce o key_id nonce now until s).0 ≡ ok tt
      → o'.fails reap ≡ false
      → o'.fails insert_nonce ≡ false
      → (use_service_nonce o' key_id nonce until until
          (use_service_nonce o key_id nonce now until s).1).0
        ≡ ok tt
  unfolding nonce_taken
  use-forgotten o o' now s h reaps inserts =
      let (free, state) = use-recorded o now s h in
      rw state (
        nonce-forgotten o' (reap_expired_service_nonces now s)
          (reap_expired_service_nonces now s).service_request_nonces free reaps inserts)
