-- ===== src/DolthubAuth/Service/Verify.antt =====
-- internal/dolthubauth/service_auth.go: what a verification does to the tables.
use wasteland.Base.{ℕ, ◌+◌, String, ◌≡◌, refl}
use wasteland.DolthubAuth.Types.{Outcome, ok, err}
use wasteland.DolthubAuth.Tables.{Tables, Outside}
use wasteland.DolthubAuth.Patch.{use_service_nonce}
use wasteland.DolthubAuth.Service.{
  Config, Crypto, HttpRequest, ServiceScope, Signed, recorded, accept, verify_service_request,
  max_clock_skew, check_request,
}

module _ (P : Tables → Type 0) where
  recorded-keep :
      (scope : ServiceScope) (x : Outcome (Unit {0}) × Tables) → P x.1 → P (recorded scope x).1
  unfolding recorded
  recorded-keep scope (ok u, s) h = h
  recorded-keep scope (err e, s) h = h

module _ (o : Outside) (now : ℕ) (P : Tables → Type 0)
    (nonce : (key_id nonce : String) (expires_at : ℕ) (s : Tables)
      → P s
      → P (use_service_nonce o key_id nonce now expires_at s).1) where
  accept-keep : (c : Outcome Signed) (s : Tables) → P s → P (accept o now c s).1
  unfolding accept
  accept-keep (err e) s p = p
  accept-keep (ok signed) s p = recorded-keep P signed.scope _ (nonce _ _ _ s p)

  -- A verification changes the tables as the record of a nonce does, or not at all.
  pub verify-keep :
      (crypto : Crypto) (cfg : Config) (r : HttpRequest) (body : String) (s : Tables)
      → P s
      → P (verify_service_request crypto cfg o now r body s).1
  unfolding verify_service_request
  verify-keep crypto cfg r body s p = accept-keep _ s p

-- A request is accepted if its checks pass and its nonce is recorded.
module _ (o : Outside) (now : ℕ) (scope : ServiceScope) where
  recorded-inv :
      (known : ServiceScope) (x : Outcome (Unit {0}) × Tables)
      → (recorded known x).0 ≡ ok scope
      → (known ≡ scope) × (x.0 ≡ ok tt) × ((recorded known x).1 ≡ x.1)
  unfolding recorded
  recorded-inv known (ok u, s) h = (cc, refl, refl)
  recorded-inv known (err e, s) h = cc

  abbrev Nonce : Signed → Tables → Outcome (Unit {0}) × Tables
  Nonce a s = use_service_nonce o a.scope.key_id a.nonce now (a.timestamp + max_clock_skew) s

  accept-inv :
      (c : Outcome Signed) (s : Tables)
      → (accept o now c s).0 ≡ ok scope
      → (a : Signed) × (c ≡ ok a)
        × (a.scope ≡ scope)
        × ((Nonce a s).0 ≡ ok tt)
        × ((accept o now c s).1 ≡ (Nonce a s).1)
  unfolding accept
  accept-inv (err e) s h = cc
  accept-inv (ok a) s h =
      let (same, used, state) = recorded-inv a.scope (Nonce a s) h in (a, refl, same, used, state)

  accepted :
      (a : Signed) (s : Tables) → (Nonce a s).0 ≡ ok tt → (accept o now (ok a) s).0 ≡ ok a.scope
  unfolding accept
  accepted a s h = go (Nonce a s) h
    where
      go : (x : Outcome (Unit {0}) × Tables) → x.0 ≡ ok tt → (recorded a.scope x).0 ≡ ok a.scope
      go (ok u, s) h = refl
      go (err e, s) h = cc

  module _ (crypto : Crypto) (cfg : Config) (r : HttpRequest) (body : String) (s : Tables) where
    pub verify-inv :
        (verify_service_request crypto cfg o now r body s).0 ≡ ok scope
        → (a : Signed) × (check_request crypto cfg now r body ≡ ok a)
          × (a.scope ≡ scope)
          × ((Nonce a s).0 ≡ ok tt)
          × ((verify_service_request crypto cfg o now r body s).1 ≡ (Nonce a s).1)
    unfolding verify_service_request
    verify-inv h = accept-inv (check_request crypto cfg now r body) s h

    pub verify-ok :
        (a : Signed)
        → check_request crypto cfg now r body ≡ ok a
        → (Nonce a s).0 ≡ ok tt
        → (verify_service_request crypto cfg o now r body s).0 ≡ ok a.scope
    unfolding verify_service_request
    verify-ok a passed used = rw passed (accepted a s used)
