-- ===== src/DolthubAuth/Replay.antt =====
-- internal/dolthubauth/service_auth.go: signed requests that are sent again.
use wasteland.Base.{
  ltb, if◌then◌else◌, Bool-cases, trim_space, ℕ, ◌+◌, ◌≤◌, ◌<◌, String, ◌≡◌, refl, ◌∙◌, ◌≢◌, inl,
  inr, Bool, true, false, some, arith,
}
use wasteland.DolthubAuth.Types.{Outcome, ok, err, AuthError, service_unauthorized}
use wasteland.DolthubAuth.Tables.{Tables, Outside, reap, insert_nonce}
use wasteland.DolthubAuth.Store.{Library, reap_expired_connect_tokens}
use wasteland.DolthubAuth.Patch.Nonces.{
  HasNonce, use-HasNonce, use-known, use-HasNonce_new, use-forgotten,
}
use wasteland.DolthubAuth.Service.{
  Config, Crypto, HttpRequest, ServiceScope, Signed, within_skew, max_clock_skew, check_request,
  verify_service_request,
}
use wasteland.DolthubAuth.Service.Checks.{check-Again}
use wasteland.DolthubAuth.Service.Verify.{verify-inv, verify-ok}
use wasteland.DolthubAuth.Requests.{Decoders}
use wasteland.DolthubAuth.Redeem.Keeps.{redeem-keep}
use wasteland.DolthubAuth.Patch.Keeps.{patch-keep}
use wasteland.DolthubAuth.Run.{Route, AllKeep, serve-keep, Run, begin, request}
use wasteland.DolthubAuth.Store.Keeps.{create-keep}
use wasteland.DolthubAuth.Redeem.{mark, audited}

module _ (lib : Library) (crypto : Crypto) (decode : Decoders) (cfg : Config)
    (key_id nonce : String) (until : ℕ) where
  HasNonce-StoreKeeps :
      (o : Outside) (now : ℕ)
      → now < until
      → AllKeep lib (decode.mac_sha256 cfg.token_pepper) o now (HasNonce key_id nonce until)
  unfolding reap_expired_connect_tokens mark audited
  HasNonce-StoreKeeps o now early = record {
    nonce = use-HasNonce key_id nonce until o now early;
    create = λ tenant environment token secret_mac subject m expires_at e s h.
        create-keep lib o (HasNonce key_id nonce until) (decode.mac_sha256 cfg.token_pepper token)
          now (λ _ h. h) (λ _ _ _ h. h) tenant environment secret_mac subject m expires_at s h;
    redeem = λ input may valid.
        redeem-keep lib o input (HasNonce key_id nonce until) (λ _. Unit {0})
          (record {
            known = λ _ _ _ _ _ _ _. tt;
            new = λ _ _ _ _ _ h _. h;
            renew = λ _ _ _ _ _ _ _ h. h;
            used = λ _ h. h;
            log = λ _ _ _ h. h;
          });
    patch = λ k expected change s may.
        patch-keep (HasNonce key_id nonce until) lib o k now (λ _ _ _ _ _ h. h) expected change s;
  }

  -- Until its nonce runs out, every request keeps it.
  module _ {Q : Route → Outside → Type 0} {s : Tables} {t : ℕ}
      (h : HasNonce key_id nonce until s) where
    Run-HasNonce :
        {s' : Tables} {t' : ℕ}
        → Run lib crypto decode cfg Q s t s' t'
        → t' < until
        → HasNonce key_id nonce until s'
    Run-HasNonce begin early = h
    Run-HasNonce (request {s'} {t} run route o now r later q) early =
        serve-keep lib crypto decode cfg o now (HasNonce key_id nonce until)
          (HasNonce-StoreKeeps o now early) route r s' (Run-HasNonce run (omega arith))

at_most : (now stamp : ℕ) → within_skew now stamp ≡ true → now ≤ stamp + max_clock_skew
unfolding within_skew
at_most now stamp h = ground arith

in_time_at : (now stamp : ℕ) → now ≡ stamp + max_clock_skew → within_skew now stamp ≡ true
unfolding within_skew
in_time_at now stamp h = ground arith

passed_twice :
    (b : Bool) (a a' : Signed) (e : AuthError) (x : Outcome Signed)
    → x ≡ (if b then ok a else err e)
    → x ≡ ok a'
    → (b ≡ true) × (a ≡ a')
passed_twice true a a' e x h k = (refl, cc)
passed_twice false a a' e x h k = absurd (cc)

module _ (lib : Library) (crypto : Crypto) (decode : Decoders) (cfg : Config) (r : HttpRequest)
    (body : String) (now stamp : ℕ) where
  -- A signed request that was accepted is not accepted again, whatever requests come between and
  -- whatever the database does, if the clock does not go back and does not show exactly five minutes
  -- after its timestamp.
  pub replay_refused :
      (o o' : Outside) (s : Tables) {s' : Tables} (t : ℕ) {t' : ℕ} (scope scope' : ServiceScope)
      {Q : Route → Outside → Type 0}
      → crypto.parse_time (trim_space (r.header "X-Service-Timestamp")) ≡ some stamp
      → (verify_service_request crypto cfg o t r body s).0 ≡ ok scope
      → Run lib crypto decode cfg Q (verify_service_request crypto cfg o t r body s).1 t s' t'
      → t' ≤ now
      → now ≢ stamp + max_clock_skew
      → (verify_service_request crypto cfg o' now r body s').0 ≢ ok scope'
  replay_refused o o' s {s'} t {t'} scope scope' dated first run later inside again =
      let (a, passed, _, used, state) = verify-inv o t scope crypto cfg r body s first in
      let (a', passed', _, used', _) = verify-inv o' now scope' crypto cfg r body s' again in
      let (stamped, _, repeated) = check-Again crypto cfg t now r body a passed in
      let (fresh, same) =
        passed_twice (within_skew now a.timestamp) a a' service_unauthorized _ repeated passed' in
      let exact : stamp ≡ a.timestamp = cc (dated, stamped) in
      let known : HasNonce a.scope.key_id a.nonce (a.timestamp + max_clock_skew)
          (verify_service_request crypto cfg o t r body s).1 =
        rw state
          (use-HasNonce_new a.scope.key_id a.nonce (a.timestamp + max_clock_skew) o t s used) in
      elim (Bool-cases (ltb now (a.timestamp + max_clock_skew))) [
        | inl early ↦ absurd (
            use-known a.scope.key_id a.nonce (a.timestamp + max_clock_skew) o' now
              (a'.timestamp + max_clock_skew) (ground arith) s'
              (Run-HasNonce lib crypto decode cfg a.scope.key_id a.nonce
                (a.timestamp + max_clock_skew) known run (ground arith))
              (rw same used'))
        | inr late ↦ inside (ground (arith, at_most now a.timestamp fresh))
      ]

  -- At that very end the nonce is forgotten while the request is still in time: unless the database
  -- fails, the request that was accepted is accepted a second time.
  pub replay_at_limit :
      (o o' : Outside) (s : Tables) (t : ℕ) (scope : ServiceScope)
      → crypto.parse_time (trim_space (r.header "X-Service-Timestamp")) ≡ some stamp
      → (verify_service_request crypto cfg o t r body s).0 ≡ ok scope
      → o'.fails reap ≡ false
      → o'.fails insert_nonce ≡ false
      → now ≡ stamp + max_clock_skew
      → (verify_service_request crypto cfg o' now r body
          (verify_service_request crypto cfg o t r body s).1).0
        ≡ ok scope
  replay_at_limit o o' s t scope dated first reaps inserts limit =
      let (a, passed, scoped, used, state) = verify-inv o t scope crypto cfg r body s first in
      let (stamped, _, repeated) = check-Again crypto cfg t now r body a passed in
      let exact : stamp ≡ a.timestamp = cc (dated, stamped) in
      let at : now ≡ a.timestamp + max_clock_skew = omega arith in
      let good : check_request crypto cfg now r body ≡ ok a =
        repeated ∙ rw (in_time_at now a.timestamp at) refl in
      rw (← scoped, state)
        (verify-ok o' now a.scope crypto cfg r body _ a good (
          rw at (
            use-forgotten a.scope.key_id a.nonce (a.timestamp + max_clock_skew) o o' t s used reaps
              inserts)))
