-- ===== src/DolthubAuth/Service/Checks.antt =====
-- internal/dolthubauth/service_auth.go: how the checks of a request depend on the time.
use wasteland.Base.{
  if◌then◌else◌, trim_space, ℕ, String, ◌≡◌, refl, ap, Bool, true, false, not, ◌||◌, Option, none,
  some, ◌==◌,
}
use wasteland.DolthubAuth.Types.{service_unauthorized, Outcome, ok, err}
use wasteland.DolthubAuth.Service.{
  Config, Crypto, HttpRequest, Signed, within_skew, check_timed, check_keyed, check_authorization,
  check_request, lookup_service_secret, timestamp_raw, parse_service_authorization, nonce_of,
  scope_of, expected_signature,
}

-- The checks that do not look at the time.
unstamped : Bool → Bool → Bool → Bool → Signed → Outcome Signed
unstamped b c d e good =
    if b
    then err service_unauthorized
    else if c
    then err service_unauthorized
    else if d
    then err service_unauthorized
    else if e
    then err service_unauthorized
    else ok good

unstamped-inv : (b c d e : Bool) (good a : Signed) → unstamped b c d e good ≡ ok a → good ≡ a
unfolding unstamped
unstamped-inv true c d e good a h = cc
unstamped-inv false true d e good a h = cc
unstamped-inv false false true e good a h = cc
unstamped-inv false false false true good a h = cc
unstamped-inv false false false false good a h = cc

-- The result of the checks in turn, by what they find at two times.
module _ (a : Signed) where
  abbrev stamped : Bool → Outcome Signed → Outcome Signed
  stamped fresh rest = if not fresh then err service_unauthorized else rest

  stamped_twice :
      (t u now later : ℕ) (rest : Outcome Signed)
      → (rest ≡ ok a → t ≡ u)
      → stamped (within_skew now t) rest ≡ ok a
      → (t ≡ u)
        × (within_skew now u ≡ true)
        × (stamped (within_skew later t) rest
            ≡ (if within_skew later u then ok a else err service_unauthorized))
  stamped_twice t u now later rest at h =
      let (fresh, good) = first (within_skew now t) h in
      rw (← at good) (refl, fresh, second (within_skew later t) good)
    where
      first : (b : Bool) → stamped b rest ≡ ok a → (b ≡ true) × (rest ≡ ok a)
      first true h = (refl, h)
      first false h = cc

      second :
          (b : Bool) → rest ≡ ok a → stamped b rest ≡ (if b then ok a else err service_unauthorized)
      second true h = h
      second false h = refl

module _ (crypto : Crypto) (cfg : Config) (now later : ℕ) (r : HttpRequest) (body : String)
    (a : Signed) where
  abbrev Again : Option ℕ → Outcome Signed → Outcome Signed → Type 0
  Again stamp x y =
      x ≡ ok a
      → (stamp ≡ some a.timestamp)
        × (within_skew now a.timestamp ≡ true)
        × (y ≡ (if within_skew later a.timestamp then ok a else err service_unauthorized))

  timed-Again :
      (key_id signature secret : String) (t : Option ℕ)
      → Again t
          (check_timed crypto cfg now r body key_id signature secret t)
          (check_timed crypto cfg later r body key_id signature secret t)
  unfolding check_timed unstamped nonce_of scope_of expected_signature timestamp_raw
  timed-Again key_id signature secret none h = cc
  timed-Again key_id signature secret (some t) h =
      let scope = scope_of crypto cfg later r body key_id in
      let empty = nonce_of crypto cfg later r body == "" in
      let altered = not (crypto.sha256_hex body == trim_space (r.header "X-Service-Body-SHA256")) in
      let elsewhere =
        not (scope.tenant_id == cfg.tenant_id) || not (scope.environment == cfg.environment) in
      let forged = not (signature == expected_signature crypto cfg later r body key_id secret) in
      let good : Signed = record {
        scope = scope;
        nonce = nonce_of crypto cfg later r body;
        timestamp = t;
      } in
      let (same, fresh, rest) =
        stamped_twice a t a.timestamp now later (unstamped empty altered elsewhere forged good)
          (λ e. ap (λ x. x.timestamp) (unstamped-inv empty altered elsewhere forged good a e)) h in
      (ap some same, fresh, rest)

  keyed-Again :
      (key_id signature : String) (secret : Option String)
      → Again
          (crypto.parse_time (timestamp_raw crypto cfg later r body))
          (check_keyed crypto cfg now r body key_id signature secret)
          (check_keyed crypto cfg later r body key_id signature secret)
  unfolding check_keyed timestamp_raw
  keyed-Again key_id signature none h = cc
  keyed-Again key_id signature (some secret) h =
      timed-Again key_id signature secret
        (crypto.parse_time (timestamp_raw crypto cfg later r body)) h

  authorization-Again :
      (auth : Option (String × String))
      → Again
          (crypto.parse_time (timestamp_raw crypto cfg later r body))
          (check_authorization crypto cfg now r body auth)
          (check_authorization crypto cfg later r body auth)
  unfolding check_authorization
  authorization-Again none h = cc
  authorization-Again (some (key_id, signature)) h =
      keyed-Again key_id signature (lookup_service_secret cfg key_id) h

  -- A request that passes the checks is in time, and at another time it passes them as the same
  -- request exactly if it is in time then.
  pub check-Again :
      Again
        (crypto.parse_time (trim_space (r.header "X-Service-Timestamp")))
        (check_request crypto cfg now r body)
        (check_request crypto cfg later r body)
  unfolding check_request timestamp_raw
  check-Again h = authorization-Again (parse_service_authorization (r.header "Authorization")) h
