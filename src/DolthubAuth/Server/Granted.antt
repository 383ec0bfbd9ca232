-- ===== src/DolthubAuth/Server/Granted.antt =====
-- internal/dolthubauth/server.go: what it takes to be granted access.
use wasteland.Base.{
  if◌then◌else◌, ℕ, String, ◌≡◌, refl, ap, Bool, true, false, ◌&&◌, Option, none, some, ◌==◌,
}
use wasteland.DolthubAuth.Types.{Outcome, ok, err}
use wasteland.DolthubAuth.Tables.{Tables, Outside}
use wasteland.DolthubAuth.Store.{Library}
use wasteland.DolthubAuth.Service.{
  Config, Crypto, HttpRequest, ServiceScope, verify_service_request,
}
use wasteland.DolthubAuth.Requests.{Decoders, refused}
use wasteland.DolthubAuth.Server.{Access, denied, granted, admit, with_body, require_service_auth}

granted-inv :
    (k k' : ServiceScope) (b b' : String) → granted k b ≡ granted k' b' → (k ≡ k') × (b ≡ b')
granted-inv k k' b b' h = (cc, cc)

module _ (scope : ServiceScope) (body : String) where
  admit-inv :
      (c : Bool) (text : String) (x : Outcome ServiceScope × Tables)
      → (admit c text x).0 ≡ granted scope body
      → (x.0 ≡ ok scope) × (text ≡ body) × ((admit c text x).1 ≡ x.1)
  unfolding admit
  admit-inv c text (err e, s) h = absurd (cc h)
  admit-inv c text (ok known, s) h = go (known.subject_id == "") (c && known.connection_id == "") h
    where
      go :
          (a b : Bool)
          → (let x : Access × Tables =
                (if a
                  then (denied (refused 401 "missing_subject_id" false), s)
                  else if b
                  then (denied (refused 401 "missing_connection_id" false), s)
                  else (granted known text, s)) in
              x.0 ≡ granted scope body
              → (◌≡◌ {A = Outcome ServiceScope} (ok known) (ok scope)) × (text ≡ body) × (x.1 ≡ s))
      go true b h = absurd (cc h)
      go false true h = absurd (cc h)
      go false false h =
          let (scope', text') = granted-inv known scope text body h in (ap ok scope', text', refl)

  module _ (lib : Library) (crypto : Crypto) (decode : Decoders) (cfg : Config) (o : Outside)
      (now : ℕ) (r : HttpRequest) (s : Tables) where
    with_body-inv :
        (b : Option String)
        → (with_body lib crypto decode cfg o now r true b s).0 ≡ granted scope body
        → (b ≡ some body)
          × ((verify_service_request crypto cfg o now r body s).0 ≡ ok scope)
          × ((with_body lib crypto decode cfg o now r true b s).1
              ≡ (verify_service_request crypto cfg o now r body s).1)
    unfolding with_body
    with_body-inv none h = absurd (cc h)
    with_body-inv (some text) h =
        let (good, same, state) =
          admit-inv true text (verify_service_request crypto cfg o now r text s) h in
        rw (← same) (refl, good, state)

    -- Access is granted only to a request that is verified, for the scope that it is signed for.
    pub require_service_auth-inv :
        (require_service_auth lib crypto decode cfg o now r true s).0 ≡ granted scope body
        → (r.body ≡ some body)
          × ((verify_service_request crypto cfg o now r body s).0 ≡ ok scope)
          × ((require_service_auth lib crypto decode cfg o now r true s).1
              ≡ (verify_service_request crypto cfg o now r body s).1)
    unfolding require_service_auth
    require_service_auth-inv h = with_body-inv r.body h
