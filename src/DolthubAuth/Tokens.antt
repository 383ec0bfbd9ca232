-- ===== src/DolthubAuth/Tokens.antt =====
-- internal/dolthubauth: connect tokens that are presented again.
use wasteland.Base.{ltb, ℕ, String, ◌≡◌, sym, ◌∙◌, ◌≢◌, some, [], ◌∷◌, ◌++◌, arith, eq_iff}
use wasteland.DolthubAuth.Tables.{Tables, TokenRow, Outside, any_row, is_token}
use wasteland.DolthubAuth.Tables.Rows.{any_row-append, any_row-filter-false, any_row-change-false}
use wasteland.DolthubAuth.Store.{Library, RedeemInput, reap_expired_connect_tokens}
use wasteland.DolthubAuth.Store.Keeps.{create-keep}
use wasteland.DolthubAuth.Redeem.{mark, audited}
use wasteland.DolthubAuth.Redeem.Keeps.{redeem-keep}
use wasteland.DolthubAuth.Redeem.Sound.{IsSpent, redeem-IsSpent, spent_token, unused}
use wasteland.DolthubAuth.Patch.Keeps.{patch-keep}
use wasteland.DolthubAuth.Service.{Config, Crypto, HttpRequest}
use wasteland.DolthubAuth.Requests.{Decoders, RedeemConnectTokenRequest}
use wasteland.DolthubAuth.Server.{handle_redeem_connect_token, redeem_input}
use wasteland.DolthubAuth.Server.Redeemed.{IsRedeemed, handle_redeem_connect_token-inv}
use wasteland.DolthubAuth.Run.{Route, AllKeep, serve-keep, Run, begin, request}
use wasteland.DolthubAuth.Patch.Nonces.{use-others}

module _ (mac : String) where
  added :
      (row : TokenRow) (s : Tables)
      → row.connect_token_mac ≢ mac
      → IsSpent mac s
      → IsSpent mac (record s { connect_tokens = s.connect_tokens ++ row ∷ [] })
  unfolding any_row
  added row s other h = ground (
    arith,
    any_row-append (unused mac) s.connect_tokens (row ∷ []),
    eq_iff row.connect_token_mac mac,
  )

  marked :
      (lib : Library) (o : Outside) (input : RedeemInput) (s : Tables)
      → IsSpent mac s
      → IsSpent mac (mark lib o input s)
  unfolding mark
  marked lib o input s h =
      any_row-change-false (unused mac) (is_token input.connect_token_mac)
        (λ row. record row { used_at = some input.now }) (λ row e. ground arith) s.connect_tokens h

module _ (lib : Library) (crypto : Crypto) (decode : Decoders) (cfg : Config) (mac : String) where
  -- A request mints no token of this MAC.
  abbrev pub MintsOther : Route → Outside → Type 0
  MintsOther route o =
      (token : String)
      → o.random_token ≡ some token
      → decode.mac_sha256 cfg.token_pepper token ≢ mac

  IsSpent-StoreKeeps :
      (route : Route) (o : Outside) (now : ℕ)
      → MintsOther route o
      → AllKeep lib (decode.mac_sha256 cfg.token_pepper) o now (IsSpent mac)
  unfolding reap_expired_connect_tokens audited
  IsSpent-StoreKeeps route o now other = record {
    nonce = use-others (IsSpent mac) (λ _ _ h. h) o now;
    create = λ tenant environment token secret_mac subject m expires_at e s h.
        create-keep lib o (IsSpent mac) (decode.mac_sha256 cfg.token_pepper token) now
          (λ s h. any_row-filter-false _ (λ row. ltb now row.expires_at) s.connect_tokens h)
          (λ row s m h. added mac row s (λ same. other token e (sym m ∙ same)) h) tenant environment
          secret_mac subject m expires_at s h;
    redeem = λ input may valid.
        redeem-keep lib o input (IsSpent mac) (λ _. Unit {0})
          (record {
            known = λ _ _ _ _ _ _ _. tt;
            new = λ _ _ _ _ _ h _. h;
            renew = λ _ _ _ _ _ _ _ h. h;
            used = marked mac lib o input;
            log = λ _ _ _ h. h;
          });
    patch = λ k expected change s may.
        patch-keep (IsSpent mac) lib o k now (λ _ _ _ _ _ h. h) expected change s;
  }

  module _ {s : Tables} {t : ℕ} (spent : IsSpent mac s) where
    Run-IsSpent :
        {s' : Tables} {t' : ℕ} → Run lib crypto decode cfg MintsOther s t s' t' → IsSpent mac s'
    Run-IsSpent begin = spent
    Run-IsSpent (request {s'} run route o now r later other) =
        serve-keep lib crypto decode cfg o now (IsSpent mac) (IsSpent-StoreKeeps route o now other)
          route r s' (Run-IsSpent run)

module _ (lib : Library) (crypto : Crypto) (decode : Decoders) (cfg : Config) (r r' : HttpRequest)
    (body body' : String) (req req' : RedeemConnectTokenRequest) (sent : r.body ≡ some body)
    (decoded : decode.redeem_request body ≡ some req) (sent' : r'.body ≡ some body')
    (decoded' : decode.redeem_request body' ≡ some req') where
  -- A connect token is redeemed at most once: after a redemption, whatever requests follow that mint
  -- no token of the same MAC, and whatever fails in the database, no request redeems it again.
  pub redeem_once :
      (o o' : Outside) (s : Tables) {s' : Tables} (t t' now : ℕ)
      → IsRedeemed (handle_redeem_connect_token lib crypto decode cfg o t r s).0
      → Run lib crypto decode cfg
          (MintsOther lib crypto decode cfg (decode.mac_sha256 cfg.token_pepper req.connect_token))
          (handle_redeem_connect_token lib crypto decode cfg o t r s).1
          t
          s'
          t'
      → req'.connect_token ≡ req.connect_token
      → ¬ IsRedeemed (handle_redeem_connect_token lib crypto decode cfg o' now r' s').0
  unfolding redeem_input
  redeem_once o o' s {s'} t t' now first run same again =
      let (_, c, done, state) =
        handle_redeem_connect_token-inv lib crypto decode cfg o t r req body sent decoded s first in
      let (_, c', done', _) =
        handle_redeem_connect_token-inv lib crypto decode cfg o' now r' req' body' sent' decoded' s'
          again in
      let mac = decode.mac_sha256 cfg.token_pepper req.connect_token in
      let spent : IsSpent mac s' =
        Run-IsSpent lib crypto decode cfg mac
          (rw state (redeem-IsSpent lib o (redeem_input lib crypto decode cfg o t r req) c s done))
          run in
      spent_token lib o' (redeem_input lib crypto decode cfg o' now r' req') c' s' (rw same spent)
        done'
