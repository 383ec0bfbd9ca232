-- ===== src/DolthubAuth/Server/Redeemed.antt =====
-- internal/dolthubauth/server.go: a request that redeems a token.
use wasteland.Base.{if◌then◌else◌, ℕ, String, ◌≡◌, refl, sym, Bool, true, false, Option, none, some}
use wasteland.DolthubAuth.Types.{
  Outcome, ok, err, Connection, AuthError, not_found, conflict, invalid_connect_token,
  expired_connect_token, metadata_mismatch, service_unauthorized, service_replay, last_wasteland,
  wasteland_not_found, invalid_metadata, validation_failed, failed,
}
use wasteland.DolthubAuth.Validation.{validate_metadata}
use wasteland.DolthubAuth.Tables.{Tables, Outside}
use wasteland.DolthubAuth.Store.{Library, RedeemInput}
use wasteland.DolthubAuth.Redeem.{redeem_connect_token}
use wasteland.DolthubAuth.Service.{Config, Crypto, HttpRequest}
use wasteland.DolthubAuth.Requests.{
  Decoders, Reply, refused, redeemed, redeem_error, RedeemConnectTokenRequest, validation_error,
}
use wasteland.DolthubAuth.Server.{
  unless_invalid, redeem_reply, redeem_input, redeem_for, redeem_body_of,
  handle_redeem_connect_token,
}

-- Whether the reply says that a token was redeemed.
abbrev pub IsRedeemed : Reply → Type 0
IsRedeemed (redeemed id status at) = Unit {0}
IsRedeemed _ = ⊥

choose-IsRedeemed :
    (a b c : Bool) (code : String)
    → IsRedeemed (
        if a
        then refused 400 "invalid_key" false
        else if b
        then refused 503 code true
        else if c
        then refused 503 code true
        else refused 500 "redeem_failed" true)
    → ⊥
choose-IsRedeemed true b c code h = h
choose-IsRedeemed false true c code h = h
choose-IsRedeemed false false true code h = h
choose-IsRedeemed false false false code h = h

validation-IsRedeemed : (code : String) → IsRedeemed (validation_error code) → ⊥
unfolding validation_error
validation-IsRedeemed code h = choose-IsRedeemed _ _ _ code h

error-IsRedeemed : (e : AuthError) → IsRedeemed (redeem_error e) → ⊥
unfolding redeem_error
error-IsRedeemed not_found h = h
error-IsRedeemed conflict h = h
error-IsRedeemed invalid_connect_token h = h
error-IsRedeemed expired_connect_token h = h
error-IsRedeemed metadata_mismatch h = h
error-IsRedeemed service_unauthorized h = h
error-IsRedeemed service_replay h = h
error-IsRedeemed last_wasteland h = h
error-IsRedeemed wasteland_not_found h = h
error-IsRedeemed (invalid_metadata text) h = h
error-IsRedeemed (validation_failed code text) h = validation-IsRedeemed code h
error-IsRedeemed (failed context) h = h

module _ (lib : Library) (crypto : Crypto) (decode : Decoders) (cfg : Config) (o : Outside)
    (now : ℕ) (r : HttpRequest) (req : RedeemConnectTokenRequest) where
  reply-inv :
      (x : Outcome Connection × Tables)
      → IsRedeemed (redeem_reply lib crypto decode cfg o now r x).0
      → (c : Connection) × (x.0 ≡ ok c) × ((redeem_reply lib crypto decode cfg o now r x).1 ≡ x.1)
  unfolding redeem_reply
  reply-inv (err e, s) h = absurd (error-IsRedeemed e h)
  reply-inv (ok c, s) h = (c, refl, refl)

  abbrev input : RedeemInput
  input = redeem_input lib crypto decode cfg o now r req

  abbrev Done : Tables → Reply × Tables → Type 0
  Done s x =
      IsRedeemed x.0
      → (validate_metadata req.metadata ≡ none)
        × (c : Connection) × ((redeem_connect_token lib o input s).0 ≡ ok c)
        × (x.1 ≡ (redeem_connect_token lib o input s).1)

  valid-Done :
      (s : Tables) (check : Option String)
      → check ≡ validate_metadata req.metadata
      → Done s (
          unless_invalid check
            (λ s. redeem_reply lib crypto decode cfg o now r (redeem_connect_token lib o input s))
            s)
  unfolding unless_invalid
  valid-Done s none e h =
      let (c, done, state) = reply-inv (redeem_connect_token lib o input s) h in
      (sym e, c, done, state)
  valid-Done s (some text) e h = absurd h

  given-Done :
      (s : Tables) (b : Bool) (x : Reply × Tables)
      → Done s x
      → Done s (if b then (refused 400 "missing_fields" false, s) else x)
  given-Done s true x d h = absurd h
  given-Done s false x d h = d h

  -- The store has redeemed the token, with metadata that is valid.
  pub handle_redeem_connect_token-inv :
      (body : String)
      → r.body ≡ some body
      → decode.redeem_request body ≡ some req
      → (s : Tables) → IsRedeemed (handle_redeem_connect_token lib crypto decode cfg o now r s).0
      → (validate_metadata req.metadata ≡ none)
        × (c : Connection) × ((redeem_connect_token lib o
              (redeem_input lib crypto decode cfg o now r req)
              s).0
            ≡ ok c)
        × ((handle_redeem_connect_token lib crypto decode cfg o now r s).1
            ≡ (redeem_connect_token lib o (redeem_input lib crypto decode cfg o now r req) s).1)
  unfolding handle_redeem_connect_token redeem_body_of redeem_for
  handle_redeem_connect_token-inv body sent decoded s =
      rw (sent, decoded) (given-Done s _ _ (valid-Done s (validate_metadata req.metadata) refl))
