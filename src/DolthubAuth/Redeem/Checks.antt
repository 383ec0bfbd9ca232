-- ===== src/DolthubAuth/Redeem/Checks.antt =====
-- internal/dolthubauth/store.go: the checks that a redemption has passed.
use wasteland.Base.{
  ltb, if◌then◌else◌, ℕ, ◌<◌, String, ◌≡◌, refl, sym, ap, ◌∙◌, Bool, true, false, not, ◌||◌, Option,
  none, some, arith, ◌==◌, eq_iff,
}
use wasteland.DolthubAuth.Types.{
  ok, err, Connection, UserMetadata, invalid_connect_token, expired_connect_token,
  validation_failed,
}
use wasteland.DolthubAuth.Tables.{
  Tables, TokenRow, Tx, pure, ◌>>=◌, ◌>>◌, changes, Outside, find_row, is_token, statement,
  mark_used, audit,
}
use wasteland.DolthubAuth.Tables.Rows.{find_row-passes}
use wasteland.DolthubAuth.Tables.Inv.{
  bind-inv, guard-inv, reads-inv, required-inv, bind_assoc, pure-bind, raise-bind,
}
use wasteland.DolthubAuth.Store.{
  Library, RedeemInput, Scope, connect_token_expired, equal_metadata, is_of, get_connection_tx,
}
use wasteland.DolthubAuth.Redeem.{
  is_some, check_token, check_metadata, check_probe, Sealed, store_credential, mark, audited,
  redeem_token, redeem_connect_token, scope_of,
}
use wasteland.DolthubAuth.Store.Decoded.{read-inv, read-key}
use wasteland.DolthubAuth.Redeem.Sound.{redeem-inv, redeem-IsSpent, IsSpent}

-- What a token that is found good is like.
pub record IsGood (input : RedeemInput) (token : TokenRow) : Type 0 where
  pub unused : token.used_at ≡ none
  pub in_time : input.now < token.expires_at
  pub tenant : token.tenant_id ≡ input.tenant_id
  pub environment : token.environment ≡ input.environment
  pub secret : token.redeem_secret_mac ≡ input.redeem_secret_mac

none_given : {A : Type 0} (x : Option A) → is_some x ≡ false → x ≡ none
none_given none h = refl
none_given (some a) h = cc

checks-inv :
    (u e a b c : Bool) (row token : TokenRow)
    → (if u
        then err invalid_connect_token
        else if e
        then err expired_connect_token
        else if a || b
        then err invalid_connect_token
        else if c
        then err invalid_connect_token
        else ok row)
      ≡ ok token
    → (u ≡ false) × (e ≡ false) × (a ≡ false) × (b ≡ false) × (c ≡ false) × (row ≡ token)
checks-inv true e a b c row token h = cc
checks-inv false true a b c row token h = cc
checks-inv false false true b c row token h = cc
checks-inv false false false true c row token h = cc
checks-inv false false false false true row token h = cc
checks-inv false false false false false row token h = (refl, refl, refl, refl, refl, cc)

negated : (b : Bool) → not b ≡ false → b ≡ true
negated true h = refl
negated false h = cc

not_expired : (now at : ℕ) → not (ltb now at) ≡ false → now < at
not_expired now at h = ground arith

check_token-inv :
    (input : RedeemInput) (row : Option TokenRow) (token : TokenRow)
    → check_token input row ≡ ok token
    → (row ≡ some token) × IsGood input token
unfolding check_token connect_token_expired
check_token-inv input none token h = cc
check_token-inv input (some row) token h =
    let (u, e, a, b, c, same) = checks-inv _ _ _ _ _ row token h in
    (
      ap some same,
      rw (← same) (record {
        unused = none_given row.used_at u;
        in_time = not_expired input.now row.expires_at e;
        tenant = (eq_iff _ _).0 (negated _ a);
        environment = (eq_iff _ _).0 (negated _ b);
        secret = (eq_iff _ _).0 (negated _ c);
      }),
    )

probe-inv :
    (b : Connection) (s s' : Tables) (g : Unit {0} → Tx Connection) (x : String × Option String)
    → (check_probe x >>= g) s ≡ ok (b, s')
    → (x.1 ≡ none) × (g tt s ≡ ok (b, s'))
unfolding check_probe
probe-inv b s s' g (code, none) h = (refl, sym (pure-bind g s tt) ∙ h)
probe-inv b s s' g (code, some text) h = absurd (
    cc (
      raise-bind g s (validation_failed (if code == "" then "upstream_unreachable" else code) text),
      h,
    ))

module _ (lib : Library) (o : Outside) (input : RedeemInput) (c : Connection) (s s' : Tables) where
  metadata-inv :
      (token : TokenRow) (g : Unit {0} → Tx Connection)
      → (check_metadata lib o input token >>= g) s ≡ ok (c, s')
      → (approved : UserMetadata) × (lib.unmarshal_metadata token.approved_metadata ≡ some approved)
        × (equal_metadata lib approved input.metadata ≡ true)
        × (g tt s ≡ ok (c, s'))
  unfolding check_metadata
  metadata-inv token g h =
      let (approved, decoded, h1) = required-inv c s s' _ _ _ (sym (bind_assoc _ g _ s) ∙ h) in
      let (same, h2) = guard-inv c s s' g _ _ h1 in (approved, decoded, same, h2)

  read-subject :
      (k : Scope) → get_connection_tx lib o k s ≡ ok (c, s') → c.subject_id ≡ k.subject_id
  read-subject k h =
      (read-key lib k c (find_row (is_of k) s.connections)
        (λ row found. find_row-passes (is_of k) row s.connections found)
        (read-inv lib o k c s s' h).0).0

module _ (lib : Library) (o : Outside) (input : RedeemInput) (c : Connection) where
  store-subject :
      (subject : String) (sealed : Sealed) (existing : Option Connection) (s s' : Tables)
      → store_credential lib o input subject sealed existing s ≡ ok (c, s')
      → c.subject_id ≡ subject
  unfolding store_credential scope_of
  store-subject subject sealed none s s' h =
      let (_, _, h1) = required-inv c s s' _ _ _ h in
      let (_, s1, _, read) = bind-inv _ c s' _ s h1 in
      read-subject lib o input c s1 s' (scope_of lib o input subject o.fresh_id) read
  store-subject subject sealed (some connection) s s' h =
      let (_, _, h1) = required-inv c s s' _ _ _ h in
      let (_, s1, _, read) = bind-inv _ c s' _ s h1 in
      read-subject lib o input c s1 s' (scope_of lib o input subject connection.connection_id) read

  last-inv :
      (token : TokenRow) (d : Connection) (s s' : Tables)
      → (do
        statement o mark_used "mark connect token used"
        changes (mark lib o input)
        statement o audit "insert audit log"
        changes (audited lib o input token.subject_id d)
        pure d)
          s
        ≡ ok (c, s')
      → d ≡ c
  last-inv token d s s' h =
      let (_, h1) = guard-inv c s s' _ _ _ h in
      let (_, s2, _, h2) = bind-inv _ c s' _ s h1 in
      let (_, h3) = guard-inv c s2 s' _ _ _ h2 in
      let (_, s4, _, h4) = bind-inv _ c s' _ s2 h3 in cc h4

module _ (lib : Library) (o : Outside) (input : RedeemInput) (c : Connection) where
  token-inv :
      (token : TokenRow) (s s' : Tables)
      → redeem_token lib o input token s ≡ ok (c, s')
      → (approved : UserMetadata) × (lib.unmarshal_metadata token.approved_metadata ≡ some approved)
        × (equal_metadata lib approved input.metadata ≡ true)
        × ((o.probe input.api_key).1 ≡ none)
        × (c.subject_id ≡ token.subject_id)
  unfolding redeem_token
  token-inv token s s' h =
      let (approved, decoded, same, h1) = metadata-inv lib o input c s s' token _ h in
      let (probed, h2) = probe-inv c s s' _ (o.probe input.api_key) h1 in
      let (sealed, s3, _, h3) = bind-inv _ c s' _ s h2 in
      let (_, h4) = guard-inv c s3 s' _ _ _ h3 in
      let (existing, _, h5) = reads-inv c s3 s' _ _ h4 in
      let (d, s6, stored, h6) = bind-inv _ c s' _ s3 h5 in
      (
        approved,
        decoded,
        same,
        probed,
        sym (ap (λ x. x.subject_id) (last-inv lib o input c token d s6 s' h6))
            ∙ store-subject lib o input d token.subject_id sealed existing s3 s6 stored,
      )

  abbrev pub IsSound : Tables → Type 0
  IsSound s =
      (token : TokenRow) × (approved : UserMetadata) × (find_row (is_token input.connect_token_mac)
          s.connect_tokens
        ≡ some token)
      × IsGood input token
      × (lib.unmarshal_metadata token.approved_metadata ≡ some approved)
      × (equal_metadata lib approved input.metadata ≡ true)
      × ((o.probe input.api_key).1 ≡ none)
      × (c.subject_id ≡ token.subject_id)
      × IsSpent input.connect_token_mac (redeem_connect_token lib o input s).1

  -- A redemption succeeds only for a stored token that was not used, has not expired, is of the tenant
  -- and the environment of the service and has the secret that is given; whose approved metadata is,
  -- as JSON, the metadata that is given; and with a key that passes the probe. The connection that is
  -- returned is the token's subject's, and the token is used from then on.
  pub redeem_connect_token-IsSound :
      (s : Tables) → (redeem_connect_token lib o input s).0 ≡ ok c → IsSound s
  redeem_connect_token-IsSound s h =
      let (token, checks, done) = redeem-inv lib o input c s h in
      let (found, good) =
        check_token-inv input (find_row (is_token input.connect_token_mac) s.connect_tokens) token
          checks in
      let (approved, decoded, same, probed, subject) =
        token-inv token s (redeem_connect_token lib o input s).1 done in
      (
        token,
        approved,
        found,
        good,
        decoded,
        same,
        probed,
        subject,
        redeem-IsSpent lib o input c s h,
      )
