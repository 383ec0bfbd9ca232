-- ===== src/DolthubAuth/Redeem/Sound.antt =====
-- internal/dolthubauth/store.go: what a redemption that succeeds has checked and done.
use wasteland.Base.{String, ◌≡◌, refl, Bool, false, not, ◌&&◌, Option, none, some, arith}
use wasteland.DolthubAuth.Types.{Outcome, ok, Connection}
use wasteland.DolthubAuth.Tables.{Tables, TokenRow, changes, Outside, find_row, any_row, is_token}
use wasteland.DolthubAuth.Tables.Keeps.{After, TxKeeps, tx_rules, TxKeeps-changes}
use wasteland.DolthubAuth.Tables.Rows.{any_row-changed, find_row-free}
use wasteland.DolthubAuth.Tables.Inv.{
  guard-inv, reads-inv, transaction-ok, TxMakes, TxMakes-last, TxMakes-first,
}
use wasteland.DolthubAuth.Store.{Library, RedeemInput}
use wasteland.DolthubAuth.Redeem.{
  is_some, check_token, mark, audited, redeem_token, redeem_body, redeem_connect_token,
}

-- Every row of the token, if any, is used.
abbrev pub unused : String → TokenRow → Bool
unused mac row = is_token mac row && not (is_some row.used_at)

abbrev pub IsSpent : String → Tables → Type 0
IsSpent mac s = any_row (unused mac) s.connect_tokens ≡ false

module _ (lib : Library) (o : Outside) (input : RedeemInput) where
  mark-IsSpent : TxMakes (IsSpent input.connect_token_mac) (changes (mark lib o input))
  unfolding mark
  mark-IsSpent = record {
    at = λ s.
        any_row-changed (unused input.connect_token_mac) (is_token input.connect_token_mac)
          (λ row. record row { used_at = some input.now }) (λ row. ground arith) s.connect_tokens;
  }

  audited-IsSpent :
      (subject : String) (c : Connection)
      → TxKeeps (IsSpent input.connect_token_mac) (changes (audited lib o input subject c))
  unfolding audited
  audited-IsSpent subject c = TxKeeps-changes _ (λ s h. h)

  redeem_token-IsSpent :
      (token : TokenRow)
      → TxMakes (IsSpent input.connect_token_mac) (redeem_token lib o input token)
  unfolding redeem_token
  redeem_token-IsSpent token = TxMakes-last _ _ (λ _. TxMakes-last _ _ (λ _. TxMakes-last _ _ (λ _.
      TxMakes-last _ _ (λ _. TxMakes-last _ _ (λ _. TxMakes-last _ _ (λ _. TxMakes-last _ _ (λ _.
        TxMakes-first _ _ mark-IsSpent (λ _. search (tx_rules, audited-IsSpent) depth 20))))))))

  body-inv :
      (c : Connection) (s s' : Tables)
      → redeem_body lib o input s ≡ ok (c, s')
      → (token : TokenRow) × (check_token input
            (find_row (is_token input.connect_token_mac) s.connect_tokens)
          ≡ ok token)
        × (redeem_token lib o input token s ≡ ok (c, s'))
  unfolding redeem_body
  body-inv c s s' h =
      let (_, rest) = guard-inv c s s' _ _ _ h in reads-inv c s s' (redeem_token lib o input) _ rest

  -- The token is found good, and the rest succeeds from the tables as they were.
  pub redeem-inv :
      (c : Connection) (s : Tables)
      → (redeem_connect_token lib o input s).0 ≡ ok c
      → (token : TokenRow) × (check_token input
            (find_row (is_token input.connect_token_mac) s.connect_tokens)
          ≡ ok token)
        × (redeem_token lib o input token s ≡ ok (c, (redeem_connect_token lib o input s).1))
  unfolding redeem_connect_token
  redeem-inv c s h =
      body-inv c s (redeem_connect_token lib o input s).1
        (transaction-ok o "begin redeem tx" "commit redeem tx" c (redeem_body lib o input) s h)

  pub redeem-IsSpent :
      (c : Connection) (s : Tables)
      → (redeem_connect_token lib o input s).0 ≡ ok c
      → IsSpent input.connect_token_mac (redeem_connect_token lib o input s).1
  redeem-IsSpent c s h =
      let (token, _, done) = redeem-inv c s h in after done ((redeem_token-IsSpent token).at s)
    where
      after :
          {x : Outcome (Connection × Tables)} {s' : Tables}
          → x ≡ ok (c, s')
          → After (IsSpent input.connect_token_mac) x
          → IsSpent input.connect_token_mac s'
      after e p = rw e at p

spent_refused :
    (input : RedeemInput) (row : Option TokenRow) (token : TokenRow)
    → ((r : TokenRow) → row ≡ some r → not (is_some r.used_at) ≡ false)
    → check_token input row ≡ ok token
    → ⊥
unfolding check_token
spent_refused input none token h e = cc
spent_refused input (some row) token h e = ground (arith, h row refl)

module _ (lib : Library) (o : Outside) (input : RedeemInput) where
  -- A token that is spent is not redeemed.
  pub spent_token :
      (c : Connection) (s : Tables)
      → IsSpent input.connect_token_mac s
      → (redeem_connect_token lib o input s).0 ≡ ok c
      → ⊥
  spent_token c s spent h =
      let (token, good, _) = redeem-inv lib o input c s h in
      spent_refused input (find_row (is_token input.connect_token_mac) s.connect_tokens) token
        (λ row found.
          find_row-free (is_token input.connect_token_mac) (λ row. not (is_some row.used_at)) row
            s.connect_tokens spent found)
        good
