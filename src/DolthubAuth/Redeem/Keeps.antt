-- ===== src/DolthubAuth/Redeem/Keeps.antt =====
-- internal/dolthubauth/store.go: what the redemption of a token keeps.
use wasteland.Base.{
  if◌then◌else◌, String, ◌≡◌, refl, Bool, true, false, ◌||◌, Option, none, some, [], ◌∷◌, ◌++◌,
}
use wasteland.DolthubAuth.Types.{Outcome, ok, err, Connection, AuthError, merged_with}
use wasteland.DolthubAuth.Tables.{
  Tables, ConnectionRow, connection_taken, Outside, TokenRow, find_row, change_rows, of_subject,
  changes, insert_row, mark_used, audit, statement, pure, reads, ◌>>=◌, ◌>>◌,
}
use wasteland.DolthubAuth.Tables.Keeps.{
  After, TxKeeps, tx_rules, TxKeeps-changes, transaction-keep, TxKeeps-value, TxKeeps-bind,
  TxKeeps-read, TxKeeps-pure, TxKeeps-raise,
}
use wasteland.DolthubAuth.Store.{
  Library, RedeemInput, Scope, is_of, get_connection_tx, scan_connection_row,
}
use wasteland.DolthubAuth.Redeem.{
  insert_connection, update_connection, check_metadata, check_probe, Sealed, sealed_of,
  store_credential, mark, audited, redeem_token, redeem_body, redeem_connect_token, seal_row,
  new_row, subject_connection, existing_connection,
}

unless-After :
    (P : Tables → Type 0) (b : Bool) (e : AuthError) (s : Tables)
    → (b ≡ false → P s)
    → After {A = Unit {0}} P (if b then err e else ok (tt, s))
unless-After P true e s h = tt
unless-After P false e s h = h refl

module _ (P : Tables → Type 0) (o : Outside) where
  pub insert_connection-keep :
      (row : ConnectionRow)
      → ((s : Tables)
          → P s
          → connection_taken row s ≡ false
          → P (record s { connections = s.connections ++ row ∷ [] }))
      → TxKeeps P (insert_connection o row)
  unfolding insert_connection
  insert_connection-keep row h = record {
    at = λ s p.
        unless-After P _ _ _ (λ e. h s p (either (o.fails insert_row) (connection_taken row s) e));
  }
    where
      either : (a b : Bool) → (a || b) ≡ false → b ≡ false
      either true b e = cc
      either false b e = e

  pub update_connection-keep :
      (k : Scope) (fits : ConnectionRow → Bool) (change : ConnectionRow → ConnectionRow)
      (context : String)
      → ((s : Tables)
          → P s
          → P (record s { connections = change_rows (is_of k) change s.connections }))
      → TxKeeps P (update_connection o k fits change context)
  unfolding update_connection
  update_connection-keep k fits change context h = record {
    at = λ s p. unless-After P _ _ _ (λ e. h s p);
  }

pub get_connection_tx-keep :
    (P : Tables → Type 0) (lib : Library) (o : Outside) (k : Scope)
    → TxKeeps P (get_connection_tx lib o k)
unfolding get_connection_tx
get_connection_tx-keep P lib o k = search tx_rules

-- The writes of a redemption keep `P`, if what is read of a connection satisfies `R`.
pub record RedeemKeeps (lib : Library) (o : Outside) (input : RedeemInput) (P : Tables → Type 0)
    (R : Connection → Type 0) : Type 0 where
  pub known :
      (subject : String) (row : ConnectionRow) (c : Connection) (s : Tables)
      → P s
      → find_row (of_subject input.tenant_id input.environment subject) s.connections ≡ some row
      → scan_connection_row lib row ≡ ok c
      → R c
  pub new :
      (k : Scope) (wastelands : String) (sealed : Sealed) (s : Tables)
      → lib.marshal_wastelands input.metadata.wastelands ≡ some wastelands
      → P s
      → connection_taken
          (new_row input.now k input.metadata.rig_handle (lib.jsonb wastelands) sealed)
          s
        ≡ false
      → P (record s {
        connections =
            s.connections
            ++ new_row input.now k input.metadata.rig_handle (lib.jsonb wastelands) sealed ∷ [];
      })
  pub renew :
      (k : Scope) (c : Connection) (wastelands : String) (sealed : Sealed) (s : Tables)
      → R c
      → lib.marshal_wastelands (merged_with c.metadata input.metadata).wastelands ≡ some wastelands
      → P s
      → P (record s {
        connections =
            change_rows
              (is_of k)
              (seal_row input.now
                (merged_with c.metadata input.metadata).rig_handle
                (lib.jsonb wastelands)
                sealed)
              s.connections;
      })
  pub used : (s : Tables) → P s → P (mark lib o input s)
  pub log :
      (subject : String) (c : Connection) (s : Tables) → P s → P (audited lib o input subject c s)

module _ (lib : Library) (o : Outside) (input : RedeemInput) (P : Tables → Type 0)
    (R : Connection → Type 0) (keeps : RedeemKeeps lib o input P R) where
  abbrev Known : Option Connection → Type 0
  Known none = Unit {0}
  Known (some c) = R c

  read_back-keep : (k : Scope) → TxKeeps P (get_connection_tx lib o k)
  read_back-keep k = get_connection_tx-keep P lib o k

  store-keep :
      (subject : String) (sealed : Sealed) (c : Option Connection)
      → Known c
      → TxKeeps P (store_credential lib o input subject sealed c)
  unfolding store_credential
  store-keep subject sealed none h = TxKeeps-value _ _ _ (λ wastelands e.
      TxKeeps-bind _ _
        (insert_connection-keep P o _ (λ s p free. keeps.new _ wastelands sealed s e p free))
        (λ _. read_back-keep _))
  store-keep subject sealed (some c) h = TxKeeps-value _ _ _ (λ wastelands e.
      TxKeeps-bind _ _
        (update_connection-keep P o _ _ _ _ (λ s p. keeps.renew _ c wastelands sealed s h e p))
        (λ _. read_back-keep _))

  existing-Known :
      (x : Outcome Connection)
      → ((d : Connection) → x ≡ ok d → R d)
      → (c : Option Connection) → existing_connection x ≡ ok c
      → Known c
  unfolding existing_connection
  existing-Known (ok d) h none e = tt
  existing-Known (ok d) h (some c) e = h c (cc)
  existing-Known (err f) h c e = absurd (cc)

  subject_connection-Known :
      (row : Option ConnectionRow)
      → ((r : ConnectionRow) (c : Connection)
          → row ≡ some r
          → scan_connection_row lib r ≡ ok c
          → R c)
      → (c : Option Connection) → subject_connection lib o input row ≡ ok c
      → Known c
  unfolding subject_connection
  subject_connection-Known none h none e = tt
  subject_connection-Known none h (some c) e = cc
  subject_connection-Known (some r) h c e =
      existing-Known (scan_connection_row lib r) (λ d. h r d refl) c e

  connection-Known :
      (subject : String) (s : Tables)
      → P s
      → (c : Option Connection)
      → subject_connection lib o input
          (find_row (of_subject input.tenant_id input.environment subject) s.connections)
        ≡ ok c
      → Known c
  connection-Known subject s p c e =
      subject_connection-Known
        (find_row (of_subject input.tenant_id input.environment subject) s.connections)
        (λ row d. keeps.known subject row d s p) c e

  check_probe-keep : (x : String × Option String) → TxKeeps P (check_probe x)
  unfolding check_probe
  check_probe-keep (code, none) = TxKeeps-pure tt
  check_probe-keep (code, some text) = TxKeeps-raise _

  sealed_of-keep : (x : Option (String × String × String)) → TxKeeps P (sealed_of x)
  unfolding sealed_of
  sealed_of-keep none = TxKeeps-raise _
  sealed_of-keep (some (c, v, b)) = TxKeeps-pure _

  mark-keep : TxKeeps P (changes (mark lib o input))
  mark-keep = TxKeeps-changes _ keeps.used

  audited-keep :
      (subject : String) (c : Connection) → TxKeeps P (changes (audited lib o input subject c))
  audited-keep subject c = TxKeeps-changes _ (keeps.log subject c)

  -- From the look for the connection of the subject on.
  stored-keep :
      (subject : String) (sealed : Sealed)
      → TxKeeps P (do
        existing ← reads (λ s.
            subject_connection lib o input
              (find_row (of_subject input.tenant_id input.environment subject) s.connections))
        connection ← store_credential lib o input subject sealed existing
        statement o mark_used "mark connect token used"
        changes (mark lib o input)
        statement o audit "insert audit log"
        changes (audited lib o input subject connection)
        pure connection)
  stored-keep subject sealed = TxKeeps-read _ _ Known (connection-Known subject) (λ c known.
      TxKeeps-bind _ _ (store-keep subject sealed c known)
        (λ connection. search (tx_rules, mark-keep, audited-keep) depth 20))

  redeem_token-keep : (token : TokenRow) → TxKeeps P (redeem_token lib o input token)
  unfolding redeem_token check_metadata
  redeem_token-keep token =
      search (tx_rules, check_probe-keep, sealed_of-keep, stored-keep) depth 20

  -- A redemption keeps `P`, whether it succeeds or not.
  pub redeem-keep : (s : Tables) → P s → P (redeem_connect_token lib o input s).1
  unfolding redeem_connect_token redeem_body
  redeem-keep =
      transaction-keep P o "begin redeem tx" "commit redeem tx" (redeem_body lib o input)
        (search (tx_rules, redeem_token-keep) depth 20)
