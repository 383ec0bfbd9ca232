-- ===== src/DolthubAuth/Redeem.antt =====
-- internal/dolthubauth/store.go: `RedeemConnectToken`.
pub mod Keeps
pub mod Sound
pub mod Checks
use wasteland.Base.{
  if◌then◌else◌, ℕ, suc, String, Bool, true, false, not, ◌&&◌, ◌||◌, Option, none, some, [], ◌∷◌,
  ◌++◌, ◌==◌,
}
use wasteland.DolthubAuth.Types.{
  WastelandConfig, UserMetadata, merged_with, AuthError, invalid_connect_token,
  expired_connect_token, metadata_mismatch, validation_failed, failed, Outcome, ok, err, Connection,
}
use wasteland.DolthubAuth.Tables.{
  TokenRow, ConnectionRow, AuditRow, Tables, find_row, change_rows, any_row, is_token, of_subject,
  connection_taken, both_fit, Tx, pure, raise, reads, ◌>>=◌, ◌>>◌, guard, required, changes,
  select_token, select_subject, insert_row, update_row, mark_used, audit, Outside, statement,
  transaction,
}
use wasteland.DolthubAuth.Store.{
  Library, RedeemInput, Scope, is_of, connect_token_expired, scan_connection_row, equal_metadata,
  get_connection_tx,
}

abbrev pub is_some : {A : Type 0} → Option A → Bool
is_some none = false
is_some (some a) = true

-- The checks on the token's row, in turn.
unfoldable pub check_token : RedeemInput → Option TokenRow → Outcome TokenRow
unfolding connect_token_expired
check_token input none = err invalid_connect_token
check_token input (some row) =
    if is_some row.used_at
    then err invalid_connect_token
    else if connect_token_expired input.now row.expires_at
    then err expired_connect_token
    else if not (row.tenant_id == input.tenant_id) || not (row.environment == input.environment)
    then err invalid_connect_token
    else if not (row.redeem_secret_mac == input.redeem_secret_mac)
    then err invalid_connect_token
    else ok row

-- The error of a probe that refuses the key.
unfoldable pub check_probe : String × Option String → Tx (Unit {0})
check_probe (code, none) = pure tt
check_probe (code, some text) =
    raise (validation_failed (if code == "" then "upstream_unreachable" else code) text)

-- The columns that hold a credential.
pub record Sealed : Type 0 where
  pub ciphertext : String
  pub key_version : String
  pub backend : String

unfoldable pub sealed_of : Option (String × String × String) → Tx Sealed
sealed_of none = raise (failed "encrypt credential")
sealed_of (some (ciphertext, key_version, backend)) =
    pure (record { ciphertext = ciphertext; key_version = key_version; backend = backend })

unfoldable pub seal_row : ℕ → String → String → Sealed → ConnectionRow → ConnectionRow
seal_row now rig_handle wastelands sealed row = record row {
  rig_handle = rig_handle;
  wastelands = wastelands;
  status = "active";
  credential_ciphertext = sealed.ciphertext;
  credential_key_version = sealed.key_version;
  credential_encryption_backend = sealed.backend;
  credential_version = suc row.credential_version;
  record_version = suc row.record_version;
  last_validated_at = some now;
  last_validation_error_code = none;
  updated_at = now;
}

unfoldable pub new_row : ℕ → Scope → String → String → Sealed → ConnectionRow
new_row now k rig_handle wastelands sealed = record {
  connection_id = k.connection_id;
  tenant_id = k.tenant_id;
  environment = k.environment;
  subject_id = k.subject_id;
  rig_handle = rig_handle;
  wastelands = wastelands;
  status = "active";
  credential_ciphertext = sealed.ciphertext;
  credential_key_version = sealed.key_version;
  credential_encryption_backend = sealed.backend;
  credential_version = 1;
  record_version = 1;
  last_validated_at = some now;
  last_validation_error_code = none;
  last_proxy_error_at = none;
  created_at = now;
  updated_at = now;
}

module _ (o : Outside) where
  unfoldable pub insert_connection : ConnectionRow → Tx (Unit {0})
  unfolding connection_taken
  insert_connection row s =
      if o.fails insert_row || connection_taken row s
      then err (failed "insert connection")
      else ok (tt, record s { connections = s.connections ++ row ∷ [] })

  -- The update of one connection, whose new counts have to fit their columns.
  unfoldable pub update_connection :
      Scope → (ConnectionRow → Bool) → (ConnectionRow → ConnectionRow) → String → Tx (Unit {0})
  unfolding any_row change_rows
  update_connection k fits change context s =
      if o.fails update_row || any_row (λ row. is_of k row && not (fits row)) s.connections
      then err (failed context)
      else ok (tt, record s { connections = change_rows (is_of k) change s.connections })

existing_connection : Outcome Connection → Outcome (Option Connection)
existing_connection (ok conn) = ok (some conn)
existing_connection (err e) = err (failed "scan existing connection")

module _ (lib : Library) (o : Outside) (input : RedeemInput) where
  unfoldable pub check_metadata : TokenRow → Tx (Unit {0})
  unfolding equal_metadata
  check_metadata token = do
    approved ←
        required (lib.unmarshal_metadata token.approved_metadata)
          (failed "decode approved metadata")
    guard (equal_metadata lib approved input.metadata) metadata_mismatch

  unfoldable pub subject_connection : Option ConnectionRow → Outcome (Option Connection)
  unfolding existing_connection scan_connection_row
  subject_connection none = ok none
  subject_connection (some row) = existing_connection (scan_connection_row lib row)

  unfoldable pub scope_of : String → String → Scope
  scope_of subject_id connection_id = record {
    tenant_id = input.tenant_id;
    environment = input.environment;
    subject_id = subject_id;
    connection_id = connection_id;
  }

  -- A new connection for the subject, or the new credential in the one that it has.
  unfoldable pub store_credential : String → Sealed → Option Connection → Tx Connection
  unfolding insert_connection update_connection scope_of seal_row new_row merged_with both_fit
  store_credential subject_id sealed none = do
    let k = scope_of subject_id o.fresh_id
    wastelands ←
        required (lib.marshal_wastelands input.metadata.wastelands) (failed "marshal wastelands")
    insert_connection o
        (new_row input.now k input.metadata.rig_handle (lib.jsonb wastelands) sealed)
    get_connection_tx lib o k
  store_credential subject_id sealed (some connection) = do
    let k = scope_of subject_id connection.connection_id
    let merged = merged_with connection.metadata input.metadata
    wastelands ←
        required (lib.marshal_wastelands merged.wastelands) (failed "marshal merged wastelands")
    update_connection o k both_fit
        (seal_row input.now merged.rig_handle (lib.jsonb wastelands) sealed) "update connection"
    get_connection_tx lib o k

  unfoldable pub mark : Tables → Tables
  unfolding change_rows
  mark s = record s {
    connect_tokens =
        change_rows (is_token input.connect_token_mac)
          (λ row. record row { used_at = some input.now }) s.connect_tokens;
  }

  unfoldable pub audited : String → Connection → Tables → Tables
  audited subject_id connection s = record s {
    audit_log =
        s.audit_log
        ++ record {
          tenant_id = input.tenant_id;
          environment = input.environment;
          subject_id = subject_id;
          connection_id = connection.connection_id;
          actor_type = "browser-via-connect-token";
          action = "connection_redeemed";
          outcome = "success";
        }
          ∷ [];
  }

  -- What follows once the token is found good.
  unfoldable pub redeem_token : TokenRow → Tx Connection
  unfolding check_metadata check_probe sealed_of subject_connection store_credential mark audited
  redeem_token token = do
    check_metadata token
    check_probe (o.probe input.api_key)
    sealed ← sealed_of (lib.encrypt input.api_key)
    statement o select_subject "scan existing connection"
    existing ← reads (λ s.
        subject_connection
          (find_row (of_subject input.tenant_id input.environment token.subject_id) s.connections))
    connection ← store_credential token.subject_id sealed existing
    statement o mark_used "mark connect token used"
    changes mark
    statement o audit "insert audit log"
    changes (audited token.subject_id connection)
    pure connection

  unfoldable pub redeem_body : Tx Connection
  unfolding check_token redeem_token
  redeem_body = do
    statement o select_token "lookup connect token"
    token ←
        reads
          (λ s. check_token input (find_row (is_token input.connect_token_mac) s.connect_tokens))
    redeem_token token

  unfoldable pub redeem_connect_token : Tables → Outcome Connection × Tables
  unfolding transaction redeem_body
  redeem_connect_token s = transaction o "begin redeem tx" "commit redeem tx" redeem_body s
