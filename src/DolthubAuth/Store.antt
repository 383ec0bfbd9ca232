-- ===== src/DolthubAuth/Store.antt =====
-- internal/dolthubauth/store.go: the operations on the tables.
pub mod Keeps
pub mod Decoded
use wasteland.Base.{
  ltb, if◌then◌else◌, filter_by, ℕ, String, Bool, not, ◌||◌, Option, none, some, List, [], ◌∷◌,
  ◌++◌, ◌==◌,
}
use wasteland.DolthubAuth.Types.{
  WastelandConfig, UserMetadata, change_wasteland, upsert_wasteland, remove_wasteland, merged_with,
  AuthError, not_found, conflict, invalid_connect_token, expired_connect_token, metadata_mismatch,
  last_wasteland, wasteland_not_found, invalid_metadata, validation_failed, failed, Outcome, ok,
  err, Connection,
}
use wasteland.DolthubAuth.Validation.{validate_metadata}
use wasteland.DolthubAuth.Tables.{
  TokenRow, ConnectionRow, NonceRow, AuditRow, Tables, find_row, change_rows, is_token, of_subject,
  is_connection, nonce_taken, token_taken, connection_taken, Tx, pure, raise, reads, ◌>>=◌, ◌>>◌,
  guard, required, changes, Statement, reap, insert_token, select_token, select_subject, insert_row,
  update_row, read_back, mark_used, audit, insert_nonce, lock_row, select_credential, Outside,
  statement, transaction,
}

-- `json.Marshal` and `json.Unmarshal`, the text that the database gives back for a JSONB value, and
-- the cipher of credentials.
pub record Library : Type 0 where
  pub marshal_metadata : UserMetadata → Option String
  pub unmarshal_metadata : String → Option UserMetadata
  pub marshal_wastelands : List WastelandConfig → Option String
  pub unmarshal_wastelands : String → Option (List WastelandConfig)
  pub jsonb : String → String
  -- The ciphertext, the version of the key and the backend.
  pub encrypt : String → Option (String × String × String)
  pub decrypt : String → String → String → Option String

pub record RedeemInput : Type 0 where
  pub tenant_id : String
  pub environment : String
  pub connect_token_mac : String
  pub redeem_secret_mac : String
  pub metadata : UserMetadata
  pub api_key : String
  pub now : ℕ

-- The key of a connection: what every statement on one connection is guarded by.
pub record Scope : Type 0 where
  pub tenant_id : String
  pub environment : String
  pub subject_id : String
  pub connection_id : String

abbrev pub is_of : Scope → ConnectionRow → Bool
is_of k row = is_connection k.tenant_id k.environment k.subject_id k.connection_id row

unfoldable pub connect_token_expired : ℕ → ℕ → Bool
connect_token_expired now expires_at = not (ltb now expires_at)

unfoldable pub reap_expired_connect_tokens : ℕ → Tables → Tables
unfolding filter_by
reap_expired_connect_tokens now s = record s {
  connect_tokens = filter_by (λ row. ltb now row.expires_at) s.connect_tokens;
}

unfoldable pub reap_expired_service_nonces : ℕ → Tables → Tables
unfolding filter_by
reap_expired_service_nonces now s = record s {
  service_request_nonces = filter_by (λ row. ltb now row.expires_at) s.service_request_nonces;
}

abbrev pub text_or_empty : Option String → String
text_or_empty none = ""
text_or_empty (some text) = text

module _ (lib : Library) where
  unfoldable pub decode_wastelands : String → Outcome (List WastelandConfig)
  decode_wastelands raw = if raw == "" then ok [] else decoded (lib.unmarshal_wastelands raw)
    where
      decoded : Option (List WastelandConfig) → Outcome (List WastelandConfig)
      decoded none = err (failed "decode wastelands")
      decoded (some wastelands) = ok wastelands

  connection_of : ConnectionRow → Outcome (List WastelandConfig) → Outcome Connection
  connection_of row (err e) = err e
  connection_of row (ok wastelands) = ok (record {
    connection_id = row.connection_id;
    tenant_id = row.tenant_id;
    environment = row.environment;
    subject_id = row.subject_id;
    metadata = record { rig_handle = row.rig_handle; wastelands = wastelands };
    status = row.status;
    credential_version = row.credential_version;
    record_version = row.record_version;
    last_validated_at = row.last_validated_at;
    last_validation_error_code = text_or_empty row.last_validation_error_code;
    last_proxy_error_at = row.last_proxy_error_at;
    created_at = row.created_at;
    updated_at = row.updated_at;
  })

  unfoldable pub scan_connection_row : ConnectionRow → Outcome Connection
  unfolding connection_of decode_wastelands
  scan_connection_row row = connection_of row (decode_wastelands row.wastelands)

  -- `equalMetadata`: the two texts, empty for what cannot be encoded.
  unfoldable pub equal_metadata : UserMetadata → UserMetadata → Bool
  equal_metadata a b =
      text_or_empty (lib.marshal_metadata a) == text_or_empty (lib.marshal_metadata b)

  unfoldable pub scanned : Option ConnectionRow → Outcome Connection
  unfolding scan_connection_row
  scanned none = err not_found
  scanned (some row) = scan_connection_row row

  unfoldable pub get_connection_tx : Outside → Scope → Tx Connection
  unfolding scanned find_row
  get_connection_tx o k = do
    statement o read_back "get connection"
    reads (λ s. scanned (find_row (is_of k) s.connections))

  -- `GetConnection`, outside any transaction.
  unfoldable pub get_connection : Outside → Scope → Tables → Outcome Connection
  unfolding scanned find_row
  get_connection o k s =
      if o.fails read_back
      then err (failed "get connection")
      else scanned (find_row (is_of k) s.connections)

module _ (lib : Library) (o : Outside) where
  store_token : Tables → Option String → (String → TokenRow) → Outcome (Unit {0}) × Tables
  unfolding token_taken
  store_token s none row = (err (failed "marshal approved metadata"), s)
  store_token s (some text) row =
      if o.fails insert_token || token_taken (row text) s
      then (err (failed "insert connect token"), s)
      else (ok tt, record s { connect_tokens = s.connect_tokens ++ row text ∷ [] })

  -- The tenant and environment are those of the store.
  unfoldable pub create_connect_token :
      String
      → String
      → String
      → String
      → String
      → UserMetadata
      → ℕ
      → ℕ
      → Tables
      → Outcome (Unit {0}) × Tables
  unfolding store_token reap_expired_connect_tokens
  create_connect_token tenant environment token_mac secret_mac subject_id metadata expires_at now
        s =
      if o.fails reap
      then (err (failed "reap expired connect tokens"), s)
      else store_token (reap_expired_connect_tokens now s) (lib.marshal_metadata metadata) (λ text.
        record {
          connect_token_mac = token_mac;
          redeem_secret_mac = secret_mac;
          tenant_id = tenant;
          environment = environment;
          subject_id = subject_id;
          approved_metadata = lib.jsonb text;
          expires_at = expires_at;
          used_at = none;
          created_at = now;
        })
