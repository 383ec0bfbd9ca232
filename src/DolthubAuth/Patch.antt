-- ===== src/DolthubAuth/Patch.antt =====
-- internal/dolthubauth/store.go: the changes to the metadata of a connection, its credential, and the
-- nonces of requests.
pub mod Credential
pub mod Keeps
pub mod Nonces
pub mod Sound
use wasteland.Base.{
  leb, if◌then◌else◌, length, int_eq, ℤ, pos, ℕ, suc, String, Bool, Option, none, some, List, [],
  ◌∷◌, ◌++◌,
}
use wasteland.DolthubAuth.Types.{
  WastelandConfig, UserMetadata, change_wasteland, upsert_wasteland, remove_wasteland, AuthError,
  not_found, conflict, last_wasteland, wasteland_not_found, invalid_metadata, failed, Outcome, ok,
  err, Connection,
}
use wasteland.DolthubAuth.Validation.{validate_metadata}
use wasteland.DolthubAuth.Tables.{
  ConnectionRow, NonceRow, Tables, find_row, nonce_taken, record_fits, Tx, pure, raise, reads,
  ◌>>=◌, ◌>>◌, guard, required, reap, lock_row, select_credential, insert_nonce, Outside, statement,
  transaction,
}
use wasteland.DolthubAuth.Store.{
  Library, Scope, is_of, decode_wastelands, scan_connection_row, get_connection_tx,
  reap_expired_service_nonces,
}
use wasteland.DolthubAuth.Redeem.{update_connection}

-- What a request does to the metadata that is stored.
abbrev pub Change : Type 0
Change = UserMetadata → Outcome UserMetadata

with_wastelands : UserMetadata → Option (List WastelandConfig) → Outcome UserMetadata
with_wastelands m none = err wasteland_not_found
with_wastelands m (some wastelands) = ok (record m { wastelands = wastelands })

unfoldable pub set_rig_handle : String → Change
set_rig_handle rig_handle m = ok (record m { rig_handle = rig_handle })

unfoldable pub put_wasteland : WastelandConfig → Change
unfolding upsert_wasteland
put_wasteland wl m = ok (record m { wastelands = upsert_wasteland wl m.wastelands })

unfoldable pub drop_wasteland : String → Change
unfolding with_wastelands remove_wasteland
drop_wasteland upstream m =
    if leb (length m.wastelands) 1
    then err last_wasteland
    else with_wastelands m (remove_wasteland upstream m.wastelands)

unfoldable pub set_wasteland_settings : String → String → Bool → Change
unfolding with_wastelands change_wasteland
set_wasteland_settings upstream mode signing m =
    with_wastelands m
      (change_wasteland upstream (λ wl. record wl { mode = mode; signing = signing }) m.wastelands)

unfoldable pub locked : Option ConnectionRow → Outcome ConnectionRow
locked none = err not_found
locked (some row) = ok row

unfoldable pub checked : UserMetadata → Option String → Outcome UserMetadata
checked m none = ok m
checked m (some text) = err (invalid_metadata text)

unfoldable pub patch_row : ℕ → String → String → ConnectionRow → ConnectionRow
patch_row now rig_handle wastelands row = record row {
  rig_handle = rig_handle;
  wastelands = wastelands;
  record_version = suc row.record_version;
  updated_at = now;
}

module _ (lib : Library) (o : Outside) where
  unfoldable pub patch_body : Scope → ℤ → ℕ → Change → Tx Connection
  unfolding locked checked patch_row decode_wastelands update_connection record_fits
  patch_body k expected now mutate = do
    statement o lock_row "lock connection"
    row ← reads (λ s. locked (find_row (is_of k) s.connections))
    guard (int_eq (pos row.record_version) expected) conflict
    wastelands ← reads (λ s. decode_wastelands lib row.wastelands)
    meta ← reads (λ s. mutate (record { rig_handle = row.rig_handle; wastelands = wastelands }))
    valid ← reads (λ s. checked meta (validate_metadata meta))
    encoded ← required (lib.marshal_wastelands valid.wastelands) (failed "marshal wastelands")
    update_connection o k record_fits (patch_row now valid.rig_handle (lib.jsonb encoded))
        "update metadata"
    get_connection_tx lib o k

  unfoldable pub patch_metadata_tx : Scope → ℤ → ℕ → Change → Tables → Outcome Connection × Tables
  unfolding transaction patch_body
  patch_metadata_tx k expected now mutate s =
      transaction o "begin metadata tx" "commit metadata tx" (patch_body k expected now mutate) s

  unfoldable pub patch_rig_handle : Scope → String → ℤ → ℕ → Tables → Outcome Connection × Tables
  unfolding patch_metadata_tx set_rig_handle
  patch_rig_handle k rig_handle expected now s =
      patch_metadata_tx k expected now (set_rig_handle rig_handle) s

  unfoldable pub store_wasteland :
      Scope → WastelandConfig → ℤ → ℕ → Tables → Outcome Connection × Tables
  unfolding patch_metadata_tx put_wasteland
  store_wasteland k wl expected now s = patch_metadata_tx k expected now (put_wasteland wl) s

  unfoldable pub delete_wasteland : Scope → String → ℤ → ℕ → Tables → Outcome Connection × Tables
  unfolding patch_metadata_tx drop_wasteland
  delete_wasteland k upstream expected now s =
      patch_metadata_tx k expected now (drop_wasteland upstream) s

  unfoldable pub patch_wasteland_settings :
      Scope → String → String → Bool → ℤ → ℕ → Tables → Outcome Connection × Tables
  unfolding patch_metadata_tx set_wasteland_settings
  patch_wasteland_settings k upstream mode signing expected now s =
      patch_metadata_tx k expected now (set_wasteland_settings upstream mode signing) s

  opened : ConnectionRow → Option String → Connection → Outcome (Connection × String)
  opened row none conn = err (failed "decrypt credential")
  opened row (some plaintext) conn = ok (conn, plaintext)

  credential_of : Option ConnectionRow → Outcome (Connection × String)
  unfolding opened scan_connection_row
  credential_of none = err not_found
  credential_of (some row) = elim (scan_connection_row lib row) [
    | err e ↦ err e
    | ok conn ↦
        opened row
          (lib.decrypt row.credential_ciphertext row.credential_key_version
            row.credential_encryption_backend)
          conn
  ]

  unfoldable pub get_connection_credential : Scope → Tables → Outcome (Connection × String)
  unfolding credential_of find_row
  get_connection_credential k s =
      if o.fails select_credential
      then err (failed "get credential")
      else credential_of (find_row (is_of k) s.connections)

module _ (o : Outside) where
  record_nonce : NonceRow → Tables → Outcome (Unit {0}) × Tables
  unfolding nonce_taken
  record_nonce row s =
      if o.fails insert_nonce
      then (err (failed "insert nonce"), s)
      else if nonce_taken row s
      then (err conflict, s)
      else (ok tt, record s { service_request_nonces = s.service_request_nonces ++ row ∷ [] })

  unfoldable pub use_service_nonce : String → String → ℕ → ℕ → Tables → Outcome (Unit {0}) × Tables
  unfolding record_nonce reap_expired_service_nonces
  use_service_nonce key_id nonce now expires_at s =
      if o.fails reap
      then (err (failed "reap expired nonces"), s)
      else record_nonce (record { key_id = key_id; nonce = nonce; expires_at = expires_at })
          (reap_expired_service_nonces now s)
