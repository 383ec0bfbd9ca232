-- ===== src/DolthubAuth/Patch/Keeps.antt =====
-- internal/dolthubauth/store.go: what a change of metadata keeps.
use wasteland.Base.{ℤ, ℕ, String, ◌≡◌, refl, sym, ap, ◌∙◌, Option, none, some}
use wasteland.DolthubAuth.Types.{UserMetadata, failed, ok}
use wasteland.DolthubAuth.Tables.{
  Tables, Outside, change_rows, record_fits, required, reads, ◌>>=◌, ◌>>◌,
}
use wasteland.DolthubAuth.Tables.Keeps.{
  TxKeeps, tx_rules, transaction-keep, TxKeeps-value, TxKeeps-bind, TxKeeps-read,
}
use wasteland.DolthubAuth.Store.{Library, Scope, is_of, get_connection_tx}
use wasteland.DolthubAuth.Redeem.{update_connection}
use wasteland.DolthubAuth.Redeem.Keeps.{update_connection-keep, get_connection_tx-keep}
use wasteland.DolthubAuth.Patch.{Change, patch_body, patch_metadata_tx, patch_row, checked}
use wasteland.DolthubAuth.Validation.{validate_metadata}

module _ (P : Tables → Type 0) (lib : Library) (o : Outside) (k : Scope) (now : ℕ)
    (write : (m : UserMetadata) (wastelands : String) (s : Tables)
      → validate_metadata m ≡ none
      → lib.marshal_wastelands m.wastelands ≡ some wastelands
      → P s
      → P (record s {
        connections =
            change_rows (is_of k) (patch_row now m.rig_handle (lib.jsonb wastelands)) s.connections;
      })) where
  written :
      (m : UserMetadata)
      → validate_metadata m ≡ none
      → TxKeeps P (do
        encoded ← required (lib.marshal_wastelands m.wastelands) (failed "marshal wastelands")
        update_connection o k record_fits
            (patch_row now m.rig_handle (lib.jsonb encoded))
            "update metadata"
        get_connection_tx lib o k)
  written m valid = TxKeeps-value _ _ _ (λ encoded e.
      TxKeeps-bind _ _
        (update_connection-keep P o k record_fits (patch_row now m.rig_handle (lib.jsonb encoded))
          "update metadata" (λ s p. write m encoded s valid e p))
        (λ _. get_connection_tx-keep P lib o k))

  checked-valid :
      (m : UserMetadata) (text : Option String) (v : UserMetadata)
      → checked m text ≡ ok v
      → (m ≡ v) × (text ≡ none)
  unfolding checked
  checked-valid m none v h = (cc, refl)
  checked-valid m (some text) v h = cc

  valid-keep :
      (m : UserMetadata)
      → TxKeeps P (do
        valid ← reads (λ s. checked m (validate_metadata m))
        encoded ← required (lib.marshal_wastelands valid.wastelands) (failed "marshal wastelands")
        update_connection o k record_fits
            (patch_row now valid.rig_handle (lib.jsonb encoded))
            "update metadata"
        get_connection_tx lib o k)
  valid-keep m =
      TxKeeps-read _ _ (λ v. validate_metadata v ≡ none)
        (λ s p v e.
          let (same, none_wrong) = checked-valid m (validate_metadata m) v e in
          ap validate_metadata (sym same) ∙ none_wrong)
        written

  pub patch-keep :
      (expected : ℤ) (change : Change) (s : Tables)
      → P s
      → P (patch_metadata_tx lib o k expected now change s).1
  unfolding patch_metadata_tx patch_body
  patch-keep expected change =
      transaction-keep P o "begin metadata tx" "commit metadata tx"
        (patch_body lib o k expected now change) (search (tx_rules, valid-keep) depth 20)
