-- ===== src/DolthubAuth/Patch/Sound.antt =====
-- internal/dolthubauth/store.go: what a change of metadata that succeeds has done.
use wasteland.Base.{
  int_eq, ℤ, pos, ℕ, String, ◌≡◌, refl, sym, ap, ◌∙◌, Bool, true, Option, none, some, List,
}
use wasteland.DolthubAuth.Types.{WastelandConfig, UserMetadata, ok, Connection}
use wasteland.DolthubAuth.Validation.{validate_metadata}
use wasteland.DolthubAuth.Tables.{Tables, ConnectionRow, Tx, ◌>>=◌, Outside, find_row, change_rows}
use wasteland.DolthubAuth.Tables.Inv.{guard-inv, reads-inv, required-inv, write-inv, transaction-ok}
use wasteland.DolthubAuth.Store.{Library, Scope, is_of, decode_wastelands, scanned}
use wasteland.DolthubAuth.Redeem.{update_connection}
use wasteland.DolthubAuth.Patch.{Change, locked, checked, patch_row, patch_body, patch_metadata_tx}
use wasteland.DolthubAuth.Store.Decoded.{read-inv}

module _ {B : Type 0} (b : B) (s' : Tables) where
  pub update-inv :
      (o : Outside) (k : Scope) (fits : ConnectionRow → Bool) (f : ConnectionRow → ConnectionRow)
      (context : String) (g : Unit {0} → Tx B) (s : Tables)
      → (update_connection o k fits f context >>= g) s ≡ ok (b, s')
      → g tt (record s { connections = change_rows (is_of k) f s.connections }) ≡ ok (b, s')
  unfolding update_connection
  update-inv o k fits f context g s h =
      write-inv b s' g (update_connection o k fits f context) s _ _
        (record s { connections = change_rows (is_of k) f s.connections }) refl h

module _ (lib : Library) (o : Outside) (k : Scope) (now : ℕ) (c : Connection) (s s' : Tables) where
  -- What a success comes from: the row at the expected version, its metadata, the new metadata and
  -- their encoding.
  pub record Patched (expected : ℤ) (change : Change) : Type 0 where
    pub row : ConnectionRow
    pub wastelands : List WastelandConfig
    pub metadata : UserMetadata
    pub encoded : String
    pub found : find_row (is_of k) s.connections ≡ some row
    pub version : int_eq (pos row.record_version) expected ≡ true
    pub decoded : decode_wastelands lib row.wastelands ≡ ok wastelands
    pub changed :
        change (record { rig_handle = row.rig_handle; wastelands = wastelands }) ≡ ok metadata
    pub valid : validate_metadata metadata ≡ none
    pub marshalled : lib.marshal_wastelands metadata.wastelands ≡ some encoded
    pub stored : s' ≡ record s {
      connections =
          change_rows
            (is_of k)
            (patch_row now metadata.rig_handle (lib.jsonb encoded))
            s.connections;
    }
    pub returned :
        scanned lib (
          find_row (is_of k) (
            change_rows
              (is_of k)
              (patch_row now metadata.rig_handle (lib.jsonb encoded))
              s.connections))
        ≡ ok c

  locked-inv : (x : Option ConnectionRow) (row : ConnectionRow) → locked x ≡ ok row → x ≡ some row
  unfolding locked
  locked-inv none row h = cc
  locked-inv (some r) row h = cc

  checked-inv :
      (m v : UserMetadata) (text : Option String) → checked m text ≡ ok v → (text ≡ none) × (m ≡ v)
  unfolding checked
  checked-inv m v none h = (refl, cc)
  checked-inv m v (some text) h = cc

  body-inv :
      (expected : ℤ) (change : Change)
      → patch_body lib o k expected now change s ≡ ok (c, s')
      → Patched expected change
  unfolding patch_body
  body-inv expected change h =
      let (_, h1) = guard-inv c s s' _ _ _ h in
      let (row, locks, h2) = reads-inv c s s' _ _ h1 in
      let (version, h3) = guard-inv c s s' _ _ _ h2 in
      let (wastelands, decoded, h4) = reads-inv c s s' _ _ h3 in
      let (m, changed, h5) = reads-inv c s s' _ _ h4 in
      let (v, checks, h6) = reads-inv c s s' _ _ h5 in
      let (encoded, marshalled, h7) = required-inv c s s' _ _ _ h6 in
      let (returned, stored) = read-inv lib o k c _ s' (update-inv c s' o k _ _ _ _ s h7) in
      let (valid, same) = checked-inv m v (validate_metadata m) checks in
      record {
        row = row;
        wastelands = wastelands;
        metadata = v;
        encoded = encoded;
        found = locked-inv (find_row (is_of k) s.connections) row locks;
        version = version;
        decoded = decoded;
        changed = changed ∙ ap ok same;
        valid = ap validate_metadata (sym same) ∙ valid;
        marshalled = marshalled;
        stored = stored;
        returned = returned;
      }

pub patch-inv :
    (lib : Library) (o : Outside) (k : Scope) (now : ℕ) (c : Connection) (s : Tables) (expected : ℤ)
    (change : Change)
    → (patch_metadata_tx lib o k expected now change s).0 ≡ ok c
    → Patched lib o k now c s (patch_metadata_tx lib o k expected now change s).1 expected change
unfolding patch_metadata_tx
patch-inv lib o k now c s expected change h =
    body-inv lib o k now c s (patch_metadata_tx lib o k expected now change s).1 expected change (
      transaction-ok o "begin metadata tx" "commit metadata tx" c
        (patch_body lib o k expected now change) s h)
