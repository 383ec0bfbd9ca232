-- ===== src/DolthubAuth/Store/Decoded.antt =====
-- internal/dolthubauth/store.go: what is read of a row that was written.
use wasteland.Base.{
  String, ◌≡◌, refl, sym, ap, ◌∙◌, Bool, true, false, ◌&&◌, Option, none, some, List, ◌==◌, eq_iff,
}
use wasteland.DolthubAuth.Types.{WastelandConfig, Outcome, ok, err, Connection}
use wasteland.DolthubAuth.Tables.{ConnectionRow, Tables, Outside, find_row, reads}
use wasteland.DolthubAuth.Store.{
  Library, decode_wastelands, connection_of, scan_connection_row, Scope, is_of, scanned,
  get_connection_tx,
}
use wasteland.DolthubAuth.Tables.Inv.{guard-inv}

-- What the database gives back for a list of wastelands reads as that list, and is not empty.
pub record IsJson (lib : Library) : Type 0 where
  pub not_empty :
      (wastelands : List WastelandConfig) (text : String)
      → lib.marshal_wastelands wastelands ≡ some text
      → lib.jsonb text == "" ≡ false
  pub reads_back :
      (wastelands : List WastelandConfig) (text : String)
      → lib.marshal_wastelands wastelands ≡ some text
      → lib.unmarshal_wastelands (lib.jsonb text) ≡ some wastelands

ok-inj : (a b : Connection) → ◌≡◌ {A = Outcome Connection} (ok a) (ok b) → a ≡ b
ok-inj a b h = cc

module _ (lib : Library) where
  pub decode-stored :
      IsJson lib
      → (wastelands : List WastelandConfig) (text : String)
      → lib.marshal_wastelands wastelands ≡ some text
      → decode_wastelands lib (lib.jsonb text) ≡ ok wastelands
  unfolding decode_wastelands
  decode-stored json wastelands text e =
      rw (json.not_empty wastelands text e, json.reads_back wastelands text e) refl

  metadata_of :
      (row : ConnectionRow) (x : Outcome (List WastelandConfig)) (c : Connection)
      → connection_of lib row x ≡ ok c
      → (wastelands : List WastelandConfig) × (x ≡ ok wastelands)
        × (c.metadata ≡ record { rig_handle = row.rig_handle; wastelands = wastelands })
  unfolding connection_of
  metadata_of row (ok wastelands) c h =
      (wastelands, refl, sym (ap (λ d. d.metadata) (ok-inj _ c h)))
  metadata_of row (err e) c h = cc

  pub scan-metadata :
      (row : ConnectionRow) (c : Connection)
      → scan_connection_row lib row ≡ ok c
      → (wastelands : List WastelandConfig) × (decode_wastelands lib row.wastelands ≡ ok wastelands)
        × (c.metadata ≡ record { rig_handle = row.rig_handle; wastelands = wastelands })
  unfolding scan_connection_row
  scan-metadata row c h = metadata_of row (decode_wastelands lib row.wastelands) c h

pub read-inv :
    (lib : Library) (o : Outside) (k : Scope) (c : Connection) (s s' : Tables)
    → get_connection_tx lib o k s ≡ ok (c, s')
    → (scanned lib (find_row (is_of k) s.connections) ≡ ok c) × (s' ≡ s)
unfolding get_connection_tx
read-inv lib o k c s s' h =
    last (scanned lib (find_row (is_of k) s.connections)) (guard-inv c s s' _ _ _ h).1
  where
    last : (x : Outcome Connection) → reads (λ _. x) s ≡ ok (c, s') → (x ≡ ok c) × (s' ≡ s)
    last (ok d) h = (cc, cc)
    last (err e) h = cc

module _ (lib : Library) (k : Scope) (c : Connection) where
  key_of :
      (row : ConnectionRow) (x : Outcome (List WastelandConfig))
      → connection_of lib row x ≡ ok c
      → (c.subject_id ≡ row.subject_id) × (c.connection_id ≡ row.connection_id)
  unfolding connection_of
  key_of row (ok wastelands) h =
      (sym (ap (λ d. d.subject_id) (ok-inj _ c h)), sym (ap (λ d. d.connection_id) (ok-inj _ c h)))
  key_of row (err e) h = cc

  is_of-inv :
      (row : ConnectionRow) (t e u i : Bool)
      → row.subject_id == k.subject_id ≡ u
      → row.connection_id == k.connection_id ≡ i
      → ((t && e && u) && i) ≡ true
      → (row.subject_id ≡ k.subject_id) × (row.connection_id ≡ k.connection_id)
  is_of-inv row true true true true hu hi h = ((eq_iff _ _).0 hu, (eq_iff _ _).0 hi)
  is_of-inv row false e u i hu hi h = absurd (cc)
  is_of-inv row true false u i hu hi h = absurd (cc)
  is_of-inv row true true false i hu hi h = absurd (cc)
  is_of-inv row true true true false hu hi h = absurd (cc)

  scanned-key :
      (row : ConnectionRow)
      → is_of k row ≡ true
      → scan_connection_row lib row ≡ ok c
      → (c.subject_id ≡ k.subject_id) × (c.connection_id ≡ k.connection_id)
  unfolding scan_connection_row
  scanned-key row key h =
      let (subject, connection) = key_of row (decode_wastelands lib row.wastelands) h in
      let (subject', connection') =
        is_of-inv row (row.tenant_id == k.tenant_id) (row.environment == k.environment) _ _ refl
          refl key in
      (subject ∙ subject', connection ∙ connection')

  -- What is read is of the subject and the connection that were asked for.
  pub read-key :
      (row : Option ConnectionRow)
      → ((r : ConnectionRow) → row ≡ some r → is_of k r ≡ true)
      → scanned lib row ≡ ok c
      → (c.subject_id ≡ k.subject_id) × (c.connection_id ≡ k.connection_id)
  unfolding scanned
  read-key none passes h = cc
  read-key (some row) passes h = scanned-key row (passes row refl) h
