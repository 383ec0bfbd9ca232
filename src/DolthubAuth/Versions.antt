-- ===== src/DolthubAuth/Versions.antt =====
-- internal/dolthubauth/store.go: changes of metadata that expect an old version.
use wasteland.Base.{
  if◌then◌else◌, int_eq, ℤ, pos, negsuc, ℕ, ◌≤◌, ◌<◌, String, ◌≡◌, refl, sym, ap, ◌∙◌, ◌≢◌, Bool,
  true, false, some, arith,
}
use wasteland.DolthubAuth.Types.{ok, Connection}
use wasteland.DolthubAuth.Tables.{Tables, ConnectionRow, Outside, find_row, change_rows}
use wasteland.DolthubAuth.Tables.Rows.{find_row-append, find_row-change, find_row-passes}
use wasteland.DolthubAuth.Store.{Library, Scope, is_of, reap_expired_connect_tokens}
use wasteland.DolthubAuth.Store.Keeps.{create-keep}
use wasteland.DolthubAuth.Redeem.{mark, audited, seal_row}
use wasteland.DolthubAuth.Redeem.Keeps.{redeem-keep}
use wasteland.DolthubAuth.Patch.{Change, patch_row, patch_metadata_tx}
use wasteland.DolthubAuth.Patch.Keeps.{patch-keep}
use wasteland.DolthubAuth.Patch.Nonces.{use-others}
use wasteland.DolthubAuth.Patch.Sound.{Patched, patch-inv}
use wasteland.DolthubAuth.Service.{Config, Crypto}
use wasteland.DolthubAuth.Requests.{Decoders}
use wasteland.DolthubAuth.Run.{Route, AllKeep, serve-keep, Run, begin, request}

module _ (k : Scope) (v : ℕ) where
  -- The connection is there, at a later version.
  abbrev pub IsPast : Tables → Type 0
  IsPast s =
      (row : ConnectionRow) × (find_row (is_of k) s.connections ≡ some row)
      × (v < row.record_version)

  -- A change of rows that keeps their keys and lowers no version.
  module _ (q : ConnectionRow → Bool) (f : ConnectionRow → ConnectionRow)
      (same : (row : ConnectionRow) → is_of k (f row) ≡ is_of k row)
      (later : (row : ConnectionRow) → row.record_version ≤ (f row).record_version) where
    change-IsPast :
        (s : Tables) → IsPast s → IsPast (record s { connections = change_rows q f s.connections })
    change-IsPast s (row, found, past) = (
      if q row then f row else row,
      find_row-change (is_of k) q f same row s.connections found,
      newer (q row),
    )
      where
        newer : (b : Bool) → v < (if b then f row else row).record_version
        newer true = omega (arith, later row)
        newer false = past

  patch_row-IsPast :
      (now : ℕ) (rig_handle wastelands : String) (k' : Scope) (s : Tables)
      → IsPast s
      → IsPast (record s {
        connections = change_rows (is_of k') (patch_row now rig_handle wastelands) s.connections;
      })
  unfolding patch_row
  patch_row-IsPast now rig_handle wastelands k' =
      change-IsPast (is_of k') (patch_row now rig_handle wastelands) (λ row. refl)
        (λ row. omega arith)

module _ (lib : Library) (crypto : Crypto) (decode : Decoders) (cfg : Config) (k : Scope)
    (v : ℕ) where
  IsPast-StoreKeeps :
      (o : Outside) (now : ℕ) → AllKeep lib (decode.mac_sha256 cfg.token_pepper) o now (IsPast k v)
  unfolding reap_expired_connect_tokens mark audited seal_row
  IsPast-StoreKeeps o now = record {
    nonce = use-others (IsPast k v) (λ _ _ h. h) o now;
    create = λ tenant environment token secret_mac subject m expires_at e s h.
        create-keep lib o (IsPast k v) (decode.mac_sha256 cfg.token_pepper token) now (λ _ h. h)
          (λ _ _ _ h. h) tenant environment secret_mac subject m expires_at s h;
    redeem = λ input may valid.
        redeem-keep lib o input (IsPast k v) (λ _. Unit {0})
          (record {
            known = λ _ _ _ _ _ _ _. tt;
            new = λ _ _ _ s _ h _. (h.0, find_row-append (is_of k) h.0 s.connections _ h.1, h.2);
            renew = λ k' c wastelands sealed s _ _ h.
                change-IsPast k v (is_of k') _ (λ row. refl) (λ row. omega arith) s h;
            used = λ _ h. h;
            log = λ _ _ _ h. h;
          });
    patch = λ k' expected change s may.
        patch-keep (IsPast k v) lib o k' now
          (λ m wastelands s _ _ h.
            patch_row-IsPast k v now m.rig_handle (lib.jsonb wastelands) k' s h)
          expected change s;
  }

  module _ {Q : Route → Outside → Type 0} {s : Tables} {t : ℕ} (past : IsPast k v s) where
    Run-IsPast : {s' : Tables} {t' : ℕ} → Run lib crypto decode cfg Q s t s' t' → IsPast k v s'
    Run-IsPast begin = past
    Run-IsPast (request {s'} run route o now r later other) =
        serve-keep lib crypto decode cfg o now (IsPast k v) (IsPast-StoreKeeps o now) route r s'
          (Run-IsPast run)

version-inv : (v : ℕ) (expected : ℤ) → int_eq (pos v) expected ≡ true → expected ≡ pos v
version-inv v (pos n) h = ap pos (ground arith)
version-inv v (negsuc n) h = cc

module _ (lib : Library) (o : Outside) (k : Scope) (now : ℕ) (c : Connection) (s s' : Tables)
    (expected : ℤ) (change : Change) where
  -- After a change that succeeds, the connection is past the version that it expected.
  Patched-IsPast :
      (p : Patched lib o k now c s s' expected change) → IsPast k p.row.record_version s'
  unfolding patch_row
  Patched-IsPast p = rw p.stored (
    patch_row now p.metadata.rig_handle (lib.jsonb p.encoded) p.row,
    find_row-change (is_of k) (is_of k) (patch_row now p.metadata.rig_handle (lib.jsonb p.encoded))
          (λ row. refl) p.row s.connections p.found
        ∙ rw (find_row-passes (is_of k) p.row s.connections p.found) refl,
    omega arith,
  )

  -- A change at a version that is past fails.
  IsPast-Patched :
      (v : ℕ) → IsPast k v s → Patched lib o k now c s s' expected change → expected ≡ pos v → ⊥
  IsPast-Patched v (row, found, past) p same =
      let one : p.row ≡ row = cc (p.found, found) in
      let at : pos p.row.record_version ≡ pos v =
        sym (version-inv p.row.record_version expected p.version) ∙ same in
      let equal : p.row.record_version ≡ v = cc at in
      let newer : v < p.row.record_version = rw one past in omega arith

-- No lost update: of all changes to a connection's metadata that expect one version, be they of its
-- handle or its wastelands, at most one succeeds, whatever requests come between and whatever fails
-- in the database.
pub patch_once :
    (lib : Library) (crypto : Crypto) (decode : Decoders) (cfg : Config) (k : Scope) (expected : ℤ)
    (change change' : Change) (o o' : Outside) (s : Tables) {s' : Tables} (t : ℕ) {t' : ℕ} (now : ℕ)
    (c c' : Connection) {Q : Route → Outside → Type 0}
    → (patch_metadata_tx lib o k expected t change s).0 ≡ ok c
    → Run lib crypto decode cfg Q (patch_metadata_tx lib o k expected t change s).1 t s' t'
    → (patch_metadata_tx lib o' k expected now change' s').0 ≢ ok c'
patch_once lib crypto decode cfg k expected change change' o o' s {s'} t now c c' first run again =
    let p = patch-inv lib o k t c s expected change first in
    let p' = patch-inv lib o' k now c' s' expected change' again in
    let past =
      Run-IsPast lib crypto decode cfg k p.row.record_version
        (Patched-IsPast lib o k t c s (patch_metadata_tx lib o k expected t change s).1 expected
          change p)
        run in
    IsPast-Patched lib o' k now c' s' _ expected change' p.row.record_version past p'
      (version-inv p.row.record_version expected p.version)
