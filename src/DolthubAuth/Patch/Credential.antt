-- ===== src/DolthubAuth/Patch/Credential.antt =====
-- internal/dolthubauth/store.go: whose credential is read.
use wasteland.Base.{if◌then◌else◌, String, ◌≡◌, ap, Bool, true, false, Option, none, some}
use wasteland.DolthubAuth.Types.{Outcome, ok, err, Connection, failed}
use wasteland.DolthubAuth.Tables.{Tables, ConnectionRow, Outside, find_row, select_credential}
use wasteland.DolthubAuth.Tables.Rows.{find_row-passes}
use wasteland.DolthubAuth.Store.{Library, Scope, is_of, scan_connection_row, scanned}
use wasteland.DolthubAuth.Store.Decoded.{read-key}
use wasteland.DolthubAuth.Patch.{opened, credential_of, get_connection_credential}

module _ (lib : Library) (o : Outside) (c : Connection) (key : String) where
  opened-inv :
      (row : ConnectionRow) (plaintext : Option String) (conn : Connection)
      → opened lib o row plaintext conn ≡ ok (c, key)
      → conn ≡ c
  unfolding opened
  opened-inv row none conn h = absurd (cc h)
  opened-inv row (some text) conn h = cc

  scan-inv :
      (row : ConnectionRow) (x : Outcome Connection)
      → elim x [
        | err e ↦ err e
        | ok conn ↦
            opened lib o row
              (lib.decrypt row.credential_ciphertext row.credential_key_version
                row.credential_encryption_backend)
              conn
      ]
        ≡ ok (c, key)
      → x ≡ ok c
  scan-inv row (err e) h = absurd (cc h)
  scan-inv row (ok conn) h = ap ok (opened-inv row _ conn h)

  credential-inv :
      (x : Option ConnectionRow) → credential_of lib o x ≡ ok (c, key) → scanned lib x ≡ ok c
  unfolding credential_of scanned
  credential-inv none h = absurd (cc h)
  credential-inv (some row) h = scan-inv row (scan_connection_row lib row) h

  -- A credential that is read is of the subject and the connection that were asked for.
  pub credential-key :
      (k : Scope) (s : Tables)
      → get_connection_credential lib o k s ≡ ok (c, key)
      → (c.subject_id ≡ k.subject_id) × (c.connection_id ≡ k.connection_id)
  unfolding get_connection_credential
  credential-key k s h = go (o.fails select_credential) h
    where
      go :
          (b : Bool)
          → (if b
              then err (failed "get credential")
              else credential_of lib o (find_row (is_of k) s.connections))
            ≡ ok (c, key)
          → (c.subject_id ≡ k.subject_id) × (c.connection_id ≡ k.connection_id)
      go true h = absurd (cc h)
      go false h =
          read-key lib k c (find_row (is_of k) s.connections)
            (λ row e. find_row-passes (is_of k) row s.connections e)
            (credential-inv (find_row (is_of k) s.connections) h)
