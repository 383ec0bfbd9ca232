-- ===== src/DolthubAuth/Tables.antt =====
-- internal/dolthubauth/schema.go and the SQL of store.go: the rows, and what each statement does.
pub mod Keeps
pub mod Inv
pub mod Rows
use wasteland.Base.{
  ltb, if◌then◌else◌, ℕ, suc, String, Bool, true, false, not, ◌&&◌, ◌||◌, Option, none, some, List,
  [], ◌∷◌, ◌==◌,
}
use wasteland.DolthubAuth.Types.{AuthError, failed, Outcome, ok, err}

-- A JSONB column is the text that the database gives back.
pub record TokenRow : Type 0 where
  pub connect_token_mac : String
  pub redeem_secret_mac : String
  pub tenant_id : String
  pub environment : String
  pub subject_id : String
  pub approved_metadata : String
  pub expires_at : ℕ
  pub used_at : Option ℕ
  pub created_at : ℕ

pub record ConnectionRow : Type 0 where
  pub connection_id : String
  pub tenant_id : String
  pub environment : String
  pub subject_id : String
  pub rig_handle : String
  pub wastelands : String
  pub status : String
  pub credential_ciphertext : String
  pub credential_key_version : String
  pub credential_encryption_backend : String
  pub credential_version : ℕ
  pub record_version : ℕ
  pub last_validated_at : Option ℕ
  pub last_validation_error_code : Option String
  pub last_proxy_error_at : Option ℕ
  pub created_at : ℕ
  pub updated_at : ℕ

pub record NonceRow : Type 0 where
  pub key_id : String
  pub nonce : String
  pub expires_at : ℕ

pub record AuditRow : Type 0 where
  pub tenant_id : String
  pub environment : String
  pub subject_id : String
  pub connection_id : String
  pub actor_type : String
  pub action : String
  pub outcome : String

pub record Tables : Type 0 where
  pub connect_tokens : List TokenRow
  pub connections : List ConnectionRow
  pub service_request_nonces : List NonceRow
  pub audit_log : List AuditRow

-- The first row that passes a test, and the rows with those that pass changed.
module _ {A : Type 0} where
  unfoldable pub find_row : (A → Bool) → List A → Option A
  find_row p [] = none
  find_row p (x ∷ xs) = let rest = find_row p xs in if p x then some x else rest

  unfoldable pub change_rows : (A → Bool) → (A → A) → List A → List A
  change_rows p f [] = []
  change_rows p f (x ∷ xs) = (if p x then f x else x) ∷ change_rows p f xs

  unfoldable pub any_row : (A → Bool) → List A → Bool
  any_row p [] = false
  any_row p (x ∷ xs) = p x || any_row p xs

-- `WHERE connect_token_mac = …`, a connection by its subject, by its id as well, and a nonce.
abbrev pub is_token : String → TokenRow → Bool
is_token mac row = row.connect_token_mac == mac

abbrev pub of_subject : String → String → String → ConnectionRow → Bool
of_subject tenant environment subject row =
    row.tenant_id == tenant && row.environment == environment && row.subject_id == subject

abbrev pub is_connection : String → String → String → String → ConnectionRow → Bool
is_connection tenant environment subject id row =
    of_subject tenant environment subject row && row.connection_id == id

abbrev pub is_nonce : String → String → NonceRow → Bool
is_nonce key_id nonce row = row.key_id == key_id && row.nonce == nonce

-- A primary key stands once, and a subject has one connection.
unfoldable pub nonce_taken : NonceRow → Tables → Bool
unfolding any_row
nonce_taken row s = any_row (is_nonce row.key_id row.nonce) s.service_request_nonces

unfoldable pub token_taken : TokenRow → Tables → Bool
unfolding any_row
token_taken row s = any_row (is_token row.connect_token_mac) s.connect_tokens

unfoldable pub connection_taken : ConnectionRow → Tables → Bool
unfolding any_row
connection_taken row s =
    any_row
      (λ other.
        other.connection_id == row.connection_id
        || of_subject row.tenant_id row.environment row.subject_id other)
      s.connections

-- INTEGER columns hold less than 2^31: an increment past it is an error.
abbrev pub integer_limit : ℕ
integer_limit = 2147483648

unfoldable pub record_fits : ConnectionRow → Bool
record_fits row = ltb (suc row.record_version) integer_limit

unfoldable pub both_fit : ConnectionRow → Bool
unfolding record_fits
both_fit row = ltb (suc row.credential_version) integer_limit && record_fits row

-- What is done in a transaction: an error takes it back.
abbrev pub Tx : Type 0 → Type 0
Tx A = Tables → Outcome (A × Tables)

module _ {A : Type 0} where
  abbrev pub pure : A → Tx A
  pure a s = ok (a, s)

  abbrev pub raise : AuthError → Tx A
  raise e s = err e

  abbrev pub reads : (Tables → Outcome A) → Tx A
  reads f s = elim (f s) [ ok a ↦ ok (a, s) | err e ↦ err e ]

module _ {A B : Type 0} where
  continue : Outcome (A × Tables) → (A → Tx B) → Outcome (B × Tables)
  continue (ok (a, s)) f = f a s
  continue (err e) f = err e

  infixl 5 ◌>>=◌
  unfoldable pub ◌>>=◌ : Tx A → (A → Tx B) → Tx B
  unfolding continue
  ◌>>=◌ m f s = continue (m s) f

module _ {B : Type 0} where
  infixl 5 ◌>>◌
  abbrev pub ◌>>◌ : Tx (Unit {0}) → Tx B → Tx B
  m >> k = m >>= λ _. k

-- A test whose failure is returned as an error.
abbrev pub guard : Bool → AuthError → Tx (Unit {0})
guard true e s = ok (tt, s)
guard false e s = err e

-- A value that a library call may refuse.
abbrev pub required : {A : Type 0} → Option A → AuthError → Tx A
required none e s = err e
required (some a) e s = ok (a, s)

-- A statement that changes the tables.
abbrev pub changes : (Tables → Tables) → Tx (Unit {0})
changes f s = ok (tt, f s)

-- The statements that may fail from outside.
pub data Statement : Type 0 where
  begin reap insert_token select_token select_subject insert_row update_row read_back mark_used
        audit commit insert_nonce lock_row select_credential :
      Statement

-- What the outside does in one call: the statements that fail; whether a commit whose answer is lost
-- was made; the probe of an API key (its code and the text of its error); the new id; and the random
-- texts, `none` if there are none.
pub record Outside : Type 0 where
  pub fails : Statement → Bool
  pub commit_made : Bool
  pub probe : String → String × Option String
  pub fresh_id : String
  pub random_token : Option String
  pub random_secret : Option String

module _ (o : Outside) where
  abbrev pub statement : Statement → String → Tx (Unit {0})
  statement st context = guard (not (o.fails st)) (failed context)

-- A transaction between `BeginTx` and `Commit`.
module _ {A : Type 0} (o : Outside) (begin_context commit_context : String) where
  finish : Tables → Outcome (A × Tables) → Outcome A × Tables
  finish s (err e) = (err e, s)
  finish s (ok (a, s')) =
      if o.fails commit
      then (err (failed commit_context), if o.commit_made then s' else s)
      else (ok a, s')

  unfoldable pub transaction : Tx A → Tables → Outcome A × Tables
  unfolding finish
  transaction body s = if o.fails begin then (err (failed begin_context), s) else finish s (body s)
