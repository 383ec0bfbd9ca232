-- ===== src/DolthubAuth/Types.antt =====
-- internal/dolthubauth/types.go and errors.go: the metadata of a connection, and errors as values.
use wasteland.Base.{if◌then◌else◌, ℕ, String, Bool, Option, none, some, List, [], ◌∷◌, ◌==◌}

pub record WastelandConfig : Type 0 where
  pub upstream : String
  pub fork_org : String
  pub fork_db : String
  pub mode : String
  pub signing : Bool

pub record UserMetadata : Type 0 where
  pub rig_handle : String
  pub wastelands : List WastelandConfig

with_first : WastelandConfig → Option (List WastelandConfig) → Option (List WastelandConfig)
with_first x none = none
with_first x (some xs) = some (x ∷ xs)

-- `FindWasteland`, and the write through the pointer that it returns.
unfoldable pub change_wasteland :
    String
    → (WastelandConfig → WastelandConfig)
    → List WastelandConfig
    → Option (List WastelandConfig)
unfolding with_first
change_wasteland upstream change [] = none
change_wasteland upstream change (wl ∷ wls) =
    let rest = with_first wl (change_wasteland upstream change wls) in
    if wl.upstream == upstream then some (change wl ∷ wls) else rest

-- `UpsertWasteland`.
unfoldable pub upsert_wasteland : WastelandConfig → List WastelandConfig → List WastelandConfig
upsert_wasteland wl [] = wl ∷ []
upsert_wasteland wl (x ∷ xs) =
    let rest = upsert_wasteland wl xs in if x.upstream == wl.upstream then wl ∷ xs else x ∷ rest

unfoldable pub upsert_all : List WastelandConfig → List WastelandConfig → List WastelandConfig
unfolding upsert_wasteland
upsert_all [] known = known
upsert_all (wl ∷ wls) known = upsert_all wls (upsert_wasteland wl known)

-- `MergedWith`.
unfoldable pub merged_with : UserMetadata → UserMetadata → UserMetadata
unfolding upsert_all
merged_with m update = record {
  rig_handle = if update.rig_handle == "" then m.rig_handle else update.rig_handle;
  wastelands = upsert_all update.wastelands m.wastelands;
}

-- `RemoveWasteland`; `none` if there is no such entry.
unfoldable pub remove_wasteland : String → List WastelandConfig → Option (List WastelandConfig)
unfolding with_first
remove_wasteland upstream [] = none
remove_wasteland upstream (wl ∷ wls) =
    let rest = with_first wl (remove_wasteland upstream wls) in
    if wl.upstream == upstream then some wls else rest

-- The errors that the code tells apart; `failed` is any other, by the context that is put before it.
pub data AuthError : Type 0 where
  not_found conflict invalid_connect_token expired_connect_token metadata_mismatch
        service_unauthorized service_replay last_wasteland wasteland_not_found :
      AuthError
  invalid_metadata : String → AuthError
  -- `ValidationError`: the code, and the text of the error.
  validation_failed : String → String → AuthError
  failed : String → AuthError

pub data Outcome (A : Type 0) : Type 0 where
  ok : A → Outcome A
  err : AuthError → Outcome A

pub record Connection : Type 0 where
  pub connection_id : String
  pub tenant_id : String
  pub environment : String
  pub subject_id : String
  pub metadata : UserMetadata
  pub status : String
  pub credential_version : ℕ
  pub record_version : ℕ
  pub last_validated_at : Option ℕ
  pub last_validation_error_code : String
  pub last_proxy_error_at : Option ℕ
  pub created_at : ℕ
  pub updated_at : ℕ

-- `ConnectionResponse` of `NewConnectionResponse`.
pub record ConnectionResponse : Type 0 where
  pub connection_id : String
  pub subject_id : String
  pub rig_handle : String
  pub wastelands : List WastelandConfig
  pub status : String
  pub last_validated_at : Option ℕ
  pub last_validation_error_code : String
  pub created_at : ℕ
  pub updated_at : ℕ
  pub record_version : ℕ

unfoldable pub new_connection_response : Connection → ConnectionResponse
new_connection_response conn = record {
  connection_id = conn.connection_id;
  subject_id = conn.subject_id;
  rig_handle = conn.metadata.rig_handle;
  wastelands = conn.metadata.wastelands;
  status = conn.status;
  last_validated_at = conn.last_validated_at;
  last_validation_error_code = conn.last_validation_error_code;
  created_at = conn.created_at;
  updated_at = conn.updated_at;
  record_version = conn.record_version;
}
