-- ===== src/Tests/Vault.antt =====
-- A small service that keeps credentials, for the examples. The codecs know one list of wastelands.
use wasteland.Base.{
  if◌then◌else◌, concat, ℕ, ◌+◌, String, ◌≡◌, refl, Bool, true, false, not, ◌&&◌, Option, none,
  some, List, [], ◌∷◌, arith, ◌==◌, eq_iff,
}
use wasteland.DolthubAuth.Types.{WastelandConfig, UserMetadata, Connection}
use wasteland.DolthubAuth.Tables.{Tables, TokenRow, ConnectionRow, Outside}
use wasteland.DolthubAuth.Store.{Library, Scope, RedeemInput}
use wasteland.DolthubAuth.Store.Decoded.{IsJson}
use wasteland.DolthubAuth.Service.{Config, Crypto, HttpRequest, ServiceScope}
use wasteland.DolthubAuth.Requests.{Decoders, RedeemConnectTokenRequest}

abbrev pub sample : WastelandConfig
sample = record {
  upstream = "org/db";
  fork_org = "me";
  fork_db = "db";
  mode = "pr";
  signing = false;
}

is_sample : WastelandConfig → Bool
is_sample wl =
    wl.upstream == "org/db"
    && wl.fork_org == "me"
    && wl.fork_db == "db"
    && wl.mode == "pr"
    && not wl.signing

one_text : Bool → Option String
one_text true = some "one"
one_text false = none

unfoldable pub marshal : List WastelandConfig → Option String
unfolding one_text is_sample
marshal (wl ∷ []) = one_text (is_sample wl)
marshal _ = none

abbrev pub lib : Library
lib = record {
  marshal_metadata = λ m. some m.rig_handle;
  unmarshal_metadata = λ text. some (record { rig_handle = text; wastelands = sample ∷ [] });
  marshal_wastelands = marshal;
  unmarshal_wastelands = λ text. some (sample ∷ []);
  jsonb = λ text. text;
  encrypt = λ key. some (key, "1", "local");
  decrypt = λ c v b. some c;
}

sample_lem :
    (wl : WastelandConfig) (text : String)
    → one_text (is_sample wl) ≡ some text
    → (wl ≡ sample) × (text ≡ "one")
unfolding one_text is_sample
sample_lem wl text h = ground (
  arith,
  eq_iff wl.upstream "org/db",
  eq_iff wl.fork_org "me",
  eq_iff wl.fork_db "db",
  eq_iff wl.mode "pr",
)

pub lib-IsJson : IsJson lib
unfolding marshal
lib-IsJson = record { not_empty = filled; reads_back = same }
  where
    filled :
        (wls : List WastelandConfig) (text : String) → marshal wls ≡ some text → text == "" ≡ false
    filled (wl ∷ []) text h = rw (sample_lem wl text h).1 refl
    filled [] text h = cc
    filled (wl ∷ wl' ∷ wls) text h = cc

    same :
        (wls : List WastelandConfig) (text : String)
        → marshal wls ≡ some text
        → some (sample ∷ []) ≡ some wls
    same (wl ∷ []) text h = rw (sample_lem wl text h).0 refl
    same [] text h = cc
    same (wl ∷ wl' ∷ wls) text h = cc

abbrev pub crypto : Crypto
crypto = record {
  sha256_hex = λ s. s;
  hmac_hex = λ secret text. secret;
  parse_time = λ s. some 1000000000000;
  canonical_query = λ s. some s;
}

abbrev pub cfg : Config
cfg = record {
  tenant_id = "t";
  environment = "e";
  current_key_id = "k1";
  current_shared_secret = "s1";
  next_key_id = "";
  next_shared_secret = "";
  token_pepper = "p";
  redeem_pepper = "q";
}

abbrev pub ann : UserMetadata
ann = record { rig_handle = "ann"; wastelands = sample ∷ [] }

abbrev pub asked : RedeemConnectTokenRequest
asked = record { connect_token = "tok"; redeem_secret = "sec"; api_key = "key"; metadata = ann }

abbrev pub decode : Decoders
decode = record {
  create_request = λ s. none;
  redeem_request = λ s. some asked;
  rig_handle_request = λ s. none;
  upsert_request = λ s. none;
  version_request = λ s. none;
  settings_request = λ s. none;
  mac_sha256 = λ secret t. concat (secret ∷ t ∷ []);
}

abbrev pub calm : Outside
calm = record {
  fails = λ st. false;
  commit_made = true;
  probe = λ key. ("", none);
  fresh_id = "c1";
  random_token = some "tok";
  random_secret = some "sec";
}

abbrev pub headers : String → String
headers name =
    if name == "Authorization"
    then "Wasteland-HMAC k1:s1"
    else if name == "X-Service-Nonce"
    then "n1"
    else if name == "X-Auth-Tenant-Id"
    then "t"
    else if name == "X-Auth-Environment"
    then "e"
    else if name == "X-Auth-Subject-Id"
    then "ann"
    else if name == "X-Auth-Connection-Id"
    then "c1"
    else ""

abbrev pub signed_get : HttpRequest
signed_get = record {
  method = "GET";
  escaped_path = "/v1/connections/c1";
  raw_query = "";
  header = headers;
  body = some "";
  connection_id = "c1";
  upstream = "";
}

abbrev pub scope : ServiceScope
scope = record {
  key_id = "k1";
  tenant_id = "t";
  environment = "e";
  subject_id = "ann";
  connection_id = "c1";
  request_id = "";
}

abbrev pub empty : Tables
empty = record {
  connect_tokens = [];
  connections = [];
  service_request_nonces = [];
  audit_log = [];
}

abbrev pub arrival : ℕ
arrival = 1000000000000

-- A token that is made and redeemed.
abbrev pub minted : TokenRow
minted = record {
  connect_token_mac = "ptok";
  redeem_secret_mac = "qsec";
  tenant_id = "t";
  environment = "e";
  subject_id = "ann";
  approved_metadata = "ann";
  expires_at = arrival + 60000000000;
  used_at = none;
  created_at = arrival;
}

abbrev pub with_token : Tables
with_token = record empty { connect_tokens = minted ∷ [] }

abbrev pub redeem_request : HttpRequest
redeem_request = record signed_get { body = some "redeem" }

abbrev pub input : RedeemInput
input = record {
  tenant_id = "t";
  environment = "e";
  connect_token_mac = "ptok";
  redeem_secret_mac = "qsec";
  metadata = ann;
  api_key = "key";
  now = arrival;
}

abbrev pub stored : ConnectionRow
stored = record {
  connection_id = "c1";
  tenant_id = "t";
  environment = "e";
  subject_id = "ann";
  rig_handle = "ann";
  wastelands = "one";
  status = "active";
  credential_ciphertext = "key";
  credential_key_version = "1";
  credential_encryption_backend = "local";
  credential_version = 1;
  record_version = 1;
  last_validated_at = some arrival;
  last_validation_error_code = none;
  last_proxy_error_at = none;
  created_at = arrival;
  updated_at = arrival;
}

abbrev pub connection_of_stored : Connection
connection_of_stored = record {
  connection_id = "c1";
  tenant_id = "t";
  environment = "e";
  subject_id = "ann";
  metadata = ann;
  status = "active";
  credential_version = 1;
  record_version = 1;
  last_validated_at = some arrival;
  last_validation_error_code = "";
  last_proxy_error_at = none;
  created_at = arrival;
  updated_at = arrival;
}

abbrev pub renamed : Connection
renamed = record connection_of_stored {
  metadata = record ann { rig_handle = "bea" };
  record_version = 2;
}

abbrev pub with_connection : Tables
with_connection = record empty { connections = stored ∷ [] }

abbrev pub k : Scope
k = record { tenant_id = "t"; environment = "e"; subject_id = "ann"; connection_id = "c1" }
