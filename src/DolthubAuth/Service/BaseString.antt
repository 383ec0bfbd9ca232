-- ===== src/DolthubAuth/Service/BaseString.antt =====
-- internal/dolthubauth/service_auth.go: what a signature covers.
use wasteland.Base.{
  join, cut, cut-append, String, ◌<>◌, ◌≡◌, refl, sym, ap, ◌∙◌, Option, none, some,
}
use Prim.Native.Char.{Char}
use text.Mathlib.TextLemmas.{nil-append, cons-append}
use wasteland.DolthubAuth.Service.{ServiceScope, service_auth_base_string}

abbrev line_end : Char
line_end = "\n"

-- A text without a line end, as every header of a request is.
abbrev pub IsLine : String → Type 0
IsLine s = cut b'\n' s ≡ none

cut_line : (s t : String) → IsLine s → cut b'\n' (s <> "\n" <> t) ≡ some (s, t)
cut_line s t h = rw (cons-append line_end "" t, nil-append t) (cut-append b'\n' line_end refl t s h)

pair_inv :
    {s t s' t' : String}
    → ◌≡◌ {A = Option (String × String)} (some (s, t)) (some (s', t'))
    → (s ≡ s') × (t ≡ t')
pair_inv e = (cc e, cc e)

line-inv :
    (s t s' t' : String)
    → IsLine s
    → IsLine s'
    → s <> "\n" <> t ≡ s' <> "\n" <> t'
    → (s ≡ s') × (t ≡ t')
line-inv s t s' t' h h' e = pair_inv (sym (cut_line s t h) ∙ ap (cut b'\n') e ∙ cut_line s' t' h')

-- What is signed, as a record: the parts in the order of the base string.
pub record Parts : Type 0 where
  pub timestamp : String
  pub nonce : String
  pub method : String
  pub request_uri : String
  pub body_hash : String
  pub key_id : String
  pub scope : ServiceScope

pub record IsLines (p : Parts) : Type 0 where
  pub key_id : IsLine p.key_id
  pub timestamp : IsLine p.timestamp
  pub nonce : IsLine p.nonce
  pub method : IsLine p.method
  pub request_uri : IsLine p.request_uri
  pub body_hash : IsLine p.body_hash
  pub tenant_id : IsLine p.scope.tenant_id
  pub environment : IsLine p.scope.environment
  pub subject_id : IsLine p.scope.subject_id

abbrev pub base_of : Parts → String
base_of p =
    service_auth_base_string p.timestamp p.nonce p.method p.request_uri p.body_hash p.key_id p.scope

-- All that a signature covers is the same.
abbrev pub SameParts : Parts → Parts → Type 0
SameParts p q =
    (p.key_id ≡ q.key_id)
    × (p.timestamp ≡ q.timestamp)
    × (p.nonce ≡ q.nonce)
    × (p.method ≡ q.method)
    × (p.request_uri ≡ q.request_uri)
    × (p.body_hash ≡ q.body_hash)
    × (p.scope.tenant_id ≡ q.scope.tenant_id)
    × (p.scope.environment ≡ q.scope.environment)
    × (p.scope.subject_id ≡ q.scope.subject_id)
    × (p.scope.connection_id ≡ q.scope.connection_id)

-- A base string says what is signed: two requests whose parts have no line ends have the same base
-- string only if their keys, times, nonces, methods, targets, hashes of the body, tenants,
-- environments, subjects and connections are the same.
pub service_auth_base_string-inj :
    (p q : Parts) → IsLines p → IsLines q → base_of p ≡ base_of q → SameParts p q
unfolding service_auth_base_string join
service_auth_base_string-inj p q lp lq h =
    let (key, h1) = line-inv p.key_id _ q.key_id _ lp.key_id lq.key_id h in
    let (time, h2) = line-inv p.timestamp _ q.timestamp _ lp.timestamp lq.timestamp h1 in
    let (nonce, h3) = line-inv p.nonce _ q.nonce _ lp.nonce lq.nonce h2 in
    let (method, h4) = line-inv p.method _ q.method _ lp.method lq.method h3 in
    let (target, h5) = line-inv p.request_uri _ q.request_uri _ lp.request_uri lq.request_uri h4 in
    let (body, h6) = line-inv p.body_hash _ q.body_hash _ lp.body_hash lq.body_hash h5 in
    let (tenant, h7) =
      line-inv p.scope.tenant_id _ q.scope.tenant_id _ lp.tenant_id lq.tenant_id h6 in
    let (environment, h8) =
      line-inv p.scope.environment _ q.scope.environment _ lp.environment lq.environment h7 in
    let (subject, connection) =
      line-inv p.scope.subject_id _ q.scope.subject_id _ lp.subject_id lq.subject_id h8 in
    (key, time, nonce, method, target, body, tenant, environment, subject, connection)
