-- ===== src/DolthubAuth/Authority.antt =====
-- internal/dolthubauth/server.go: what a request must be signed for to change a connection.
use wasteland.Base.{
  Bool-cases, ℕ, String, ◌≡◌, refl, sym, ap, ◌∙◌, ◌⊎◌, inl, inr, Bool, true, false, Option, some,
  arith, ◌==◌, eq_iff,
}
use wasteland.DolthubAuth.Tables.{Tables, ConnectionRow, Outside, find_row, change_rows}
use wasteland.DolthubAuth.Tables.Rows.{find_row-other}
use wasteland.DolthubAuth.Store.{Library, Scope, is_of, reap_expired_connect_tokens}
use wasteland.DolthubAuth.Store.Keeps.{create-keep}
use wasteland.DolthubAuth.Patch.{patch_row}
use wasteland.DolthubAuth.Patch.Keeps.{patch-keep}
use wasteland.DolthubAuth.Patch.Nonces.{use-others}
use wasteland.DolthubAuth.Service.{
  Config, Crypto, HttpRequest, ServiceScope, verify_service_request,
}
use wasteland.DolthubAuth.Requests.{Decoders}
use wasteland.DolthubAuth.Server.{granted, store_scope, require_service_auth}
use wasteland.DolthubAuth.Server.Granted.{require_service_auth-inv}
use wasteland.DolthubAuth.Server.Keeps.{Write, redeeming, changing, StoreKeeps}
use wasteland.DolthubAuth.Run.{Route, redeem, serve, serve_allowed-keep}
use wasteland.DolthubAuth.Types.{ok}

module _ (k k' : Scope) where
  scope-eq :
      k.tenant_id ≡ k'.tenant_id
      → k.environment ≡ k'.environment
      → k.subject_id ≡ k'.subject_id
      → k.connection_id ≡ k'.connection_id
      → k ≡ k'
  scope-eq t e u c i = record {
    tenant_id = t i;
    environment = e i;
    subject_id = u i;
    connection_id = c i;
  }

  is_of-same : (row : ConnectionRow) → is_of k row ≡ true → is_of k' row ≡ true → k ≡ k'
  is_of-same row h h' =
      let tenant : k.tenant_id ≡ k'.tenant_id =
        ground (arith, eq_iff row.tenant_id k.tenant_id, eq_iff row.tenant_id k'.tenant_id) in
      let environment : k.environment ≡ k'.environment =
        ground
          (arith, eq_iff row.environment k.environment, eq_iff row.environment k'.environment) in
      let subject : k.subject_id ≡ k'.subject_id =
        ground (arith, eq_iff row.subject_id k.subject_id, eq_iff row.subject_id k'.subject_id) in
      let connection : k.connection_id ≡ k'.connection_id = ground (
        arith,
        eq_iff row.connection_id k.connection_id,
        eq_iff row.connection_id k'.connection_id,
      ) in
      scope-eq tenant environment subject connection

  differ : (a b : String) → a == b ≡ false → (k ≡ k' → a ≡ b) → ¬ (k ≡ k')
  differ a b h field same = absurd (cc ((eq_iff a b).1 (field same)))

  scope-cases : (k ≡ k') ⊎ (¬ (k ≡ k'))
  scope-cases =
      go (k.tenant_id == k'.tenant_id) (k.environment == k'.environment)
        (k.subject_id == k'.subject_id) (k.connection_id == k'.connection_id) refl refl refl refl
    where
      go :
          (t e u c : Bool)
          → (k.tenant_id == k'.tenant_id) ≡ t
          → (k.environment == k'.environment) ≡ e
          → (k.subject_id == k'.subject_id) ≡ u
          → (k.connection_id == k'.connection_id) ≡ c
          → (k ≡ k') ⊎ (¬ (k ≡ k'))
      go true true true true ht he hu hc =
          inl (
            scope-eq ((eq_iff _ _).0 ht) ((eq_iff _ _).0 he) ((eq_iff _ _).0 hu)
              ((eq_iff _ _).0 hc))
      go false e u c ht he hu hc = inr (differ _ _ ht (ap (λ x. x.tenant_id)))
      go true false u c ht he hu hc = inr (differ _ _ he (ap (λ x. x.environment)))
      go true true false c ht he hu hc = inr (differ _ _ hu (ap (λ x. x.subject_id)))
      go true true true false ht he hu hc = inr (differ _ _ hc (ap (λ x. x.connection_id)))

-- A request is verified, for the scope `k`.
pub record IsSignedFor (crypto : Crypto) (cfg : Config) (o : Outside) (now : ℕ) (r : HttpRequest)
    (s : Tables) (k : Scope) : Type 0 where
  pub body : String
  pub scope : ServiceScope
  pub received : r.body ≡ some body
  pub verified : (verify_service_request crypto cfg o now r body s).0 ≡ ok scope
  pub signed : store_scope scope scope.connection_id ≡ k

module _ (k : Scope) (row : Option ConnectionRow) (X : Type 0) where
  -- The row of `k` is the one given, or `X` holds.
  abbrev Unless : Tables → Type 0
  Unless s = (find_row (is_of k) s.connections ≡ row) ⊎ X

  May : Write → Type 0
  May redeeming = X
  May (changing k') = k' ≡ k → X

  module _ (now : ℕ) (rig_handle wastelands : String) where
    patch_row-Unless :
        (k' : Scope) (s : Tables)
        → (k' ≡ k → X)
        → Unless s
        → Unless (record s {
          connections = change_rows (is_of k') (patch_row now rig_handle wastelands) s.connections;
        })
    unfolding patch_row
    patch_row-Unless k' s may (inr x) = inr x
    patch_row-Unless k' s may (inl h) = elim (scope-cases k' k) [
      | inl same ↦ inr (may same)
      | inr other ↦ inl (
          find_row-other (is_of k) (is_of k') (patch_row now rig_handle wastelands) (λ x. refl)
            (λ x e. elim (Bool-cases (is_of k x)) [
              | inl e' ↦ absurd (other (is_of-same k' k x e e'))
              | inr e' ↦ e'
            ])
            s.connections
          ∙ h)
    ]

  module _ (lib : Library) (mac : String → String) (o : Outside) (now : ℕ) where
    Unless-StoreKeeps : StoreKeeps lib mac o now Unless May
    unfolding May reap_expired_connect_tokens
    Unless-StoreKeeps = record {
      nonce = use-others Unless (λ _ _ h. h) o now;
      create = λ tenant environment token secret_mac subject m expires_at e s h.
          create-keep lib o Unless (mac token) now (λ _ h. h) (λ _ _ _ h. h) tenant environment
            secret_mac subject m expires_at s h;
      redeem = λ input may valid s h. inr may;
      patch = λ k' expected change s may.
          patch-keep Unless lib o k' now
            (λ m wastelands s _ _ h.
              patch_row-Unless now m.rig_handle (lib.jsonb wastelands) k' s may h)
            expected change s;
    }

module _ (lib : Library) (crypto : Crypto) (decode : Decoders) (cfg : Config) (o : Outside)
    (now : ℕ) (r : HttpRequest) (s : Tables) where
  granted-IsSignedFor :
      (scope : ServiceScope) (body : String) (k : Scope)
      → (require_service_auth lib crypto decode cfg o now r true s).0 ≡ granted scope body
      → r.connection_id ≡ scope.connection_id
      → store_scope scope r.connection_id ≡ k
      → IsSignedFor crypto cfg o now r s k
  granted-IsSignedFor scope body k access path same =
      let (received, verified, state) =
        require_service_auth-inv scope body lib crypto decode cfg o now r s access in
      record {
        body = body;
        scope = scope;
        received = received;
        verified = verified;
        signed = ap (store_scope scope) (sym path) ∙ same;
      }

  -- Any request leaves the row of a connection as it is, unless it redeems a connect token or is
  -- verified, as signed for exactly that tenant, environment, subject and connection.
  pub serve-IsSignedFor :
      (route : Route) (k : Scope)
      → (find_row (is_of k) (serve lib crypto decode cfg route o now r s).connections
          ≡ find_row (is_of k) s.connections)
        ⊎ ((route ≡ redeem) ⊎ IsSignedFor crypto cfg o now r s k)
  unfolding May
  serve-IsSignedFor route k =
      let row = find_row (is_of k) s.connections in
      serve_allowed-keep lib crypto decode cfg o now (Unless k row X) (May k row X)
        (Unless-StoreKeeps k row X lib (decode.mac_sha256 cfg.token_pepper) o now) r s route
        (λ e. inl e)
        (λ scope body access path same. inr (granted-IsSignedFor scope body k access path same))
        (inl refl)
    where
      X : Type 0
      X = (route ≡ redeem) ⊎ IsSignedFor crypto cfg o now r s k
