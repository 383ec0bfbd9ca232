-- ===== src/Sdk/Workspace/Registry.antt =====
-- internal/sdk/workspace.go: the workspace as one map from an upstream to what was registered for it.
use wasteland.Base.{
  if◌then◌else◌, Bool-cases, In, get, get-put, get-delete_key, Distinct, Distinct-delete_key,
  Distinct-put, values-In, sort_by-In, Sorted, sort_by-Sorted, text_less_trans_not, text_less_asym,
  String, ◌≡◌, refl, sym, ap, ◌∙◌, ◌↔◌, inl, inr, Bool, true, false, Option, none, some, List, [],
  ◌∷◌, map, ◌==◌, eq_iff,
}
use wasteland.Sdk.Workspace.{
  UpstreamInfo, Workspace, new_workspace, add, remove, client_or_error, client, upstreams,
  by_upstream,
}

-- What a workspace promises: one map, from which both of its maps are read.
abbrev pub Registry : Type 0 → Type 0
Registry C = String → Option (UpstreamInfo × C)

unfoldable pub info_of : {C : Type 0} → Option (UpstreamInfo × C) → Option UpstreamInfo
info_of none = none
info_of (some (i, c)) = some i

unfoldable pub client_of : {C : Type 0} → Option (UpstreamInfo × C) → Option C
client_of none = none
client_of (some (i, c)) = some c

pub data Op (C : Type 0) : Type 0 where
  join_up : UpstreamInfo → C → Op C
  leave : String → Op C

some_injective : {i j : UpstreamInfo} → ◌≡◌ {A = Option UpstreamInfo} (some i) (some j) → i ≡ j
some_injective e = cc e

module _ {C : Type 0} where
  unfoldable pub act : Workspace C → Op C → Workspace C
  unfolding add remove
  act w (join_up i c) = add w i c
  act w (leave k) = remove w k

  unfoldable pub register : Registry C → Op C → Registry C
  register r (join_up i c) k = if i.upstream == k then some (i, c) else r k
  register r (leave u) k = if u == k then none else r k

  unfoldable pub run : Workspace C → List (Op C) → Workspace C
  unfolding act
  run w [] = w
  run w (op ∷ ops) = run (act w op) ops

  unfoldable pub registered : Registry C → List (Op C) → Registry C
  unfolding register
  registered r [] = r
  registered r (op ∷ ops) = registered (register r op) ops

  pub record Implements (w : Workspace C) (r : Registry C) : Type 0 where
    pub infos : (k : String) → get k w.info ≡ info_of (r k)
    pub clients : (k : String) → get k w.clients ≡ client_of (r k)
    pub named : (k : String) (i : UpstreamInfo) → info_of (r k) ≡ some i → i.upstream ≡ k
    pub distinct : Distinct w.info

  owner_after_join :
      (i : UpstreamInfo) (c : C) (k : String) (o : Option (UpstreamInfo × C)) (b : Bool)
      → (b ≡ true → i.upstream ≡ k)
      → (i' : UpstreamInfo) → (info_of o ≡ some i' → i'.upstream ≡ k)
      → info_of (if b then some (i, c) else o) ≡ some i'
      → i'.upstream ≡ k
  unfolding info_of
  owner_after_join i c k o true same i' h e = rw (← some_injective e) (same refl)
  owner_after_join i c k o false same i' h e = h e

  owner_after_leave :
      (o : Option (UpstreamInfo × C)) (b : Bool) (i' : UpstreamInfo) (k : String)
      → (info_of o ≡ some i' → i'.upstream ≡ k)
      → info_of (if b then none else o) ≡ some i'
      → i'.upstream ≡ k
  unfolding info_of
  owner_after_leave o true i' k h e = cc
  owner_after_leave o false i' k h e = h e

  act-Implements :
      (w : Workspace C) (r : Registry C)
      → Implements w r
      → (op : Op C) → Implements (act w op) (register r op)
  unfolding act add remove register info_of client_of
  act-Implements w r h (join_up i c) = record {
    infos = λ k.
        rw (get-put k i.upstream i w.info)
          (elim (Bool-cases (i.upstream == k)) [ inl e ↦ rw e refl | inr e ↦ rw e (h.infos k) ]);
    clients = λ k.
        rw (get-put k i.upstream c w.clients)
          (elim (Bool-cases (i.upstream == k)) [ inl e ↦ rw e refl | inr e ↦ rw e (h.clients k) ]);
    named = λ k i' e.
        owner_after_join i c k (r k) (i.upstream == k) (eq_iff i.upstream k).0 i' (h.named k i') e;
    distinct = Distinct-put i.upstream i w.info h.distinct;
  }
  act-Implements w r h (leave u) = record {
    infos = λ k.
        rw (get-delete_key k u w.info)
          (elim (Bool-cases (u == k)) [ inl e ↦ rw e refl | inr e ↦ rw e (h.infos k) ]);
    clients = λ k.
        rw (get-delete_key k u w.clients)
          (elim (Bool-cases (u == k)) [ inl e ↦ rw e refl | inr e ↦ rw e (h.clients k) ]);
    named = λ k i' e. owner_after_leave (r k) (u == k) i' k (h.named k i') e;
    distinct = Distinct-delete_key u w.info h.distinct;
  }

  run-Implements :
      (w : Workspace C) (r : Registry C)
      → Implements w r
      → (ops : List (Op C)) → Implements (run w ops) (registered r ops)
  unfolding run registered
  run-Implements w r h [] = h
  run-Implements w r h (op ∷ ops) =
      run-Implements (act w op) (register r op) (act-Implements w r h op) ops

  empty-Implements : (handle : String) → Implements (new_workspace handle) (λ k. none)
  unfolding new_workspace info_of client_of
  empty-Implements handle = record {
    infos = λ k. refl;
    clients = λ k. refl;
    named = λ k i e. cc;
    distinct = tt;
  }

  listed :
      (w : Workspace C) (r : Registry C)
      → Implements w r
      → (i : UpstreamInfo) → In i (upstreams w) ↔ (info_of (r i.upstream) ≡ some i)
  unfolding upstreams
  listed w r h i = (
    λ m.
        let (k, e) =
          (values-In i w.info h.distinct).0
            ((sort_by-In by_upstream i (map (λ kv. kv.1) w.info)).0 m) in
        let found : info_of (r k) ≡ some i = sym (h.infos k) ∙ e in
        ap (λ j. info_of (r j)) (h.named k i found) ∙ found,
    λ e.
        (sort_by-In by_upstream i (map (λ kv. kv.1) w.info)).1
          ((values-In i w.info h.distinct).1 (i.upstream, h.infos i.upstream ∙ e)),
  )

  sorted : (w : Workspace C) → Sorted by_upstream (upstreams w)
  unfolding upstreams by_upstream
  sorted w =
      sort_by-Sorted by_upstream (λ a b. text_less_asym a.upstream b.upstream)
        (λ a b c. text_less_trans_not a.upstream b.upstream c.upstream) (map (λ kv. kv.1) w.info)

  -- After any joins and leaves, the workspace is one map from upstreams to what was joined last: a
  -- client is returned exactly for the upstreams of the map, and the list has exactly the
  -- infos of the map, in the order of their names.
  pub run-refines :
      (handle : String) (ops : List (Op C))
      → let w = run (new_workspace handle) ops in
        let r = registered (λ k. none) ops in
        ((k : String) → client w k ≡ client_or_error k (client_of (r k)))
        × ((i : UpstreamInfo) → In i (upstreams w) ↔ (info_of (r i.upstream) ≡ some i))
        × Sorted by_upstream (upstreams w)
  unfolding client
  run-refines handle ops =
      let h = run-Implements (new_workspace handle) (λ k. none) (empty-Implements handle) ops in
      (λ k. ap (client_or_error k) (h.clients k), λ i. listed _ _ h i, sorted _)
