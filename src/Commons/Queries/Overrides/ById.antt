-- ===== src/Commons/Queries/Overrides/ById.antt =====
-- The map from items to the overrides that change them.
use wasteland.Base.{
  if◌then◌else◌, All, In, get, put, get-put, String, ◌≡◌, refl, sym, ap, ◌∙◌, ◌≢◌, ◌⊎◌, inl, inr,
  Bool, true, false, Option, none, some, List, [], ◌∷◌, ◌==◌, eq_iff,
}
use wasteland.Commons.Queries.Overrides.{BranchOverride, by_id_from, overrides_by_id}

-- No override is of the item.
abbrev pub IsFree : List BranchOverride → String → Type 0
IsFree os id = All (λ o. o.wanted_id ≢ id) os

pub IsFree-not : (os : List BranchOverride) (o : BranchOverride) → In o os → ¬ IsFree os o.wanted_id
IsFree-not [] o m h = elim m [ ]
IsFree-not (p ∷ os) o (inl e) h = h.0 (ap (λ x. x.wanted_id) (sym e))
IsFree-not (p ∷ os) o (inr m) h = IsFree-not os o m h.1

module _ (id : String) where
  put-inv :
      (m : List (String × BranchOverride)) (p : BranchOverride) (found : Option BranchOverride)
      → get id (put p.wanted_id p m) ≡ found
      → ((p.wanted_id ≡ id) × (found ≡ some p)) ⊎ ((p.wanted_id ≢ id) × (get id m ≡ found))
  put-inv m p found h = go (p.wanted_id == id) refl (sym (get-put id p.wanted_id p m) ∙ h)
    where
      go :
          (b : Bool)
          → (p.wanted_id == id) ≡ b
          → (if b then some p else get id m) ≡ found
          → ((p.wanted_id ≡ id) × (found ≡ some p)) ⊎ ((p.wanted_id ≢ id) × (get id m ≡ found))
      go true e h = inl ((eq_iff _ _).0 e, sym h)
      go false e h = inr (λ same. cc ((eq_iff p.wanted_id id).1 same), h)

  from-none :
      (m : List (String × BranchOverride)) (os : List BranchOverride)
      → get id (by_id_from m os) ≡ none
      → (get id m ≡ none) × IsFree os id
  unfolding by_id_from
  from-none m [] h = (h, tt)
  from-none m (p ∷ os) h =
      let (none_put, free) = from-none (put p.wanted_id p m) os h in
      elim (put-inv m p none none_put) [ inl (e, q) ↦ absurd (cc q) | inr (n, q) ↦ (q, (n, free)) ]

  from-some :
      (m : List (String × BranchOverride)) (os : List BranchOverride) (o : BranchOverride)
      → get id (by_id_from m os) ≡ some o
      → (get id m ≡ some o) ⊎ (In o os × (o.wanted_id ≡ id))
  unfolding by_id_from
  from-some m [] o h = inl h
  from-some m (p ∷ os) o h = elim (from-some (put p.wanted_id p m) os o h) [
    | inr (there, e) ↦ inr (inr there, e)
    | inl found ↦ elim (put-inv m p (some o) found) [
      | inl (e, q) ↦ let same : o ≡ p = cc q in inr (inl same, ap (λ x. x.wanted_id) same ∙ e)
      | inr (n, q) ↦ inl q
    ]
  ]

  -- What the map has for an item: an override of it among those given, or none if there is none.
  pub by_id-cases :
      (os : List BranchOverride)
      → ((get id (overrides_by_id os) ≡ none) × IsFree os id)
        ⊎ ((o : BranchOverride) × (get id (overrides_by_id os) ≡ some o)
            × In o os
            × (o.wanted_id ≡ id))
  unfolding overrides_by_id
  by_id-cases os = go (get id (by_id_from [] os)) refl
    where
      go :
          (found : Option BranchOverride)
          → get id (by_id_from [] os) ≡ found
          → ((get id (by_id_from [] os) ≡ none) × IsFree os id)
            ⊎ ((o : BranchOverride) × (get id (by_id_from [] os) ≡ some o)
                × In o os
                × (o.wanted_id ≡ id))
      go none h = inl (h, (from-none [] os h).1)
      go (some o) h = elim (from-some [] os o h) [
        | inl q ↦ absurd (cc q)
        | inr (there, e) ↦ inr (o, h, there, e)
      ]
