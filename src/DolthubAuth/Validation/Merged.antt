-- ===== src/DolthubAuth/Validation/Merged.antt =====
-- internal/dolthubauth/validation.go and types.go: metadata that is merged stays valid.
use wasteland.Base.{
  if◌then◌else◌, Bool-cases, String, ◌≡◌, refl, inl, inr, Bool, true, false, Option, none, some,
  List, [], ◌∷◌, ◌==◌,
}
use wasteland.DolthubAuth.Types.{
  WastelandConfig, UserMetadata, upsert_wasteland, upsert_all, merged_with,
}
use wasteland.DolthubAuth.Validation.{
  ◌then_check◌, validate_slug, validate_wasteland_config, some_wasteland, validate_each,
  validate_metadata,
}

then_check-inv : (a b : Option String) → (a then_check b) ≡ none → (a ≡ none) × (b ≡ none)
then_check-inv none b h = (refl, h)
then_check-inv (some text) b h = cc

then_check-none : (a b : Option String) → a ≡ none → b ≡ none → (a then_check b) ≡ none
then_check-none none b h k = k
then_check-none (some text) b h k = cc

upsert-valid :
    (wl : WastelandConfig) (xs : List WastelandConfig)
    → validate_wasteland_config wl ≡ none
    → validate_each xs ≡ none
    → validate_each (upsert_wasteland wl xs) ≡ none
unfolding upsert_wasteland validate_each
upsert-valid wl [] h k = rw h refl
upsert-valid wl (x ∷ xs) h k =
    let (one, rest) = then_check-inv (validate_wasteland_config x) (validate_each xs) k in
    elim (Bool-cases (x.upstream == wl.upstream)) [
      | inl e ↦ rw e (then_check-none _ _ h rest)
      | inr e ↦ rw e (then_check-none _ _ one (upsert-valid wl xs h rest))
    ]

upsert-some :
    (wl : WastelandConfig) (xs : List WastelandConfig)
    → some_wasteland (upsert_wasteland wl xs) ≡ none
unfolding upsert_wasteland some_wasteland
upsert-some wl [] = refl
upsert-some wl (x ∷ xs) = elim (Bool-cases (x.upstream == wl.upstream)) [
  | inl e ↦ rw e refl
  | inr e ↦ rw e refl
]

upsert_all-valid :
    (new known : List WastelandConfig)
    → validate_each new ≡ none
    → (validate_each known ≡ none) × (some_wasteland known ≡ none)
    → (validate_each (upsert_all new known) ≡ none) × (some_wasteland (upsert_all new known) ≡ none)
unfolding upsert_all validate_each
upsert_all-valid [] known h k = k
upsert_all-valid (wl ∷ wls) known h k =
    let (one, rest) = then_check-inv (validate_wasteland_config wl) (validate_each wls) h in
    upsert_all-valid wls (upsert_wasteland wl known) rest
      (upsert-valid wl known one k.0, upsert-some wl known)

either-valid :
    (b : Bool) (x y : String)
    → validate_slug "rig_handle" x ≡ none
    → validate_slug "rig_handle" y ≡ none
    → validate_slug "rig_handle" (if b then x else y) ≡ none
either-valid true x y h k = h
either-valid false x y h k = k

-- Metadata that is merged from valid metadata is valid.
pub merged_with-valid :
    (m update : UserMetadata)
    → validate_metadata m ≡ none
    → validate_metadata update ≡ none
    → validate_metadata (merged_with m update) ≡ none
unfolding validate_metadata merged_with
merged_with-valid m update h k =
    let (slug, rest) = then_check-inv (validate_slug "rig_handle" m.rig_handle) _ h in
    let (given, each) =
      then_check-inv (some_wasteland m.wastelands) (validate_each m.wastelands) rest in
    let (slug', rest') = then_check-inv (validate_slug "rig_handle" update.rig_handle) _ k in
    let (_, each') =
      then_check-inv (some_wasteland update.wastelands) (validate_each update.wastelands) rest' in
    let (all, any) = upsert_all-valid update.wastelands m.wastelands each' (each, given) in
    then_check-none _ _
      (either-valid (update.rig_handle == "") m.rig_handle update.rig_handle slug slug')
      (then_check-none _ _ any all)
