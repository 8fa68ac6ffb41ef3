-- ===== src/Controller/Validate/Laws.antt =====
-- What a validated object's profiles have.
use stoker_operator.Prelude.{
  ℕ, suc, String, ◌<>◌, ◌≡◌, ◌↔◌, refl, true, false, Option, none, some, List, [], ◌∷◌, All, arith,
  starts_with,
}
use stoker_operator.Prelude.Dict.{Dict}
use stoker_operator.Prelude.Text.{decimal}
use stoker_operator.Api.{SyncMapping, SyncProfileSpec, GatewaySync}
use stoker_operator.Controller.Validate.{
  valid_var_key, validate_var_keys, contains_traversal, validate_path, or_else, validate_mappings,
  validate_each, validate_profiles,
}

-- A relative path of which no component is "..".
abbrev pub IsSafePath : String → Type 0
IsSafePath p = (starts_with p "/" ≡ false) × (contains_traversal p ≡ false)

abbrev pub HasVarKeys : Dict String String → Type 0
HasVarKeys vars = All (λ entry. valid_var_key entry.0 ≡ true) vars

abbrev pub IsSafeMapping : SyncMapping → Type 0
IsSafeMapping m = IsSafePath m.source × IsSafePath m.destination

abbrev pub IsSafeProfile : SyncProfileSpec → Type 0
IsSafeProfile p = HasVarKeys p.vars × All IsSafeMapping p.mappings

abbrev pub IsSafe : GatewaySync → Type 0
IsSafe gs =
    HasVarKeys gs.spec.sync.defaults.vars
    × All (λ entry. IsSafeProfile entry.1) gs.spec.sync.profiles

or_else_iff {ℓ κ μ} :
    {A : Type ℓ} {P : Type κ} {Q : Type μ} (x y : Option A)
    → (x ≡ none) ↔ P
    → (y ≡ none) ↔ Q
    → (or_else x y ≡ none) ↔ (P × Q)
or_else_iff none y (to, from) (to', from') = (λ h. (to refl, to' h), λ (p, q). from' q)
or_else_iff (some a) y (to, from) (to', from') = (λ h. ground arith, λ (p, q). from p)

assoc_iff {ℓ κ μ ν} :
    {O : Type ℓ} {P : Type κ} {Q : Type μ} {R : Type ν} → O ↔ (P × (Q × R)) → O ↔ ((P × Q) × R)
assoc_iff (to, from) =
    (λ o. let (p, (q, r)) = to o in ((p, q), r), λ pqr. let ((p, q), r) = pqr in from (p, (q, r)))

validate_path_iff : (p field : String) → (validate_path p field ≡ none) ↔ IsSafePath p
unfolding validate_path
validate_path_iff p field = ground arith

validate_var_keys_iff :
    (vars : Dict String String) (field : String)
    → (validate_var_keys vars field ≡ none) ↔ HasVarKeys vars
unfolding validate_var_keys
validate_var_keys_iff [] field = (λ h. tt, λ h. refl)
validate_var_keys_iff ((k, v) ∷ vars) field = ground (arith, validate_var_keys_iff vars field)

validate_mappings_iff :
    (name : String) (i : ℕ) (ms : List SyncMapping)
    → (validate_mappings name i ms ≡ none) ↔ All IsSafeMapping ms
unfolding validate_mappings
validate_mappings_iff name i [] = (λ h. tt, λ h. refl)
validate_mappings_iff name i (m ∷ ms) =
    let field = "profiles[" <> name <> "].mappings[" <> decimal i <> "]" in
    assoc_iff (
      or_else_iff _ _ (validate_path_iff m.source (field <> ".source")) (
        or_else_iff _ _ (validate_path_iff m.destination (field <> ".destination"))
          (validate_mappings_iff name (suc i) ms)))

validate_each_iff :
    (ps : Dict String SyncProfileSpec)
    → (validate_each ps ≡ none) ↔ All (λ entry. IsSafeProfile entry.1) ps
unfolding validate_each
validate_each_iff [] = (λ h. tt, λ h. refl)
validate_each_iff ((name, p) ∷ ps) = assoc_iff (
    or_else_iff _ _ (validate_var_keys_iff p.vars ("profiles[" <> name <> "].vars"))
      (or_else_iff _ _ (validate_mappings_iff name 0 p.mappings) (validate_each_iff ps)))

-- The profiles of an object are found valid exactly if each key of a variable, in the defaults and in
-- each profile, is an identifier, and the source and the destination of each mapping of each profile
-- is relative and without a ".." component.
pub validate_profiles_iff : (gs : GatewaySync) → (validate_profiles gs ≡ none) ↔ IsSafe gs
unfolding validate_profiles
validate_profiles_iff gs =
    or_else_iff _ _ (validate_var_keys_iff gs.spec.sync.defaults.vars "sync.defaults.vars")
      (validate_each_iff gs.spec.sync.profiles)
