-- ===== src/Controller/Profiles/Laws.antt =====
-- What a profile gets from the defaults.
use stoker_operator.Prelude.{
  ◌<◌, String, ◌≡◌, ◌≢◌, refl, ap, Option, none, some, [], ◌∷◌, ◌==◌, string_eq, nat_eq, arith,
}
use stoker_operator.Prelude.Dict.{Dict, lookup, insert, lookup-insert}
use stoker_operator.Api.{SyncDefaults, SyncProfileSpec, GatewaySync}
use stoker_operator.Controller.Profiles.{
  ResolvedProfile, copy_into, resolved_period, resolved_policy, resolve_profile, resolve_each,
  resolve_profiles,
}

-- The first of two that is there.
abbrev pub first_of {ℓ} : {A : Type ℓ} → Option A → Option A → Option A
first_of (some a) later = some a
first_of none later = later

-- A map from a source whose keys are all different, as a Go map's are.
abbrev pub HasKeysOnce {ℓ} : {V : Type ℓ} → Dict String V → Type ℓ
HasKeysOnce [] = Unit
HasKeysOnce ((k, v) ∷ d) = (lookup k d ≡ none) × HasKeysOnce d

lookup-copy_into :
    (key : String) (dst src : Dict String String)
    → HasKeysOnce src
    → lookup key (copy_into dst src) ≡ first_of (lookup key src) (lookup key dst)
unfolding copy_into lookup
lookup-copy_into key dst [] h = refl
lookup-copy_into key dst ((k, v) ∷ src) (new, rest) =
    ground (arith, lookup-copy_into key (insert k v dst) src rest, lookup-insert key k v dst, new)

lookup-resolve_each :
    (name : String) (defaults : SyncDefaults) (ps : Dict String SyncProfileSpec)
    (resolved : Dict String ResolvedProfile)
    → HasKeysOnce ps
    → lookup name (resolve_each defaults ps resolved) ≡ (elim (lookup name ps) [
      | some p ↦ some (resolve_profile defaults p)
      | none ↦ lookup name resolved
    ])
unfolding resolve_each lookup
lookup-resolve_each name defaults [] resolved h = refl
lookup-resolve_each name defaults ((k, p) ∷ ps) resolved (new, rest) = ground (
  arith,
  lookup-resolve_each name defaults ps (insert k (resolve_profile defaults p) resolved) rest,
  lookup-insert name k (resolve_profile defaults p) resolved,
  new,
)

-- What an object's profile has under its name once it is resolved.
pub record Inherits (defaults : SyncDefaults) (p : SyncProfileSpec) (rp : ResolvedProfile)
    : Type 0 where
  pub has_vars :
      (key : String) → lookup key rp.vars ≡ first_of (lookup key p.vars) (lookup key defaults.vars)
  pub has_period : 0 < rp.sync_period
  pub has_policy : rp.designer_session_policy ≢ ""
  pub own_policy :
      p.designer_session_policy ≢ "" → rp.designer_session_policy ≡ p.designer_session_policy

proceed_nonempty : ◌≢◌ {A = String} "proceed" ""
unfolding string_eq
proceed_nonempty e =
    let is_empty = λ (s : String). s == "" in
    let same : is_empty "proceed" ≡ is_empty "" = ap is_empty e in ground (arith, same)

resolve_profile-Inherits :
    (defaults : SyncDefaults) (p : SyncProfileSpec)
    → HasKeysOnce defaults.vars
    → HasKeysOnce p.vars
    → Inherits defaults p (resolve_profile defaults p)
unfolding resolve_profile resolved_period resolved_policy lookup
resolve_profile-Inherits defaults p h k = record {
  has_vars = λ key. ground (
    arith,
    lookup-copy_into key (copy_into [] defaults.vars) p.vars k,
    lookup-copy_into key [] defaults.vars h,
  );
  has_period = ground arith;
  has_policy = ground (arith, proceed_nonempty);
  own_policy = λ e. ground arith;
}

-- Every profile of an object, whose maps have each key once, is resolved under its own name. A
-- variable there is the profile's, or else the default's; the period is positive; and the policy is
-- the profile's if it has one, and never empty.
pub resolve_profiles-Inherits :
    (gs : GatewaySync) (name : String) (p : SyncProfileSpec)
    → HasKeysOnce gs.spec.sync.profiles
    → HasKeysOnce gs.spec.sync.defaults.vars
    → HasKeysOnce p.vars
    → lookup name gs.spec.sync.profiles ≡ some p
    → (rp : ResolvedProfile) × (lookup name (resolve_profiles gs) ≡ some rp)
      × Inherits gs.spec.sync.defaults p rp
unfolding resolve_profiles
resolve_profiles-Inherits gs name p once vars_once own_once e =
    let defaults = gs.spec.sync.defaults in
    let found = lookup-resolve_each name defaults gs.spec.sync.profiles [] once in
    (
      resolve_profile defaults p,
      rw (found, e) refl,
      resolve_profile-Inherits defaults p vars_once own_once,
    )
