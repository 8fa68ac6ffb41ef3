-- ===== src/Controller/Profiles.antt =====
-- resolveProfiles of gatewaysync_controller.go, with the types of pkg/types/metadata.go.
pub mod Laws
use stoker_operator.Prelude.{
  ℕ, String, Bool, Option, none, some, List, [], ◌∷◌, ◌++◌, map, ◌==◌, string_eq, nat_eq,
  if◌then◌else◌,
}
use stoker_operator.Prelude.Dict.{Dict, insert}
use stoker_operator.Api.{MappingPatch, SyncMapping, SyncDefaults, SyncProfileSpec, GatewaySync}

pub record ResolvedPatch : Type 0 where
  pub file : String
  pub set : Dict String String

pub record ResolvedMapping : Type 0 where
  pub source : String
  pub destination : String
  pub mapping_type : String
  pub required : Bool
  pub template : Bool
  pub patches : List ResolvedPatch

pub record ResolvedProfile : Type 0 where
  pub mappings : List ResolvedMapping
  pub exclude_patterns : List String
  pub vars : Dict String String
  pub sync_period : ℕ
  pub dry_run : Bool
  pub designer_session_policy : String
  pub paused : Bool

-- `maps.Copy(dst, src)`
unfoldable pub copy_into : Dict String String → Dict String String → Dict String String
copy_into dst [] = dst
copy_into dst ((k, v) ∷ src) = copy_into (insert k v dst) src

abbrev pub inherit {ℓ} : {A : Type ℓ} → A → Option A → A
inherit d none = d
inherit d (some a) = a

unfoldable pub resolve_patch : MappingPatch → ResolvedPatch
resolve_patch p = record { file = p.file; set = p.set }

unfoldable pub resolve_mapping : SyncMapping → ResolvedMapping
resolve_mapping m = record {
  source = m.source;
  destination = m.destination;
  mapping_type = m.mapping_type;
  required = m.required;
  template = m.template;
  patches = map resolve_patch m.patches;
}

unfoldable pub resolved_period : SyncDefaults → SyncProfileSpec → ℕ
resolved_period defaults p =
    let period = inherit defaults.sync_period p.sync_period in if period == 0 then 30 else period

unfoldable pub resolved_policy : SyncDefaults → SyncProfileSpec → String
resolved_policy defaults p =
    let policy =
      if p.designer_session_policy == ""
      then defaults.designer_session_policy
      else p.designer_session_policy in
    if policy == "" then "proceed" else policy

-- One round of the loop.
unfoldable pub resolve_profile : SyncDefaults → SyncProfileSpec → ResolvedProfile
resolve_profile defaults p = record {
  mappings = map resolve_mapping p.mappings;
  exclude_patterns = defaults.exclude_patterns ++ p.exclude_patterns;
  vars = copy_into (copy_into [] defaults.vars) p.vars;
  sync_period = resolved_period defaults p;
  dry_run = inherit defaults.dry_run p.dry_run;
  designer_session_policy = resolved_policy defaults p;
  paused = inherit defaults.paused p.paused;
}

unfoldable pub resolve_each :
    SyncDefaults
    → Dict String SyncProfileSpec
    → Dict String ResolvedProfile
    → Dict String ResolvedProfile
resolve_each defaults [] resolved = resolved
resolve_each defaults ((name, p) ∷ ps) resolved =
    resolve_each defaults ps (insert name (resolve_profile defaults p) resolved)

unfoldable pub resolve_profiles : GatewaySync → Dict String ResolvedProfile
resolve_profiles gs = resolve_each gs.spec.sync.defaults gs.spec.sync.profiles []
