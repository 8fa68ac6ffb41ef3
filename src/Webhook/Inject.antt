-- ===== src/Webhook/Inject.antt =====
-- internal/webhook/inject.go
pub mod Auth
pub mod Volumes
pub mod Sidecar
pub mod Laws
use stoker_operator.Prelude.{
  ℕ, String, ◌<>◌, Bool, true, false, Option, none, some, List, [], ◌∷◌, ◌++◌, map, ◌==◌, string_eq,
  any, not, if◌then◌else◌,
}
use stoker_operator.Prelude.Dict.{Dict, lookup, insert}
use stoker_operator.Api.{GatewaySync, SyncProfileSpec}
use stoker_operator.Api.Annotation
use stoker_operator.Api.Pod.{Pod}
use stoker_operator.Webhook.Inject.Sidecar.{inject_sidecar, agent_container_name, annotation_true}

-- `m[key]` of a map of texts: the empty text where the key is missing.
abbrev value : Option String → String
value (some s) = s
value none = ""

abbrev pub annotation : String → Pod → String
annotation key pod = value (lookup key pod.meta.annotations)

pub data DenyReason : Type 0 where
  list_failed no_cr_found : DenyReason
  multiple_crs : List String → DenyReason
  cr_not_found cr_paused : String → DenyReason
  profile_not_found : String → String → DenyReason

pub data AllowReason : Type 0 where
  not_requested already_injected : AllowReason

-- `admission.Response`. A denial carries its reason in place of the formatted message.
pub data Response : Type 0 where
  errored : ℕ → Response
  allowed : AllowReason → Response
  denied : DenyReason → Response
  patched : Pod → Response

pub data GetResult : Type 0 where
  found : GatewaySync → GetResult
  not_found get_failed : GetResult

-- The API server in the request's namespace: `none` is a failed List.
pub record Client : Type 0 where
  pub get : String → GetResult
  pub list : Option (List GatewaySync)

unfoldable pub is_already_injected : Pod → Bool
is_already_injected pod = any (λ c. c.name == agent_container_name) pod.init_containers

pub data CrName : Type 0 where
  resolved : String → CrName
  unresolved : DenyReason → CrName

unfoldable pub derive_cr_name : Option (List GatewaySync) → CrName
derive_cr_name none = unresolved list_failed
derive_cr_name (some []) = unresolved no_cr_found
derive_cr_name (some (gs ∷ [])) = resolved gs.meta.name
derive_cr_name (some (a ∷ b ∷ rest)) =
    unresolved (multiple_crs (map (λ gs. gs.meta.name) (a ∷ b ∷ rest)))

unfoldable pub resolve_cr_name : Client → Pod → CrName
unfolding derive_cr_name
resolve_cr_name c pod =
    let cr_name = annotation Annotation.cr_name pod in
    if cr_name == "" then derive_cr_name c.list else resolved cr_name

-- The CR's name is written back where the pod has none.
unfoldable pub write_back : String → Pod → Pod
write_back cr_name pod =
    let m = pod.meta in
    if annotation Annotation.cr_name pod == ""
    then record pod {
      meta = record m { annotations = insert Annotation.cr_name cr_name m.annotations };
    }
    else pod

has_profile : Option SyncProfileSpec → Bool
has_profile (some _) = true
has_profile none = false

unfoldable pub profile_missing : Pod → GatewaySync → Bool
unfolding has_profile
profile_missing pod gs =
    let profile = annotation Annotation.profile pod in
    if profile == "" then false else not (has_profile (lookup profile gs.spec.sync.profiles))

-- `DEFAULT_AGENT_IMAGE` of the operator's environment, empty where it is not set.
module _ (image_env : String) where
  unfoldable pub inject_for : String → Pod → GetResult → Response
  unfolding profile_missing inject_sidecar
  inject_for cr_name pod not_found = denied (cr_not_found cr_name)
  inject_for cr_name pod get_failed = errored 500
  inject_for cr_name pod (found gs) =
      if gs.spec.paused
      then denied (cr_paused cr_name)
      else if profile_missing pod gs
      then denied (profile_not_found (annotation Annotation.profile pod) gs.meta.name)
      else patched (inject_sidecar image_env pod gs)

  with_cr_name : Client → Pod → CrName → Response
  unfolding inject_for write_back
  with_cr_name c pod (unresolved reason) = denied reason
  with_cr_name c pod (resolved cr_name) =
      inject_for cr_name (write_back cr_name pod) (c.get cr_name)

  -- Handle, on the result of decoding the request.
  unfoldable pub handle : Client → Option Pod → Response
  unfolding with_cr_name is_already_injected resolve_cr_name
  handle c none = errored 400
  handle c (some pod) =
      if not (annotation Annotation.inject pod == annotation_true)
      then allowed not_requested
      else if is_already_injected pod
      then allowed already_injected
      else with_cr_name c pod (resolve_cr_name c pod)
