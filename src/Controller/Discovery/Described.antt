-- ===== src/Controller/Discovery/Described.antt =====
-- What a discovered gateway is to be, and which pods are ones.
use stoker_operator.Prelude.{
  String, ◌≡◌, ◌≢◌, ◌⊎◌, Option, none, some, List, [], ◌∷◌, All, string_eq,
}
use stoker_operator.Prelude.Dict.{lookup}
use stoker_operator.Api.{DiscoveredGateway, GatewaySync}
use stoker_operator.Api.Annotation
use stoker_operator.Api.Names
use stoker_operator.Api.SyncStatus
use stoker_operator.Api.Pod.{Pod, phase_running}

abbrev pub IsUnset : Option String → Type 0
IsUnset o = (o ≡ none) ⊎ (o ≡ some "")

-- A pod's gateway name: its annotation, or else its label, or else its own name.
pub data IsNamed (pod : Pod) : String → Type 0 where
  by_annotation :
      (s : String)
      → lookup Annotation.gateway_name pod.meta.annotations ≡ some s
      → s ≢ ""
      → IsNamed pod s
  by_label :
      (s : String)
      → IsUnset (lookup Annotation.gateway_name pod.meta.annotations)
      → lookup Names.label_app_name pod.meta.labels ≡ some s
      → s ≢ ""
      → IsNamed pod s
  by_pod :
      IsUnset (lookup Annotation.gateway_name pod.meta.annotations)
      → IsUnset (lookup Names.label_app_name pod.meta.labels)
      → IsNamed pod pod.meta.name

abbrev pub NoAgent : Pod → Type 0
NoAgent pod = All (λ c. c.name ≢ "stoker-agent") pod.init_containers

-- A pod that asks for the sidecar and has none, or one that is yet to report.
pub data HasStatus (pod : Pod) : String → Type 0 where
  lacks_sidecar :
      lookup Annotation.inject pod.meta.annotations ≡ some "true"
      → NoAgent pod
      → HasStatus pod SyncStatus.missing_sidecar
  unasked :
      lookup Annotation.inject pod.meta.annotations ≢ some "true" → HasStatus pod SyncStatus.pending
  has_sidecar : ¬ NoAgent pod → HasStatus pod SyncStatus.pending

abbrev pub IsAccountOf : Pod → String → Type 0
IsAccountOf pod s =
    ((pod.service_account_name ≢ "") × (s ≡ pod.service_account_name))
    ⊎ ((pod.service_account_name ≡ "") × (s ≡ "default"))

abbrev pub IsProfileOf : Pod → String → Type 0
IsProfileOf pod s =
    (lookup Annotation.profile pod.meta.annotations ≡ some s)
    ⊎ ((lookup Annotation.profile pod.meta.annotations ≡ none) × (s ≡ ""))

pub record Describes (pod : Pod) (gw : DiscoveredGateway) : Type 0 where
  pub named : IsNamed pod gw.name
  pub same_namespace : gw.namespace ≡ pod.meta.namespace
  pub same_pod : gw.pod_name ≡ pod.meta.name
  pub account : IsAccountOf pod gw.service_account_name
  pub profile : IsProfileOf pod gw.profile
  pub status : HasStatus pod gw.sync_status
  pub never_synced : gw.last_sync_time ≡ none
  pub no_commit : gw.synced_commit ≡ ""
  pub no_ref : gw.synced_ref ≡ ""
  pub no_duration : gw.last_sync_duration ≡ ""
  pub no_version : gw.agent_version ≡ ""
  pub no_scan : gw.last_scan_result ≡ ""
  pub no_projects : gw.projects_synced ≡ []
  pub no_files : gw.files_changed ≡ 0

-- The running pods that name the object, one gateway for each, in the pods' order.
pub data Discovered (gs : GatewaySync) : List Pod → List DiscoveredGateway → Type 0 where
  ended : Discovered gs [] []
  not_ours :
      (pod : Pod) (pods : List Pod) (gws : List DiscoveredGateway)
      → lookup Annotation.cr_name pod.meta.annotations ≢ some gs.meta.name
      → Discovered gs pods gws
      → Discovered gs (pod ∷ pods) gws
  not_running :
      (pod : Pod) (pods : List Pod) (gws : List DiscoveredGateway)
      → pod.phase ≢ phase_running
      → Discovered gs pods gws
      → Discovered gs (pod ∷ pods) gws
  found :
      (pod : Pod) (pods : List Pod) (gw : DiscoveredGateway) (gws : List DiscoveredGateway)
      → lookup Annotation.cr_name pod.meta.annotations ≡ some gs.meta.name
      → pod.phase ≡ phase_running
      → Describes pod gw
      → Discovered gs pods gws
      → Discovered gs (pod ∷ pods) (gw ∷ gws)
