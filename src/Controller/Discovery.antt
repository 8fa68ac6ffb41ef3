-- ===== src/Controller/Discovery.antt =====
-- gateway_discovery.go, but for its two summaries, with GatewayStatus of pkg/types/sync_status.go.
pub mod Laws
pub mod Described
pub mod Found
use stoker_operator.Prelude.{
  ℕ, String, ◌<>◌, Bool, true, false, not, ◌&&◌, ◌||◌, Option, none, some, List, [], ◌∷◌, map, any,
  ◌==◌, string_eq, if◌then◌else◌,
}
use stoker_operator.Prelude.Dict.{Dict, lookup}
use stoker_operator.Api.{DiscoveredGateway, GatewaySync}
use stoker_operator.Api.Annotation
use stoker_operator.Api.Names
use stoker_operator.Api.SyncStatus
use stoker_operator.Api.Pod.{
  Pod, PodPhase, phase_running, phase_pending, phase_succeeded, phase_failed, phase_unknown,
}

abbrev pub default_service_account : String
default_service_account = "default"

abbrev pub nonempty_or : String → Option String → String
nonempty_or d none = d
nonempty_or d (some s) = if s == "" then d else s

-- The CR that an event of the pod enqueues.
abbrev name_to_request : String → Option String → Option (String × String)
name_to_request ns none = none
name_to_request ns (some cr) = if cr == "" then none else some (ns, cr)

-- findGatewaySyncForPod: the namespace and the name of the one request, if there is one.
unfoldable pub find_gateway_sync_for_pod : Pod → Option (String × String)
find_gateway_sync_for_pod pod =
    name_to_request pod.meta.namespace (lookup Annotation.cr_name pod.meta.annotations)

abbrev pub is_text : String → Option String → Bool
is_text s none = false
is_text s (some t) = t == s

-- The pod's annotation names the object.
unfoldable pub references : GatewaySync → Pod → Bool
references gs pod = is_text gs.meta.name (lookup Annotation.cr_name pod.meta.annotations)

abbrev pub is_phase_running : PodPhase → Bool
is_phase_running phase = elim phase [ phase_running ↦ true | _ ↦ false ]

unfoldable pub is_running : Pod → Bool
is_running pod = is_phase_running pod.phase

unfoldable pub has_sync_agent : Pod → Bool
has_sync_agent pod = any (λ c. c.name == "stoker-agent") pod.init_containers

unfoldable pub service_account_of : Pod → String
service_account_of pod =
    if pod.service_account_name == "" then default_service_account else pod.service_account_name

-- The name annotation, or else the label, or else the pod's name.
unfoldable pub gateway_name_of : Pod → String
gateway_name_of pod =
    nonempty_or (nonempty_or pod.meta.name (lookup Names.label_app_name pod.meta.labels))
      (lookup Annotation.gateway_name pod.meta.annotations)

abbrev pub text_or_empty : Option String → String
text_or_empty none = ""
text_or_empty (some s) = s

unfoldable pub gateway_of : Pod → DiscoveredGateway
unfolding has_sync_agent service_account_of gateway_name_of
gateway_of pod = record {
  name = gateway_name_of pod;
  namespace = pod.meta.namespace;
  pod_name = pod.meta.name;
  service_account_name = service_account_of pod;
  profile = text_or_empty (lookup Annotation.profile pod.meta.annotations);
  sync_status =
      (if text_or_empty (lookup Annotation.inject pod.meta.annotations) == "true"
          && not (has_sync_agent pod)
        then SyncStatus.missing_sidecar
        else SyncStatus.pending);
  last_sync_time = none;
  last_sync_duration = "";
  synced_commit = "";
  synced_ref = "";
  agent_version = "";
  last_scan_result = "";
  files_changed = 0;
  projects_synced = [];
}

unfoldable pub discover_among : GatewaySync → List Pod → List DiscoveredGateway
unfolding references is_running
discover_among gs [] = []
discover_among gs (pod ∷ pods) =
    let rest = discover_among gs pods in
    if not (references gs pod)
    then rest
    else if not (is_running pod)
    then rest
    else gateway_of pod ∷ rest

-- discoverGateways, on the pods of the namespace; `none` is a failed List.
unfoldable pub discover_gateways : GatewaySync → Option (List Pod) → Option (List DiscoveredGateway)
discover_gateways gs none = none
discover_gateways gs (some pods) = some (discover_among gs pods)

-- An int32 is its pattern of 32 bits.
pub record GatewayStatus : Type 0 where
  pub sync_status : String
  pub synced_commit : String
  pub synced_ref : String
  pub last_sync_time : String
  pub last_sync_duration : String
  pub agent_version : String
  pub last_scan_result : String
  pub files_changed : ℕ
  pub projects_synced : List String
  pub error_message : String
  pub profile_name : String
  pub dry_run : Bool
  pub dry_run_diff_added : ℕ
  pub dry_run_diff_modified : ℕ
  pub dry_run_diff_deleted : ℕ
  pub designer_sessions_blocked : Bool

-- The decoders of the JSON status and of RFC 3339 times.
pub record Decoders : Type 0 where
  pub unmarshal : String → Option GatewayStatus
  pub parse_time : String → Option ℕ

abbrev pub time_or : Option ℕ → Option ℕ → Option ℕ
time_or old none = old
time_or old (some t) = some t

unfoldable pub with_status : Decoders → DiscoveredGateway → GatewayStatus → DiscoveredGateway
with_status d gw status = record gw {
  sync_status = status.sync_status;
  synced_commit = status.synced_commit;
  synced_ref = status.synced_ref;
  last_sync_duration = status.last_sync_duration;
  agent_version = status.agent_version;
  last_scan_result = status.last_scan_result;
  files_changed = status.files_changed;
  projects_synced = status.projects_synced;
  last_sync_time =
      (if status.last_sync_time == ""
        then gw.last_sync_time
        else time_or gw.last_sync_time (d.parse_time status.last_sync_time));
}

abbrev or_by_name : Option String → Option String → Option String
or_by_name (some s) later = some s
or_by_name none later = later

-- The text that an agent wrote: under the pod's name, or else under the gateway's.
unfoldable pub status_text : Dict String String → DiscoveredGateway → Option String
status_text cm_data gw = or_by_name (lookup gw.pod_name cm_data) (lookup gw.name cm_data)

abbrev pub decoded : Decoders → Option String → Option GatewayStatus
decoded d none = none
decoded d (some s) = if s == "" then none else d.unmarshal s

abbrev pub enriched_by : Decoders → DiscoveredGateway → Option GatewayStatus → DiscoveredGateway
enriched_by d gw none = gw
enriched_by d gw (some status) = with_status d gw status

-- One round of the loop.
unfoldable pub enrich : Decoders → Dict String String → DiscoveredGateway → DiscoveredGateway
unfolding status_text with_status
enrich d cm_data gw = enriched_by d gw (decoded d (status_text cm_data gw))

-- collectGatewayStatus; `none` is a ConfigMap that was not read.
unfoldable pub collect_gateway_status :
    Decoders → Option (Dict String String) → List DiscoveredGateway → List DiscoveredGateway
collect_gateway_status d none gws = gws
collect_gateway_status d (some cm_data) gws = map (enrich d cm_data) gws
