-- ===== src/Agent/Tests.antt =====
-- Runs of the agent's parts, and their theorems at concrete data.
use stoker_operator.Prelude.{
  ℕ, zero, suc, ◌≤◌, String, ◌≡◌, inl, refl, true, false, none, some, [], ◌∷◌, arith, string_eq,
  nat_eq,
}
use stoker_operator.Prelude.Dict.{lookup, insert}
use stoker_operator.Prelude.Int.{pos}
use stoker_operator.Prelude.Outcome.{Outcome, done}
use stoker_operator.Api.{GatewaySync}
use stoker_operator.Api.Samples.{meta, gateway_sync, pod}
use stoker_operator.Git.Remote.{GitResult}
use stoker_operator.Webhook.Inject.Sidecar.{
  agent_container, build_env_vars, set_env, mount_data, inject_sidecar,
}
use stoker_operator.Webhook.Inject.Volumes.{resolve_data_volume}
use stoker_operator.Api.Pod.{Container, Pod, empty_dir}
use stoker_operator.Controller.Profiles.{resolve_profiles}
use stoker_operator.Controller.Discovery.{GatewayStatus, Decoders, with_status, enrich, gateway_of}
use stoker_operator.Controller.Metadata.{
  Stored, Objects, Api, ensure, ensure_values, ensure_metadata_config_map,
}
use stoker_operator.Agent.Retry.{retry_delay, nanoseconds}
use stoker_operator.Agent.Retry.Laws.{meant_delay, retry_delay-meant_delay, retry_delay_zero}
use stoker_operator.Agent.Watcher.{Watcher, new_watcher, update_period, take_reset}
use stoker_operator.Agent.Watcher.Laws.{updates, here, next, take_reset-period}
use stoker_operator.Agent.Config.{load_config}
use stoker_operator.Agent.Config.Laws.{IsEnvironment, injected_config, load_config_injected}
use stoker_operator.Agent.ConfigMaps.{
  Fetched, found, absent, stored, already_exists, StatusServer, write_status_config_map, text_at,
  metadata_config_map_name, read_metadata_config_map, parse_resolved_profiles,
}
use stoker_operator.Agent.ConfigMaps.Laws.{Ends, write_status_config_map-Ends}
use stoker_operator.Agent.ConfigMaps.Meet.{
  told, read_metadata_config_map-told, written_name, enrich-written,
}

retry_delay-meant_delay_example :
    (retry_delay 2 ≡ pos (meant_delay 2))
    × (nanoseconds 30 ≤ meant_delay 2)
    × (meant_delay 2 ≤ nanoseconds 300)
retry_delay-meant_delay_example = retry_delay-meant_delay 2 (omega arith) (omega arith)

retry_delay_zero_example : retry_delay 55 ≡ pos 0
retry_delay_zero_example = retry_delay_zero 55 (omega arith)

abbrev updated : Watcher
updated = update_period 45 (update_period 60 (new_watcher 30))

updated_reset : updated.reset ≡ some 45
unfolding update_period new_watcher nat_eq
updated_reset = refl

take_reset-period_example : (take_reset updated).ticker ≡ updated.period
take_reset-period_example =
    take_reset-period 30 updated (next (next here (updates _ 60)) (updates _ 45))

abbrev object : GatewaySync
object = gateway_sync [] none "main"

-- The variables of the container that is injected into the sample pod.
abbrev variables : String → String
variables name = text_at name (
    ("POD_NAME", "gw-0")
    ∷ ("POD_NAMESPACE", "site")
    ∷ ("CR_NAME", "cr")
    ∷ ("CR_NAMESPACE", "site")
    ∷ ("REPO_PATH", "/repo")
    ∷ ("DATA_PATH", "/gateway/data")
    ∷ ("GATEWAY_PORT", "8088")
    ∷ ("GATEWAY_TLS", "false")
    ∷ ("API_KEY_FILE", "/etc/stoker/api-key/key")
    ∷ ("SYNC_PERIOD", "30")
    ∷ [])

-- A pod whose gateway mounts a data volume.
abbrev with_data : Pod
with_data = record (pod []) {
  volumes = record { name = "data"; source = empty_dir } ∷ [];
  containers =
      record (agent_container "" (pod []) object) {
        name = "gateway";
        volume_mounts =
            record { name = "data"; mount_path = "/gateway/data"; read_only = false } ∷ [];
      }
      ∷ [];
}

abbrev injected_container : Container
injected_container =
    mount_data (some ("data", "/gateway/data")) (agent_container "" with_data object)

is_injected : (inject_sidecar "" with_data object).init_containers ≡ injected_container ∷ []
unfolding inject_sidecar resolve_data_volume string_eq nat_eq
is_injected = refl

variables-IsEnvironment : IsEnvironment variables (meta "gw-0" []) injected_container.env
unfolding agent_container build_env_vars mount_data set_env string_eq nat_eq lookup
variables-IsEnvironment = (
  refl,
  (refl, (refl, (refl, (refl, (refl, (refl, (refl, (refl, (refl, (refl, (refl, tt))))))))))),
)

load_config_injected_example :
    load_config variables ≡ done (injected_config (meta "gw-0" []) with_data object)
load_config_injected_example =
    load_config_injected variables (meta "gw-0" []) "" with_data object injected_container []
      is_injected variables-IsEnvironment (λ p. cc) (λ p. cc)

-- The data volume's path is the one that the agent works in.
data_path_loaded : (injected_config (meta "gw-0" []) with_data object).data_path ≡ "/gateway/data"
unfolding resolve_data_volume string_eq
data_path_loaded = refl

abbrev api : Api
api = record {
  get_succeeds = λ name. true;
  owner_is_settable = true;
  create_succeeds = λ name. true;
  update_succeeds = λ name. true;
  delete_succeeds = λ name. true;
}

abbrev result : GitResult
result = record { commit = "abc123"; ref = "main" }

abbrev no_objects : Objects
no_objects = record { config_maps = []; secrets = [] }

ensured : (ensure_metadata_config_map api (λ profiles. "{}") [] object result no_objects).0 ≡ true
unfolding ensure_metadata_config_map ensure_values ensure lookup
ensured = refl

read_metadata_config_map-told_example :
    (cm : Stored) × (lookup
        (metadata_config_map_name object.meta.name)
        (ensure_metadata_config_map api
          (λ profiles. "{}")
          []
          object
          result
          no_objects).1.config_maps
      ≡ some cm)
    × (read_metadata_config_map object.meta.name (found cm)
        ≡ done (told (λ profiles. "{}") object result))
    × (parse_resolved_profiles
          (λ s. done (resolve_profiles object))
          (told (λ profiles. "{}") object result).profiles
        ≡ done (resolve_profiles object))
read_metadata_config_map-told_example =
    read_metadata_config_map-told api (λ profiles. "{}") object result
      (λ s. done (resolve_profiles object)) [] no_objects ensured (λ p. cc) refl

abbrev status : GatewayStatus
status = record {
  sync_status = "Synced";
  synced_commit = "abc123";
  synced_ref = "main";
  last_sync_time = "";
  last_sync_duration = "1s";
  agent_version = "dev";
  last_scan_result = "projects=200 config=200";
  files_changed = 1;
  projects_synced = [];
  error_message = "";
  profile_name = "default";
  dry_run = false;
  dry_run_diff_added = 0;
  dry_run_diff_modified = 0;
  dry_run_diff_deleted = 0;
  designer_sessions_blocked = false;
}

abbrev first_map : Stored
first_map = record { labels = []; annotations = []; owner = ""; values = ("other", "{}") ∷ [] }

-- Another agent makes the ConfigMap first; the second attempt finds it.
abbrev raced : ℕ → Fetched
raced zero = absent
raced (suc n) = found first_map

abbrev server : StatusServer
server = record { get = raced; create = λ i cm. already_exists; update = λ i cm. stored }

abbrev marshal : GatewayStatus → Outcome String
marshal s = done "{status}"

write_status_config_map-Ends_example :
    Ends server "cr" "gw-0" "{status}" 0 3
      (write_status_config_map marshal server "cr" "gw-0" 0 status)
write_status_config_map-Ends_example =
    write_status_config_map-Ends marshal server "cr" "gw-0" 0 status "{status}" refl

abbrev decoders : Decoders
decoders = record { unmarshal = λ s. some status; parse_time = λ s. none }

abbrev merged : Stored
merged = record first_map { values = ("other", "{}") ∷ ("gw-0", "{status}") ∷ [] }

written_name-pod : written_name (pod []) ≡ "gw-0"
unfolding string_eq lookup
written_name-pod = refl

wrote :
    write_status_config_map marshal server "cr" (written_name (pod [])) 0 status
    ≡ (some merged, done tt)
unfolding write_status_config_map string_eq insert lookup
wrote = refl

enrich-written_example :
    enrich decoders merged.values (gateway_of (pod []))
    ≡ with_status decoders (gateway_of (pod [])) status
unfolding lookup
enrich-written_example =
    enrich-written marshal server decoders "cr" 0 (pod []) status "{status}" merged refl (λ p. cc)
      refl wrote (inl refl)
