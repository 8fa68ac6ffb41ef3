-- ===== src/Api/Samples.antt =====
-- Objects for the runs of the other modules.
use stoker_operator.Prelude.{String, true, false, Option, none, some, [], ◌∷◌}
use stoker_operator.Prelude.Dict.{Dict}
use stoker_operator.Api.{
  GitHubAppAuth, GitAuthSpec, SyncMapping, SyncDefaults, SyncProfileSpec, Condition, is_true,
  DiscoveredGateway, ObjectMeta, GatewaySync,
}
use stoker_operator.Api.ConditionType
use stoker_operator.Api.Reason
use stoker_operator.Api.SyncStatus
use stoker_operator.Api.Pod.{Pod, phase_running}

abbrev pub meta : String → Dict String String → ObjectMeta
meta name annotations = record {
  name = name;
  namespace = "site";
  generation = 2;
  annotations = annotations;
  labels = [];
  finalizers = [];
  deletion_timestamp = none;
}

abbrev pub app : GitHubAppAuth
app = record {
  app_id = 12;
  installation_id = 345;
  private_key_secret_ref = record { name = "app-key"; key = "pem" };
  api_base_url = "";
}

abbrev pub app_auth : Option GitAuthSpec
app_auth = some (record { ssh_key = none; git_hub_app = some app; token = none })

abbrev pub mapping : SyncMapping
mapping = record {
  source = "projects/a";
  destination = "projects";
  mapping_type = "";
  required = true;
  template = false;
  patches = [];
}

abbrev pub profile : SyncProfileSpec
profile = record {
  mappings = mapping ∷ [];
  exclude_patterns = [];
  vars = ("site", "north") ∷ [];
  sync_period = none;
  dry_run = none;
  designer_session_policy = "";
  paused = none;
}

abbrev pub defaults : SyncDefaults
defaults = record {
  exclude_patterns = [];
  vars = ("site", "main") ∷ ("env", "test") ∷ [];
  sync_period = 0;
  designer_session_policy = "";
  dry_run = false;
  paused = false;
}

abbrev pub condition : String → Condition
condition t = record {
  cond_type = t;
  status = is_true;
  observed_generation = 1;
  last_transition_time = 5;
  reason = Reason.reconciling;
  message = "";
}

abbrev pub gateway : DiscoveredGateway
gateway = record {
  name = "gw";
  namespace = "site";
  pod_name = "gw-0";
  service_account_name = "default";
  profile = "base";
  sync_status = SyncStatus.synced;
  last_sync_time = none;
  last_sync_duration = "";
  synced_commit = "";
  synced_ref = "";
  agent_version = "";
  last_scan_result = "";
  files_changed = 0;
  projects_synced = [];
}

-- An object with those annotations, authentication and ref.
abbrev pub gateway_sync : Dict String String → Option GitAuthSpec → String → GatewaySync
gateway_sync annotations auth ref = record {
  meta = meta "cr" annotations;
  spec = record {
    git = record { repo = "https://git/repo"; ref = ref; auth = auth };
    polling = record { enabled = none; interval = "" };
    gateway = record {
      port = 0;
      tls = none;
      api = record { secret_name = "api"; secret_key = "key" };
    };
    sync = record { defaults = defaults; profiles = ("base", profile) ∷ [] };
    agent = record {
      image = record { repository = ""; tag = ""; pull_policy = "" };
      resources = none;
    };
    paused = false;
  };
  status = record {
    observed_generation = 1;
    last_sync_time = none;
    last_sync_ref = "";
    last_sync_commit = "";
    last_sync_commit_short = "";
    ref_resolution_status = "";
    profile_count = 1;
    discovered_gateways = gateway ∷ [];
    conditions = condition ConditionType.ref_resolved ∷ condition ConditionType.profiles_valid ∷ [];
  };
}

-- A running pod without containers of interest.
abbrev pub pod : Dict String String → Pod
pod annotations = record {
  meta = meta "gw-0" annotations;
  service_account_name = "ignition";
  init_containers = [];
  containers = [];
  volumes = [];
  phase = phase_running;
}
