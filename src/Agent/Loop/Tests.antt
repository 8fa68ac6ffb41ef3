-- ===== src/Agent/Loop/Tests.antt =====
-- Whole syncs of the agent at concrete data.
use stoker_operator.Prelude.{
  String, ◌≡◌, refl, sym, ap, ◌∙◌, true, false, none, some, [], ◌∷◌, ◌++◌, All, string_eq, nat_eq,
  list_eq,
}
use stoker_operator.Prelude.Dict.{lookup}
use stoker_operator.Prelude.Outcome.{done, failed, done_inj}
use stoker_operator.Prelude.Text.{join_by, trim_space, decimal, split_slash, clean}
use stoker_operator.Engine.Disk.{dir, Disk, lstat, is_below}
use stoker_operator.Engine.Exclude.{is_protected}
use stoker_operator.Engine.Plan.{SyncPlan}
use stoker_operator.Engine.Plan.Stage.{render}
use stoker_operator.Prelude.Int.{pos}
use stoker_operator.Agent.Closures.{build_apply_template_func}
use stoker_operator.Engine.Samples.{toy_glob, note, toy_glob-HidesStaging}
use stoker_operator.Ignition.Client.{Client, response}
use stoker_operator.Controller.Profiles.{ResolvedMapping, ResolvedProfile}
use stoker_operator.Controller.Metadata.{Stored}
use stoker_operator.Agent.Health.{is_shutting_down}
use stoker_operator.Agent.Watcher.{new_watcher}
use stoker_operator.Agent.Config.{Config}
use stoker_operator.Agent.ConfigMaps.{found, absent, stored, Metadata, read_metadata_config_map}
use stoker_operator.Agent.Context.{TemplateContext, Tools}
use stoker_operator.Agent.Profile.{staging_of, build_sync_plan}
use stoker_operator.Agent.Profile.Paths.{IsPlain, clean-IsPlain}
use stoker_operator.Agent.Profile.Laws.{IsConfined, build_sync_plan-IsConfined}
use stoker_operator.Agent.State.{Outside, AgentState, cancelled, places_of}
use stoker_operator.Agent.Sync.{sync_with_profile, sync_once, lookup_profile}
use stoker_operator.Agent.Sync.Laws.{Concluded, sync_once-Concluded}
use stoker_operator.Agent.Sync.Scan.{IsSynced, sync_once-IsSynced}
use stoker_operator.Agent.Sync.Kept.{HasCleanFiles, sync_once-protected}
use stoker_operator.Agent.Loop.{handle_sync_trigger}

abbrev config : Config
config = record {
  pod_name = "gw-0";
  pod_namespace = "site";
  gateway_name = "gw-0";
  cr_name = "cr";
  cr_namespace = "site";
  repo_path = "/repo";
  data_path = "/ignition-data";
  gateway_port = "8088";
  gateway_tls = false;
  api_key_file = "";
  sync_period = 30;
  profile_name = "";
}

abbrev mapping : ResolvedMapping
mapping = record {
  source = "cfg";
  destination = "cfg";
  mapping_type = "";
  required = true;
  template = false;
  patches = [];
}

abbrev profile : ResolvedProfile
profile = record {
  mappings = mapping ∷ [];
  exclude_patterns = [];
  vars = [];
  sync_period = 60;
  dry_run = false;
  designer_session_policy = "proceed";
  paused = false;
}

abbrev metadata : Stored
metadata = record {
  labels = [];
  annotations = [];
  owner = "cr";
  values =
      ("commit", "abc")
      ∷ ("ref", "main")
      ∷ ("gitURL", "https://git/repo")
      ∷ ("paused", "false")
      ∷ ("profiles", "{}")
      ∷ [];
}

abbrev tools : Tools
tools = record {
  execute = λ ctx s. failed "no templates here";
  glob = toy_glob;
  is_json = λ s. true;
  set = λ content path v. done content;
  follow = λ p d. none;
}

abbrev gateway : Client
gateway = record {
  base_url = "http://localhost:8088";
  api_key = none;
  bad_url = λ url. none;
  send = λ log req. response 200 "";
}

abbrev outside : Outside
outside = record {
  config = config;
  version = "dev";
  tools = tools;
  digest = λ s. s;
  err_text = λ e. "engine";
  metadata = λ n. found metadata;
  pod_labels = λ n. done [];
  clone_or_fetch = λ n url ref d. (d, done (record { commit = "abc"; ref = ref }));
  now = λ n. n;
  time_text = λ n. "now";
  duration_text = λ n. "1s";
  unmarshal = λ s. done (("default", profile) ∷ []);
  marshal = λ s. done "{status}";
  statuses = record { get = λ n. absent; create = λ n cm. stored; update = λ n cm. stored };
  gateway = gateway;
  envelope = λ s. done none;
  waits = λ n. cancelled;
}

abbrev disk : Disk
disk =
    ("ignition-data" ∷ [], dir)
    ∷ ("ignition-data" ∷ ".resources" ∷ [], dir)
    ∷ ("ignition-data" ∷ ".resources" ∷ "x" ∷ [], note "runtime")
    ∷ ("repo" ∷ [], dir)
    ∷ ("repo" ∷ "cfg" ∷ [], dir)
    ∷ ("repo" ∷ "cfg" ∷ "new" ∷ [], note "3")
    ∷ []

abbrev state : AgentState
state = record {
  last_synced_commit = "";
  last_synced_profiles = "";
  initial_sync_done = true;
  consecutive_errors = 0;
  backoff_until = 0;
  sync_in_progress = false;
  shutdown_signal = false;
  health = record { initial_sync_done = true; shutting_down = false };
  watcher = new_watcher 30;
  disk = disk;
  log = [];
  clock = 0;
  reports = [];
  written = [];
}

sync_once-Concluded_example :
    Concluded outside "abc" "{}" state (sync_once outside "abc" "main" false "{}" state)
sync_once-Concluded_example = sync_once-Concluded outside "abc" "main" false "{}" state

up : is_shutting_down state.health ≡ false
unfolding is_shutting_down
up = refl

synced : (sync_once outside "abc" "main" false "{}" state).1 ≡ done tt
unfolding sync_once string_eq nat_eq list_eq join_by trim_space decimal
synced = refl

sync_once-IsSynced_example :
    IsSynced outside "abc"
      (sync_with_profile outside state).0
      (sync_with_profile outside state).1
      (sync_once outside "abc" "main" false "{}" state).0
sync_once-IsSynced_example = sync_once-IsSynced outside "abc" "main" "{}" state up synced

triggered : (handle_sync_trigger outside "https://git/repo" state).last_synced_commit ≡ "abc"
unfolding handle_sync_trigger string_eq nat_eq list_eq trim_space decimal
triggered = refl

abbrev told : Metadata
told = record {
  commit = "abc";
  ref = "main";
  git_url = "https://git/repo";
  paused = "false";
  profiles = "{}";
  auth_type = "";
}

reads : read_metadata_config_map "cr" (found metadata) ≡ done told
unfolding read_metadata_config_map lookup string_eq
reads = refl

looks_up : lookup_profile outside told ≡ done (profile, "default")
unfolding lookup_profile lookup string_eq
looks_up = refl

abbrev mapped : TemplateContext → SyncPlan
mapped ctx = record {
  mappings =
      record {
        source = "repo" ∷ "cfg" ∷ [];
        destination = "cfg";
        mapping_type = "dir";
        template = false;
        apply_patches = none;
      }
      ∷ [];
  exclude_patterns = [];
  staging_dir = "ignition-data" ∷ ".sync-staging" ∷ [];
  live_dir = "ignition-data" ∷ [];
  dry_run = false;
  apply_template = some (build_apply_template_func tools ctx);
}

builds :
    (ctx : TemplateContext)
    → build_sync_plan tools ctx (places_of config) disk profile ≡ done (mapped ctx)
unfolding build_sync_plan places_of string_eq nat_eq list_eq join_by
builds ctx = refl

clean_files : HasCleanFiles outside state
clean_files m p name ctx plan read looked built =
    let same_meta : told ≡ m = done_inj told m (sym reads ∙ read) in
    let looked' : lookup_profile outside told ≡ done (p, name) =
      ap (lookup_profile outside) same_meta ∙ looked in
    let same_found = done_inj (profile, "default") (p, name) (sym looks_up ∙ looked') in
    let same_profile : profile ≡ p = ap (λ (r : ResolvedProfile × String). r.0) same_found in
    let built' : build_sync_plan tools ctx (places_of config) disk profile ≡ done plan =
      ap (build_sync_plan tools ctx (places_of config) disk) same_profile ∙ built in
    let same_plan = done_inj (mapped ctx) plan (sym (builds ctx) ∙ built') in
    rw (← same_plan) ((λ h. absurd (cc)), tt)

resource_protected : is_protected toy_glob (render (".resources" ∷ "x" ∷ [])) ≡ true
unfolding is_protected string_eq join_by
resource_protected = refl

resource_apart :
    is_below
      (staging_of (places_of config).live_dir)
      ((places_of config).live_dir ++ ".resources" ∷ "x" ∷ [])
    ≡ false
unfolding is_below staging_of places_of string_eq
resource_apart = refl

resource_there :
    lstat ((places_of config).live_dir ++ ".resources" ∷ "x" ∷ []) disk ≡ some (note "runtime")
unfolding lstat places_of string_eq list_eq
resource_there = refl

sync_once-protected_example :
    lstat
      ((places_of config).live_dir ++ ".resources" ∷ "x" ∷ [])
      (sync_once outside "abc" "main" false "{}" state).0.disk
    ≡ some (note "runtime")
sync_once-protected_example =
    sync_once-protected outside toy_glob-HidesStaging (".resources" ∷ "x" ∷ [])
      (record { bytes = "runtime"; mode = 420 }) resource_protected resource_apart "abc" "main"
      false "{}" state clean_files resource_there

repo-IsPlain : All IsPlain (places_of config).repo_path
unfolding places_of clean
repo-IsPlain = clean-IsPlain (split_slash "/repo")

live-IsPlain : All IsPlain (places_of config).live_dir
unfolding places_of clean
live-IsPlain = clean-IsPlain (split_slash "/ignition-data")

abbrev context : TemplateContext
context = record {
  gateway_name = "gw-0";
  pod_name = "gw-0";
  pod_ordinal = pos 0;
  namespace = "site";
  ref = "main";
  commit = "abc";
  cr_name = "cr";
  labels = [];
  vars = [];
}

build_sync_plan-IsConfined_example : All (IsConfined (places_of config)) (mapped context).mappings
build_sync_plan-IsConfined_example =
    build_sync_plan-IsConfined tools context (places_of config) disk repo-IsPlain live-IsPlain
      profile (mapped context) (builds context)
