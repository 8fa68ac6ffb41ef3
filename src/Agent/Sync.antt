-- ===== src/Agent/Sync.antt =====
-- syncWithProfile, syncOnce, lookupProfile and reportError of internal/agent/agent.go.
pub mod Laws
pub mod Scan
pub mod Kept
use stoker_operator.Prelude.{
  ℕ, ◌+◌, ◌%◌, ◌^◌, String, ◌<>◌, Bool, true, false, ◌||◌, Option, none, some, List, [], ◌∷◌, ◌++◌,
  length, ◌==◌, string_eq, if◌then◌else◌,
}
use stoker_operator.Prelude.Dict.{Dict, lookup}
use stoker_operator.Prelude.Outcome.{Outcome, done, failed, bind, ◌>>=◌, wrapped}
use stoker_operator.Prelude.Text.{contains_text}
use stoker_operator.Engine.Disk.{Disk, Result, ok, err}
use stoker_operator.Engine.Plan.{SyncPlan, SyncResult, execute_plan}
use stoker_operator.Engine.Plan.Diff.{DryRunDiff}
use stoker_operator.Api.SyncStatus
use stoker_operator.Ignition.Client.{Log, ScanResult, scan_text, trigger_scan, health_check}
use stoker_operator.Controller.Profiles.{ResolvedProfile}
use stoker_operator.Controller.Discovery.{GatewayStatus}
use stoker_operator.Agent.Health.{is_shutting_down}
use stoker_operator.Agent.ConfigMaps.{Metadata, read_metadata_config_map, parse_resolved_profiles}
use stoker_operator.Agent.Context.{TemplateContext, build_template_context}
use stoker_operator.Agent.Profile.{build_sync_plan}
use stoker_operator.Agent.State.{Outside, AgentState, places_of, engine_excludes, later, report}

abbrev profile_or_error : String → Option ResolvedProfile → Outcome (ResolvedProfile × String)
profile_or_error name none = failed ("profile " <> (name <> " not found in metadata ConfigMap"))
profile_or_error name (some profile) = done (profile, name)

abbrev pub profile_name_of : String → String
profile_name_of name = if name == "" then "default" else name

unfoldable pub lookup_profile : Outside → Metadata → Outcome (ResolvedProfile × String)
unfolding parse_resolved_profiles lookup
lookup_profile o meta =
    wrapped "parsing profiles: " (parse_resolved_profiles o.unmarshal meta.profiles) >>= λ profiles.
    let name = profile_name_of o.config.profile_name in profile_or_error name (lookup name profiles)

-- What syncWithProfile returns.
pub record ProfileSync : Type 0 where
  pub result : Outcome SyncResult
  pub profile_name : String
  pub is_dry_run : Bool

abbrev pub no_change : SyncResult
no_change = record {
  files_added = 0;
  files_modified = 0;
  files_deleted = 0;
  projects_synced = [];
  dry_run_diff = none;
}

abbrev pub with_excludes : SyncPlan → SyncPlan
with_excludes plan = record plan { exclude_patterns = plan.exclude_patterns ++ engine_excludes }

module _ (o : Outside) where
  abbrev returned : String → ResolvedProfile → Outcome SyncResult → ProfileSync
  returned name profile result = record {
    result = result;
    profile_name = name;
    is_dry_run = profile.dry_run;
  }

  abbrev executed :
      String → ResolvedProfile → AgentState → Disk × Result SyncResult → AgentState × ProfileSync
  executed name profile st (d, ok r) = (record st { disk = d }, returned name profile (done r))
  executed name profile st (d, err e) =
      (record st { disk = d }, returned name profile (failed ("executing plan: " <> o.err_text e)))

  abbrev run_plan :
      String → ResolvedProfile → AgentState → Outcome SyncPlan → AgentState × ProfileSync
  run_plan name profile st (failed e) =
      (st, returned name profile (failed ("building sync plan: " <> e)))
  run_plan name profile st (done plan) =
      executed name profile st (execute_plan o.tools.glob o.digest (with_excludes plan) st.disk)

  abbrev with_labels :
      Metadata
      → String
      → ResolvedProfile
      → AgentState
      → Outcome (Dict String String)
      → AgentState × ProfileSync
  with_labels meta name profile st (failed e) =
      (st, returned name profile (failed ("reading pod labels: " <> e)))
  with_labels meta name profile st (done labels) = run_plan name profile st (
      build_sync_plan o.tools (build_template_context o.config meta profile.vars labels)
        (places_of o.config) st.disk profile)

  abbrev with_profile :
      Metadata → AgentState → Outcome (ResolvedProfile × String) → AgentState × ProfileSync
  with_profile meta st (failed e) =
      (st, record { result = failed e; profile_name = ""; is_dry_run = false })
  with_profile meta st (done (profile, name)) =
      if profile.paused
      then (st, returned name profile (done no_change))
      else with_labels meta name profile (later 1 st) (o.pod_labels st.clock)

  abbrev with_metadata : AgentState → Outcome Metadata → AgentState × ProfileSync
  with_metadata st (failed e) = (
    st,
    record { result = failed ("reading metadata: " <> e); profile_name = ""; is_dry_run = false },
  )
  with_metadata st (done meta) = with_profile meta st (lookup_profile o meta)

  unfoldable pub sync_with_profile : AgentState → AgentState × ProfileSync
  unfolding read_metadata_config_map lookup_profile build_sync_plan build_template_context places_of
      execute_plan
  sync_with_profile st =
      with_metadata (later 1 st) (read_metadata_config_map o.config.cr_name (o.metadata st.clock))

  unfoldable pub report_error : String → String → String → AgentState → AgentState
  unfolding report
  report_error commit ref msg st =
      report o
        (record {
          sync_status = SyncStatus.error;
          synced_commit = commit;
          synced_ref = ref;
          last_sync_time = o.time_text (o.now st.clock);
          last_sync_duration = "";
          agent_version = o.version;
          last_scan_result = "";
          files_changed = 0;
          projects_synced = [];
          error_message = msg;
          profile_name = "";
          dry_run = false;
          dry_run_diff_added = 0;
          dry_run_diff_modified = 0;
          dry_run_diff_deleted = 0;
          designer_sessions_blocked = false;
        })
        (later 1 st)

  abbrev health_text : Outcome (Unit {0}) → String
  health_text (done u) = ""
  health_text (failed e) = "health check failed: " <> e

  -- The scan, or on the first sync the health check: the state, and the result's text.
  unfoldable pub scan_gateway : Bool → Bool → AgentState → AgentState × String
  unfolding trigger_scan health_check scan_text
  scan_gateway is_dry_run is_initial st =
      if is_dry_run
      then (st, "")
      else if is_initial
      then (let (log, health) = health_check o.gateway st.log in
          (record st { log = log }, health_text health))
      else let (log, result) = trigger_scan o.gateway st.log in
        (record st { log = log }, scan_text result)

  -- The status, and the error's text.
  unfoldable pub judge : Bool → Bool → String → String × String
  unfolding contains_text
  judge is_dry_run is_initial scan =
      if is_dry_run
      then (SyncStatus.synced, "")
      else if is_initial
      then (SyncStatus.pending, "")
      else if scan == "" || contains_text scan "error"
      then (SyncStatus.error, if scan == "" then "scan not performed" else scan)
      else (SyncStatus.synced, "")

  -- An int is converted to an int32 by its low bits.
  abbrev pub int32 : ℕ → ℕ
  int32 n = n % 2 ^ 32

  abbrev diff_count : Bool → (DryRunDiff → List String) → Option DryRunDiff → ℕ
  diff_count true part (some diff) = int32 (length (part diff))
  diff_count _ part _ = 0

  abbrev status_of :
      String → String → ProfileSync → SyncResult → String → String × String → ℕ → GatewayStatus
  status_of commit ref run r scan (sync_status, msg) at = record {
    sync_status = sync_status;
    synced_commit = commit;
    synced_ref = ref;
    last_sync_time = o.time_text (o.now at);
    last_sync_duration = o.duration_text at;
    agent_version = o.version;
    last_scan_result = scan;
    files_changed = int32 (r.files_added + r.files_modified + r.files_deleted);
    projects_synced = r.projects_synced;
    error_message = msg;
    profile_name = run.profile_name;
    dry_run = run.is_dry_run;
    dry_run_diff_added = diff_count run.is_dry_run (λ diff. diff.added) r.dry_run_diff;
    dry_run_diff_modified = diff_count run.is_dry_run (λ diff. diff.modified) r.dry_run_diff;
    dry_run_diff_deleted = diff_count run.is_dry_run (λ diff. diff.deleted) r.dry_run_diff;
    designer_sessions_blocked = false;
  }

  abbrev pub recorded : String → String → AgentState → AgentState
  recorded commit profiles st = record st {
    last_synced_commit = commit;
    last_synced_profiles = profiles;
  }

  -- What follows the scan: the report, and whether the commit counts as synced.
  unfoldable pub conclude :
      String
      → String
      → String
      → ProfileSync
      → SyncResult
      → String
      → String × String
      → AgentState
      → AgentState × Outcome (Unit {0})
  unfolding report
  conclude commit ref profiles run r scan verdict st =
      let st' = report o (status_of commit ref run r scan verdict st.clock) (later 1 st) in
      if verdict.0 == SyncStatus.error
      then (st', failed ("scan after sync: " <> verdict.1))
      else (recorded commit profiles st', done tt)

  abbrev scanned :
      String
      → String
      → Bool
      → String
      → ProfileSync
      → SyncResult
      → AgentState × String
      → AgentState × Outcome (Unit {0})
  scanned commit ref is_initial profiles run r (st, scan) =
      conclude commit ref profiles run r scan (judge run.is_dry_run is_initial scan) st

  abbrev after_sync :
      String
      → String
      → Bool
      → String
      → ProfileSync
      → Outcome SyncResult
      → AgentState
      → AgentState × Outcome (Unit {0})
  after_sync commit ref is_initial profiles run (failed e) st =
      (report_error commit ref ("sync engine: " <> e) st, failed ("sync engine: " <> e))
  after_sync commit ref is_initial profiles run (done r) st =
      if is_shutting_down st.health
      then (recorded commit profiles st, done tt)
      else scanned commit ref is_initial profiles run r (scan_gateway run.is_dry_run is_initial st)

  unfoldable pub sync_once :
      String → String → Bool → String → AgentState → AgentState × Outcome (Unit {0})
  unfolding sync_with_profile report_error is_shutting_down scan_gateway judge conclude
  sync_once commit ref is_initial profiles st =
      let (st', run) = sync_with_profile st in
      after_sync commit ref is_initial profiles run run.result st'
