-- ===== src/Agent/Loop.antt =====
-- The agent's cycles in internal/agent/agent.go: the designer sessions, a sync trigger, the sync
-- after commissioning, and the wait for the metadata.
pub mod Laws
mod Tests
use stoker_operator.Prelude.{
  ℕ, zero, suc, ◌+◌, ◌<◌, String, ◌<>◌, Bool, true, false, not, ◌&&◌, ◌||◌, Option, none, some,
  List, [], ◌∷◌, map, ◌==◌, string_eq, ltb, leb, if◌then◌else◌,
}
use stoker_operator.Prelude.Outcome.{Outcome, done, failed}
use stoker_operator.Prelude.Text.{join_by}
use stoker_operator.Engine.Disk.{Disk}
use stoker_operator.Api.SyncStatus
use stoker_operator.Git.Remote.{GitResult}
use stoker_operator.Ignition.Client.{Log, port_check}
use stoker_operator.Ignition.Designer.{DesignerSession, get_designer_sessions}
use stoker_operator.Controller.Profiles.{ResolvedProfile}
use stoker_operator.Agent.Health.{mark_ready, mark_not_ready}
use stoker_operator.Agent.Watcher.{update_period, take_event}
use stoker_operator.Agent.Retry.{retry_delay}
use stoker_operator.Agent.ConfigMaps.{Metadata, read_metadata_config_map}
use stoker_operator.Agent.State.{
  Outside, AgentState, Waits, cancelled, timed_out, ticked, later, report, add_delay,
}
use stoker_operator.Agent.Sync.{lookup_profile, report_error, sync_once}

unfoldable pub format_designer_sessions : List DesignerSession → String
unfolding join_by
format_designer_sessions sessions =
    join_by ", " (map (λ s. s.user <> (" on " <> s.project)) sessions)

unfoldable pub apply_sync_period : ResolvedProfile → AgentState → AgentState
unfolding update_period
apply_sync_period profile st =
    if leb profile.sync_period 0
    then st
    else record st { watcher = update_period profile.sync_period st.watcher }

module _ (o : Outside) where
  unfoldable pub set_designer_blocked : Bool → AgentState → AgentState
  unfolding report
  set_designer_blocked blocked st =
      report o
        (record {
          sync_status = SyncStatus.pending;
          synced_commit = st.last_synced_commit;
          synced_ref = "";
          last_sync_time = o.time_text (o.now st.clock);
          last_sync_duration = "";
          agent_version = o.version;
          last_scan_result = "";
          files_changed = 0;
          projects_synced = [];
          error_message = "";
          profile_name = "";
          dry_run = false;
          dry_run_diff_added = 0;
          dry_run_diff_modified = 0;
          dry_run_diff_deleted = 0;
          designer_sessions_blocked = blocked;
        })
        (later 1 st)

  -- A query of the sessions, with the requests in the state's log.
  unfoldable pub query_sessions : AgentState → AgentState × Outcome (List DesignerSession)
  unfolding get_designer_sessions
  query_sessions st =
      let (log, sessions) = get_designer_sessions o.envelope o.gateway st.log in
      (record st { log = log }, sessions)

  abbrev on_tick :
      (AgentState → AgentState × Bool)
      → AgentState × Outcome (List DesignerSession)
      → AgentState × Bool
  on_tick again (st, failed e) = (st, false)
  on_tick again (st, done []) = (st, false)
  on_tick again (st, done (s ∷ ss)) = again st

  -- The loop of the policy "wait". `info` are the sessions that were found before it.
  unfoldable pub wait_for_sessions :
      String → String → String → Waits → AgentState → AgentState × Bool
  unfolding report_error query_sessions
  wait_for_sessions commit ref info cancelled st = (st, true)
  wait_for_sessions commit ref info timed_out st = (
    report_error o commit ref ("designer sessions still active after 5m timeout: " <> info) st,
    true,
  )
  wait_for_sessions commit ref info (ticked rest) st =
      on_tick (wait_for_sessions commit ref info rest) (query_sessions st)

  abbrev unblocked : AgentState × Bool → AgentState × Bool
  unblocked (st, blocked) = (set_designer_blocked false st, blocked)

  -- What the policy says of sessions that are active.
  unfoldable pub enforce :
      String → String → String → List DesignerSession → AgentState → AgentState × Bool
  unfolding report_error wait_for_sessions set_designer_blocked format_designer_sessions
  enforce policy commit ref sessions st =
      let info = format_designer_sessions sessions in
      if policy == "proceed"
      then (st, false)
      else if policy == "fail"
      then (report_error o commit ref ("designer sessions active (policy=fail): " <> info) st, true)
      else if policy == "wait"
      then unblocked (
          wait_for_sessions commit ref info (o.waits st.clock)
            (set_designer_blocked true (later 1 st)))
      else (st, false)

  abbrev on_sessions :
      String → String → String → AgentState × Outcome (List DesignerSession) → AgentState × Bool
  on_sessions policy commit ref (st, failed e) = (st, false)
  on_sessions policy commit ref (st, done []) = (st, false)
  on_sessions policy commit ref (st, done (s ∷ ss)) = enforce policy commit ref (s ∷ ss) st

  unfoldable pub check_designer_sessions : String → String → String → AgentState → AgentState × Bool
  unfolding query_sessions enforce
  check_designer_sessions policy commit ref st =
      on_sessions (if policy == "" then "proceed" else policy) commit ref (query_sessions st)

  -- One more error in a row, and the instant until which triggers are skipped.
  unfoldable pub back_off : AgentState → AgentState
  unfolding retry_delay
  back_off st =
      let errors = suc st.consecutive_errors in
      record (later 1 st) {
        consecutive_errors = errors;
        backoff_until = add_delay (o.now st.clock) (retry_delay errors);
      }

  abbrev after_sync_once : AgentState × Outcome (Unit {0}) → AgentState
  after_sync_once (st, failed e) = back_off st
  after_sync_once (st, done u) = record st { consecutive_errors = 0; backoff_until = 0 }

  abbrev unless_blocked : GitResult → Metadata → AgentState × Bool → AgentState
  unless_blocked result meta (st, true) = st
  unless_blocked result meta (st, false) =
      after_sync_once (sync_once o result.commit result.ref false meta.profiles st)

  abbrev with_profile :
      GitResult → Metadata → AgentState → Outcome (ResolvedProfile × String) → AgentState
  with_profile result meta st (failed e) =
      report_error o result.commit result.ref ("looking up profile: " <> e) st
  with_profile result meta st (done (profile, name)) =
      let st' = apply_sync_period profile st in
      if profile.paused || profile.dry_run
      then unless_blocked result meta (st', false)
      else unless_blocked result meta
          (check_designer_sessions profile.designer_session_policy result.commit result.ref st')

  abbrev after_fetch : Metadata → AgentState → Disk × Outcome GitResult → AgentState
  after_fetch meta st (d, failed e) =
      report_error o meta.commit meta.ref ("git fetch: " <> e) (back_off (record st { disk = d }))
  after_fetch meta st (d, done result) =
      with_profile result meta (record st { disk = d }) (lookup_profile o meta)

  -- The part that runs while a sync is in progress.
  unfoldable pub run_cycle : String → Metadata → AgentState → AgentState
  unfolding report_error back_off lookup_profile apply_sync_period check_designer_sessions sync_once
  run_cycle git_url meta st =
      after_fetch meta (later 1 st) (o.clone_or_fetch st.clock git_url meta.ref st.disk)

  -- The deferred function: no sync is in progress, and the shutdown is told.
  abbrev ended : AgentState → AgentState
  ended st = record st { sync_in_progress = false; shutdown_signal = true }

  abbrev on_metadata : String → AgentState → Outcome Metadata → AgentState
  on_metadata git_url st (failed e) = st
  on_metadata git_url st (done meta) =
      if meta.paused == "true"
      then st
      else if meta.commit == st.last_synced_commit && meta.profiles == st.last_synced_profiles
      then st
      else ended (run_cycle git_url meta (record st { sync_in_progress = true }))

  unfoldable pub handle_sync_trigger : String → AgentState → AgentState
  unfolding read_metadata_config_map run_cycle
  handle_sync_trigger git_url st =
      if ltb (o.now st.clock) st.backoff_until
      then later 1 st
      else on_metadata git_url (later 2 st)
          (read_metadata_config_map o.config.cr_name (o.metadata (st.clock + 1)))

  -- postCommissionSync, for at most `polls` polls of the gateway; the context is not cancelled.
  unfoldable pub post_commission_sync : ℕ → String → String → AgentState → AgentState
  unfolding port_check sync_once
  post_commission_sync zero commit ref st = st
  post_commission_sync (suc polls) commit ref st =
      let (log, up) = port_check o.gateway st.log in
      let st' = record st { log = log } in
      elim up [
        | failed e ↦ post_commission_sync polls commit ref st'
        | done u ↦ (sync_once o commit ref false st'.last_synced_profiles st').0
      ]

  abbrev commit_or_again :
      (AgentState → AgentState × Option Metadata)
      → AgentState
      → Outcome Metadata
      → AgentState × Option Metadata
  commit_or_again again st (failed e) = again st
  commit_or_again again st (done meta) = if meta.commit == "" then again st else (st, some meta)

  -- waitForMetadata, for at most `reads` reads.
  unfoldable pub wait_for_metadata : ℕ → AgentState → AgentState × Option Metadata
  unfolding read_metadata_config_map
  wait_for_metadata zero st = (st, none)
  wait_for_metadata (suc reads) st =
      commit_or_again (wait_for_metadata reads) (later 1 st)
        (read_metadata_config_map o.config.cr_name (o.metadata st.clock))

  -- applySyncPeriodFromMeta
  abbrev period_from : AgentState → Outcome (ResolvedProfile × String) → AgentState
  period_from st (failed e) = st
  period_from st (done (profile, name)) = apply_sync_period profile st

  abbrev after_clone :
      Metadata → AgentState → Disk × Outcome GitResult → AgentState × Outcome String
  after_clone meta st (d, failed e) = (record st { disk = d }, failed ("initial clone: " <> e))
  after_clone meta st (d, done result) =
      let (st', synced) =
        sync_once o result.commit result.ref true meta.profiles (record st { disk = d }) in
      (record st' { initial_sync_done = true; health = mark_ready st'.health }, done meta.git_url)

  abbrev with_first_metadata : AgentState × Option Metadata → AgentState × Outcome String
  with_first_metadata (st, none) = (st, failed "waiting for metadata")
  with_first_metadata (st, some meta) =
      let st' = period_from st (lookup_profile o meta) in
      if meta.git_url == ""
      then (later 1 st', failed "gitURL not found in metadata ConfigMap")
      else after_clone meta (later 2 st')
          (o.clone_or_fetch (st'.clock + 1) meta.git_url meta.ref st'.disk)

  -- Run up to its loop, with at most so many reads of the metadata; the result is the repository's URL. The
  -- object that events are recorded on is fetched in one call.
  unfoldable pub start : ℕ → AgentState → AgentState × Outcome String
  unfolding wait_for_metadata lookup_profile apply_sync_period sync_once mark_ready
  start reads st = with_first_metadata (wait_for_metadata reads st)

  -- What Run's loop selects; after a shutdown it waits for a sync in progress, and returns.
  pub data Selected : Type 0 where
    shut_down triggered : Selected

  unfoldable pub run_loop : String → List Selected → AgentState → AgentState
  unfolding mark_not_ready handle_sync_trigger take_event
  run_loop git_url [] st = st
  run_loop git_url (shut_down ∷ rest) st = record st { health = mark_not_ready st.health }
  run_loop git_url (triggered ∷ rest) st =
      run_loop git_url rest
        (handle_sync_trigger git_url (record st { watcher = take_event st.watcher }))
