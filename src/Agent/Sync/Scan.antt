-- ===== src/Agent/Sync/Scan.antt =====
-- A sync of a running gateway that ends without an error was scanned with success.
use stoker_operator.Prelude.{
  String, ◌<>◌, ◌≡◌, ◌≢◌, refl, sym, ap, ◌∙◌, Bool, true, false, List, ◌∷◌, arith, ◌==◌, string_eq,
  if_cases,
}
use stoker_operator.Prelude.Outcome.{Outcome, done, failed, failed-ne-done}
use stoker_operator.Prelude.Text.{contains_text}
use stoker_operator.Api.SyncStatus
use stoker_operator.Engine.Plan.{SyncResult}
use stoker_operator.Ignition.Client.{is_success, scan_text, trigger_scan}
use stoker_operator.Ignition.Laws.{trigger_scan-Scanned, contains_text-scan_text}
use stoker_operator.Controller.Discovery.{GatewayStatus}
use stoker_operator.Agent.Health.{is_shutting_down}
use stoker_operator.Agent.State.{Outside, AgentState, report, later}
use stoker_operator.Agent.Sync.{
  ProfileSync, sync_with_profile, scan_gateway, judge, status_of, recorded, conclude, scanned,
  after_sync, sync_once,
}
use stoker_operator.Agent.Sync.Laws.{Memory, memory-report, sync_with_profile-Quiet}

-- The latest report is that the commit is synced, after a scan of the gateway whose two requests were
-- answered with success, or for a dry run.
pub record IsSynced (o : Outside) (commit : String) (st : AgentState) (run : ProfileSync)
    (after : AgentState) : Type 0 where
  pub status : GatewayStatus
  pub earlier : List GatewayStatus
  pub latest : after.reports ≡ status ∷ earlier
  pub is_synced : status.sync_status ≡ SyncStatus.synced
  pub of_commit : status.synced_commit ≡ commit
  pub is_scanned :
      run.is_dry_run ≡ false
      → (is_success (trigger_scan o.gateway st.log).1.projects_status ≡ true)
        × (is_success (trigger_scan o.gateway st.log).1.config_status ≡ true)

judge-synced :
    (o : Outside) (dry : Bool) (scan : String)
    → (judge o dry false scan).0 ≢ SyncStatus.error
    → ((judge o dry false scan).0 ≡ SyncStatus.synced)
      × (dry ≡ false → contains_text scan "error" ≡ false)
unfolding judge
judge-synced o true scan h = (refl, λ e. absurd (cc))
judge-synced o false scan h = ground (arith, h)

module _ (o : Outside) (commit ref profiles : String) where
  conclude-IsSynced :
      (run : ProfileSync) (r : SyncResult) (scan : String) (st before : AgentState)
      → (run.is_dry_run ≡ false → scan ≡ scan_text (trigger_scan o.gateway before.log).1)
      → (conclude o commit ref profiles run r scan (judge o run.is_dry_run false scan) st).1
        ≡ done tt
      → IsSynced o commit before run
          (conclude o commit ref profiles run r scan (judge o run.is_dry_run false scan) st).0
  unfolding conclude
  conclude-IsSynced run r scan st before seen =
      let verdict = judge o run.is_dry_run false scan in
      let status = status_of o commit ref run r scan verdict st.clock in
      let (same, latest, d) = memory-report o status (later 1 st) in
      if_cases
        (λ (c : AgentState × Outcome (Unit {0})). c.1 ≡ done tt → IsSynced o commit before run c.0)
        (verdict.0 == SyncStatus.error)
        (report o status (later 1 st), failed ("scan after sync: " <> verdict.1))
        (recorded o commit profiles (report o status (later 1 st)), done tt)
        (λ bad h. absurd (failed-ne-done h))
        (λ good h.
          let fine : verdict.0 ≢ SyncStatus.error = ground (arith, good) in
          let (synced, clear) = judge-synced o run.is_dry_run scan fine in
          record {
            status = status;
            earlier = st.reports;
            latest = latest;
            is_synced = synced;
            of_commit = refl;
            is_scanned = λ live. (trigger_scan-Scanned o.gateway before.log).good (
                contains_text-scan_text (trigger_scan o.gateway before.log).1
                  (ap (λ s. contains_text s "error") (sym (seen live)) ∙ clear live));
          })

  scan_gateway_live :
      (dry : Bool) (st : AgentState)
      → dry ≡ false
      → (scan_gateway o dry false st).1 ≡ scan_text (trigger_scan o.gateway st.log).1
  unfolding scan_gateway
  scan_gateway_live true st h = absurd (cc)
  scan_gateway_live false st h = refl

  after_sync-IsSynced :
      (run : ProfileSync) (result : Outcome SyncResult) (st : AgentState)
      → is_shutting_down st.health ≡ false
      → (after_sync o commit ref false profiles run result st).1 ≡ done tt
      → IsSynced o commit st run (after_sync o commit ref false profiles run result st).0
  after_sync-IsSynced run (failed e) st up = λ h. absurd (failed-ne-done h)
  after_sync-IsSynced run (done r) st up =
      let seen = scan_gateway o run.is_dry_run false st in
      if_cases
        (λ (c : AgentState × Outcome (Unit {0})). c.1 ≡ done tt → IsSynced o commit st run c.0)
        (is_shutting_down st.health) (recorded o commit profiles st, done tt)
        (scanned o commit ref false profiles run r seen)
        (λ down h. absurd (ground (arith, up, down)))
        (λ up' h. conclude-IsSynced run r seen.1 seen.0 st (scan_gateway_live run.is_dry_run st) h)

  -- Outside a shutdown, a sync after the first one that ends without an error has reported the status
  -- "Synced" with its commit, and unless its profile is a dry run, the gateway has answered the scan of
  -- the projects and then that of the configuration with success.
  pub sync_once-IsSynced :
      (st : AgentState)
      → is_shutting_down st.health ≡ false
      → (sync_once o commit ref false profiles st).1 ≡ done tt
      → IsSynced o commit
          (sync_with_profile o st).0
          (sync_with_profile o st).1
          (sync_once o commit ref false profiles st).0
  unfolding sync_once
  sync_once-IsSynced st up h =
      let (same, log, old) = sync_with_profile-Quiet o st in
      let synced = sync_with_profile o st in
      let up' = ap (λ (m : Memory). is_shutting_down m.health) same ∙ up in
      after_sync-IsSynced synced.1 synced.1.result synced.0 up' h
