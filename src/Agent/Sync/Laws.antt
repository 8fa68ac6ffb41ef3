-- ===== src/Agent/Sync/Laws.antt =====
-- When a sync counts as done, and what the agent remembers and reports of it.
use stoker_operator.Prelude.{
  ℕ, String, ◌<>◌, ◌≡◌, refl, ap, ◌∙◌, Bool, true, false, Option, none, some, ◌∷◌, arith, ◌==◌,
  string_eq, if_cases,
}
use stoker_operator.Prelude.Dict.{Dict}
use stoker_operator.Prelude.Outcome.{Outcome, done, failed}
use stoker_operator.Api.SyncStatus
use stoker_operator.Engine.Disk.{Disk, Result, ok, err}
use stoker_operator.Engine.Plan.{SyncPlan, SyncResult}
use stoker_operator.Controller.Profiles.{ResolvedProfile}
use stoker_operator.Controller.Discovery.{GatewayStatus}
use stoker_operator.Controller.Metadata.{Stored}
use stoker_operator.Agent.Health.{HealthServer, is_shutting_down}
use stoker_operator.Agent.ConfigMaps.{Metadata, read_metadata_config_map}
use stoker_operator.Agent.State.{Outside, AgentState, with_written, report, later}
use stoker_operator.Agent.Sync.{
  returned, no_change, ProfileSync, executed, run_plan, with_labels, with_profile, with_metadata,
  sync_with_profile, report_error, scan_gateway, judge, status_of, recorded, conclude, scanned,
  after_sync, sync_once, lookup_profile,
}

-- The agent's variables, without the disk, the requests and the reports.
pub record Memory : Type 0 where
  pub commit : String
  pub profiles : String
  pub errors : ℕ
  pub until : ℕ
  pub health : HealthServer
  pub in_progress : Bool

abbrev pub memory : AgentState → Memory
memory st = record {
  commit = st.last_synced_commit;
  profiles = st.last_synced_profiles;
  errors = st.consecutive_errors;
  until = st.backoff_until;
  health = st.health;
  in_progress = st.sync_in_progress;
}

memory-with_written :
    (cm : Option Stored) (st : AgentState)
    → (memory (with_written cm st) ≡ memory st)
      × ((with_written cm st).reports ≡ st.reports)
      × ((with_written cm st).disk ≡ st.disk)
memory-with_written none st = (refl, refl, refl)
memory-with_written (some cm) st = (refl, refl, refl)

-- A report changes none of the agent's variables and not the disk, and it is the latest.
pub memory-report :
    (o : Outside) (status : GatewayStatus) (st : AgentState)
    → (memory (report o status st) ≡ memory st)
      × ((report o status st).reports ≡ status ∷ st.reports)
      × ((report o status st).disk ≡ st.disk)
unfolding report
memory-report o status st = memory-with_written _ _

module _ (o : Outside) where
  -- The files are synced: the variables and the log stay.
  abbrev Quiet : AgentState → AgentState × ProfileSync → Type 0
  Quiet st r = (memory r.0 ≡ memory st) × (r.0.log ≡ st.log) × (r.0.reports ≡ st.reports)

  executed-Quiet :
      (name : String) (p : ResolvedProfile) (st : AgentState) (r : Disk × Result SyncResult)
      → Quiet st (executed o name p st r)
  executed-Quiet name p st (d, ok r) = (refl, refl, refl)
  executed-Quiet name p st (d, err e) = (refl, refl, refl)

  run_plan-Quiet :
      (name : String) (p : ResolvedProfile) (st : AgentState) (plan : Outcome SyncPlan)
      → Quiet st (run_plan o name p st plan)
  run_plan-Quiet name p st (failed e) = (refl, refl, refl)
  run_plan-Quiet name p st (done plan) = executed-Quiet name p st _

  with_labels-Quiet :
      (meta : Metadata) (name : String) (p : ResolvedProfile) (st : AgentState)
      (labels : Outcome (Dict String String))
      → Quiet st (with_labels o meta name p st labels)
  with_labels-Quiet meta name p st (failed e) = (refl, refl, refl)
  with_labels-Quiet meta name p st (done labels) = run_plan-Quiet name p st _

  with_profile-Quiet :
      (meta : Metadata) (st : AgentState) (found : Outcome (ResolvedProfile × String))
      → Quiet st (with_profile o meta st found)
  with_profile-Quiet meta st (failed e) = (refl, refl, refl)
  with_profile-Quiet meta st (done (p, name)) =
      if_cases (Quiet st) p.paused (st, returned o name p (done no_change))
        (with_labels o meta name p (later 1 st) (o.pod_labels st.clock)) (λ on. (refl, refl, refl))
        (λ off. with_labels-Quiet meta name p (later 1 st) (o.pod_labels st.clock))

  with_metadata-Quiet :
      (st : AgentState) (meta : Outcome Metadata) → Quiet st (with_metadata o st meta)
  with_metadata-Quiet st (failed e) = (refl, refl, refl)
  with_metadata-Quiet st (done meta) = with_profile-Quiet meta st (lookup_profile o meta)

  pub sync_with_profile-Quiet : (st : AgentState) → Quiet st (sync_with_profile o st)
  unfolding sync_with_profile
  sync_with_profile-Quiet st =
      with_metadata-Quiet (later 1 st)
        (read_metadata_config_map o.config.cr_name (o.metadata st.clock))

  -- The sync of one commit leaves the variables but for what it records, and reports once.
  pub record Concluded (commit profiles : String) (st : AgentState)
      (r : AgentState × Outcome (Unit {0})) : Type 0 where
    pub on_success :
        r.1 ≡ done tt → memory r.0 ≡ record (memory st) { commit = commit; profiles = profiles }
    pub on_failure :
        (e : String)
        → r.1 ≡ failed e
        → (memory r.0 ≡ memory st)
          × (s : GatewayStatus) × (r.0.reports ≡ s ∷ st.reports)
          × (s.sync_status ≡ SyncStatus.error)
          × (s.synced_commit ≡ commit)

  report_error-Concluded :
      (commit ref profiles msg e : String) (st : AgentState)
      → Concluded commit profiles st (report_error o commit ref msg st, failed e)
  unfolding report_error
  report_error-Concluded commit ref profiles msg e st =
      let (same, latest, d) = memory-report o _ (later 1 st) in
      record { on_success = λ h. absurd (cc); on_failure = λ x h. (same, _, latest, refl, refl) }

  conclude-Concluded :
      (commit ref profiles : String) (run : ProfileSync) (r : SyncResult) (scan : String)
      (verdict : String × String) (st : AgentState)
      → Concluded commit profiles st (conclude o commit ref profiles run r scan verdict st)
  unfolding conclude
  conclude-Concluded commit ref profiles run r scan verdict st =
      let status = status_of o commit ref run r scan verdict st.clock in
      let (same, latest, d) = memory-report o status (later 1 st) in
      if_cases (Concluded commit profiles st) (verdict.0 == SyncStatus.error)
        (report o status (later 1 st), failed ("scan after sync: " <> verdict.1))
        (recorded o commit profiles (report o status (later 1 st)), done tt)
        (λ bad.
          let is_error : verdict.0 ≡ SyncStatus.error = ground (arith, bad) in
          record {
            on_success = λ h. absurd (cc);
            on_failure = λ e h. (same, status, latest, is_error, refl);
          })
        (λ good. record {
          on_success =
              λ h. ap (λ (m : Memory). record m { commit = commit; profiles = profiles }) same;
          on_failure = λ e h. absurd (cc);
        })

  scan_gateway-memory :
      (dry initial : Bool) (st : AgentState)
      → (memory (scan_gateway o dry initial st).0 ≡ memory st)
        × ((scan_gateway o dry initial st).0.reports ≡ st.reports)
  unfolding scan_gateway
  scan_gateway-memory true initial st = (refl, refl)
  scan_gateway-memory false true st = (refl, refl)
  scan_gateway-memory false false st = (refl, refl)

  -- From a state with the same variables and reports.
  Concluded-from :
      (commit profiles : String) (st st' : AgentState) (r : AgentState × Outcome (Unit {0}))
      → memory st' ≡ memory st
      → st'.reports ≡ st.reports
      → Concluded commit profiles st' r
      → Concluded commit profiles st r
  Concluded-from commit profiles st st' r same old c = record {
    on_success = λ h.
        c.on_success h
        ∙ ap (λ (m : Memory). record m { commit = commit; profiles = profiles }) same;
    on_failure = λ e h.
        let (m, s, latest, bad, at) = c.on_failure e h in
        (m ∙ same, s, latest ∙ ap (λ rs. s ∷ rs) old, bad, at);
  }

  after_sync-Concluded :
      (commit ref : String) (initial : Bool) (profiles : String) (run : ProfileSync)
      (result : Outcome SyncResult) (st : AgentState)
      → Concluded commit profiles st (after_sync o commit ref initial profiles run result st)
  after_sync-Concluded commit ref initial profiles run (failed e) st =
      report_error-Concluded commit ref profiles _ _ st
  after_sync-Concluded commit ref initial profiles run (done r) st =
      let seen = scan_gateway o run.is_dry_run initial st in
      let (same, old) = scan_gateway-memory run.is_dry_run initial st in
      if_cases (Concluded commit profiles st) (is_shutting_down st.health)
        (recorded o commit profiles st, done tt) (scanned o commit ref initial profiles run r seen)
        (λ down. record { on_success = λ h. refl; on_failure = λ e h. absurd (cc) })
        (λ up. Concluded-from commit profiles st seen.0 _ same old (
          conclude-Concluded commit ref profiles run r seen.1
            (judge o run.is_dry_run initial seen.1) seen.0))

  -- A sync of a commit that ends without an error records that commit and those profiles as synced; one
  -- that ends with an error records nothing, and reports the status "Error" with that commit. Either way
  -- the backoff, the health and the sync in progress stay as they were.
  pub sync_once-Concluded :
      (commit ref : String) (initial : Bool) (profiles : String) (st : AgentState)
      → Concluded commit profiles st (sync_once o commit ref initial profiles st)
  unfolding sync_once
  sync_once-Concluded commit ref initial profiles st =
      let (same, log, old) = sync_with_profile-Quiet st in
      let synced = sync_with_profile o st in
      Concluded-from commit profiles st synced.0 _ same old
        (after_sync-Concluded commit ref initial profiles synced.1 synced.1.result synced.0)
