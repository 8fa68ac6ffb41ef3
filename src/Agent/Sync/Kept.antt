-- ===== src/Agent/Sync/Kept.antt =====
-- Protected files stay as they are over a sync by the agent.
use stoker_operator.Prelude.{
  String, ◌<>◌, ◌≡◌, refl, ◌∙◌, Bool, true, false, some, List, ◌++◌, All, arith, if_cases,
  string_eq, ◌==◌,
}
use stoker_operator.Prelude.Dict.{Dict}
use stoker_operator.Prelude.Outcome.{Outcome, done, failed}
use stoker_operator.Prelude.Text.{split_slash}
use stoker_operator.Api.SyncStatus
use stoker_operator.Engine.Disk.{FilePath, File, file, Disk, Result, ok, err, lstat, is_below}
use stoker_operator.Engine.Exclude.{is_protected, merge_excludes}
use stoker_operator.Engine.Plan.{SyncPlan, SyncResult, execute_plan}
use stoker_operator.Engine.Plan.Stage.{render}
use stoker_operator.Engine.Plan.Stage.Keeps.{is_kept_out}
use stoker_operator.Engine.Plan.Kept.{IsSoundPlan, HidesStaging, execute_plan_kept_out}
use stoker_operator.Controller.Profiles.{ResolvedProfile}
use stoker_operator.Agent.Health.{is_shutting_down}
use stoker_operator.Agent.ConfigMaps.{Metadata, read_metadata_config_map}
use stoker_operator.Agent.Context.{TemplateContext, build_template_context}
use stoker_operator.Agent.Profile.{staging_of, build_sync_plan}
use stoker_operator.Agent.Profile.Paths.{IsPlain, clean-IsPlain}
use stoker_operator.Agent.Profile.Laws.{
  IsClean, build_sync_plan-IsSoundPlan, build_sync_plan-places,
}
use stoker_operator.Agent.State.{Outside, AgentState, places_of, later, report}
use stoker_operator.Agent.Sync.{
  ProfileSync, no_change, with_excludes, returned, executed, run_plan, with_labels, with_profile,
  with_metadata, sync_with_profile, report_error, scan_gateway, judge, status_of, recorded,
  conclude, scanned, after_sync, sync_once, lookup_profile,
}
use stoker_operator.Agent.Sync.Laws.{memory-report}

-- The file mappings of the plan that a sync from that state builds, if it builds one, have clean
-- destinations.
abbrev pub HasCleanFiles : Outside → AgentState → Type 0
HasCleanFiles o st =
    (meta : Metadata) (profile : ResolvedProfile) (name : String) (ctx : TemplateContext)
    (plan : SyncPlan)
    → read_metadata_config_map o.config.cr_name (o.metadata st.clock) ≡ done meta
    → lookup_profile o meta ≡ done (profile, name)
    → build_sync_plan o.tools ctx (places_of o.config) st.disk profile ≡ done plan
    → All IsClean plan.mappings

with_excludes-IsSoundPlan : (plan : SyncPlan) → IsSoundPlan plan → IsSoundPlan (with_excludes plan)
with_excludes-IsSoundPlan plan s = record {
  in_live = s.in_live;
  mappings_sound = s.mappings_sound;
  template_in_place = s.template_in_place;
}

module _ (o : Outside) (hides : HidesStaging o.tools.glob) (q : FilePath) (f : File)
    (protected : is_protected o.tools.glob (render q) ≡ true)
    (apart : is_below
        (staging_of (places_of o.config).live_dir)
        ((places_of o.config).live_dir ++ q)
      ≡ false) where
  abbrev Held : Disk → Type 0
  Held d = lstat ((places_of o.config).live_dir ++ q) d ≡ some (file f)

  live-IsPlain : All IsPlain (places_of o.config).live_dir
  unfolding places_of
  live-IsPlain = clean-IsPlain (split_slash o.config.data_path)

  repo-IsPlain : All IsPlain (places_of o.config).repo_path
  unfolding places_of
  repo-IsPlain = clean-IsPlain (split_slash o.config.repo_path)

  kept_out : (excludes : List String) → is_kept_out o.tools.glob excludes q ≡ true
  kept_out excludes = ground (arith, protected)

  execute_plan-Held :
      (ctx : TemplateContext) (profile : ResolvedProfile) (plan : SyncPlan) (d : Disk)
      → build_sync_plan o.tools ctx (places_of o.config) d profile ≡ done plan
      → All IsClean plan.mappings
      → Held d
      → Held (execute_plan o.tools.glob o.digest (with_excludes plan) d).0
  execute_plan-Held ctx profile plan d built clean h =
      let sound =
        build_sync_plan-IsSoundPlan o.tools ctx (places_of o.config) d repo-IsPlain live-IsPlain
          profile plan built clean in
      let (live, staging) =
        build_sync_plan-places o.tools ctx (places_of o.config) d repo-IsPlain live-IsPlain profile
          plan built in
      let apart' : is_below plan.staging_dir (plan.live_dir ++ q) ≡ false =
        rw (live, staging) apart in
      let held : lstat (plan.live_dir ++ q) d ≡ some (file f) = rw live h in
      let kept =
        execute_plan_kept_out o.tools.glob o.digest (with_excludes plan)
          (with_excludes-IsSoundPlan plan sound) hides q f apart' d
          (kept_out (merge_excludes (with_excludes plan).exclude_patterns)) held in
      rw (← live) kept

  executed-Held :
      (name : String) (p : ResolvedProfile) (st : AgentState) (r : Disk × Result SyncResult)
      → Held r.0
      → Held (executed o name p st r).0.disk
  executed-Held name p st (d, ok r) h = h
  executed-Held name p st (d, err e) h = h

  run_plan-Held :
      (name : String) (p : ResolvedProfile) (ctx : TemplateContext) (st : AgentState)
      (plan : Outcome SyncPlan)
      → build_sync_plan o.tools ctx (places_of o.config) st.disk p ≡ plan
      → ((built : SyncPlan) → plan ≡ done built → All IsClean built.mappings)
      → Held st.disk
      → Held (run_plan o name p st plan).0.disk
  run_plan-Held name p ctx st (failed e) built clean h = h
  run_plan-Held name p ctx st (done plan) built clean h =
      executed-Held name p st (execute_plan o.tools.glob o.digest (with_excludes plan) st.disk)
        (execute_plan-Held ctx p plan st.disk built (clean plan refl) h)

  with_labels-Held :
      (meta : Metadata) (name : String) (p : ResolvedProfile) (st : AgentState)
      (labels : Outcome (Dict String String))
      → ((ctx : TemplateContext) (plan : SyncPlan)
          → build_sync_plan o.tools ctx (places_of o.config) st.disk p ≡ done plan
          → All IsClean plan.mappings)
      → Held st.disk
      → Held (with_labels o meta name p st labels).0.disk
  with_labels-Held meta name p st (failed e) clean h = h
  with_labels-Held meta name p st (done labels) clean h =
      let ctx = build_template_context o.config meta p.vars labels in
      run_plan-Held name p ctx st (build_sync_plan o.tools ctx (places_of o.config) st.disk p) refl
        (clean ctx) h

  with_profile-Held :
      (meta : Metadata) (st : AgentState) (found : Outcome (ResolvedProfile × String))
      → ((p : ResolvedProfile) (name : String) (ctx : TemplateContext) (plan : SyncPlan)
          → found ≡ done (p, name)
          → build_sync_plan o.tools ctx (places_of o.config) st.disk p ≡ done plan
          → All IsClean plan.mappings)
      → Held st.disk
      → Held (with_profile o meta st found).0.disk
  with_profile-Held meta st (failed e) clean h = h
  with_profile-Held meta st (done (p, name)) clean h =
      if_cases (λ (r : AgentState × ProfileSync). Held r.0.disk) p.paused
        (st, returned o name p (done no_change))
        (with_labels o meta name p (later 1 st) (o.pod_labels st.clock)) (λ on. h)
        (λ off.
          with_labels-Held meta name p (later 1 st) (o.pod_labels st.clock)
            (λ ctx plan. clean p name ctx plan refl) h)

  with_metadata-Held :
      (st : AgentState) (meta : Outcome Metadata)
      → ((m : Metadata) (p : ResolvedProfile) (name : String) (ctx : TemplateContext)
            (plan : SyncPlan)
          → meta ≡ done m
          → lookup_profile o m ≡ done (p, name)
          → build_sync_plan o.tools ctx (places_of o.config) st.disk p ≡ done plan
          → All IsClean plan.mappings)
      → Held st.disk
      → Held (with_metadata o st meta).0.disk
  with_metadata-Held st (failed e) clean h = h
  with_metadata-Held st (done meta) clean h =
      with_profile-Held meta st (lookup_profile o meta)
        (λ p name ctx plan. clean meta p name ctx plan refl) h

  sync_with_profile-Held :
      (st : AgentState) → HasCleanFiles o st → Held st.disk → Held (sync_with_profile o st).0.disk
  unfolding sync_with_profile
  sync_with_profile-Held st clean h =
      with_metadata-Held (later 1 st)
        (read_metadata_config_map o.config.cr_name (o.metadata st.clock)) clean h

  disk-scan_gateway :
      (dry initial : Bool) (st : AgentState) → (scan_gateway o dry initial st).0.disk ≡ st.disk
  unfolding scan_gateway
  disk-scan_gateway true initial st = refl
  disk-scan_gateway false true st = refl
  disk-scan_gateway false false st = refl

  disk-conclude :
      (commit ref profiles : String) (run : ProfileSync) (r : SyncResult) (scan : String)
      (verdict : String × String) (st : AgentState)
      → (conclude o commit ref profiles run r scan verdict st).0.disk ≡ st.disk
  unfolding conclude
  disk-conclude commit ref profiles run r scan verdict st =
      let status = status_of o commit ref run r scan verdict st.clock in
      let (same, latest, d) = memory-report o status (later 1 st) in
      if_cases (λ (c : AgentState × Outcome (Unit {0})). c.0.disk ≡ st.disk)
        (verdict.0 == SyncStatus.error)
        (report o status (later 1 st), failed ("scan after sync: " <> verdict.1))
        (recorded o commit profiles (report o status (later 1 st)), done tt) (λ bad. d) (λ good. d)

  disk-after_sync :
      (commit ref : String) (initial : Bool) (profiles : String) (run : ProfileSync)
      (result : Outcome SyncResult) (st : AgentState)
      → (after_sync o commit ref initial profiles run result st).0.disk ≡ st.disk
  unfolding report_error
  disk-after_sync commit ref initial profiles run (failed e) st = (memory-report o _ (later 1 st)).2
  disk-after_sync commit ref initial profiles run (done r) st =
      let seen = scan_gateway o run.is_dry_run initial st in
      if_cases (λ (c : AgentState × Outcome (Unit {0})). c.0.disk ≡ st.disk)
        (is_shutting_down st.health) (recorded o commit profiles st, done tt)
        (scanned o commit ref initial profiles run r seen) (λ down. refl)
        (λ up.
          disk-conclude commit ref profiles run r seen.1 (judge o run.is_dry_run initial seen.1)
            seen.0
          ∙ disk-scan_gateway run.is_dry_run initial st)

  -- With a matcher that hides staging, and where the plan that is built, if one is, has clean destinations
  -- for its file mappings: a file in the live directory, outside staging, whose path is protected has
  -- the same content and mode after a whole sync of the agent, the first one or a later one, whatever
  -- the profile is, and whether the sync succeeds or fails.
  pub sync_once-protected :
      (commit ref : String) (initial : Bool) (profiles : String) (st : AgentState)
      → HasCleanFiles o st
      → Held st.disk
      → Held (sync_once o commit ref initial profiles st).0.disk
  unfolding sync_once
  sync_once-protected commit ref initial profiles st clean h =
      let synced = sync_with_profile o st in
      rw (disk-after_sync commit ref initial profiles synced.1 synced.1.result synced.0)
        (sync_with_profile-Held st clean h)
