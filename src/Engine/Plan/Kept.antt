-- ===== src/Engine/Plan/Kept.antt =====
-- The files that a whole run leaves alone.
use stoker_operator.Prelude.{
  String, ◌≡◌, ◌≢◌, sym, ap, ◌∙◌, Bool, true, false, Option, some, List, [], ◌∷◌, ◌++◌, All,
  if◌then◌else◌, arith, contains, string_eq, ==_refl,
}
use mathlib.Core.List.{append_assoc}
use stoker_operator.Engine.Disk.{
  FilePath, File, Node, file, dir, symlink, Disk, lstat, is_below, make_dirs, remove_all, ◌>>=◌,
  pure,
}
use stoker_operator.Engine.Disk.Laws.{lstat-erase_below, append_cancel_left}
use stoker_operator.Engine.Disk.Keeps.{
  Keeps, after-leads, after-Keeps, >>=-Keeps, >>-Keeps, make_dirs-Keeps,
}
use stoker_operator.Engine.Exclude.{merge_excludes}
use stoker_operator.Engine.Exclude.Laws.{contains-merge_excludes, should_exclude-contains}
use stoker_operator.Engine.Plan.{
  SyncPlan, SyncResult, build_staging, report_dry, apply_live, clean_live, second_phase,
  diff_result, live_result, finish, execute_plan,
}
use stoker_operator.Engine.Plan.Stage.{render, stage_all}
use stoker_operator.Engine.Plan.Stage.Keeps.{IfAny, IsSound, is_kept_out, stage_all-Keeps}
use stoker_operator.Engine.Plan.Roots.{compute_managed_roots, is_under_managed_root}
use stoker_operator.Engine.Plan.Merge.{merge_staging_to_live}
use stoker_operator.Engine.Plan.Clean.{fate, compare_with_staging, clean_orphans}
use stoker_operator.Engine.Plan.Clean.Keeps.{clean_orphans-Keeps}
use stoker_operator.Engine.Plan.Diff.{compute_dry_run_diff}
use stoker_operator.Engine.Plan.Diff.Keeps.{compute_dry_run_diff-Keeps}
use stoker_operator.Engine.Plan.Safety.{
  Safe, Safe-new_dir, Safe-written, Safe-rewritten, Safe-remove_all, Unstaged, Merging,
  merge_staging_to_live-Keeps,
}

-- A plan as the agent builds it: staging is `.sync-staging` in live, each mapping's destination is a
-- relative path that does not lead above its start, destinations of file mappings are clean paths, and the closures rewrite the file that they are given and nothing else.
pub record IsSoundPlan (plan : SyncPlan) : Type 0 where
  pub in_live : plan.staging_dir ≡ plan.live_dir ++ ".sync-staging" ∷ []
  pub mappings_sound : All IsSound plan.mappings
  pub template_in_place : IfAny plan.apply_template

-- What doublestar documents of `**` at the two ends of a pattern.
abbrev pub HidesStaging : (String → String → Option Bool) → Type 0
HidesStaging glob =
    (rel : FilePath) → glob "**/.sync-staging/**" (render (".sync-staging" ∷ rel)) ≡ some true

contains_hardcoded :
    (user : List String) → contains (merge_excludes user) "**/.sync-staging/**" ≡ true
contains_hardcoded user =
    contains-merge_excludes user "**/.sync-staging/**"
    ∙ ground (arith, ==_refl {A = String} "**/.sync-staging/**")

module _ (glob : String → String → Option Bool) (digest : String → String) (plan : SyncPlan)
    (sound : IsSoundPlan plan) (hides : HidesStaging glob) where
  abbrev excludes : List String
  excludes = merge_excludes plan.exclude_patterns

  hidden_staging :
      (rel rel' : FilePath)
      → is_kept_out glob excludes rel ≡ false
      → plan.live_dir ++ rel ≢ plan.staging_dir ++ rel'
  hidden_staging rel rel' out e =
      let same : rel ≡ ".sync-staging" ∷ rel' =
        append_cancel_left plan.live_dir rel (".sync-staging" ∷ rel') (
          e
          ∙ ap (λ p. p ++ rel') sound.in_live
          ∙ append_assoc plan.live_dir (".sync-staging" ∷ []) rel') in
      let shut =
        should_exclude-contains glob (render (".sync-staging" ∷ rel')) "**/.sync-staging/**"
          excludes (contains_hardcoded plan.exclude_patterns) (hides rel') in
      ground (arith, shut, out, ap (is_kept_out glob excludes) same)

  module _ (q : FilePath) (f : File)
      (apart : is_below plan.staging_dir (plan.live_dir ++ q) ≡ false) where
    build_staging-Safe :
        (d : Disk)
        → lstat (plan.live_dir ++ q) d ≡ some (file f)
        → Safe glob digest plan.staging_dir plan.live_dir excludes q f
            (build_staging glob digest plan excludes d).0
    unfolding build_staging
    build_staging-Safe d e =
        let I = Safe glob digest plan.staging_dir plan.live_dir excludes q f in
        let stage =
          stage_all glob digest plan.staging_dir excludes plan.apply_template plan.mappings [] in
        >>-Keeps I (make_dirs plan.staging_dir) stage
          (make_dirs-Keeps I (Safe-new_dir glob digest plan.staging_dir plan.live_dir excludes q f)
            plan.staging_dir)
          (stage_all-Keeps glob digest plan.staging_dir excludes I
            (Safe-new_dir glob digest plan.staging_dir plan.live_dir excludes q f)
            (Safe-written glob digest plan.staging_dir plan.live_dir excludes q f apart)
            (Safe-rewritten glob digest plan.staging_dir plan.live_dir excludes q f apart)
            plan.apply_template sound.template_in_place plan.mappings [] sound.mappings_sound)
          (remove_all plan.staging_dir d).0
          (Safe-remove_all glob digest plan.staging_dir plan.live_dir excludes q f apart d e)

    abbrev Held : Disk → Type 0
    Held d = lstat (plan.live_dir ++ q) d ≡ some (file f)

    abbrev roots : List String
    roots = compute_managed_roots plan.mappings

    report_dry-Held : Keeps Held (report_dry glob digest plan excludes)
    unfolding report_dry
    report_dry-Held =
        >>=-Keeps Held
          (compute_dry_run_diff glob digest plan.staging_dir plan.live_dir roots excludes)
          (λ diff. pure (diff_result diff))
          (compute_dry_run_diff-Keeps Held glob digest plan.staging_dir plan.live_dir roots
            excludes)
          (λ diff d h. h)

    finish-Held : (r : SyncResult) → Keeps Held (finish glob digest plan r)
    unfolding finish
    finish-Held r d h = rw (lstat-erase_below, apart) h

    module _ (not_orphan : (n : Node) → fate glob roots excludes q n ≢ compare_with_staging) where
      abbrev Ready : Disk → Type 0
      Ready = Merging glob digest plan.staging_dir plan.live_dir excludes q f hidden_staging

      apply_live-Held : (d : Disk) → Ready d → Held (apply_live glob digest plan excludes d).0
      unfolding apply_live clean_live
      apply_live-Held d m =
          let merge = merge_staging_to_live digest plan.staging_dir plan.live_dir in
          after-leads Ready Held (clean_live glob digest plan excludes) (merge d)
            (λ e r. r.safe.kept)
            (λ merged e r.
              after-Keeps Held (λ deleted. pure (live_result merged deleted))
                (clean_orphans glob plan.staging_dir plan.live_dir roots excludes e)
                (λ deleted g h. h)
                (clean_orphans-Keeps glob plan.staging_dir plan.live_dir roots excludes q f
                  not_orphan e r.safe.kept))
            (merge_staging_to_live-Keeps glob digest plan.staging_dir plan.live_dir excludes q f
              hidden_staging d m)

      second_phase-Held :
          (dry : Bool) (d : Disk)
          → Ready d
          → Held
              ((if dry
                  then report_dry glob digest plan excludes
                  else apply_live glob digest plan excludes)
                d).0
      second_phase-Held true d m = report_dry-Held d m.safe.kept
      second_phase-Held false d m = apply_live-Held d m

      execute_plan-Held :
          (d : Disk)
          → Held d
          → Unstaged glob digest plan.staging_dir plan.live_dir excludes q f
              (build_staging glob digest plan excludes d).0
          → Held (execute_plan glob digest plan d).0
      unfolding execute_plan
      execute_plan-Held d h free =
          after-leads Ready Held
            (λ _. second_phase glob digest plan excludes >>= finish glob digest plan)
            (build_staging glob digest plan excludes d) (λ e r. r.safe.kept)
            (λ staged e r.
              after-Keeps Held (finish glob digest plan) (second_phase glob digest plan excludes e)
                finish-Held (second_phase-Held plan.dry_run e r))
            (record { safe = build_staging-Safe d h; unstaged = free })

    fate_kept_out :
        (n : Node)
        → is_kept_out glob excludes q ≡ true
        → fate glob roots excludes q n ≢ compare_with_staging
    unfolding fate
    fate_kept_out dir out = ground arith
    fate_kept_out symlink out = ground arith
    fate_kept_out (file g) out = ground arith

    fate_unmanaged :
        (n : Node)
        → is_under_managed_root (render q) roots ≡ false
        → fate glob roots excludes q n ≢ compare_with_staging
    unfolding fate
    fate_unmanaged dir out = ground arith
    fate_unmanaged symlink out = ground arith
    fate_unmanaged (file g) out = ground arith

    -- With a plan as the agent builds it (staging is `.sync-staging` in live, no mapping's
    -- destination is absolute or leads above its start, destinations of file mappings are clean, and
    -- the closures rewrite in place) and a matcher that hides staging, a file
    -- in live, outside staging, whose path is protected or excluded has the same content and mode
    -- after a sync, dry or live, and whether the sync succeeds or stops at an error.
    pub execute_plan_kept_out :
        (d : Disk)
        → is_kept_out glob excludes q ≡ true
        → lstat (plan.live_dir ++ q) d ≡ some (file f)
        → lstat (plan.live_dir ++ q) (execute_plan glob digest plan d).0 ≡ some (file f)
    execute_plan_kept_out d out h =
        execute_plan-Held (λ n. fate_kept_out n out) d h
          (λ g e. cc (sym out ∙ (build_staging-Safe d h).staged q g e))

    -- Under the same conditions (a plan as the agent builds it, a matcher that hides staging, and a
    -- file in live outside staging): if the file lies under no managed root, and the staging phase
    -- leaves no file for its place, it has the same content and mode after a sync, whether that
    -- succeeds or stops at an error.
    pub execute_plan_unmanaged :
        (d : Disk)
        → is_under_managed_root (render q) (compute_managed_roots plan.mappings) ≡ false
        → ((g : File)
            → lstat (plan.staging_dir ++ q) (build_staging glob digest plan excludes d).0
              ≢ some (file g))
        → lstat (plan.live_dir ++ q) d ≡ some (file f)
        → lstat (plan.live_dir ++ q) (execute_plan glob digest plan d).0 ≡ some (file f)
    execute_plan_unmanaged d out free h = execute_plan-Held (λ n. fate_unmanaged n out) d h free
