-- ===== src/Engine/Plan/DryRun.antt =====
-- A dry run writes to the staging directory alone.
use stoker_operator.Prelude.{
  String, ◌≡◌, ◌≢◌, refl, sym, ap, ◌∙◌, Bool, true, false, Option, none, some, List, [], ◌++◌, All,
  arith, string_eq, list_eq,
}
use stoker_operator.Engine.Disk.{
  FilePath, File, Node, file, dir, symlink, Disk, lstat, place, is_below, make_dirs, remove_all,
  ◌>>=◌, ◌>>◌, pure,
}
use stoker_operator.Engine.Disk.Laws.{lstat-place, lstat-erase_below, is_below-append}
use stoker_operator.Engine.Disk.Keeps.{Keeps, >>=-Keeps, >>-Keeps, make_dirs-Keeps}
use stoker_operator.Engine.Exclude.{merge_excludes}
use stoker_operator.Engine.Plan.{
  SyncPlan, SyncResult, build_staging, report_dry, finish, second_phase, execute_plan, diff_result,
}
use stoker_operator.Engine.Plan.Stage.{Rewrite, stage_all}
use stoker_operator.Engine.Plan.Stage.Keeps.{InPlace, IfAny, IsSound, is_kept_out, stage_all-Keeps}
use stoker_operator.Engine.Plan.Roots.{compute_managed_roots}
use stoker_operator.Engine.Plan.Diff.{compute_dry_run_diff}
use stoker_operator.Engine.Plan.Diff.Keeps.{compute_dry_run_diff-Keeps}

-- The regular file at a place, if there is one.
abbrev pub as_file : Option Node → Option File
as_file (some (file f)) = some f
as_file (some dir) = none
as_file (some symlink) = none
as_file none = none

module _ (glob : String → String → Option Bool) (digest : String → String) (plan : SyncPlan)
    (sound : All IsSound plan.mappings) (template : IfAny plan.apply_template) (p : FilePath)
    (o : Option File) (apart : is_below plan.staging_dir p ≡ false) where
  abbrev Same : Disk → Type 0
  Same d = as_file (lstat p d) ≡ o

  abbrev excludes : List String
  excludes = merge_excludes plan.exclude_patterns

  not_staging : (rel : FilePath) → p ≢ plan.staging_dir ++ rel
  not_staging rel e =
      cc (sym apart ∙ ap (is_below plan.staging_dir) e ∙ is_below-append plan.staging_dir rel)

  Same-new_dir : (r : FilePath) (d : Disk) → lstat r d ≡ none → Same d → Same (place r dir d)
  Same-new_dir r d e h = rw lstat-place (ground (arith, h))

  Same-written :
      (rel : FilePath) (f : File)
      → is_kept_out glob excludes rel ≡ false
      → (d : Disk) → Same d
      → Same (place (plan.staging_dir ++ rel) (file f) d)
  Same-written rel f out d h = rw lstat-place (ground (arith, h, not_staging rel))

  Same-rewritten :
      (rewrite : Rewrite)
      → InPlace rewrite
      → (rel : FilePath) → is_kept_out glob excludes rel ≡ false
      → Keeps Same (rewrite (plan.staging_dir ++ rel))
  Same-rewritten rewrite w rel out d h = rw (w (plan.staging_dir ++ rel) p d (not_staging rel)) h

  remove_all-Same : Keeps Same (remove_all plan.staging_dir)
  unfolding remove_all
  remove_all-Same d h = rw (lstat-erase_below, apart) h

  build_staging-Same : Keeps Same (build_staging glob digest plan excludes)
  unfolding build_staging
  build_staging-Same =
      let stage =
        stage_all glob digest plan.staging_dir excludes plan.apply_template plan.mappings [] in
      >>-Keeps Same (remove_all plan.staging_dir) (make_dirs plan.staging_dir >> stage)
        remove_all-Same
        (>>-Keeps Same (make_dirs plan.staging_dir) stage
          (make_dirs-Keeps Same Same-new_dir plan.staging_dir)
          (stage_all-Keeps glob digest plan.staging_dir excludes Same Same-new_dir Same-written
            Same-rewritten plan.apply_template template plan.mappings [] sound))

  report_dry-Same : Keeps Same (report_dry glob digest plan excludes)
  unfolding report_dry
  report_dry-Same =
      let roots = compute_managed_roots plan.mappings in
      >>=-Keeps Same
        (compute_dry_run_diff glob digest plan.staging_dir plan.live_dir roots excludes)
        (λ diff. pure (diff_result diff))
        (compute_dry_run_diff-Keeps Same glob digest plan.staging_dir plan.live_dir roots excludes)
        (λ diff d h. h)

  finish-Same : (r : SyncResult) → Keeps Same (finish glob digest plan r)
  unfolding finish
  finish-Same r d h = rw (lstat-erase_below, apart) h

  dry_run-Same : plan.dry_run ≡ true → Keeps Same (execute_plan glob digest plan)
  unfolding execute_plan
  dry_run-Same dry =
      >>=-Keeps Same (build_staging glob digest plan excludes)
        (λ _. second_phase glob digest plan excludes >>= finish glob digest plan) build_staging-Same
        (λ _.
          >>=-Keeps Same (second_phase glob digest plan excludes) (finish glob digest plan)
            (rw dry report_dry-Same) finish-Same)

-- With `DryRun` set, no file outside the staging directory is written, added or removed by a sync,
-- provided that no mapping's destination is absolute or leads above its start, destinations of file
-- mappings are clean, and the closures rewrite in place.
pub execute_plan_dry_run :
    (glob : String → String → Option Bool) (digest : String → String) (plan : SyncPlan)
    (p : FilePath) (d : Disk)
    → plan.dry_run ≡ true
    → All IsSound plan.mappings
    → IfAny plan.apply_template
    → is_below plan.staging_dir p ≡ false
    → as_file (lstat p (execute_plan glob digest plan d).0) ≡ as_file (lstat p d)
execute_plan_dry_run glob digest plan p d dry sound template apart =
    dry_run-Same glob digest plan sound template p (as_file (lstat p d)) apart dry d refl
