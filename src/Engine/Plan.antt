-- ===== src/Engine/Plan.antt =====
-- internal/syncengine/plan.go and the walk of engine.go
pub mod Walk
pub mod Stage
pub mod Roots
pub mod Merge
pub mod Clean
pub mod Diff
pub mod Safety
pub mod DryRun
pub mod Kept
use stoker_operator.Prelude.{
  ℕ, String, Bool, true, false, Option, none, some, List, [], ◌∷◌, ◌++◌, length, if◌then◌else◌,
}
use stoker_operator.Engine.Disk.{
  FilePath, Node, dir, Disk, Io, pure, ok, ◌>>=◌, ◌>>◌, erase_below, remove_all, make_dirs, lstat,
  entries_below,
}
use stoker_operator.Engine.Exclude.{merge_excludes}
use stoker_operator.Engine.Plan.Stage.{ResolvedMapping, Rewrite, stage_all}
use stoker_operator.Engine.Plan.Roots.{compute_managed_roots}
use stoker_operator.Engine.Plan.Merge.{Merged, merge_staging_to_live}
use stoker_operator.Engine.Plan.Clean.{clean_orphans}
use stoker_operator.Engine.Plan.Diff.{DryRunDiff, compute_dry_run_diff}

pub record SyncPlan : Type 0 where
  pub mappings : List ResolvedMapping
  pub exclude_patterns : List String
  pub staging_dir : FilePath
  pub live_dir : FilePath
  pub dry_run : Bool
  pub apply_template : Option Rewrite

-- `Duration` is a clock reading, and is left out.
pub record SyncResult : Type 0 where
  pub files_added : ℕ
  pub files_modified : ℕ
  pub files_deleted : ℕ
  pub projects_synced : List String
  pub dry_run_diff : Option DryRunDiff

-- The directories among the entries of one directory.
child_dirs : List (FilePath × Node) → List String
child_dirs [] = []
child_dirs ((name ∷ [], dir) ∷ es) = name ∷ child_dirs es
child_dirs (_ ∷ es) = child_dirs es

unfoldable pub discover_projects : FilePath → Disk → List String
unfolding child_dirs entries_below
discover_projects dst_root d = child_dirs (entries_below (dst_root ++ "projects" ∷ []) d)

abbrev pub diff_result : DryRunDiff → SyncResult
diff_result diff = record {
  files_added = length diff.added;
  files_modified = length diff.modified;
  files_deleted = length diff.deleted;
  projects_synced = [];
  dry_run_diff = some diff;
}

abbrev pub live_result : Merged → ℕ → SyncResult
live_result merged deleted = record {
  files_added = merged.added;
  files_modified = merged.modified;
  files_deleted = deleted;
  projects_synced = [];
  dry_run_diff = none;
}

module _ (glob : String → String → Option Bool) (digest : String → String) where
  -- Phase 1.
  unfoldable pub build_staging : SyncPlan → List String → Io (List String)
  unfolding remove_all make_dirs stage_all
  build_staging plan excludes = do
    remove_all plan.staging_dir
    make_dirs plan.staging_dir
    stage_all glob digest plan.staging_dir excludes plan.apply_template plan.mappings []

  -- Phase 2 of a dry run.
  unfoldable pub report_dry : SyncPlan → List String → Io SyncResult
  unfolding compute_dry_run_diff compute_managed_roots
  report_dry plan excludes = do
    diff ←
        compute_dry_run_diff glob digest plan.staging_dir plan.live_dir
          (compute_managed_roots plan.mappings) excludes
    pure (diff_result diff)

  -- Phase 2 of a live run: the cleanup, and the merge before it.
  unfoldable pub clean_live : SyncPlan → List String → Merged → Io SyncResult
  unfolding clean_orphans compute_managed_roots
  clean_live plan excludes merged = do
    deleted ←
        clean_orphans glob plan.staging_dir plan.live_dir (compute_managed_roots plan.mappings)
          excludes
    pure (live_result merged deleted)

  unfoldable pub apply_live : SyncPlan → List String → Io SyncResult
  unfolding merge_staging_to_live clean_live
  apply_live plan excludes = do
    merged ← merge_staging_to_live digest plan.staging_dir plan.live_dir
    clean_live plan excludes merged

  abbrev pub second_phase : SyncPlan → List String → Io SyncResult
  second_phase plan excludes =
      if plan.dry_run then report_dry plan excludes else apply_live plan excludes

  -- Phase 3.
  unfoldable pub finish : SyncPlan → SyncResult → Io SyncResult
  unfolding erase_below discover_projects
  finish plan result d =
      let d' = erase_below plan.staging_dir d in
      (d', ok (record result { projects_synced = discover_projects plan.live_dir d' }))

  unfoldable pub execute_plan : SyncPlan → Io SyncResult
  unfolding build_staging report_dry apply_live finish merge_excludes
  execute_plan plan = do
    let excludes = merge_excludes plan.exclude_patterns
    build_staging plan excludes
    result ← second_phase plan excludes
    finish plan result
