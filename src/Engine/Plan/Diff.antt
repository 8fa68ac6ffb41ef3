-- ===== src/Engine/Plan/Diff.antt =====
-- computeDryRunDiff of plan.go
pub mod Keeps
use stoker_operator.Prelude.{
  String, Bool, true, false, Option, none, some, List, [], ◌∷◌, ◌++◌, if◌then◌else◌,
}
use stoker_operator.Engine.Disk.{
  FilePath, Node, file, dir, symlink, Io, pure, inspect, ◌>>=◌, lstat,
}
use stoker_operator.Engine.Copy.{files_equal}
use stoker_operator.Engine.Plan.Walk.{Visit, onwards, walk_dir, walk_dir_if_exists}
use stoker_operator.Engine.Plan.Clean.{Fate, leave, compare_with_staging, fate}
use stoker_operator.Engine.Plan.Stage.{render}

pub record DryRunDiff : Type 0 where
  pub added : List String
  pub modified : List String
  pub deleted : List String

module _ (glob : String → String → Option Bool) (digest : String → String) (staging live : FilePath)
    (roots excludes : List String) where
  compare_staged : Option Node → Bool → FilePath → DryRunDiff → DryRunDiff
  compare_staged none same rel diff = record diff { added = diff.added ++ render rel ∷ [] }
  compare_staged (some _) true rel diff = diff
  compare_staged (some _) false rel diff = record diff {
    modified = diff.modified ++ render rel ∷ [];
  }

  -- The callback of the walk over staging.
  unfoldable pub diff_visit : FilePath → Node → DryRunDiff → Io (DryRunDiff × Visit)
  unfolding compare_staged files_equal lstat
  diff_visit rel (file f) diff = inspect λ d.
      let same = files_equal digest (staging ++ rel) (live ++ rel) d in
      pure (compare_staged (lstat (live ++ rel) d) same rel diff, onwards)
  diff_visit rel _ diff = pure (diff, onwards)

  note_orphan : Option Node → FilePath → DryRunDiff → DryRunDiff
  note_orphan (some _) rel diff = diff
  note_orphan none rel diff = record diff { deleted = diff.deleted ++ render rel ∷ [] }

  -- The callback of the walk over live, which tests as the one of cleanOrphans does.
  unfoldable pub orphan_fate : Fate → FilePath → DryRunDiff → Io (DryRunDiff × Visit)
  unfolding note_orphan lstat
  orphan_fate (leave v) rel diff = pure (diff, v)
  orphan_fate compare_with_staging rel diff =
      inspect λ d. pure (note_orphan (lstat (staging ++ rel) d) rel diff, onwards)

  unfoldable pub orphan_visit : FilePath → Node → DryRunDiff → Io (DryRunDiff × Visit)
  unfolding orphan_fate fate
  orphan_visit rel n diff = orphan_fate (fate glob roots excludes rel n) rel diff

  unfoldable pub compute_dry_run_diff : Io DryRunDiff
  unfolding diff_visit orphan_visit walk_dir walk_dir_if_exists
  compute_dry_run_diff = do
    diff ← walk_dir diff_visit staging (record { added = []; modified = []; deleted = [] })
    walk_dir_if_exists orphan_visit live diff
