-- ===== src/Engine/Plan/Diff/Keeps.antt =====
-- The diff of a dry run reads the disk and writes nothing.
use stoker_operator.Prelude.{String, Option, List, [], Bool}
use stoker_operator.Engine.Disk.{FilePath, Node, file, dir, symlink, Disk}
use stoker_operator.Engine.Disk.Keeps.{Keeps, >>=-Keeps}
use stoker_operator.Engine.Plan.Walk.{walk_dir, walk_dir_if_exists}
use stoker_operator.Engine.Plan.Walk.Keeps.{walk_dir-Keeps, walk_dir_if_exists-Keeps}
use stoker_operator.Engine.Plan.Clean.{Fate, leave, compare_with_staging, fate}
use stoker_operator.Engine.Plan.Diff.{
  DryRunDiff, diff_visit, orphan_fate, orphan_visit, compute_dry_run_diff,
}

module _ {ℓ} (I : Disk → Type ℓ) (glob : String → String → Option Bool) (digest : String → String)
    (staging live : FilePath) (roots excludes : List String) where
  diff_visit-Keeps :
      (rel : FilePath) (n : Node) (diff : DryRunDiff)
      → Keeps I (diff_visit glob digest staging live roots excludes rel n diff)
  unfolding diff_visit
  diff_visit-Keeps rel (file f) diff = λ d h. h
  diff_visit-Keeps rel dir diff = λ d h. h
  diff_visit-Keeps rel symlink diff = λ d h. h

  orphan_fate-Keeps :
      (o : Fate) (rel : FilePath) (diff : DryRunDiff)
      → Keeps I (orphan_fate glob digest staging live roots excludes o rel diff)
  unfolding orphan_fate
  orphan_fate-Keeps (leave v) rel diff = λ d h. h
  orphan_fate-Keeps compare_with_staging rel diff = λ d h. h

  orphan_visit-Keeps :
      (rel : FilePath) (n : Node) (diff : DryRunDiff)
      → Keeps I (orphan_visit glob digest staging live roots excludes rel n diff)
  unfolding orphan_visit
  orphan_visit-Keeps rel n diff = orphan_fate-Keeps (fate glob roots excludes rel n) rel diff

  pub compute_dry_run_diff-Keeps :
      Keeps I (compute_dry_run_diff glob digest staging live roots excludes)
  unfolding compute_dry_run_diff
  compute_dry_run_diff-Keeps =
      let start : DryRunDiff = record { added = []; modified = []; deleted = [] } in
      let visit = orphan_visit glob digest staging live roots excludes in
      >>=-Keeps I (walk_dir (diff_visit glob digest staging live roots excludes) staging start)
        (walk_dir_if_exists visit live)
        (walk_dir-Keeps I (diff_visit glob digest staging live roots excludes) diff_visit-Keeps
          staging start)
        (walk_dir_if_exists-Keeps I visit orphan_visit-Keeps live)
