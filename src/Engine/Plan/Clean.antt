-- ===== src/Engine/Plan/Clean.antt =====
-- cleanOrphans of plan.go
pub mod Keeps
use stoker_operator.Prelude.{
  ℕ, ◌+◌, String, Bool, true, false, not, ◌||◌, ◌&&◌, Option, none, some, List, [], ◌∷◌, ◌++◌,
  if◌then◌else◌,
}
use stoker_operator.Engine.Disk.{
  FilePath, Node, file, dir, symlink, Disk, Io, pure, inspect, ok, ◌>>=◌, ◌>>◌, parent, lstat,
  is_empty_dir, remove,
}
use stoker_operator.Engine.Exclude.{should_exclude, is_protected}
use stoker_operator.Engine.Plan.Walk.{Visit, onwards, skip_dir, skip_if_dir, walk_dir_if_exists}
use stoker_operator.Engine.Plan.Roots.{is_under_managed_root, is_ancestor_of_managed_root}
use stoker_operator.Engine.Plan.Stage.{render}

-- The directories above a path, the nearest first, down to the walk's root.
unfoldable pub ancestors_from : FilePath → FilePath → List FilePath → List FilePath
ancestors_from base [] above = above
ancestors_from base (x ∷ p) above = ancestors_from (base ++ x ∷ []) p (base ∷ above)

unfoldable pub ancestors : FilePath → List FilePath
unfolding ancestors_from
ancestors p = ancestors_from [] p []

-- What the tests before the look at staging say of an entry.
pub data Fate : Type 0 where
  leave : Visit → Fate
  compare_with_staging : Fate

module _ (glob : String → String → Option Bool) (roots excludes : List String) where
  unfoldable pub fate : FilePath → Node → Fate
  unfolding is_protected should_exclude is_under_managed_root is_ancestor_of_managed_root
  fate rel symlink = leave onwards
  fate rel dir =
      if is_protected glob (render rel) || should_exclude glob (render rel) excludes
      then leave skip_dir
      else if is_under_managed_root (render rel) roots
      then leave onwards
      else if is_ancestor_of_managed_root (render rel) roots
      then leave onwards
      else leave skip_dir
  fate rel (file f) =
      if is_protected glob (render rel) || should_exclude glob (render rel) excludes
      then leave onwards
      else if is_under_managed_root (render rel) roots
      then compare_with_staging
      else leave onwards

module _ (glob : String → String → Option Bool) (staging live : FilePath)
    (roots excludes : List String) where
  -- The loop that removes the directories which the deletion emptied.
  unfoldable pub prune_parents : List FilePath → Disk → Disk
  unfolding is_under_managed_root is_empty_dir remove
  prune_parents [] d = d
  prune_parents (p ∷ above) d =
      elim (is_under_managed_root (render p) roots && is_empty_dir (live ++ p) d) [
        | false ↦ d
        | true ↦ prune_parents above (remove (live ++ p) d)
      ]

  unfoldable pub remove_orphan : Option Node → FilePath → ℕ → Io (ℕ × Visit)
  unfolding remove prune_parents ancestors
  remove_orphan (some _) rel deleted = pure (deleted, onwards)
  remove_orphan none rel deleted =
      λ d. (prune_parents (ancestors rel) (remove (live ++ rel) d), ok (deleted + 1, onwards))

  unfoldable pub follow_fate : Fate → FilePath → ℕ → Io (ℕ × Visit)
  unfolding remove_orphan lstat
  follow_fate (leave v) rel deleted = pure (deleted, v)
  follow_fate compare_with_staging rel deleted =
      inspect λ d. remove_orphan (lstat (staging ++ rel) d) rel deleted

  unfoldable pub clean_visit : FilePath → Node → ℕ → Io (ℕ × Visit)
  unfolding follow_fate fate
  clean_visit rel n deleted = follow_fate (fate glob roots excludes rel n) rel deleted

  unfoldable pub clean_orphans : Io ℕ
  unfolding clean_visit walk_dir_if_exists
  clean_orphans = walk_dir_if_exists clean_visit live 0
