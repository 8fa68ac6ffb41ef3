-- ===== src/Engine/Plan/Merge.antt =====
-- mergeStagingToLive of plan.go
use stoker_operator.Prelude.{ℕ, ◌+◌, String, Bool, true, false, Option, none, some, ◌++◌}
use stoker_operator.Engine.Disk.{
  FilePath, Node, file, dir, symlink, Io, pure, inspect, ◌>>=◌, ◌>>◌, make_dirs, lstat,
}
use stoker_operator.Engine.Copy.{copy_file}
use stoker_operator.Engine.Plan.Walk.{Visit, onwards, walk_dir}

pub record Merged : Type 0 where
  pub added : ℕ
  pub modified : ℕ

abbrev pub count_written : Bool → Bool → Merged → Merged
count_written false existed c = c
count_written true true c = record c { modified = c.modified + 1 }
count_written true false c = record c { added = c.added + 1 }

abbrev pub exists : Option Node → Bool
exists (some _) = true
exists none = false

module _ (digest : String → String) (staging live : FilePath) where
  unfoldable pub merge_visit : FilePath → Node → Merged → Io (Merged × Visit)
  unfolding make_dirs copy_file lstat
  merge_visit rel symlink c = pure (c, onwards)
  merge_visit rel dir c = do make_dirs (live ++ rel); pure (c, onwards)
  merge_visit rel (file f) c = inspect λ d. do
    written ← copy_file digest (staging ++ rel) (live ++ rel)
    pure (count_written written (exists (lstat (live ++ rel) d)) c, onwards)

  unfoldable pub merge_staging_to_live : Io Merged
  unfolding merge_visit walk_dir
  merge_staging_to_live = walk_dir merge_visit staging (record { added = 0; modified = 0 })
