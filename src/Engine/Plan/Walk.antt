-- ===== src/Engine/Plan/Walk.antt =====
-- `filepath.WalkDir` below a root, with the callbacks of plan.go. Their errors end the walk.
pub mod Keeps
use stoker_operator.Prelude.{
  Bool, true, false, Option, none, some, List, [], ◌∷◌, any, if◌then◌else◌,
}
use stoker_operator.Engine.Disk.{
  FilePath, Node, dir, walk_failed, Io, pure, throw, inspect, ◌>>=◌, is_below, lstat, entries_below,
}

pub data Visit : Type 0 where
  onwards skip_dir : Visit

abbrev pub skip_if_dir : Node → Visit
skip_if_dir dir = skip_dir
skip_if_dir _ = onwards

-- The callbacks return `filepath.SkipDir` at directories only; what lies below is not visited.
abbrev pub skipping : FilePath → Visit → List FilePath → List FilePath
skipping rel skip_dir skipped = rel ∷ skipped
skipping rel onwards skipped = skipped

module _ {ℓ} {S : Type ℓ} (visit : FilePath → Node → S → Io (S × Visit)) where
  unfoldable pub walk_entries : List (FilePath × Node) → List FilePath → S → Io S
  unfolding is_below
  walk_entries [] skipped s = pure s
  walk_entries ((rel, n) ∷ es) skipped s = elim (any (λ top. is_below top rel) skipped) [
    | true ↦ walk_entries es skipped s
    | false ↦ visit rel n s >>= λ (s', v). walk_entries es (skipping rel v skipped) s'
  ]

  -- The names are read when the walk begins. A root that is missing goes to the callback as an error.
  walk_from : Option Node → Io S → FilePath → S → Io S
  unfolding walk_entries entries_below
  walk_from none missing root s = missing
  walk_from (some dir) missing root s = inspect λ d. walk_entries (entries_below root d) [] s
  walk_from (some _) missing root s = pure s

  -- The callback passes that error on.
  unfoldable pub walk_dir : FilePath → S → Io S
  unfolding walk_from lstat
  walk_dir root s = inspect λ d. walk_from (lstat root d) (throw (walk_failed root)) root s

  -- The callback forgives it.
  unfoldable pub walk_dir_if_exists : FilePath → S → Io S
  unfolding walk_from lstat
  walk_dir_if_exists root s = inspect λ d. walk_from (lstat root d) (pure s) root s
