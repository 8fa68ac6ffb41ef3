-- ===== src/Engine/Plan/Stage.antt =====
-- Staging: stageSingleFile and stageDirectory of plan.go.
pub mod Keeps
use stoker_operator.Prelude.{
  String, Bool, true, false, ◌||◌, ◌&&◌, Option, none, some, List, [], ◌∷◌, ◌++◌, ◌==◌, string_eq,
  if◌then◌else◌, starts_with,
}
use mathlib.Core.List.{reverse}
use stoker_operator.Prelude.Text.{split_slash, clean, join_by, push_parts}
use stoker_operator.Engine.Disk.{
  FilePath, Node, file, dir, symlink, Io, pure, ◌>>=◌, ◌>>◌, parent, make_dirs,
}
use stoker_operator.Engine.Exclude.{should_exclude, is_protected}
use stoker_operator.Engine.Copy.{copy_file}
use stoker_operator.Engine.Plan.Walk.{Visit, onwards, skip_if_dir, walk_dir}

-- A closure that rewrites the staged file at the path that it is given.
abbrev pub Rewrite : Type 0
Rewrite = FilePath → Io (Unit {0})

pub record ResolvedMapping : Type 0 where
  pub source : FilePath
  pub destination : String
  pub mapping_type : String
  pub template : Bool
  pub apply_patches : Option Rewrite

-- `filepath.ToSlash` of a relative path
abbrev pub render : FilePath → String
render [] = "."
render (x ∷ p) = join_by "/" (x ∷ p)

-- The components of a cleaned destination: a ".." that leads above its start stays, and a path from
-- the root starts with an empty one.
unfoldable pub components : String → FilePath
unfolding split_slash clean push_parts
components s =
    if starts_with s "/"
    then "" ∷ clean (split_slash s)
    else reverse (push_parts [] (split_slash s))

abbrev pub step_into : FilePath → String → FilePath
step_into base x = if x == "" then base else if x == ".." then parent base else base ++ x ∷ []

-- `filepath.Join` of a directory and such components.
unfoldable pub descend : FilePath → FilePath → FilePath
unfolding parent string_eq
descend base [] = base
descend base (x ∷ rel) = descend (step_into base x) rel

unfoldable pub run_rewrite : Bool → Option Rewrite → FilePath → Io (Unit {0})
run_rewrite true (some rewrite) staged_path = rewrite staged_path
run_rewrite _ _ staged_path = pure tt

module _ (glob : String → String → Option Bool) (digest : String → String) (staging : FilePath)
    (excludes : List String) (apply_template : Option Rewrite) where
  -- What both kinds of mapping do with one file.
  unfoldable pub stage_file : ResolvedMapping → FilePath → FilePath → Io (Unit {0})
  unfolding make_dirs parent copy_file run_rewrite
  stage_file m src dst = do
    make_dirs (parent dst)
    copy_file digest src dst
    run_rewrite m.template apply_template dst
    run_rewrite true m.apply_patches dst

  unfoldable pub stage_single_file : ResolvedMapping → List String → Io (List String)
  unfolding should_exclude is_protected components descend stage_file
  stage_single_file m staged =
      if should_exclude glob m.destination excludes || is_protected glob m.destination
      then pure staged
      else do
        stage_file m m.source (descend staging (components m.destination))
        pure (m.destination ∷ staged)

  -- The callback of `stageDirectory`.
  unfoldable pub stage_visit :
      ResolvedMapping → FilePath → Node → List String → Io (List String × Visit)
  unfolding should_exclude is_protected components descend stage_file make_dirs
  stage_visit m rel symlink staged = pure (staged, onwards)
  stage_visit m rel dir staged =
      let dst_rel = components m.destination ++ rel in
      if should_exclude glob (render dst_rel) excludes || is_protected glob (render dst_rel)
      then pure (staged, skip_if_dir dir)
      else do make_dirs (descend staging (components m.destination) ++ rel); pure (staged, onwards)
  stage_visit m rel (file f) staged =
      let dst_rel = components m.destination ++ rel in
      if should_exclude glob (render dst_rel) excludes || is_protected glob (render dst_rel)
      then pure (staged, onwards)
      else do
        stage_file m (m.source ++ rel) (descend staging (components m.destination) ++ rel)
        pure (render dst_rel ∷ staged, onwards)

  unfoldable pub stage_directory : ResolvedMapping → List String → Io (List String)
  unfolding stage_visit walk_dir
  stage_directory m staged = walk_dir (stage_visit m) m.source staged

  -- The loop over the mappings.
  unfoldable pub stage_all : List ResolvedMapping → List String → Io (List String)
  unfolding stage_single_file stage_directory string_eq
  stage_all [] staged = pure staged
  stage_all (m ∷ ms) staged =
      (if m.mapping_type == "file" then stage_single_file m staged else stage_directory m staged)
      >>= stage_all ms
