-- ===== src/Engine/Copy.antt =====
-- internal/syncengine/copy.go. `digest` is SHA-256 of a file's bytes.
pub mod Keeps
use stoker_operator.Prelude.{
  String, len, Bool, true, false, ◌&&◌, Option, none, some, ◌==◌, nat_eq, string_eq, if◌then◌else◌,
}
use stoker_operator.Engine.Disk.{
  FilePath, File, Node, file, dir, symlink, Disk, lstat, stat_source, refused_symlink, copy_failed,
  Io, pure, throw, ◌>>=◌, ◌>>◌, parent, make_dirs, rename_onto,
}

module _ (digest : String → String) where
  same_content : File → File → Bool
  unfolding string_eq nat_eq
  same_content f g = len f.bytes == len g.bytes && digest f.bytes == digest g.bytes

  -- A directory is never equal to anything: reading it fails.
  nodes_equal : Option Node → Option Node → Bool
  unfolding same_content
  nodes_equal (some (file f)) (some (file g)) = same_content f g
  nodes_equal _ _ = false

  unfoldable pub files_equal : FilePath → FilePath → Disk → Bool
  unfolding nodes_equal lstat
  files_equal a b d = nodes_equal (lstat a d) (lstat b d)

  -- The part of `copyFile` behind its fast path.
  unfoldable pub copy_node : Node → FilePath → FilePath → Io Bool
  unfolding make_dirs rename_onto parent
  copy_node (file f) src dst = do make_dirs (parent dst); rename_onto dst f; pure true
  copy_node _ src dst = do make_dirs (parent dst); throw (copy_failed src)

  copy_found : Option Node → FilePath → FilePath → Io Bool
  unfolding copy_node files_equal
  copy_found none src dst d = throw (stat_source src) d
  copy_found (some symlink) src dst d = throw (refused_symlink src) d
  copy_found (some n) src dst d =
      if files_equal src dst d then pure false d else copy_node n src dst d

  unfoldable pub copy_file : FilePath → FilePath → Io Bool
  unfolding copy_found lstat
  copy_file src dst d = copy_found (lstat src d) src dst d
