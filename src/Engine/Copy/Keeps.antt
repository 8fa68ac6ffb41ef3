-- ===== src/Engine/Copy/Keeps.antt =====
-- A copy makes directories, and writes a file at its destination if its source is a file.
use stoker_operator.Prelude.{
  String, ◌≡◌, refl, Bool, true, false, Option, none, some, if◌then◌else◌,
}
use stoker_operator.Engine.Disk.{
  FilePath, File, Node, file, dir, symlink, Disk, pure, throw, copy_failed, lstat, place, parent,
  make_dirs, rename_onto, ◌>>◌,
}
use stoker_operator.Engine.Disk.Keeps.{Keeps, >>-Keeps, make_dirs-Keeps, rename_onto-Keeps}
use stoker_operator.Engine.Copy.{files_equal, copy_node, copy_found, copy_file}

module _ {ℓ} (digest : String → String) (I : Disk → Type ℓ)
    (new_dir : (p : FilePath) (d : Disk) → lstat p d ≡ none → I d → I (place p dir d))
    (src dst : FilePath) where
  copy_node-Keeps :
      (n : Node)
      → ((f : File) → n ≡ file f → (d : Disk) → I d → I (place dst (file f) d))
      → Keeps I (copy_node digest n src dst)
  unfolding copy_node
  copy_node-Keeps (file f) written =
      >>-Keeps I (make_dirs (parent dst)) (rename_onto dst f >> pure true)
        (make_dirs-Keeps I new_dir (parent dst))
        (>>-Keeps I (rename_onto dst f) (pure true) (rename_onto-Keeps I dst f (written f refl))
          (λ d h. h))
  copy_node-Keeps dir written =
      >>-Keeps I (make_dirs (parent dst)) (throw {A = Bool} (copy_failed src))
        (make_dirs-Keeps I new_dir (parent dst)) (λ d h. h)
  copy_node-Keeps symlink written =
      >>-Keeps I (make_dirs (parent dst)) (throw {A = Bool} (copy_failed src))
        (make_dirs-Keeps I new_dir (parent dst)) (λ d h. h)

  copy_equal-Keeps :
      (n : Node) (same : Bool) (d : Disk)
      → ((f : File) → n ≡ file f → (e : Disk) → I e → I (place dst (file f) e))
      → I d
      → I ((if same then pure false d else copy_node digest n src dst d).0)
  copy_equal-Keeps n true d written h = h
  copy_equal-Keeps n false d written h = copy_node-Keeps n written d h

  copy_found-Keeps :
      (o : Option Node) (d : Disk)
      → ((f : File) → o ≡ some (file f) → (e : Disk) → I e → I (place dst (file f) e))
      → I d
      → I ((copy_found digest o src dst d).0)
  unfolding copy_found
  copy_found-Keeps none d written h = h
  copy_found-Keeps (some symlink) d written h = h
  copy_found-Keeps (some dir) d written h =
      copy_equal-Keeps dir (files_equal digest src dst d) d (λ f e. cc) h
  copy_found-Keeps (some (file g)) d written h =
      copy_equal-Keeps (file g) (files_equal digest src dst d) d (λ f e. written f (cc)) h

  pub copy_file-Keeps :
      ((f : File) (d : Disk)
        → I d
        → lstat src d ≡ some (file f)
        → (e : Disk) → I e
        → I (place dst (file f) e))
      → Keeps I (copy_file digest src dst)
  unfolding copy_file
  copy_file-Keeps written d h = copy_found-Keeps (lstat src d) d (λ f e. written f d h e) h
