-- ===== src/Engine/Plan/Clean/Keeps.antt =====
-- The cleanup of orphans keeps each file that its tests do not single out.
use stoker_operator.Prelude.{
  ℕ, String, ◌≡◌, ◌≢◌, refl, ap, ◌∙◌, Bool, true, ◌&&◌, Option, none, some, List, [], ◌∷◌, ◌++◌,
  Bool-cases, inl, inr, string_eq, list_eq, arith,
}
use stoker_operator.Engine.Disk.{FilePath, File, Node, file, dir, Disk, lstat, is_empty_dir, remove}
use stoker_operator.Engine.Disk.Laws.{lstat-remove, append_cancel_left}
use stoker_operator.Engine.Disk.Keeps.{Keeps}
use stoker_operator.Engine.Plan.Stage.{render}
use stoker_operator.Engine.Plan.Roots.{is_under_managed_root}
use stoker_operator.Engine.Plan.Walk.Keeps.{walk_dir_if_exists-Keeps}
use stoker_operator.Engine.Plan.Clean.{
  Fate, leave, compare_with_staging, fate, prune_parents, ancestors, remove_orphan, follow_fate,
  clean_visit, clean_orphans,
}

is_empty_dir-lstat : (p : FilePath) (d : Disk) → is_empty_dir p d ≡ true → lstat p d ≡ some dir
unfolding is_empty_dir
is_empty_dir-lstat p d h = ground arith

module _ (glob : String → String → Option Bool) (staging live : FilePath)
    (roots excludes : List String) (q : FilePath) (f : File) where
  abbrev Holds : Disk → Type 0
  Holds d = lstat (live ++ q) d ≡ some (file f)

  prune_parents-Keeps :
      (above : List FilePath) (d : Disk)
      → Holds d
      → Holds (prune_parents glob staging live roots excludes above d)
  unfolding prune_parents
  prune_parents-Keeps [] d h = h
  prune_parents-Keeps (p ∷ above) d h =
      elim (Bool-cases (is_under_managed_root (render p) roots && is_empty_dir (live ++ p) d)) [
        | inl e ↦
            rw (e, prune_parents)
              (prune_parents-Keeps above (remove (live ++ p) d)
                (rw lstat-remove (ground (arith, h, is_empty_dir-lstat (live ++ p) d))))
        | inr e ↦ rw (e, prune_parents) h
      ]

  module _ (not_orphan : (n : Node) → fate glob roots excludes q n ≢ compare_with_staging) where
    remove_orphan-Keeps :
        (rel : FilePath) (deleted : ℕ) (o : Option Node)
        → q ≢ rel
        → Keeps Holds (remove_orphan glob staging live roots excludes o rel deleted)
    unfolding remove_orphan
    remove_orphan-Keeps rel deleted (some n) differ = λ d h. h
    remove_orphan-Keeps rel deleted none differ = λ d h.
        prune_parents-Keeps (ancestors rel) (remove (live ++ rel) d) (
          rw lstat-remove (
            ground (
              arith,
              h,
              λ (same : live ++ q ≡ live ++ rel). differ (append_cancel_left live q rel same),
            )))

    follow_fate-Keeps :
        (rel : FilePath) (deleted : ℕ) (o : Fate)
        → (o ≡ compare_with_staging → q ≢ rel)
        → Keeps Holds (follow_fate glob staging live roots excludes o rel deleted)
    unfolding follow_fate
    follow_fate-Keeps rel deleted (leave v) differ = λ d h. h
    follow_fate-Keeps rel deleted compare_with_staging differ =
        λ d. remove_orphan-Keeps rel deleted (lstat (staging ++ rel) d) (differ refl) d

    clean_visit-Keeps :
        (rel : FilePath) (n : Node) (deleted : ℕ)
        → Keeps Holds (clean_visit glob staging live roots excludes rel n deleted)
    unfolding clean_visit
    clean_visit-Keeps rel n deleted =
        follow_fate-Keeps rel deleted (fate glob roots excludes rel n)
          (λ e same. not_orphan n (ap (λ p. fate glob roots excludes p n) same ∙ e))

    pub clean_orphans-Keeps : Keeps Holds (clean_orphans glob staging live roots excludes)
    unfolding clean_orphans
    clean_orphans-Keeps =
        walk_dir_if_exists-Keeps Holds (clean_visit glob staging live roots excludes)
          clean_visit-Keeps live 0
