-- ===== src/Engine/Plan/Walk/Keeps.antt =====
-- A walk keeps what each visit keeps.
use stoker_operator.Prelude.{Option, none, some, List, [], ◌∷◌, any, inl, inr, Bool-cases}
use stoker_operator.Engine.Disk.{
  FilePath, Node, file, dir, symlink, Disk, Io, pure, throw, walk_failed, lstat, entries_below,
  is_below,
}
use stoker_operator.Engine.Disk.Keeps.{Keeps, >>=-Keeps}
use stoker_operator.Engine.Plan.Walk.{
  Visit, skipping, walk_entries, walk_from, walk_dir, walk_dir_if_exists,
}

module _ {ℓ κ} {S : Type ℓ} (I : Disk → Type κ) (visit : FilePath → Node → S → Io (S × Visit))
    (kept : (rel : FilePath) (n : Node) (s : S) → Keeps I (visit rel n s)) where
  walk_entries-Keeps :
      (es : List (FilePath × Node)) (skipped : List FilePath) (s : S)
      → Keeps I (walk_entries visit es skipped s)
  unfolding walk_entries
  walk_entries-Keeps [] skipped s = λ d h. h
  walk_entries-Keeps ((rel, n) ∷ es) skipped s =
      elim (Bool-cases (any (λ top. is_below top rel) skipped)) [
        | inl e ↦ rw (e, walk_entries) (walk_entries-Keeps es skipped s)
        | inr e ↦
            rw (e, walk_entries)
              (>>=-Keeps I (visit rel n s)
                (λ r. walk_entries visit es (skipping rel r.1 skipped) r.0) (kept rel n s)
                (λ r. walk_entries-Keeps es (skipping rel r.1 skipped) r.0))
      ]

  walk_from-Keeps :
      (o : Option Node) (missing : Io S) (root : FilePath) (s : S)
      → Keeps I missing
      → Keeps I (walk_from visit o missing root s)
  unfolding walk_from
  walk_from-Keeps none missing root s m = m
  walk_from-Keeps (some dir) missing root s m =
      λ d. walk_entries-Keeps (entries_below root d) [] s d
  walk_from-Keeps (some (file f)) missing root s m = λ d h. h
  walk_from-Keeps (some symlink) missing root s m = λ d h. h

  pub walk_dir-Keeps : (root : FilePath) (s : S) → Keeps I (walk_dir visit root s)
  unfolding walk_dir
  walk_dir-Keeps root s d =
      walk_from-Keeps (lstat root d) (throw (walk_failed root)) root s (λ d h. h) d

  pub walk_dir_if_exists-Keeps :
      (root : FilePath) (s : S) → Keeps I (walk_dir_if_exists visit root s)
  unfolding walk_dir_if_exists
  walk_dir_if_exists-Keeps root s d = walk_from-Keeps (lstat root d) (pure s) root s (λ d h. h) d
