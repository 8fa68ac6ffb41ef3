-- ===== src/Engine/Plan/Safety.antt =====
-- What a sync never does to the live directory, whether it succeeds or fails half-way.
use stoker_operator.Prelude.{
  String, ◌≡◌, ◌≢◌, sym, ap, ◌∙◌, Bool, false, Option, none, some, List, ◌++◌, string_eq, list_eq,
  Eq, arith,
}
use stoker_operator.Engine.Disk.{
  FilePath, File, Node, file, dir, symlink, Disk, pure, lstat, place, make_dirs, is_below,
  remove_all,
}
use stoker_operator.Engine.Disk.Laws.{
  lstat-place, lstat-erase_below, is_below-append, append_cancel_left,
}
use stoker_operator.Engine.Disk.Keeps.{Keeps, >>=-Keeps, >>-Keeps, make_dirs-Keeps}
use stoker_operator.Engine.Copy.{copy_file}
use stoker_operator.Engine.Copy.Keeps.{copy_file-Keeps}
use stoker_operator.Engine.Plan.Walk.{onwards}
use stoker_operator.Engine.Plan.Walk.Keeps.{walk_dir-Keeps}
use stoker_operator.Engine.Plan.Stage.{Rewrite}
use stoker_operator.Engine.Plan.Stage.Keeps.{InPlace, is_kept_out}
use stoker_operator.Engine.Plan.Merge.{
  Merged, count_written, exists, merge_visit, merge_staging_to_live,
}

module _ (glob : String → String → Option Bool) (digest : String → String) (staging live : FilePath)
    (excludes : List String) (q : FilePath) (f : File) where
  -- The file `f` stands at `q` in live, and staging has files only where they belong.
  pub record Safe (d : Disk) : Type 0 where
    pub kept : lstat (live ++ q) d ≡ some (file f)
    pub staged :
        (rel : FilePath) (g : File)
        → lstat (staging ++ rel) d ≡ some (file g)
        → is_kept_out glob excludes rel ≡ false

  pub Safe-new_dir : (p : FilePath) (d : Disk) → lstat p d ≡ none → Safe d → Safe (place p dir d)
  Safe-new_dir p d e s = record {
    kept = rw lstat-place (ground (arith, s.kept));
    staged = λ rel g h. ground (arith, lstat-place p (staging ++ rel) dir d, s.staged rel g);
  }

  -- No file of staging stands at the place of `q`.
  abbrev pub Unstaged : Disk → Type 0
  Unstaged d = (g : File) → lstat (staging ++ q) d ≢ some (file g)

  module _ (apart : is_below staging (live ++ q) ≡ false) where
    not_staging : (rel : FilePath) → live ++ q ≢ staging ++ rel
    not_staging rel e = cc (sym apart ∙ ap (is_below staging) e ∙ is_below-append staging rel)

    pub Safe-written :
        (rel : FilePath) (g : File)
        → is_kept_out glob excludes rel ≡ false
        → (d : Disk) → Safe d
        → Safe (place (staging ++ rel) (file g) d)
    Safe-written rel g out d s = record {
      kept = rw lstat-place (ground (arith, s.kept, not_staging rel));
      staged = λ rel' h e. elim (Eq.dec list_eq (staging ++ rel') (staging ++ rel)) [
        | yes same ↦ rw (append_cancel_left staging rel' rel same) out
        | no differ ↦
            ground
              (arith, lstat-place (staging ++ rel) (staging ++ rel') (file g) d, s.staged rel' h)
      ];
    }

    pub Safe-rewritten :
        (rewrite : Rewrite)
        → InPlace rewrite
        → (rel : FilePath) → is_kept_out glob excludes rel ≡ false
        → Keeps Safe (rewrite (staging ++ rel))
    Safe-rewritten rewrite w rel out d s = record {
      kept = w (staging ++ rel) (live ++ q) d (not_staging rel) ∙ s.kept;
      staged = λ rel' h e. elim (Eq.dec list_eq (staging ++ rel') (staging ++ rel)) [
        | yes same ↦ rw (append_cancel_left staging rel' rel same) out
        | no differ ↦ s.staged rel' h (sym (w (staging ++ rel) (staging ++ rel') d differ) ∙ e)
      ];
    }

    -- Removing staging empties it.
    pub Safe-remove_all :
        (d : Disk) → lstat (live ++ q) d ≡ some (file f) → Safe (remove_all staging d).0
    unfolding remove_all
    Safe-remove_all d e = record {
      kept = rw (lstat-erase_below, apart) e;
      staged = λ rel h g.
          cc (sym (lstat-erase_below staging (staging ++ rel) d), is_below-append staging rel, g);
    }

  -- The place of staging inside live is one that nothing is staged to.
  module _
      (hidden : (rel rel' : FilePath)
        → is_kept_out glob excludes rel ≡ false
        → live ++ rel ≢ staging ++ rel') where
    pub record Merging (d : Disk) : Type 0 where
      pub safe : Safe d
      pub unstaged : Unstaged d

    Merging-new_dir :
        (p : FilePath) (d : Disk) → lstat p d ≡ none → Merging d → Merging (place p dir d)
    Merging-new_dir p d e m = record {
      safe = Safe-new_dir p d e m.safe;
      unstaged = λ g h. ground (arith, lstat-place p (staging ++ q) dir d, m.unstaged g);
    }

    -- A file that staging holds goes elsewhere than to `q`.
    Merging-copied :
        (rel : FilePath) (g : File) (d : Disk)
        → Merging d
        → lstat (staging ++ rel) d ≡ some (file g)
        → (e : Disk) → Merging e
        → Merging (place (live ++ rel) (file g) e)
    Merging-copied rel g d md found e me =
        let out = md.safe.staged rel g found in
        let elsewhere : live ++ q ≢ live ++ rel = λ same.
          md.unstaged g
            (ap (λ p. lstat (staging ++ p) d) (append_cancel_left live q rel same) ∙ found) in
        record {
          safe = record {
            kept = rw lstat-place (ground (arith, me.safe.kept));
            staged = λ rel' h k. ground (
              arith,
              lstat-place (live ++ rel) (staging ++ rel') (file g) e,
              me.safe.staged rel' h,
              λ (same : staging ++ rel' ≡ live ++ rel). hidden rel rel' out (sym same),
            );
          };
          unstaged = λ h k. ground (
            arith,
            lstat-place (live ++ rel) (staging ++ q) (file g) e,
            me.unstaged h,
            λ (same : staging ++ q ≡ live ++ rel). hidden rel q out (sym same),
          );
        }

    merge_visit-Keeps :
        (rel : FilePath) (n : Node) (c : Merged)
        → Keeps Merging (merge_visit digest staging live rel n c)
    unfolding merge_visit
    merge_visit-Keeps rel symlink c = λ d h. h
    merge_visit-Keeps rel dir c =
        >>-Keeps Merging (make_dirs (live ++ rel)) (pure (c, onwards))
          (make_dirs-Keeps Merging Merging-new_dir (live ++ rel)) (λ d h. h)
    merge_visit-Keeps rel (file g) c = λ d.
        >>=-Keeps Merging (copy_file digest (staging ++ rel) (live ++ rel))
          (λ written. pure (count_written written (exists (lstat (live ++ rel) d)) c, onwards))
          (copy_file-Keeps digest Merging Merging-new_dir (staging ++ rel) (live ++ rel)
            (λ h e m found. Merging-copied rel h e m found))
          (λ _ e h. h) d

    pub merge_staging_to_live-Keeps : Keeps Merging (merge_staging_to_live digest staging live)
    unfolding merge_staging_to_live
    merge_staging_to_live-Keeps =
        walk_dir-Keeps Merging (merge_visit digest staging live) merge_visit-Keeps staging
          (record { added = 0; modified = 0 })
