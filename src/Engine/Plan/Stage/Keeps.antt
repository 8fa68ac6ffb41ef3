-- ===== src/Engine/Plan/Stage/Keeps.antt =====
-- Staging keeps what is kept by new directories, by files at places that are neither excluded nor
-- protected, and by the plan's closures at such places.
use stoker_operator.Prelude.{
  String, ◌≡◌, ◌≢◌, refl, sym, ap, ◌∙◌, Bool, true, false, ◌||◌, Option, none, some, List, [], ◌∷◌,
  ◌++◌, ◌==◌, All, Bool-cases, inl, inr, if◌then◌else◌, string_eq, list_eq, arith,
}
use mathlib.Core.List.{append_assoc, append-nil}
use stoker_operator.Engine.Disk.{
  FilePath, File, Node, file, dir, symlink, Disk, pure, lstat, place, parent, make_dirs, ◌>>◌,
}
use stoker_operator.Engine.Disk.Keeps.{Keeps, >>=-Keeps, >>-Keeps, make_dirs-Keeps}
use stoker_operator.Engine.Exclude.{should_exclude, is_protected}
use stoker_operator.Engine.Copy.{copy_file}
use stoker_operator.Engine.Copy.Keeps.{copy_file-Keeps}
use stoker_operator.Engine.Plan.Walk.{onwards}
use stoker_operator.Engine.Plan.Walk.Keeps.{walk_dir-Keeps}
use stoker_operator.Engine.Plan.Stage.{
  Rewrite, ResolvedMapping, render, components, step_into, descend, run_rewrite, stage_file,
  stage_single_file, stage_visit, stage_directory, stage_all,
}

-- A closure changes the disk at its own path only.
abbrev pub InPlace : Rewrite → Type 0
InPlace rewrite = (p q : FilePath) (d : Disk) → q ≢ p → lstat q (rewrite p d).0 ≡ lstat q d

abbrev pub IfAny : Option Rewrite → Type 0
IfAny none = Unit
IfAny (some rewrite) = InPlace rewrite

-- A destination that names a place below the directory that it is joined to.
abbrev pub IsInside : String → Type 0
IsInside s = All (λ x. (x ≢ "") × (x ≢ "..")) (components s)

descend_below :
    (base rel : FilePath)
    → All (λ (x : String). (x ≢ "") × (x ≢ "..")) rel
    → descend base rel ≡ base ++ rel
unfolding descend
descend_below base [] h = sym (append-nil base)
descend_below base (x ∷ rel) h =
    let step : step_into base x ≡ base ++ x ∷ [] = ground (arith, h) in
    rw step (descend_below (base ++ x ∷ []) rel h.1 ∙ append_assoc base (x ∷ []) rel)

-- The place of a mapping's file, as one below staging.
destination_below :
    (staging rel : FilePath) (s : String)
    → IsInside s
    → descend staging (components s) ++ rel ≡ staging ++ (components s ++ rel)
destination_below staging rel s h =
    ap (λ p. p ++ rel) (descend_below staging (components s) h)
    ∙ append_assoc staging (components s) rel

-- The destination stays inside, that of a file mapping is a clean path, and the patches stay in place.
pub record IsSound (m : ResolvedMapping) : Type 0 where
  pub is_inside : IsInside m.destination
  pub is_clean : m.mapping_type ≡ "file" → render (components m.destination) ≡ m.destination
  pub patches_in_place : IfAny m.apply_patches

abbrev pub is_kept_out : (String → String → Option Bool) → List String → FilePath → Bool
is_kept_out glob excludes rel =
    should_exclude glob (render rel) excludes || is_protected glob (render rel)

module _ {ℓ} (glob : String → String → Option Bool) (digest : String → String) (staging : FilePath)
    (excludes : List String) (I : Disk → Type ℓ)
    (new_dir : (p : FilePath) (d : Disk) → lstat p d ≡ none → I d → I (place p dir d))
    (written : (rel : FilePath) (f : File)
      → is_kept_out glob excludes rel ≡ false
      → (d : Disk) → I d
      → I (place (staging ++ rel) (file f) d))
    (rewritten : (rewrite : Rewrite)
      → InPlace rewrite
      → (rel : FilePath) → is_kept_out glob excludes rel ≡ false
      → Keeps I (rewrite (staging ++ rel)))
    (apply_template : Option Rewrite) (template_in_place : IfAny apply_template) where
  run_rewrite-Keeps :
      (on : Bool) (rewrite : Option Rewrite) (rel : FilePath)
      → IfAny rewrite
      → is_kept_out glob excludes rel ≡ false
      → Keeps I (run_rewrite on rewrite (staging ++ rel))
  unfolding run_rewrite
  run_rewrite-Keeps true (some rewrite) rel w out = rewritten rewrite w rel out
  run_rewrite-Keeps true none rel w out = λ d h. h
  run_rewrite-Keeps false (some rewrite) rel w out = λ d h. h
  run_rewrite-Keeps false none rel w out = λ d h. h

  stage_file-Keeps :
      (m : ResolvedMapping) (src rel : FilePath)
      → IfAny m.apply_patches
      → is_kept_out glob excludes rel ≡ false
      → Keeps I (stage_file glob digest staging excludes apply_template m src (staging ++ rel))
  unfolding stage_file
  stage_file-Keeps m src rel w out =
      let dst = staging ++ rel in
      let patch = run_rewrite true m.apply_patches dst in
      let rest = run_rewrite m.template apply_template dst >> patch in
      >>-Keeps I (make_dirs (parent dst)) (copy_file digest src dst >> rest)
        (make_dirs-Keeps I new_dir (parent dst))
        (>>-Keeps I (copy_file digest src dst) rest
          (copy_file-Keeps digest I new_dir src dst (λ f d h e. written rel f out))
          (>>-Keeps I (run_rewrite m.template apply_template dst) patch
            (run_rewrite-Keeps m.template apply_template rel template_in_place out)
            (run_rewrite-Keeps true m.apply_patches rel w out)))

  stage_single_file-Keeps :
      (m : ResolvedMapping) (staged : List String)
      → IsSound m
      → m.mapping_type ≡ "file"
      → Keeps I (stage_single_file glob digest staging excludes apply_template m staged)
  unfolding stage_single_file
  stage_single_file-Keeps m staged sound is_file =
      let clean = sound.is_clean is_file in
      elim (Bool-cases
        (should_exclude glob m.destination excludes || is_protected glob m.destination)) [
          | inl out ↦ rw (out, stage_single_file) (λ d h. h)
          | inr in_bounds ↦
              rw
                (
                  in_bounds,
                  stage_single_file,
                  descend_below staging (components m.destination) sound.is_inside,
                )
                (>>-Keeps I
                  (stage_file glob digest staging excludes apply_template m m.source
                    (staging ++ components m.destination))
                  (pure (m.destination ∷ staged))
                  (stage_file-Keeps m m.source (components m.destination) sound.patches_in_place
                    (rw clean in_bounds))
                  (λ d h. h))
        ]

  stage_visit-Keeps :
      (m : ResolvedMapping) (rel : FilePath) (n : Node) (staged : List String)
      → IsSound m
      → Keeps I (stage_visit glob digest staging excludes apply_template m rel n staged)
  unfolding stage_visit
  stage_visit-Keeps m rel symlink staged sound = λ d h. h
  stage_visit-Keeps m rel dir staged sound =
      let dst_rel = components m.destination ++ rel in
      elim (Bool-cases (is_kept_out glob excludes dst_rel)) [
        | inl out ↦ rw (out, stage_visit) (λ d h. h)
        | inr in_bounds ↦
            rw (in_bounds, stage_visit, destination_below staging rel m.destination sound.is_inside)
              (>>-Keeps I (make_dirs (staging ++ dst_rel)) (pure (staged, onwards))
                (make_dirs-Keeps I new_dir (staging ++ dst_rel)) (λ d h. h))
      ]
  stage_visit-Keeps m rel (file f) staged sound =
      let dst_rel = components m.destination ++ rel in
      elim (Bool-cases (is_kept_out glob excludes dst_rel)) [
        | inl out ↦ rw (out, stage_visit) (λ d h. h)
        | inr in_bounds ↦
            rw (in_bounds, stage_visit, destination_below staging rel m.destination sound.is_inside)
              (>>-Keeps I
                (stage_file glob digest staging excludes apply_template m (m.source ++ rel)
                  (staging ++ dst_rel))
                (pure (render dst_rel ∷ staged, onwards))
                (stage_file-Keeps m (m.source ++ rel) dst_rel sound.patches_in_place in_bounds)
                (λ d h. h))
      ]

  stage_mapping-Keeps :
      (m : ResolvedMapping) (staged : List String) (is_file : Bool)
      → (m.mapping_type == "file") ≡ is_file
      → IsSound m
      → Keeps I (
          if is_file
          then stage_single_file glob digest staging excludes apply_template m staged
          else stage_directory glob digest staging excludes apply_template m staged)
  unfolding stage_directory
  stage_mapping-Keeps m staged true e sound = stage_single_file-Keeps m staged sound (ground arith)
  stage_mapping-Keeps m staged false e sound =
      walk_dir-Keeps I (stage_visit glob digest staging excludes apply_template m)
        (λ rel n s. stage_visit-Keeps m rel n s sound) m.source staged

  pub stage_all-Keeps :
      (ms : List ResolvedMapping) (staged : List String)
      → All IsSound ms
      → Keeps I (stage_all glob digest staging excludes apply_template ms staged)
  unfolding stage_all
  stage_all-Keeps [] staged sound = λ d h. h
  stage_all-Keeps (m ∷ ms) staged (sound, rest) =
      >>=-Keeps I
        (if m.mapping_type == "file"
          then stage_single_file glob digest staging excludes apply_template m staged
          else stage_directory glob digest staging excludes apply_template m staged)
        (stage_all glob digest staging excludes apply_template ms)
        (stage_mapping-Keeps m staged (m.mapping_type == "file") refl sound)
        (λ s. stage_all-Keeps ms s rest)
