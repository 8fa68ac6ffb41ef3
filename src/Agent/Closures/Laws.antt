-- ===== src/Agent/Closures/Laws.antt =====
-- The closures change the disk at the path of the file that they are given, and nowhere else.
use stoker_operator.Prelude.{
  String, ◌≡◌, ◌≢◌, refl, ◌∙◌, Bool, true, false, Option, none, some, List, [], ◌∷◌, arith, list_eq,
  string_eq, Option-cases, inl, inr,
}
use stoker_operator.Prelude.Outcome.{Outcome, done, failed}
use stoker_operator.Engine.Disk.{FilePath, File, Disk, lstat, ok, err, Result}
use stoker_operator.Engine.Disk.Laws.{lstat-place}
use stoker_operator.Engine.Plan.Stage.Keeps.{InPlace, IfAny}
use stoker_operator.Controller.Profiles.{ResolvedPatch}
use stoker_operator.Agent.Context.{TemplateContext, Tools}
use stoker_operator.Agent.Closures.{
  read_file, rewritten, rewrite_file, build_apply_template_func, apply_patch, apply_patches,
  build_apply_patches_func, onwards, if_matched,
}

rewritten-InPlace :
    (p q : FilePath) (f : File) (d : Disk) (o : Outcome (Option String))
    → q ≢ p
    → lstat q (rewritten p f d o).0 ≡ lstat q d
rewritten-InPlace p q f d (failed e) h = refl
rewritten-InPlace p q f d (done none) h = refl
rewritten-InPlace p q f d (done (some s)) h = rw lstat-place (ground (arith, h))

rewrite_file-InPlace :
    (missing : String) (g : String → Outcome (Option String)) → InPlace (rewrite_file missing g)
unfolding rewrite_file
rewrite_file-InPlace missing g p q d h = elim (Option-cases (read_file p d)) [
  | inl e ↦ rw e refl
  | inr (f, e) ↦ rw e (rewritten-InPlace p q f d (g f.bytes) h)
]

pub build_apply_template_func-InPlace :
    (t : Tools) (ctx : TemplateContext) → InPlace (build_apply_template_func t ctx)
unfolding build_apply_template_func
build_apply_template_func-InPlace t ctx = rewrite_file-InPlace _ _

if_matched-same :
    (q : FilePath) (o : Option Bool) (rewrite : Disk → Disk × Result (Unit {0})) (d : Disk)
    → lstat q (rewrite d).0 ≡ lstat q d
    → lstat q (if_matched o rewrite d).0 ≡ lstat q d
if_matched-same q none rewrite d h = refl
if_matched-same q (some false) rewrite d h = refl
if_matched-same q (some true) rewrite d h = h

apply_patch-InPlace :
    (t : Tools) (ctx : TemplateContext) (root : FilePath) (dest : String) (p : ResolvedPatch)
    → InPlace (apply_patch t ctx root dest p)
unfolding apply_patch
apply_patch-InPlace t ctx root dest p staged q d h =
    if_matched-same q _ (rewrite_file "reading file for patch" _ staged) d
      (rewrite_file-InPlace "reading file for patch" _ staged q d h)

onwards-same :
    (q : FilePath) (rest : Disk → Disk × Result (Unit {0})) (d : Disk)
    (r : Disk × Result (Unit {0}))
    → ((e : Disk) → lstat q (rest e).0 ≡ lstat q e)
    → lstat q r.0 ≡ lstat q d
    → lstat q (onwards rest r).0 ≡ lstat q d
onwards-same q rest d (e, ok u) h same = h e ∙ same
onwards-same q rest d (e, err x) h same = same

apply_patches-InPlace :
    (t : Tools) (ctx : TemplateContext) (root : FilePath) (dest : String) (ps : List ResolvedPatch)
    → InPlace (apply_patches t ctx root dest ps)
unfolding apply_patches
apply_patches-InPlace t ctx root dest [] staged q d h = refl
apply_patches-InPlace t ctx root dest (p ∷ ps) staged q d h =
    onwards-same q (apply_patches t ctx root dest ps staged) d
      (apply_patch t ctx root dest p staged d)
      (λ e. apply_patches-InPlace t ctx root dest ps staged q e h)
      (apply_patch-InPlace t ctx root dest p staged q d h)

pub build_apply_patches_func-InPlace :
    (patches : List ResolvedPatch) (t : Tools) (ctx : TemplateContext) (staging_dir : FilePath)
    (dest : String) (is_file : Bool)
    → IfAny (build_apply_patches_func patches t ctx staging_dir dest is_file)
unfolding build_apply_patches_func
build_apply_patches_func-InPlace [] t ctx staging_dir dest is_file = tt
build_apply_patches_func-InPlace (p ∷ ps) t ctx staging_dir dest is_file =
    apply_patches-InPlace t ctx _ dest (p ∷ ps)
