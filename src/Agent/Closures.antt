-- ===== src/Agent/Closures.antt =====
-- The closures of a plan in internal/agent/profile.go, which rewrite one staged file in place.
pub mod Laws
use Prim.Native.Char.{code}
use Prim.Native.String
use stoker_operator.Prelude.{
  ℕ, String, ◌<>◌, Bool, true, false, not, ◌||◌, Option, none, some, List, [], ◌∷◌, ◌++◌, ◌==◌,
  string_eq, nat_eq, if◌then◌else◌,
}
use stoker_operator.Prelude.Dict.{Dict}
use stoker_operator.Prelude.Outcome.{Outcome, done, failed, bind, ◌>>=◌}
use stoker_operator.Prelude.Text.{split_slash, clean, contains_text}
use stoker_operator.Engine.Disk.{
  FilePath, File, Node, file, dir, symlink, Disk, Io, Result, ok, err, Err, rewrite_failed, lstat,
  place,
}
use stoker_operator.Engine.Plan.Stage.{Rewrite, render}
use stoker_operator.Controller.Profiles.{ResolvedPatch}
use stoker_operator.Agent.Context.{
  TemplateContext, Tools, PatchValue, json_value, bare_text, resolve_template,
}

-- `os.ReadFile`, and `os.WriteFile` of a file that was read: it keeps its mode.
unfoldable pub read_file : FilePath → Disk → Option File
unfolding lstat
read_file p d = elim (lstat p d) [ some (file f) ↦ some f | _ ↦ none ]

-- A new content for one file, from its old content; `none` is a file that is not written.
abbrev rewritten : FilePath → File → Disk → Outcome (Option String) → Disk × Result (Unit {0})
rewritten p f d (failed e) = (d, err (rewrite_failed e))
rewritten p f d (done none) = (d, ok tt)
rewritten p f d (done (some s)) = (place p (file (record f { bytes = s })) d, ok tt)

abbrev rewritten_file :
    String
    → FilePath
    → Disk
    → Option File
    → (String → Outcome (Option String))
    → Disk × Result (Unit {0})
rewritten_file missing p d none g = (d, err (rewrite_failed missing))
rewritten_file missing p d (some f) g = rewritten p f d (g f.bytes)

unfoldable pub rewrite_file : String → (String → Outcome (Option String)) → Rewrite
unfolding read_file place
rewrite_file missing g p d = rewritten_file missing p d (read_file p d) g

abbrev some_text : Outcome String → Outcome (Option String)
some_text (failed e) = failed e
some_text (done s) = done (some s)

-- `bytes.IndexByte(content, 0) >= 0`
has_null : String → Bool
unfolding nat_eq
has_null String.[] = false
has_null (String.◌∷◌ c s) = let later = has_null s in code c == 0 || later

-- The new content of a file; one without template syntax stays as it is.
unfoldable pub templated : Tools → TemplateContext → String → Outcome (Option String)
unfolding has_null contains_text resolve_template
templated t ctx content =
    if has_null content
    then failed "template=true on binary file is not supported"
    else if not (contains_text content "{{")
    then done none
    else some_text (resolve_template t ctx content)

unfoldable pub build_apply_template_func : Tools → TemplateContext → Rewrite
unfolding rewrite_file templated
build_apply_template_func t ctx = rewrite_file "reading file for templating" (templated t ctx)

unfoldable pub apply_json_patch : Tools → String → String → String → Outcome String
apply_json_patch t content path raw =
    if not (t.is_json content)
    then failed "file is not valid JSON"
    else t.set content path (if t.is_json raw then json_value raw else bare_text raw)

-- The loop over one patch's values, in the order of the list; Go's order is not fixed.
unfoldable pub apply_values : Tools → TemplateContext → Dict String String → String → Outcome String
unfolding apply_json_patch resolve_template
apply_values t ctx [] content = done content
apply_values t ctx ((path, raw) ∷ rest) content =
    (resolve_template t ctx raw >>= λ resolved. apply_json_patch t content path resolved)
    >>= apply_values t ctx rest

-- `filepath.Rel` of two absolute paths.
ups : FilePath → FilePath → FilePath
ups [] rest = rest
ups (x ∷ base) rest = ".." ∷ ups base rest

unfoldable pub relative : FilePath → FilePath → FilePath
unfolding ups
relative [] target = target
relative (x ∷ base) [] = ups (x ∷ base) []
relative (x ∷ base) (y ∷ target) =
    let rest = relative base target in if x == y then rest else ups (x ∷ base) (y ∷ target)

-- The pieces but the last, and the last that is not empty.
unfoldable pub init : List String → List String
init [] = []
init (x ∷ []) = []
init (x ∷ y ∷ r) = x ∷ init (y ∷ r)

unfoldable pub last_piece : String → List String → String
unfolding string_eq
last_piece last [] = last
last_piece last (x ∷ r) = last_piece (if x == "" then last else x) r

-- `filepath.Base` of a relative path
unfoldable pub base_name : String → String
unfolding last_piece split_slash
base_name s = last_piece "." (split_slash s)

unfoldable pub mapping_root : FilePath → String → Bool → FilePath
unfolding init split_slash clean
mapping_root staging_dir dest is_file =
    clean (staging_dir ++ (if is_file then init (split_slash dest) else split_slash dest))

abbrev pattern_of : String → ResolvedPatch → String
pattern_of dest p = if p.file == "" then base_name dest else p.file

-- What doublestar says of the pattern, and the rewriting of a file that matches.
abbrev if_matched :
    Option Bool → (Disk → Disk × Result (Unit {0})) → Disk → Disk × Result (Unit {0})
if_matched none rewrite d = (d, err (rewrite_failed "invalid patch file pattern"))
if_matched (some false) rewrite d = (d, ok tt)
if_matched (some true) rewrite d = rewrite d

-- One round of the loop over the patches.
unfoldable pub apply_patch : Tools → TemplateContext → FilePath → String → ResolvedPatch → Rewrite
unfolding rewrite_file apply_values relative base_name
apply_patch t ctx root dest p staged_path =
    if_matched (t.glob (pattern_of dest p) (render (relative root staged_path))) (
      rewrite_file "reading file for patch" (λ s. some_text (apply_values t ctx p.set s))
        staged_path)

abbrev onwards :
    (Disk → Disk × Result (Unit {0})) → Disk × Result (Unit {0}) → Disk × Result (Unit {0})
onwards rest (d, err e) = (d, err e)
onwards rest (d, ok u) = rest d

unfoldable pub apply_patches :
    Tools → TemplateContext → FilePath → String → List ResolvedPatch → Rewrite
unfolding apply_patch
apply_patches t ctx root dest [] staged_path d = (d, ok tt)
apply_patches t ctx root dest (p ∷ ps) staged_path d =
    onwards (apply_patches t ctx root dest ps staged_path)
      (apply_patch t ctx root dest p staged_path d)

-- `none` where there are no patches.
unfoldable pub build_apply_patches_func :
    List ResolvedPatch → Tools → TemplateContext → FilePath → String → Bool → Option Rewrite
unfolding apply_patches mapping_root
build_apply_patches_func [] t ctx staging_dir dest is_file = none
build_apply_patches_func (p ∷ ps) t ctx staging_dir dest is_file =
    some (apply_patches t ctx (mapping_root staging_dir dest is_file) dest (p ∷ ps))
