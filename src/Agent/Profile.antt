-- ===== src/Agent/Profile.antt =====
-- internal/agent/profile.go: the template context, the paths, and the plan of a profile. The closures
-- of a plan are in Agent/Closures.
pub mod Paths
pub mod Laws
use stoker_operator.Prelude.{
  ℕ, zero, suc, ◌+◌, String, ◌<>◌, Bool, true, false, not, ◌&&◌, ◌||◌, Option, none, some, List, [],
  ◌∷◌, ◌++◌, ◌==◌, string_eq, if◌then◌else◌, starts_with,
}
use mathlib.Core.List.{reverse}
use stoker_operator.Prelude.Dict.{Dict, lookup}
use stoker_operator.Prelude.Int.{ℤ, pos, atoi}
use stoker_operator.Prelude.Outcome.{Outcome, done, failed, wrapped, bind, ◌>>=◌}
use stoker_operator.Prelude.Text.{push_parts, split_slash, join_by, join, decimal, contains_text}
use stoker_operator.Engine.Disk.{FilePath, Node, file, dir, symlink, Disk, lstat, parent}
use stoker_operator.Engine.Plan.{SyncPlan}
use stoker_operator.Engine.Plan.Stage
use stoker_operator.Controller.Profiles.{ResolvedMapping, ResolvedProfile}
use stoker_operator.Agent.Config.{Config}
use stoker_operator.Agent.ConfigMaps.{Metadata}
use stoker_operator.Agent.Context.{TemplateContext, Tools, resolve_template}
use stoker_operator.Agent.Closures.{build_apply_template_func, build_apply_patches_func}

abbrev cleaned_text : List String → String
cleaned_text [] = "."
cleaned_text (x ∷ stack) = join_by "/" (reverse (x ∷ stack))

-- `filepath.Clean` of a relative path
unfoldable pub clean_relative : String → String
unfolding split_slash push_parts
clean_relative s = cleaned_text (push_parts [] (split_slash s))

unfoldable pub is_traversal : String → Bool
is_traversal cleaned = cleaned == ".." || starts_with cleaned "../" || contains_text cleaned "/../"

unfoldable pub validate_resolved_path : String → String → Outcome (Unit {0})
unfolding clean_relative is_traversal
validate_resolved_path path label =
    if starts_with path "/"
    then failed (label <> (": absolute path not allowed: " <> path))
    else if is_traversal (clean_relative path)
    then failed (label <> (": path traversal not allowed: " <> path))
    else done tt

-- `os.Stat`: whether there is something, and whether that is a directory. `follow` says so of a
-- symbolic link.
abbrev stat_node : Option Bool → Option Node → Option Bool
stat_node follow none = none
stat_node follow (some (file f)) = some false
stat_node follow (some dir) = some true
stat_node follow (some symlink) = follow

unfoldable pub stat : (FilePath → Disk → Option Bool) → FilePath → Disk → Option Bool
unfolding lstat
stat follow p d = stat_node (follow p d) (lstat p d)

-- A path through a file fails otherwise than by being absent.
unfoldable pub runs_through_file : FilePath → FilePath → Disk → Bool
unfolding lstat
runs_through_file base [] d = false
runs_through_file base (x ∷ p) d =
    let deeper = runs_through_file (base ++ x ∷ []) p d in
    elim (lstat base d) [ some (file f) ↦ true | _ ↦ deeper ]

abbrev is_none {ℓ} : {A : Type ℓ} → Option A → Bool
is_none none = true
is_none (some a) = false

unfoldable pub is_absent : (FilePath → Disk → Option Bool) → FilePath → Disk → Bool
unfolding stat runs_through_file
is_absent follow p d = is_none (stat follow p d) && not (runs_through_file [] p d)

abbrev type_text : Bool → String
type_text true = "dir"
type_text false = "file"

abbrev hinted : String → String → Outcome String
hinted hint actual =
    if not (hint == "") && not (hint == actual)
    then failed ("type mismatch: spec says " <> (hint <> (" but the source is a " <> actual)))
    else done actual

unfoldable pub infer_mapping_type :
    (FilePath → Disk → Option Bool) → FilePath → String → Disk → Outcome String
unfolding stat
infer_mapping_type follow abs_src hint d = elim (stat follow abs_src d) [
  | none ↦ done "dir"
  | some is_dir ↦ hinted hint (type_text is_dir)
]

-- The directories of a run, as paths.
pub record Places : Type 0 where
  pub repo_path : FilePath
  pub live_dir : FilePath

unfoldable pub staging_of : FilePath → FilePath
unfolding join
staging_of live_dir = join live_dir ".sync-staging"

module _ (t : Tools) (ctx : TemplateContext) (places : Places) (d : Disk) where
  abbrev label_of : ℕ → String
  label_of i = "mapping[" <> (decimal i <> "]")

  unfoldable pub check_paths : ℕ → String → String → Outcome (String × String)
  unfolding validate_resolved_path
  check_paths i src dst = validate_resolved_path src (label_of i <> ".source") >>= λ _.
      validate_resolved_path dst (label_of i <> ".destination") >>= λ _. done (src, dst)

  abbrev with_source : ℕ → ResolvedMapping → String → Outcome (String × String)
  with_source i m src =
      wrapped (label_of i <> ".destination: ") (resolve_template t ctx m.destination)
      >>= check_paths i src

  -- A source and a destination that were resolved and validated.
  unfoldable pub resolve_paths : ℕ → ResolvedMapping → Outcome (String × String)
  unfolding check_paths resolve_template
  resolve_paths i m =
      wrapped (label_of i <> ".source: ") (resolve_template t ctx m.source) >>= with_source i m

  abbrev mapping_to : ResolvedMapping → FilePath → String → String → Stage.ResolvedMapping
  mapping_to m abs_src dst typ = record {
    source = abs_src;
    destination = dst;
    mapping_type = typ;
    template = m.template;
    apply_patches =
        build_apply_patches_func m.patches t ctx (staging_of places.live_dir) dst (typ == "file");
  }

  -- What follows the validation.
  unfoldable pub locate : ℕ → ResolvedMapping → String × String → Outcome Stage.ResolvedMapping
  unfolding join is_absent infer_mapping_type build_apply_patches_func staging_of
  locate i m (src, dst) =
      let label = label_of i <> ": " in
      let abs_src = join places.repo_path src in
      if m.required && is_absent t.follow abs_src d
      then failed (label <> ("required source does not exist: " <> src))
      else wrapped label (infer_mapping_type t.follow abs_src m.mapping_type d) >>= λ typ.
          done (mapping_to m abs_src dst typ)

  unfoldable pub resolve_mapping : ℕ → ResolvedMapping → Outcome Stage.ResolvedMapping
  unfolding resolve_paths locate
  resolve_mapping i m = resolve_paths i m >>= locate i m

  abbrev and_mapping :
      Outcome (List Stage.ResolvedMapping)
      → Stage.ResolvedMapping
      → Outcome (List Stage.ResolvedMapping)
  and_mapping later first = later >>= λ rest. done (first ∷ rest)

  -- The loop, from the mapping of that number on.
  unfoldable pub resolve_mappings : ℕ → List ResolvedMapping → Outcome (List Stage.ResolvedMapping)
  unfolding resolve_mapping
  resolve_mappings i [] = done []
  resolve_mappings i (m ∷ ms) = resolve_mapping i m >>= and_mapping (resolve_mappings (i + 1) ms)

  abbrev plan_with : ResolvedProfile → List Stage.ResolvedMapping → SyncPlan
  plan_with profile mappings = record {
    mappings = mappings;
    exclude_patterns = profile.exclude_patterns;
    staging_dir = staging_of places.live_dir;
    live_dir = places.live_dir;
    dry_run = profile.dry_run;
    apply_template = some (build_apply_template_func t ctx);
  }

  unfoldable pub build_sync_plan : ResolvedProfile → Outcome SyncPlan
  unfolding resolve_mappings build_apply_template_func staging_of
  build_sync_plan profile =
      resolve_mappings 0 profile.mappings >>= λ mappings. done (plan_with profile mappings)
