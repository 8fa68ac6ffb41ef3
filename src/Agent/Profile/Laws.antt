-- ===== src/Agent/Profile/Laws.antt =====
-- The plan that the agent builds.
use stoker_operator.Prelude.{
  ℕ, ◌+◌, String, ◌<>◌, ◌≡◌, refl, ap, ◌&&◌, List, [], ◌∷◌, ◌++◌, All, ◌==◌, string_eq, inl, inr,
  Bool-cases,
}
use stoker_operator.Prelude.Outcome.{Outcome, done, failed, bind, wrapped, done_inj}
use stoker_operator.Prelude.Text.{join, split_slash}
use stoker_operator.Engine.Disk.{FilePath, Disk}
use stoker_operator.Engine.Plan.{SyncPlan}
use stoker_operator.Engine.Plan.Stage
use stoker_operator.Engine.Plan.Stage.{render, components}
use stoker_operator.Engine.Plan.Stage.Keeps.{IfAny, IsInside, IsSound}
use stoker_operator.Engine.Plan.Kept.{IsSoundPlan}
use stoker_operator.Controller.Profiles.{ResolvedMapping, ResolvedProfile}
use stoker_operator.Agent.Context.{TemplateContext, Tools, resolve_template}
use stoker_operator.Agent.Closures.Laws.{
  build_apply_template_func-InPlace, build_apply_patches_func-InPlace,
}
use stoker_operator.Agent.Profile.{
  label_of, check_paths, with_source, plan_with, and_mapping, Places, staging_of,
  validate_resolved_path, resolve_paths, mapping_to, locate, resolve_mapping, resolve_mappings,
  build_sync_plan, infer_mapping_type, is_absent,
}
use stoker_operator.Agent.Profile.Paths.{
  IsPlain, join-validate_resolved_path, components-validate_resolved_path, join-plain,
}

-- A result without an error has its parts without an error.
bind_done {ℓ κ} :
    {A : Type ℓ} {B : Type κ} (o : Outcome A) (f : A → Outcome B) (b : B)
    → bind o f ≡ done b
    → (a : A) × (o ≡ done a) × (f a ≡ done b)
bind_done (done a) f b h = (a, refl, h)
bind_done (failed e) f b h = absurd (cc)

wrapped_done {ℓ} :
    {A : Type ℓ} (e : String) (o : Outcome A) (a : A) → wrapped e o ≡ done a → o ≡ done a
wrapped_done e (done b) a h = h
wrapped_done e (failed x) a h = absurd (cc)

staging-IsPlain : IsPlain ".sync-staging"
staging-IsPlain = (λ p. cc, λ p. cc, λ p. cc)

staging_pieces : split_slash ".sync-staging" ≡ ".sync-staging" ∷ []
unfolding split_slash
staging_pieces = refl

-- A mapping that reads below the repository and writes below the live directory, and below any other
-- that its destination is joined to, with patches that stay in the file that they are given.
pub record IsConfined (places : Places) (m : Stage.ResolvedMapping) : Type 0 where
  pub source_inside : (rel : FilePath) × (m.source ≡ places.repo_path ++ rel)
  pub destination_inside :
      (rel : FilePath) × (join places.live_dir m.destination ≡ places.live_dir ++ rel)
  pub stays_inside : IsInside m.destination
  pub patches_in_place : IfAny m.apply_patches

-- The destination of each file mapping is a clean path.
abbrev pub IsClean : Stage.ResolvedMapping → Type 0
IsClean m = m.mapping_type ≡ "file" → render (components m.destination) ≡ m.destination

module _ (t : Tools) (ctx : TemplateContext) (places : Places) (d : Disk)
    (repo_plain : All IsPlain places.repo_path) (live_plain : All IsPlain places.live_dir) where
  check_paths-validated :
      (i : ℕ) (a b src dst : String)
      → check_paths t ctx places d i a b ≡ done (src, dst)
      → (validate_resolved_path src (label_of t ctx places d i <> ".source") ≡ done tt)
        × (validate_resolved_path dst (label_of t ctx places d i <> ".destination") ≡ done tt)
  unfolding check_paths
  check_paths-validated i a b src dst h =
      let l = label_of t ctx places d i in
      let last : Unit {0} → Outcome (String × String) = λ _. done (a, b) in
      let (u, e, h1) =
        bind_done (validate_resolved_path a (l <> ".source"))
          (λ _. bind (validate_resolved_path b (l <> ".destination")) last) (src, dst) h in
      let (v, e', h2) =
        bind_done (validate_resolved_path b (l <> ".destination")) last (src, dst) h1 in
      let same = done_inj (a, b) (src, dst) h2 in
      let src_same : a ≡ src = ap (λ (p : String × String). p.0) same in
      let dst_same : b ≡ dst = ap (λ (p : String × String). p.1) same in
      (rw (← src_same) e, rw (← dst_same) e')

  resolve_paths-validated :
      (i : ℕ) (m : ResolvedMapping) (src dst : String)
      → resolve_paths t ctx places d i m ≡ done (src, dst)
      → (validate_resolved_path src (label_of t ctx places d i <> ".source") ≡ done tt)
        × (validate_resolved_path dst (label_of t ctx places d i <> ".destination") ≡ done tt)
  unfolding resolve_paths
  resolve_paths-validated i m src dst h =
      let l = label_of t ctx places d i in
      let (a, e, h1) =
        bind_done (wrapped (l <> ".source: ") (resolve_template t ctx m.source))
          (with_source t ctx places d i m) (src, dst) h in
      let (b, e', h2) =
        bind_done (wrapped (l <> ".destination: ") (resolve_template t ctx m.destination))
          (check_paths t ctx places d i a) (src, dst) h1 in
      check_paths-validated i a b src dst h2

  mapping_to-IsConfined :
      (m : ResolvedMapping) (src dst typ l k : String)
      → validate_resolved_path src l ≡ done tt
      → validate_resolved_path dst k ≡ done tt
      → IsConfined places (mapping_to t ctx places d m (join places.repo_path src) dst typ)
  mapping_to-IsConfined m src dst typ l k vs vd = record {
    source_inside = join-validate_resolved_path places.repo_path src l repo_plain vs;
    destination_inside = join-validate_resolved_path places.live_dir dst k live_plain vd;
    stays_inside = components-validate_resolved_path dst k vd;
    patches_in_place =
        build_apply_patches_func-InPlace m.patches t ctx (staging_of places.live_dir) dst
          (typ == "file");
  }

  locate-IsConfined :
      (i : ℕ) (m : ResolvedMapping) (src dst l k : String) (r : Stage.ResolvedMapping)
      → validate_resolved_path src l ≡ done tt
      → validate_resolved_path dst k ≡ done tt
      → locate t ctx places d i m (src, dst) ≡ done r
      → IsConfined places r
  unfolding locate
  locate-IsConfined i m src dst l k r vs vd h =
      elim (Bool-cases (m.required && is_absent t.follow (join places.repo_path src) d)) [
        | inl missing ↦ let bad = rw missing at h in absurd (cc)
        | inr there ↦
            let abs_src = join places.repo_path src in
            let make = mapping_to t ctx places d m abs_src dst in
            let (typ, e, e') =
              bind_done
                (wrapped (label_of t ctx places d i <> ": ")
                  (infer_mapping_type t.follow abs_src m.mapping_type d))
                (λ typ. done (make typ)) r (rw there at h) in
            let same = done_inj (make typ) r e' in
            rw (← same) (mapping_to-IsConfined m src dst typ l k vs vd)
      ]

  resolve_mapping-IsConfined :
      (i : ℕ) (m : ResolvedMapping) (r : Stage.ResolvedMapping)
      → resolve_mapping t ctx places d i m ≡ done r
      → IsConfined places r
  unfolding resolve_mapping
  resolve_mapping-IsConfined i m r h =
      let ((src, dst), e, h') = bind_done _ _ _ h in
      let (vs, vd) = resolve_paths-validated i m src dst e in
      locate-IsConfined i m src dst _ _ r vs vd h'

  resolve_mappings-IsConfined :
      (i : ℕ) (ms : List ResolvedMapping) (rs : List Stage.ResolvedMapping)
      → resolve_mappings t ctx places d i ms ≡ done rs
      → All (IsConfined places) rs
  unfolding resolve_mappings
  resolve_mappings-IsConfined i [] rs h = let same = done_inj [] rs h in rw (← same) tt
  resolve_mappings-IsConfined i (m ∷ ms) rs h =
      let later = resolve_mappings t ctx places d (i + 1) ms in
      let (r, e, h1) =
        bind_done (resolve_mapping t ctx places d i m) (and_mapping t ctx places d later) rs h in
      let (rest, e', h2) = bind_done later (λ rest. done (r ∷ rest)) rs h1 in
      let same = done_inj (r ∷ rest) rs h2 in
      rw (← same)
        (resolve_mapping-IsConfined i m r e, resolve_mappings-IsConfined (i + 1) ms rest e')

  mappings-IsSound :
      (rs : List Stage.ResolvedMapping)
      → All (IsConfined places) rs
      → All IsClean rs
      → All IsSound rs
  mappings-IsSound [] c h = tt
  mappings-IsSound (r ∷ rs) c h = (
    record {
      is_inside = c.0.stays_inside;
      is_clean = h.0;
      patches_in_place = c.0.patches_in_place;
    },
    mappings-IsSound rs c.1 h.1,
  )

  -- Where the repository and the live directory are absolute paths with plain components, and a plan was
  -- built without an error: every mapping reads from a place in the repository and writes to a place in
  -- the live directory.
  pub build_sync_plan-IsConfined :
      (profile : ResolvedProfile) (plan : SyncPlan)
      → build_sync_plan t ctx places d profile ≡ done plan
      → All (IsConfined places) plan.mappings
  unfolding build_sync_plan
  build_sync_plan-IsConfined profile plan h =
      let make = plan_with t ctx places d profile in
      let (rs, e, h1) =
        bind_done (resolve_mappings t ctx places d 0 profile.mappings) (λ rs. done (make rs)) plan
          h in
      let same = done_inj (make rs) plan h1 in
      rw (← same) (resolve_mappings-IsConfined 0 profile.mappings rs e)

  staging_in_live : staging_of places.live_dir ≡ places.live_dir ++ ".sync-staging" ∷ []
  unfolding staging_of
  staging_in_live =
      join-plain places.live_dir ".sync-staging" live_plain staging-IsPlain staging_pieces

  -- If also the destinations of file mappings are clean, the plan is one for which the engine's guarantees
  -- hold.
  pub build_sync_plan-IsSoundPlan :
      (profile : ResolvedProfile) (plan : SyncPlan)
      → build_sync_plan t ctx places d profile ≡ done plan
      → All IsClean plan.mappings
      → IsSoundPlan plan
  unfolding build_sync_plan
  build_sync_plan-IsSoundPlan profile plan h clean =
      let confined = build_sync_plan-IsConfined profile plan h in
      let make = plan_with t ctx places d profile in
      let (rs, e, h1) =
        bind_done (resolve_mappings t ctx places d 0 profile.mappings) (λ rs. done (make rs)) plan
          h in
      let same = done_inj (make rs) plan h1 in
      record {
        in_live = rw (← same) staging_in_live;
        mappings_sound = mappings-IsSound plan.mappings confined clean;
        template_in_place = rw (← same) (build_apply_template_func-InPlace t ctx);
      }

  -- The plan works in the live directory and in its staging directory.
  pub build_sync_plan-places :
      (profile : ResolvedProfile) (plan : SyncPlan)
      → build_sync_plan t ctx places d profile ≡ done plan
      → (plan.live_dir ≡ places.live_dir) × (plan.staging_dir ≡ staging_of places.live_dir)
  unfolding build_sync_plan
  build_sync_plan-places profile plan h =
      let make = plan_with t ctx places d profile in
      let (rs, e, h1) =
        bind_done (resolve_mappings t ctx places d 0 profile.mappings) (λ rs. done (make rs)) plan
          h in
      let same = done_inj (make rs) plan h1 in rw (← same) (refl, refl)
