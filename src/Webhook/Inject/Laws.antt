-- ===== src/Webhook/Inject/Laws.antt =====
-- What the injector answers, and what an injected pod has.
use stoker_operator.Prelude.{
  String, ◌≡◌, refl, ap, ◌∙◌, true, false, Option, none, some, List, [], ◌∷◌, ◌++◌, All, ==_refl,
  string_eq, arith,
}
use stoker_operator.Prelude.Dict.{lookup-insert}
use stoker_operator.Api.{GatewaySync}
use stoker_operator.Api.Annotation
use stoker_operator.Api.Pod.{Volume, Container, Pod}
use stoker_operator.Webhook.Inject.{
  annotation, allowed, already_injected, patched, GetResult, found, not_found, get_failed, Client,
  is_already_injected, CrName, resolved, unresolved, resolve_cr_name, write_back, value,
  with_cr_name, profile_missing, inject_for, handle,
}
use stoker_operator.Webhook.Inject.Volumes.{agent_volume_mounts, agent_volumes, resolve_data_volume}
use stoker_operator.Webhook.Inject.Volumes.Laws.{
  has_volume, IsBacked, has_volume-append, IsBacked-right, All-append, agent_volume_mounts-IsBacked,
  resolve_data_volume-IsBacked,
}
use stoker_operator.Webhook.Inject.Sidecar.{
  agent_container_name, annotation_true, agent_container, mount_data, inject_sidecar,
}

-- What a patched pod comes from.
pub record Injected (image_env : String) (c : Client) (pod new : Pod) : Type 0 where
  pub cr_name : String
  pub gs : GatewaySync
  pub was_requested : annotation Annotation.inject pod ≡ annotation_true
  pub was_plain : is_already_injected pod ≡ false
  pub named : resolve_cr_name c pod ≡ resolved cr_name
  pub got : c.get cr_name ≡ found gs
  pub is_active : gs.spec.paused ≡ false
  pub has_profile : profile_missing (write_back cr_name pod) gs ≡ false
  pub is_patch : new ≡ inject_sidecar image_env (write_back cr_name pod) gs

inject_for-Injected :
    (image_env : String) (c : Client) (pod new : Pod) (cr_name : String) (g : GetResult)
    → annotation Annotation.inject pod ≡ annotation_true
    → is_already_injected pod ≡ false
    → resolve_cr_name c pod ≡ resolved cr_name
    → c.get cr_name ≡ g
    → inject_for image_env cr_name (write_back cr_name pod) g ≡ patched new
    → Injected image_env c pod new
unfolding inject_for
inject_for-Injected image_env c pod new cr_name not_found a b n e h = ground arith
inject_for-Injected image_env c pod new cr_name get_failed a b n e h = ground arith
inject_for-Injected image_env c pod new cr_name (found gs) a b n e h = record {
  cr_name = cr_name;
  gs = gs;
  was_requested = a;
  was_plain = b;
  named = n;
  got = e;
  is_active = ground arith;
  has_profile = ground arith;
  is_patch = ground arith;
}

with_cr_name-Injected :
    (image_env : String) (c : Client) (pod new : Pod) (n : CrName)
    → annotation Annotation.inject pod ≡ annotation_true
    → is_already_injected pod ≡ false
    → resolve_cr_name c pod ≡ n
    → with_cr_name image_env c pod n ≡ patched new
    → Injected image_env c pod new
unfolding with_cr_name
with_cr_name-Injected image_env c pod new (unresolved r) a b e h = ground arith
with_cr_name-Injected image_env c pod new (resolved cr_name) a b e h =
    inject_for-Injected image_env c pod new cr_name (c.get cr_name) a b e refl h

-- A pod is patched only if it asked for the sidecar and has none, its object was found and is not
-- paused, and the profile that it names exists; the patch is the injection for that object.
pub handle-Injected :
    (image_env : String) (c : Client) (pod new : Pod)
    → handle image_env c (some pod) ≡ patched new
    → Injected image_env c pod new
unfolding handle
handle-Injected image_env c pod new h =
    with_cr_name-Injected image_env c pod new (resolve_cr_name c pod) (ground arith) (ground arith)
      refl (ground arith)

inject-write_back :
    (cr_name : String) (pod : Pod)
    → annotation Annotation.inject (write_back cr_name pod) ≡ annotation Annotation.inject pod
unfolding write_back string_eq
inject-write_back cr_name pod =
    let other = lookup-insert Annotation.inject Annotation.cr_name cr_name pod.meta.annotations in
    ground (arith, other)

inject-inject_sidecar :
    (image_env : String) (pod : Pod) (gs : GatewaySync)
    → annotation Annotation.inject (inject_sidecar image_env pod gs)
      ≡ annotation Annotation.inject pod
unfolding inject_sidecar string_eq
inject-inject_sidecar image_env pod gs =
    ap value
      (lookup-insert Annotation.inject Annotation.injected annotation_true pod.meta.annotations)

is_already_injected-inject_sidecar :
    (image_env : String) (pod : Pod) (gs : GatewaySync)
    → is_already_injected (inject_sidecar image_env pod gs) ≡ true
unfolding is_already_injected inject_sidecar mount_data agent_container
is_already_injected-inject_sidecar image_env pod gs =
    let same = ==_refl agent_container_name in
    elim (resolve_data_volume pod) [
      | none ↦ ground (arith, same)
      | some (name, path) ↦ ground (arith, same)
    ]

-- A patched pod that is handled again, with whatever objects there are then, is let through as it
-- is: an agent is injected once.
pub handle_again :
    (image_env : String) (c c' : Client) (pod new : Pod)
    → handle image_env c (some pod) ≡ patched new
    → handle image_env c' (some new) ≡ allowed already_injected
unfolding handle
handle_again image_env c c' pod new h =
    let w = handle-Injected image_env c pod new h in
    let old = write_back w.cr_name pod in
    let asked : annotation Annotation.inject new ≡ annotation_true =
      ap (annotation Annotation.inject) w.is_patch
      ∙ inject-inject_sidecar image_env old w.gs
      ∙ inject-write_back w.cr_name pod
      ∙ w.was_requested in
    let has : is_already_injected new ≡ true =
      ap is_already_injected w.is_patch ∙ is_already_injected-inject_sidecar image_env old w.gs in
    ground (arith, asked, has)

mount_data-IsBacked :
    (vs : List Volume) (o : Option (String × String)) (c : Container)
    → ((name path : String) → o ≡ some (name, path) → has_volume vs name ≡ true)
    → All (IsBacked vs) c.volume_mounts
    → All (IsBacked vs) (mount_data o c).volume_mounts
unfolding mount_data
mount_data-IsBacked vs none c h k = k
mount_data-IsBacked vs (some (name, path)) c h k =
    All-append (IsBacked vs) c.volume_mounts _ k (h name path refl, tt)

-- The first container's mounts have their volumes.
abbrev pub FirstIsBacked : List Volume → List Container → Type 0
FirstIsBacked vs [] = true ≡ false
FirstIsBacked vs (c ∷ cs) = All (IsBacked vs) c.volume_mounts

-- Every mount of an injected pod's first init container, which is the agent's, names a volume of that
-- pod; this includes the mount of the data volume.
pub inject_sidecar-IsBacked :
    (image_env : String) (pod : Pod) (gs : GatewaySync)
    → FirstIsBacked
        (inject_sidecar image_env pod gs).volumes
        (inject_sidecar image_env pod gs).init_containers
unfolding inject_sidecar agent_container
inject_sidecar-IsBacked image_env pod gs =
    let mine =
      IsBacked-right pod.volumes (agent_volumes gs) (agent_volume_mounts gs)
        (agent_volume_mounts-IsBacked gs) in
    let present : (name path : String)
        → resolve_data_volume pod ≡ some (name, path)
        → has_volume (pod.volumes ++ agent_volumes gs) name ≡ true =
      λ name path e. ground (
        arith,
        has_volume-append pod.volumes (agent_volumes gs) name,
        resolve_data_volume-IsBacked pod name path e,
      ) in
    mount_data-IsBacked (pod.volumes ++ agent_volumes gs) (resolve_data_volume pod)
      (agent_container image_env pod gs) present mine
