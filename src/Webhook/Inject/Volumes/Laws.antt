-- ===== src/Webhook/Inject/Volumes/Laws.antt =====
-- Each of the agent's mounts has its volume.
use stoker_operator.Prelude.{
  String, ◌≡◌, refl, Bool, true, false, ◌||◌, Option, none, some, List, [], ◌∷◌, ◌++◌, any, All,
  ◌==◌, ==_refl, string_eq, arith, Bool-cases, inl, inr,
}
use stoker_operator.Api.{GatewaySync, KnownHosts}
use stoker_operator.Api.Pod.{empty_dir, Volume, VolumeMount, Pod}
use stoker_operator.Webhook.Inject.Auth.{is_some, known_hosts_of}
use stoker_operator.Webhook.Inject.Volumes.{
  needs_git_credential_volume, needs_known_hosts_volume, needs_git_hub_token_volume,
  agent_volume_mounts, known_hosts_volume, agent_volumes, when, mount, secret_volume,
  git_credential_secret_name, git_hub_token_secret_name, first_candidate, resolve_data_volume,
}

abbrev pub has_volume : List Volume → String → Bool
has_volume vs name = any (λ v. v.name == name) vs

-- A volume of the pod has the mount's name.
abbrev pub IsBacked : List Volume → VolumeMount → Type 0
IsBacked vs m = has_volume vs m.name ≡ true

pub has_volume-append :
    (vs ws : List Volume) (name : String)
    → has_volume (vs ++ ws) name ≡ (has_volume vs name || has_volume ws name)
has_volume-append [] ws name = refl
has_volume-append (v ∷ vs) ws name = ground (arith, has_volume-append vs ws name)

pub IsBacked-left :
    (vs ws : List Volume) (ms : List VolumeMount)
    → All (IsBacked vs) ms
    → All (IsBacked (vs ++ ws)) ms
IsBacked-left vs ws [] h = tt
IsBacked-left vs ws (m ∷ ms) (h, hs) =
    (ground (arith, has_volume-append vs ws m.name, h), IsBacked-left vs ws ms hs)

pub IsBacked-right :
    (vs ws : List Volume) (ms : List VolumeMount)
    → All (IsBacked ws) ms
    → All (IsBacked (vs ++ ws)) ms
IsBacked-right vs ws [] h = tt
IsBacked-right vs ws (m ∷ ms) (h, hs) =
    (ground (arith, has_volume-append vs ws m.name, h), IsBacked-right vs ws ms hs)

pub All-append {ℓ κ} :
    {A : Type ℓ} (P : A → Type κ) (xs ys : List A) → All P xs → All P ys → All P (xs ++ ys)
All-append P [] ys h k = k
All-append P (x ∷ xs) ys (h, hs) k = (h, All-append P xs ys hs k)

IsBacked-parts :
    (vs ws : List Volume) (ms ns : List VolumeMount)
    → All (IsBacked vs) ms
    → All (IsBacked ws) ns
    → All (IsBacked (vs ++ ws)) (ms ++ ns)
IsBacked-parts vs ws ms ns h k =
    All-append (IsBacked (vs ++ ws)) ms ns (IsBacked-left vs ws ms h) (IsBacked-right vs ws ns k)

IsBacked-when :
    (b : Bool) (v : Volume) (m : VolumeMount)
    → v.name ≡ m.name
    → All (IsBacked (when b v)) (when b m)
IsBacked-when true v m e = (ground (arith, e), tt)
IsBacked-when false v m e = tt

known_hosts-IsBacked :
    (kh : Option KnownHosts)
    → All
        (IsBacked (known_hosts_volume kh))
        (when (is_some kh) (mount "known-hosts" "/etc/stoker/known-hosts" true))
known_hosts-IsBacked none = tt
known_hosts-IsBacked (some kh) =
    let same = ==_refl {A = String} "known-hosts" in (ground (arith, same), tt)

abbrev fixed_volumes : GatewaySync → List Volume
fixed_volumes gs =
    record { name = "sync-repo"; source = empty_dir }
    ∷ record { name = "git-tmp"; source = empty_dir }
    ∷ secret_volume "api-key" gs.spec.gateway.api.secret_name
    ∷ []

abbrev fixed_mounts : List VolumeMount
fixed_mounts =
    mount "sync-repo" "/repo" false
    ∷ mount "api-key" "/etc/stoker/api-key" true
    ∷ mount "git-tmp" "/tmp" false
    ∷ []

fixed-IsBacked : (gs : GatewaySync) → All (IsBacked (fixed_volumes gs)) fixed_mounts
fixed-IsBacked gs =
    let repo = ==_refl {A = String} "sync-repo" in
    let key = ==_refl {A = String} "api-key" in
    let tmp = ==_refl {A = String} "git-tmp" in
    (ground (arith, repo), (ground (arith, key), (ground (arith, tmp), tt)))

-- Every volume mount of the agent names one of the agent's volumes, whatever the object's way to
-- authenticate to git.
pub agent_volume_mounts-IsBacked :
    (gs : GatewaySync) → All (IsBacked (agent_volumes gs)) (agent_volume_mounts gs)
unfolding agent_volume_mounts agent_volumes needs_known_hosts_volume
agent_volume_mounts-IsBacked gs =
    let credentials =
      IsBacked-when (needs_git_credential_volume gs)
        (secret_volume "git-credentials" (git_credential_secret_name gs))
        (mount "git-credentials" "/etc/stoker/git-credentials" true) refl in
    let token =
      IsBacked-when (needs_git_hub_token_volume gs)
        (secret_volume "git-token" (git_hub_token_secret_name gs.meta.name))
        (mount "git-token" "/etc/stoker/git-token" true) refl in
    let hosts = known_hosts-IsBacked (known_hosts_of gs.spec.git.auth) in
    IsBacked-parts (fixed_volumes gs) _ fixed_mounts _ (fixed-IsBacked gs)
      (IsBacked-parts _ _ _ _ credentials (IsBacked-parts _ _ _ _ token hosts))

first_candidate-IsBacked :
    (names : List String) (pod : Pod) (name path : String)
    → first_candidate names pod ≡ some (name, path)
    → has_volume pod.volumes name ≡ true
unfolding first_candidate
first_candidate-IsBacked [] pod name path h = ground arith
first_candidate-IsBacked (n ∷ names) pod name path h =
    elim (Bool-cases (has_volume pod.volumes n)) [
      | inl e ↦ ground arith
      | inr e ↦ first_candidate-IsBacked names pod name path (ground arith)
    ]

pub resolve_data_volume-IsBacked :
    (pod : Pod) (name path : String)
    → resolve_data_volume pod ≡ some (name, path)
    → has_volume pod.volumes name ≡ true
unfolding resolve_data_volume
resolve_data_volume-IsBacked pod name path h =
    first_candidate-IsBacked ("ignition-data" ∷ "data" ∷ []) pod name path h
