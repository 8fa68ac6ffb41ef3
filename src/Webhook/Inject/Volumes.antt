-- ===== src/Webhook/Inject/Volumes.antt =====
-- The volumes of the agent and its mounts, in inject.go.
pub mod Laws
use stoker_operator.Prelude.{
  String, ◌<>◌, Bool, true, false, ◌||◌, ◌&&◌, Option, none, some, List, [], ◌∷◌, ◌++◌, ◌==◌,
  string_eq, any, if◌then◌else◌,
}
use stoker_operator.Api.{GitAuthSpec, GatewaySync, KnownHosts}
use stoker_operator.Api.Pod.{VolumeMount, VolumeSource, empty_dir, secret, Volume, Container, Pod}
use stoker_operator.Webhook.Inject.Auth.{
  Chosen, no_auth, by_ssh_key, by_token, by_git_hub_app, choose, is_some, known_hosts_of,
  git_hub_app_of,
}

abbrev wants_key_or_token : Option GitAuthSpec → Bool
wants_key_or_token none = false
wants_key_or_token (some auth) = is_some auth.ssh_key || is_some auth.token

unfoldable pub needs_git_credential_volume : GatewaySync → Bool
needs_git_credential_volume gs = wants_key_or_token gs.spec.git.auth

unfoldable pub needs_known_hosts_volume : GatewaySync → Bool
needs_known_hosts_volume gs = is_some (known_hosts_of gs.spec.git.auth)

unfoldable pub needs_git_hub_token_volume : GatewaySync → Bool
needs_git_hub_token_volume gs = is_some (git_hub_app_of gs.spec.git.auth)

unfoldable pub git_credential_secret_name : GatewaySync → String
unfolding choose
git_credential_secret_name gs = elim (choose gs.spec.git.auth) [
  | no_auth ↦ "git-credentials"
  | by_ssh_key k ↦ k.secret_ref.name
  | by_token t ↦ t.secret_ref.name
  | by_git_hub_app a ↦ a.private_key_secret_ref.name
]

unfoldable pub git_hub_token_secret_name : String → String
git_hub_token_secret_name cr_name = "stoker-github-token-" <> cr_name

abbrev pub mount_ignition_data : String
mount_ignition_data = "/ignition-data"

abbrev mount : String → String → Bool → VolumeMount
mount name path read_only = record { name = name; mount_path = path; read_only = read_only }

abbrev when {ℓ} : {A : Type ℓ} → Bool → A → List A
when b x = if b then x ∷ [] else []

unfoldable pub agent_volume_mounts : GatewaySync → List VolumeMount
unfolding needs_git_credential_volume needs_git_hub_token_volume needs_known_hosts_volume
agent_volume_mounts gs =
    mount "sync-repo" "/repo" false
    ∷ mount "api-key" "/etc/stoker/api-key" true
    ∷ mount "git-tmp" "/tmp" false
    ∷ (when (needs_git_credential_volume gs)
          (mount "git-credentials" "/etc/stoker/git-credentials" true)
        ++ (when (needs_git_hub_token_volume gs) (mount "git-token" "/etc/stoker/git-token" true)
            ++ when (needs_known_hosts_volume gs)
                (mount "known-hosts" "/etc/stoker/known-hosts" true)))

abbrev secret_volume : String → String → Volume
secret_volume name secret_name = record { name = name; source = secret secret_name 0o444 }

abbrev known_hosts_volume : Option KnownHosts → List Volume
known_hosts_volume none = []
known_hosts_volume (some kh) = secret_volume "known-hosts" kh.secret_ref.name ∷ []

unfoldable pub agent_volumes : GatewaySync → List Volume
unfolding needs_git_credential_volume needs_git_hub_token_volume git_credential_secret_name
    git_hub_token_secret_name
agent_volumes gs =
    record { name = "sync-repo"; source = empty_dir }
    ∷ record { name = "git-tmp"; source = empty_dir }
    ∷ secret_volume "api-key" gs.spec.gateway.api.secret_name
    ∷ (when (needs_git_credential_volume gs)
          (secret_volume "git-credentials" (git_credential_secret_name gs))
        ++ (when (needs_git_hub_token_volume gs)
              (secret_volume "git-token" (git_hub_token_secret_name gs.meta.name))
            ++ known_hosts_volume (known_hosts_of gs.spec.git.auth)))

-- The mount of a volume in the first container that has one.
mount_path_in : String → List VolumeMount → Option String
mount_path_in name [] = none
mount_path_in name (vm ∷ vms) =
    if vm.name == name then some vm.mount_path else mount_path_in name vms

mount_path_among : String → List Container → Option String
unfolding mount_path_in
mount_path_among name [] = none
mount_path_among name (c ∷ cs) =
    let rest = mount_path_among name cs in
    elim (mount_path_in name c.volume_mounts) [ some path ↦ some path | none ↦ rest ]

abbrev or_default : Option String → String
or_default (some path) = path
or_default none = mount_ignition_data

first_candidate : List String → Pod → Option (String × String)
unfolding mount_path_among
first_candidate [] pod = none
first_candidate (name ∷ names) pod =
    if any (λ v. v.name == name) pod.volumes
    then some (name, or_default (mount_path_among name pod.containers))
    else first_candidate names pod

-- resolveDataVolume; `none` is its pair of empty texts.
unfoldable pub resolve_data_volume : Pod → Option (String × String)
unfolding first_candidate
resolve_data_volume pod = first_candidate ("ignition-data" ∷ "data" ∷ []) pod
