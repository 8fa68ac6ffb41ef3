-- ===== src/Webhook/Inject/Auth.antt =====
-- The choice among the ways to authenticate to git, in inject.go and gatewaysync_controller.go.
use stoker_operator.Prelude.{String, ◌<>◌, Bool, true, false, Option, none, some, List, [], ◌∷◌}
use stoker_operator.Api.{GitAuthSpec, SshKeyAuth, TokenAuth, GitHubAppAuth, KnownHosts}
use stoker_operator.Api.Pod.{EnvVar, literal}

-- The first of SSH key, token and GitHub App that is set.
pub data Chosen : Type 0 where
  no_auth : Chosen
  by_ssh_key : SshKeyAuth → Chosen
  by_token : TokenAuth → Chosen
  by_git_hub_app : GitHubAppAuth → Chosen

abbrev choose_app : Option GitHubAppAuth → Chosen
choose_app (some app) = by_git_hub_app app
choose_app none = no_auth

abbrev choose_token : Option TokenAuth → Chosen → Chosen
choose_token (some t) later = by_token t
choose_token none later = later

abbrev choose_ssh : Option SshKeyAuth → Chosen → Chosen
choose_ssh (some k) later = by_ssh_key k
choose_ssh none later = later

unfoldable pub choose : Option GitAuthSpec → Chosen
choose none = no_auth
choose (some auth) = choose_ssh auth.ssh_key (choose_token auth.token (choose_app auth.git_hub_app))

abbrev pub is_some {ℓ} : {A : Type ℓ} → Option A → Bool
is_some (some _) = true
is_some none = false

-- resolveAuthType
unfoldable pub resolve_auth_type : Option GitAuthSpec → String
unfolding choose
resolve_auth_type auth = elim (choose auth) [
  | no_auth ↦ "none"
  | by_ssh_key k ↦ "ssh"
  | by_token t ↦ "token"
  | by_git_hub_app a ↦ "githubApp"
]

abbrev pub known_hosts_of : Option GitAuthSpec → Option KnownHosts
known_hosts_of none = none
known_hosts_of (some auth) = elim auth.ssh_key [ none ↦ none | some k ↦ k.known_hosts ]

abbrev pub git_hub_app_of : Option GitAuthSpec → Option GitHubAppAuth
git_hub_app_of none = none
git_hub_app_of (some auth) = auth.git_hub_app

abbrev known_hosts_env : Option KnownHosts → List EnvVar
known_hosts_env none = []
known_hosts_env (some kh) =
    record {
      name = "GIT_KNOWN_HOSTS_FILE";
      value = literal ("/etc/stoker/known-hosts/" <> kh.secret_ref.key);
    }
    ∷ []

-- The part of buildEnvVars that depends on the auth type.
unfoldable pub auth_env : Chosen → List EnvVar
auth_env no_auth = []
auth_env (by_ssh_key k) =
    record {
      name = "GIT_SSH_KEY_FILE";
      value = literal ("/etc/stoker/git-credentials/" <> k.secret_ref.key);
    }
    ∷ known_hosts_env k.known_hosts
auth_env (by_token t) =
    record {
      name = "GIT_TOKEN_FILE";
      value = literal ("/etc/stoker/git-credentials/" <> t.secret_ref.key);
    }
    ∷ []
auth_env (by_git_hub_app a) =
    record { name = "GIT_TOKEN_FILE"; value = literal "/etc/stoker/git-token/token" } ∷ []
