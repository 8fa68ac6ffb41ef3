-- ===== src/Git/Auth.antt =====
-- internal/git/auth.go, and the reading of a key of a Secret.
use stoker_operator.Prelude.{ℕ, String, Bool, Option, none, some, string_eq, if◌then◌else◌}
use stoker_operator.Prelude.Dict.{Dict, lookup}
use stoker_operator.Api.{
  SecretKeyRef, GitAuthSpec, SshKeyAuth, TokenAuth, GitHubAppAuth, KnownHosts,
}
use stoker_operator.Webhook.Inject.Auth.{no_auth, by_ssh_key, by_token, by_git_hub_app, choose}

-- The token that GitHub exchanges for an app's key, and when it expires.
pub record InstallationToken : Type 0 where
  pub token : String
  pub expires_at : ℕ

-- `transport.AuthMethod`: nil, a basic authentication, or a private key with the known hosts that it
-- checks, where it does.
pub data AuthMethod : Type 0 where
  nil_auth : AuthMethod
  basic_auth : String → String → AuthMethod
  public_keys : String → Option String → AuthMethod

-- What the code calls: the Secrets of the object's namespace by name, the exchange of a GitHub App's
-- key, and whether a private key and a known hosts file can be parsed.
pub record Calls : Type 0 where
  pub secret : String → Option (Dict String String)
  pub exchange : String → GitHubAppAuth → Option InstallationToken
  pub is_private_key : String → Bool
  pub is_known_hosts : String → Bool

infixl 5 ◌>>=◌
abbrev pub ◌>>=◌ {ℓ κ} : {A : Type ℓ} {B : Type κ} → Option A → (A → Option B) → Option B
none >>= k = none
some a >>= k = k a

abbrev pub when_ok {ℓ} : {A : Type ℓ} → Bool → A → Option A
when_ok ok a = if ok then some a else none

unfoldable pub secret_value : Calls → SecretKeyRef → Option String
secret_value c ref = do values ← c.secret ref.name; lookup ref.key values

abbrev pub basic : String → AuthMethod
basic token = basic_auth "x-access-token" token

unfoldable pub resolve_git_hub_app_auth : Calls → GitHubAppAuth → Option AuthMethod
unfolding secret_value
resolve_git_hub_app_auth c app = do
  pem ← secret_value c app.private_key_secret_ref
  result ← c.exchange pem app
  some (basic result.token)

unfoldable pub resolve_known_hosts : Calls → KnownHosts → Option String
unfolding secret_value
resolve_known_hosts c kh = do
  hosts ← secret_value c kh.secret_ref
  when_ok (c.is_known_hosts hosts) hosts

abbrev with_known_hosts : Calls → String → Option KnownHosts → Option AuthMethod
with_known_hosts c pem none = some (public_keys pem none)
with_known_hosts c pem (some kh) =
    resolve_known_hosts c kh >>= λ hosts. some (public_keys pem (some hosts))

unfoldable pub resolve_ssh_auth : Calls → SshKeyAuth → Option AuthMethod
unfolding secret_value resolve_known_hosts
resolve_ssh_auth c ssh = do
  pem ← secret_value c ssh.secret_ref
  key ← when_ok (c.is_private_key pem) pem
  with_known_hosts c key ssh.known_hosts

unfoldable pub resolve_token_auth : Calls → TokenAuth → Option AuthMethod
unfolding secret_value
resolve_token_auth c t = do token ← secret_value c t.secret_ref; some (basic token)

unfoldable pub resolve_auth : Calls → Option GitAuthSpec → Option AuthMethod
unfolding choose resolve_ssh_auth resolve_token_auth resolve_git_hub_app_auth
resolve_auth c auth = elim (choose auth) [
  | no_auth ↦ some nil_auth
  | by_ssh_key k ↦ resolve_ssh_auth c k
  | by_token t ↦ resolve_token_auth c t
  | by_git_hub_app a ↦ resolve_git_hub_app_auth c a
]
