-- ===== src/Controller/Metadata.antt =====
-- The objects that the controller owns, in gatewaysync_controller.go: the metadata ConfigMap and the
-- token Secret that agents read, their cleanup, and the Secrets that an object needs.
pub mod Laws
use stoker_operator.Prelude.{
  ℕ, String, ◌<>◌, Bool, true, false, not, ◌&&◌, ◌||◌, Option, none, some, List, [], ◌∷◌, ◌++◌,
  length, ◌==◌, string_eq, nat_eq, if◌then◌else◌,
}
use stoker_operator.Prelude.Text.{decimal}
use stoker_operator.Prelude.Dict.{Dict, lookup, insert, erase}
use stoker_operator.Api.{GitHubAppAuth, GitAuthSpec, SshKeyAuth, TokenAuth, GatewaySync}
use stoker_operator.Git.Remote.{GitResult}
use stoker_operator.Git.Auth.{Calls}
use stoker_operator.Webhook.Inject.Auth.{resolve_auth_type, git_hub_app_of}
use stoker_operator.Controller.Profiles.{ResolvedProfile, resolve_profiles}
use stoker_operator.Controller.Ref.{CachedToken, TokenCache, cache_key, cached_git_hub_token}

-- A ConfigMap or a Secret of the object's namespace.
pub record Stored : Type 0 where
  pub labels : Dict String String
  pub annotations : Dict String String
  pub owner : String
  pub values : Dict String String

-- The ConfigMaps and the Secrets by name.
pub record Objects : Type 0 where
  pub config_maps : Dict String Stored
  pub secrets : Dict String Stored

-- Whether each call on the object of that name succeeds.
pub record Api : Type 0 where
  pub get_succeeds : String → Bool
  pub owner_is_settable : Bool
  pub create_succeeds : String → Bool
  pub update_succeeds : String → Bool
  pub delete_succeeds : String → Bool

abbrev pub bool_text : Bool → String
bool_text true = "true"
bool_text false = "false"

abbrev tls_entry : Option Bool → Dict String String
tls_entry none = []
tls_entry (some b) = ("gatewayTLS", bool_text b) ∷ []

-- What the agents are told. `marshal` is `json.Marshal` of the profiles.
unfoldable pub metadata_values :
    (Dict String ResolvedProfile → String) → GatewaySync → GitResult → Dict String String
metadata_values marshal gs result =
    ("commit", result.commit)
    ∷ ("ref", result.ref)
    ∷ ("gitURL", gs.spec.git.repo)
    ∷ ("paused", bool_text gs.spec.paused)
    ∷ ("authType", resolve_auth_type gs.spec.git.auth)
    ∷ ("profiles", marshal (resolve_profiles gs))
    ∷ ("gatewayPort", decimal gs.spec.gateway.port)
    ∷ tls_entry gs.spec.gateway.tls

abbrev pub is_value : String → Option String → Bool
is_value v none = false
is_value v (some w) = v == w

unfoldable pub includes : Dict String String → Dict String String → Bool
includes d [] = true
includes d ((k, v) ∷ e) = is_value v (lookup k d) && includes d e

-- `reflect.DeepEqual` of two maps
unfoldable pub same_map : Dict String String → Dict String String → Bool
unfolding includes
same_map a b = length a == length b && includes a b

abbrev owned_labels : GatewaySync → Dict String String
owned_labels gs =
    ("app.kubernetes.io/managed-by", "stoker-controller") ∷ ("stoker.io/cr-name", gs.meta.name) ∷ []

-- Get, and then create, update or leave: the common course of ensureMetadataConfigMap and
-- ensureGitHubTokenSecret. The result is whether there was no error, and the objects of that kind.
unfoldable pub ensure :
    Api
    → String
    → Stored
    → (Dict String String → Bool)
    → (Dict String String → Dict String String)
    → Dict String Stored
    → Bool × Dict String Stored
ensure api name fresh is_current change objects =
    if not (api.get_succeeds name) then (false, objects) else elim (lookup name objects) [
      | none ↦
          if not api.owner_is_settable
          then (false, objects)
          else if api.create_succeeds name
          then (true, insert name fresh objects)
          else (false, objects)
      | some old ↦
          if is_current old.values
          then (true, objects)
          else if api.update_succeeds name
          then (true, insert name (record old { values = change old.values }) objects)
          else (false, objects)
    ]

unfoldable pub ensure_git_hub_token_secret :
    Api → GatewaySync → String → Dict String Stored → Bool × Dict String Stored
unfolding ensure
ensure_git_hub_token_secret api gs token secrets =
    ensure api ("stoker-github-token-" <> gs.meta.name)
      (record {
        labels = owned_labels gs;
        annotations = ("stoker.io/secret-type", "github-app-token") ∷ [];
        owner = gs.meta.name;
        values = ("token", token) ∷ [];
      })
      (λ values. is_value token (lookup "token" values)) (λ values. insert "token" token values)
      secrets

-- The token Secret where a GitHub App's token is cached; else the Secrets as they are.
abbrev pub token_secret :
    Api
    → GatewaySync
    → TokenCache
    → Option GitHubAppAuth
    → Dict String Stored
    → Bool × Dict String Stored
token_secret api gs cache none secrets = (true, secrets)
token_secret api gs cache (some app) secrets = elim (cached_git_hub_token (cache_key app) cache) [
  | none ↦ (true, secrets)
  | some cached ↦ ensure_git_hub_token_secret api gs cached.token secrets
]

abbrev pub fresh_map : GatewaySync → Dict String String → Stored
fresh_map gs values = record {
  labels = owned_labels gs;
  annotations = [];
  owner = gs.meta.name;
  values = values;
}

unfoldable pub ensure_values :
    Api → GatewaySync → Dict String String → Dict String Stored → Bool × Dict String Stored
unfolding ensure
ensure_values api gs values config_maps =
    ensure api ("stoker-metadata-" <> gs.meta.name) (fresh_map gs values)
      (λ old. same_map old values) (λ old. values) config_maps

unfoldable pub ensure_metadata_config_map :
    Api
    → (Dict String ResolvedProfile → String)
    → TokenCache
    → GatewaySync
    → GitResult
    → Objects
    → Bool × Objects
ensure_metadata_config_map api marshal cache gs result objects =
    let (secret_ok, secrets) =
      token_secret api gs cache (git_hub_app_of gs.spec.git.auth) objects.secrets in
    let with_secrets = record objects { secrets = secrets } in
    let (ok, config_maps) =
      ensure_values api gs (metadata_values marshal gs result) objects.config_maps in
    if not secret_ok
    then (false, with_secrets)
    else (ok, record with_secrets { config_maps = config_maps })

-- Get and delete; an object that is not there is no error.
unfoldable pub remove : Api → String → Dict String Stored → Bool × Dict String Stored
remove api name objects =
    if not (api.get_succeeds name) then (false, objects) else elim (lookup name objects) [
      | none ↦ (true, objects)
      | some old ↦ if api.delete_succeeds name then (true, erase name objects) else (false, objects)
    ]

unfoldable pub remove_all : Api → List String → Dict String Stored → Bool × Dict String Stored
unfolding remove
remove_all api [] objects = (true, objects)
remove_all api (name ∷ names) objects =
    let (ok, left) = remove api name objects in
    let rest = remove_all api names left in if ok then rest else (false, left)

abbrev pub owned_config_maps : GatewaySync → List String
owned_config_maps gs =
    ("stoker-metadata-" <> gs.meta.name)
    ∷ ("stoker-status-" <> gs.meta.name)
    ∷ ("stoker-changes-" <> gs.meta.name)
    ∷ []

unfoldable pub cleanup_owned_resources : Api → GatewaySync → Objects → Bool × Objects
cleanup_owned_resources api gs objects =
    let (ok, config_maps) = remove_all api (owned_config_maps gs) objects.config_maps in
    let without_maps = record objects { config_maps = config_maps } in
    let (secret_ok, secrets) =
      remove api ("stoker-github-token-" <> gs.meta.name) objects.secrets in
    if not ok then (false, without_maps) else (secret_ok, record without_maps { secrets = secrets })

-- The Secrets that the authentication names, in the order in which they are looked for.
abbrev ssh_secret : Option SshKeyAuth → List String
ssh_secret none = []
ssh_secret (some k) = k.secret_ref.name ∷ []

abbrev git_token_secret : Option TokenAuth → List String
git_token_secret none = []
git_token_secret (some t) = t.secret_ref.name ∷ []

abbrev app_secret : Option GitHubAppAuth → List String
app_secret none = []
app_secret (some a) = a.private_key_secret_ref.name ∷ []

unfoldable pub git_secret_names : Option GitAuthSpec → List String
git_secret_names none = []
git_secret_names (some auth) =
    ssh_secret auth.ssh_key ++ (git_token_secret auth.token ++ app_secret auth.git_hub_app)

first_missing : Calls → List String → Option String
first_missing c [] = none
first_missing c (name ∷ names) =
    let rest = first_missing c names in
    elim (c.secret name) [ none ↦ some name | some values ↦ rest ]

-- validateGitSecrets: the name of the Secret that its error names.
unfoldable pub validate_git_secrets : Calls → GatewaySync → Option String
unfolding first_missing
validate_git_secrets c gs = first_missing c (git_secret_names gs.spec.git.auth)

unfoldable pub validate_api_key_secret : Calls → GatewaySync → Option String
unfolding first_missing
validate_api_key_secret c gs = first_missing c (gs.spec.gateway.api.secret_name ∷ [])
