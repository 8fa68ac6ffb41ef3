-- ===== src/Controller/Ref.antt =====
-- The resolution of the ref, the token cache and the intervals of gatewaysync_controller.go. Instants
-- and durations are in milliseconds.
pub mod Laws
use Prim.Native.Char.{code}
use Prim.Native.String
use mathlib.Core.Logic.{ite}
use native.Mathlib.Decide.{ℕ_discrete}
use stoker_operator.Prelude.{
  ℕ, ◌+◌, ◌-◌, ◌*◌, String, ◌<>◌, Bool, true, false, not, ◌&&◌, ◌||◌, Option, none, some, ◌==◌, ltb,
  string_eq, nat_eq, if◌then◌else◌,
}
use stoker_operator.Prelude.Text.{decimal}
use stoker_operator.Prelude.Dict.{Dict, lookup, insert, erase}
use stoker_operator.Api.{GitHubAppAuth, GitAuthSpec, GatewaySync}
use stoker_operator.Api.Annotation
use stoker_operator.Git.Remote.{GitResult, AdvRefs, ls_remote}
use stoker_operator.Git.Auth.{
  Calls, InstallationToken, AuthMethod, basic, secret_value, resolve_auth,
}
use stoker_operator.Webhook.Inject.Auth.{git_hub_app_of}

pub record CachedToken : Type 0 where
  pub token : String
  pub expiry : ℕ

abbrev pub TokenCache : Type 0
TokenCache = Dict String CachedToken

-- What the reconciler calls, and the clock. `parse_duration` is `time.ParseDuration` where the result
-- is not negative.
pub record World : Type 0 where
  pub now : ℕ
  pub calls : Calls
  pub is_hash : String → Bool
  pub advertised : String → AuthMethod → Option AdvRefs
  pub parse_duration : String → Option ℕ

abbrev pub second : ℕ
second = 1000

abbrev pub token_refresh_buffer : ℕ
token_refresh_buffer = 300 * second

unfoldable pub cache_key : GitHubAppAuth → String
cache_key app = decimal app.app_id <> ":" <> decimal app.installation_id

unfoldable pub cached_git_hub_token : String → TokenCache → Option CachedToken
cached_git_hub_token key cache = lookup key cache

unfoldable pub store_git_hub_token : String → CachedToken → TokenCache → TokenCache
store_git_hub_token key token cache = insert key token cache

abbrev pub is_off : Option Bool → Bool
is_off (some b) = not b
is_off none = false

abbrev or_minute : Option ℕ → ℕ
or_minute (some d) = d
or_minute none = 60 * second

unfoldable pub polling_interval : World → GatewaySync → ℕ
polling_interval w gs =
    let interval = gs.spec.polling.interval in
    if is_off gs.spec.polling.enabled
    then 0
    else or_minute (w.parse_duration (if interval == "" then "60s" else interval))

abbrev sooner : ℕ → ℕ → Option CachedToken → ℕ
sooner now interval none = interval
sooner now interval (some cached) =
    if ltb (now + token_refresh_buffer) cached.expiry
      && (interval == 0 || ltb (cached.expiry - (now + token_refresh_buffer)) interval)
    then cached.expiry - (now + token_refresh_buffer)
    else interval

abbrev requeue_for : World → TokenCache → ℕ → Option GitHubAppAuth → ℕ
requeue_for w cache interval none = interval
requeue_for w cache interval (some app) =
    sooner w.now interval (cached_git_hub_token (cache_key app) cache)

unfoldable pub requeue_interval : World → TokenCache → GatewaySync → ℕ
unfolding polling_interval cached_git_hub_token cache_key
requeue_interval w cache gs =
    requeue_for w cache (polling_interval w gs) (git_hub_app_of gs.spec.git.auth)

-- The token, if the cached one expires in more than 5 minutes.
abbrev still_valid : ℕ → Option CachedToken → Option String
still_valid now none = none
still_valid now (some cached) =
    if ltb (now + token_refresh_buffer) cached.expiry then some cached.token else none

abbrev exchanged : String → TokenCache → Option InstallationToken → Option String × TokenCache
exchanged key cache none = (none, cache)
exchanged key cache (some result) = (
  some result.token,
  store_git_hub_token key (record { token = result.token; expiry = result.expires_at }) cache,
)

abbrev exchange_pem : Calls → GitHubAppAuth → Option String → Option InstallationToken
exchange_pem c app none = none
exchange_pem c app (some pem) = c.exchange pem app

abbrev token_or :
    Option String → TokenCache → Option String × TokenCache → Option String × TokenCache
token_or (some token) cache later = (some token, cache)
token_or none cache later = later

-- resolveGitHubAppToken, with the cache that it leaves; `none` is an error.
unfoldable pub resolve_git_hub_app_token :
    World → TokenCache → GitHubAppAuth → Option String × TokenCache
unfolding cached_git_hub_token store_git_hub_token secret_value
resolve_git_hub_app_token w cache app =
    let key = cache_key app in
    token_or (still_valid w.now (cached_git_hub_token key cache)) cache (
      exchanged key cache
        (exchange_pem w.calls app (secret_value w.calls app.private_key_secret_ref)))

pub data RefError : Type 0 where
  git_hub_app_failed auth_failed ls_remote_failed : RefError

pub data Resolution : Type 0 where
  resolved_to : GitResult → Resolution
  unresolved_by : RefError → Resolution

abbrev or_spec : String → Option String → String
or_spec ref none = ref
or_spec ref (some requested) = if requested == "" then ref else requested

-- The ref to resolve: the one that a webhook asked for, or the specification's.
unfoldable pub wanted_ref : GatewaySync → String
wanted_ref gs = or_spec gs.spec.git.ref (lookup Annotation.requested_ref gs.meta.annotations)

abbrev synced_within : ℕ → ℕ → Option ℕ → Bool
synced_within now interval none = false
synced_within now interval (some at) = ltb now (at + interval)

unfoldable pub is_recent : World → GatewaySync → String → Bool
unfolding polling_interval
is_recent w gs ref =
    gs.status.ref_resolution_status == "Resolved"
    && (gs.status.last_sync_ref == ref
        && (not (gs.status.last_sync_commit == "")
            && synced_within w.now (polling_interval w gs) gs.status.last_sync_time))

abbrev as_resolution : Option GitResult → Resolution
as_resolution (some r) = resolved_to r
as_resolution none = unresolved_by ls_remote_failed

abbrev list_remote : World → GatewaySync → String → AuthMethod → Resolution
list_remote w gs ref auth =
    as_resolution (ls_remote w.is_hash w.advertised gs.spec.git.repo ref auth)

abbrev with_token :
    World → GatewaySync → String → Option String × TokenCache → Resolution × TokenCache
with_token w gs ref (none, cache) = (unresolved_by git_hub_app_failed, cache)
with_token w gs ref (some token, cache) = (list_remote w gs ref (basic token), cache)

abbrev with_auth : World → GatewaySync → String → Option AuthMethod → Resolution
with_auth w gs ref none = unresolved_by auth_failed
with_auth w gs ref (some auth) = list_remote w gs ref auth

abbrev ask_remote :
    World → TokenCache → GatewaySync → String → Option GitHubAppAuth → Resolution × TokenCache
ask_remote w cache gs ref (some app) = with_token w gs ref (resolve_git_hub_app_token w cache app)
ask_remote w cache gs ref none = (with_auth w gs ref (resolve_auth w.calls gs.spec.git.auth), cache)

-- resolveRef, with the cache that it leaves.
unfoldable pub resolve_ref : World → TokenCache → GatewaySync → Resolution × TokenCache
resolve_ref w cache gs =
    let ref = wanted_ref gs in
    if is_recent w gs ref
    then (
      resolved_to (record { commit = gs.status.last_sync_commit; ref = gs.status.last_sync_ref }),
      cache,
    )
    else ask_remote w cache gs ref (git_hub_app_of gs.spec.git.auth)

-- `strings.TrimPrefix(s, "v")`
unfoldable pub trim_v : String → String
unfolding ℕ_discrete
trim_v String.[] = ""
trim_v (String.◌∷◌ c s) = ite (ℕ_discrete (code c) b'v') s (String.◌∷◌ c s)

abbrev erase_requested : String → Option GatewaySync → Option GatewaySync
erase_requested ref none = none
erase_requested ref (some fresh) =
    let m = fresh.meta in
    elim (lookup Annotation.requested_ref m.annotations) [
      | none ↦ none
      | some now_ref ↦
          if now_ref == ref
          then some (record fresh {
            meta = record m { annotations = erase Annotation.requested_ref m.annotations };
          })
          else none
    ]

-- clearRequestedRefIfCaughtUp: the object that it patches, if it does; `fresh` is what it fetches.
unfoldable pub clear_requested_ref_if_caught_up :
    GatewaySync → Option GatewaySync → Option GatewaySync
unfolding trim_v
clear_requested_ref_if_caught_up gs fresh =
    elim (lookup Annotation.requested_ref gs.meta.annotations) [
      | none ↦ none
      | some ref ↦
          if ref == ""
          then none
          else if not (trim_v ref == trim_v gs.spec.git.ref)
          then none
          else erase_requested ref fresh
    ]
