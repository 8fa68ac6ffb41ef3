-- ===== src/Controller/Tests.antt =====
-- Runs of the controller's parts, and their theorems at concrete data.
use stoker_operator.Prelude.Text.{decimal, split_slash}
use stoker_operator.Prelude.{
  ℕ, ◌+◌, ◌≤◌, ◌<◌, String, ◌≡◌, ◌≢◌, ◌⊎◌, refl, ◌↔◌, Bool, true, false, ◌&&◌, none, some, List, [],
  ◌∷◌, ◌==◌, string_eq, nat_eq, list_eq, arith, if◌then◌else◌,
}
use stoker_operator.Prelude.Dict.{lookup, insert, erase}
use stoker_operator.Api.{GatewaySync}
use stoker_operator.Api.Annotation
use stoker_operator.Api.ConditionType
use stoker_operator.Api.Pod.{Pod}
use stoker_operator.Api.Samples.{app, app_auth, profile, gateway, gateway_sync, pod}
use stoker_operator.Controller.Backoff.{backoff_delay, record_failure, reset_backoff}
use stoker_operator.Controller.Backoff.Laws.{
  Event, failed, reset, replay, streak, backoff_table, backoff_delay-replay,
}
use stoker_operator.Controller.Conditions.{
  update_all_gateways_synced_condition, holds, update_ready_condition,
}
use stoker_operator.Controller.Conditions.Laws.{IsUnique, all_synced}
use stoker_operator.Controller.Conditions.Summary.{ready_summary}
use stoker_operator.Controller.Validate.{
  validate_profiles, contains_traversal, valid_var_key, validate_each, validate_mappings,
  validate_path, validate_var_keys,
}
use stoker_operator.Controller.Validate.Laws.{IsSafe, validate_profiles_iff}
use stoker_operator.Controller.Profiles.{ResolvedProfile, resolve_profiles}
use stoker_operator.Controller.Profiles.Laws.{Inherits, resolve_profiles-Inherits}
use stoker_operator.Git.Remote.{GitResult, match_ref, ls_remote}
use stoker_operator.Controller.Ref.{
  TokenCache, World, token_refresh_buffer, cached_git_hub_token, polling_interval, requeue_interval,
  resolve_git_hub_app_token, wanted_ref, resolve_ref, trim_v, clear_requested_ref_if_caught_up,
  cache_key, is_recent,
}
use stoker_operator.Controller.Ref.Laws.{
  HoldsToken, resolve_ref-ref, resolve_git_hub_app_token-HoldsToken, requeue_interval-token,
  clear_requested_ref_if_caught_up-wanted_ref,
}
use stoker_operator.Controller.Discovery.{
  references, is_running, gateway_of, discover_among, Decoders, collect_gateway_status,
}
use stoker_operator.Controller.Discovery.Laws.{Enriched, Each, collect_gateway_status-Enriched}
use stoker_operator.Controller.Discovery.Described.{Discovered}
use stoker_operator.Controller.Discovery.Found.{discover_among-Discovered}
use stoker_operator.Controller.Rbac.{
  agent_role_ref, RoleBinding, seen_accounts, build_subjects, Server,
  collect_service_accounts_from_pods, subjects_equal, new_binding, ensure_binding,
  ensure_agent_role_binding,
}
use stoker_operator.Controller.Rbac.Convergence.{IsBound, ensure_agent_role_binding-IsBound}
use stoker_operator.Controller.Rbac.Laws.{IsTrusted, IsGrant, ensure_agent_role_binding-IsGrant}
use stoker_operator.Controller.Rbac.Failure.{Fails, ensure_agent_role_binding_failed}

abbrev plain : GatewaySync
plain = gateway_sync [] none "v1.2"

abbrev events : List Event
events = failed 9 "b" ∷ failed 7 "a" ∷ failed 5 "a" ∷ reset "a" ∷ failed 1 "a" ∷ []

delay_after_two : backoff_delay (replay events) "a" ≡ 60
unfolding string_eq backoff_delay replay lookup record_failure insert reset_backoff erase
delay_after_two = refl

backoff_delay-replay_example : backoff_delay (replay events) "a" ≡ backoff_table (streak "a" events)
backoff_delay-replay_example = backoff_delay-replay "a" events

types_differ : (ConditionType.ref_resolved == ConditionType.profiles_valid) ≡ false
unfolding string_eq
types_differ = refl

plain-IsUnique : IsUnique plain.status.conditions
plain-IsUnique = λ t. ground (arith, types_differ)

ready_summary_example :
    holds ConditionType.ready
      (update_ready_condition 9 (update_all_gateways_synced_condition 9 plain))
    ≡ (holds ConditionType.ref_resolved plain
        && (all_synced plain.status.discovered_gateways
            && holds ConditionType.profiles_valid plain))
ready_summary_example = ready_summary 9 plain plain-IsUnique

validate_profiles_iff_example : (validate_profiles plain ≡ none) ↔ IsSafe plain
validate_profiles_iff_example = validate_profiles_iff plain

plain_is_valid : validate_profiles plain ≡ none
unfolding string_eq validate_profiles validate_var_keys valid_var_key validate_each
    validate_mappings validate_path contains_traversal split_slash
plain_is_valid = refl

resolve_profiles-Inherits_example :
    (rp : ResolvedProfile) × (lookup "base" (resolve_profiles plain) ≡ some rp)
    × Inherits plain.spec.sync.defaults profile rp
unfolding string_eq lookup
resolve_profiles-Inherits_example =
    resolve_profiles-Inherits plain "base" profile (refl, tt) (refl, (refl, tt)) (refl, tt) refl

abbrev tokens : TokenCache
tokens = ("12:345", record { token = "t0"; expiry = 1000000 }) ∷ []

-- One tag, a Secret with a key, and an exchange that yields a token for an hour.
abbrev world : ℕ → World
world now = record {
  now = now;
  calls = record {
    secret = λ name. if name == "app-key" then some (("pem", "key") ∷ []) else none;
    exchange = λ pem a. some (record { token = "t1"; expires_at = 5000000 });
    is_private_key = λ pem. true;
    is_known_hosts = λ hosts. true;
  };
  is_hash = λ ref. false;
  advertised =
      λ repo auth. some (record { peeled = []; references = ("refs/tags/v1.2", "abc") ∷ [] });
  parse_duration = λ s. if s == "60s" then some 60000 else none;
}

abbrev by_app : GatewaySync
by_app = gateway_sync ((Annotation.requested_ref, "v1.2") ∷ []) app_auth "1.2"

abbrev found : GitResult
found = record { commit = "abc"; ref = "v1.2" }

resolve_ref-ref_example : found.ref ≡ wanted_ref by_app
unfolding string_eq resolve_ref lookup resolve_git_hub_app_token ls_remote match_ref is_recent
    cache_key decimal wanted_ref
resolve_ref-ref_example = resolve_ref-ref (world 900000) tokens by_app found refl

resolve_git_hub_app_token-HoldsToken_example :
    HoldsToken (world 900000) app (resolve_git_hub_app_token (world 900000) tokens app).1 "t1"
unfolding string_eq resolve_git_hub_app_token lookup cache_key decimal
resolve_git_hub_app_token-HoldsToken_example =
    resolve_git_hub_app_token-HoldsToken (world 900000) tokens app "t1" refl

requeue_interval-token_example :
    (0 < requeue_interval (world 690000) tokens by_app)
    × (690000 + requeue_interval (world 690000) tokens by_app + token_refresh_buffer ≤ 1000000)
    × ((0 < polling_interval (world 690000) by_app)
        → requeue_interval (world 690000) tokens by_app ≤ polling_interval (world 690000) by_app)
unfolding string_eq cached_git_hub_token lookup cache_key decimal
requeue_interval-token_example =
    requeue_interval-token (world 690000) tokens by_app app
      (record { token = "t0"; expiry = 1000000 }) refl refl (omega arith)

abbrev cleared : GatewaySync
cleared = gateway_sync [] app_auth "1.2"

clear_requested_ref_if_caught_up-wanted_ref_example :
    (trim_v (wanted_ref by_app) ≡ trim_v by_app.spec.git.ref)
    × (wanted_ref cleared ≡ by_app.spec.git.ref)
    × ((key : String)
        → key ≢ Annotation.requested_ref
        → lookup key cleared.meta.annotations ≡ lookup key by_app.meta.annotations)
unfolding string_eq clear_requested_ref_if_caught_up lookup erase
clear_requested_ref_if_caught_up-wanted_ref_example =
    clear_requested_ref_if_caught_up-wanted_ref by_app by_app cleared refl

abbrev pods : List Pod
pods = pod ((Annotation.cr_name, "cr") ∷ (Annotation.inject, "true") ∷ []) ∷ pod [] ∷ []

discovered_one :
    (discover_among plain pods)
    ≡ gateway_of (pod ((Annotation.cr_name, "cr") ∷ (Annotation.inject, "true") ∷ [])) ∷ []
unfolding discover_among references is_running lookup string_eq
discovered_one = refl

discover_among-Discovered_example : Discovered plain pods (discover_among plain pods)
discover_among-Discovered_example = discover_among-Discovered plain pods

abbrev decoders : Decoders
decoders = record {
  unmarshal = λ s. some (record {
    sync_status = "Synced";
    synced_commit = s;
    synced_ref = "";
    last_sync_time = "";
    last_sync_duration = "";
    agent_version = "";
    last_scan_result = "";
    files_changed = 0;
    projects_synced = [];
    error_message = "";
    profile_name = "";
    dry_run = false;
    dry_run_diff_added = 0;
    dry_run_diff_modified = 0;
    dry_run_diff_deleted = 0;
    designer_sessions_blocked = false;
  });
  parse_time = λ s. none;
}

collect_gateway_status-Enriched_example :
    Each
      (Enriched decoders (("gw-0", "abc") ∷ []))
      (gateway ∷ [])
      (collect_gateway_status decoders (some (("gw-0", "abc") ∷ [])) (gateway ∷ []))
collect_gateway_status-Enriched_example =
    collect_gateway_status-Enriched decoders (("gw-0", "abc") ∷ []) (gateway ∷ [])

-- These texts are in order already.
abbrev as_they_are : List String → List String
as_they_are names = names

abbrev server : Bool → Server
server can_update = record {
  pods = some pods;
  get_succeeds = true;
  owner_is_settable = true;
  create_succeeds = true;
  delete_succeeds = true;
  update_succeeds = can_update;
}

abbrev granted : RoleBinding
granted = new_binding plain (build_subjects ("ignition" ∷ []) "site")

abbrev stale : RoleBinding
stale = new_binding plain (build_subjects ("gone" ∷ []) "site")

stale-IsTrusted : IsTrusted plain (some stale)
unfolding new_binding build_subjects
stale-IsTrusted old e named =
    let same : stale ≡ old = cc e in rw (← same) (refl, ((refl, refl), tt))

ensure_agent_role_binding-IsGrant_example : IsGrant plain pods granted
unfolding string_eq nat_eq list_eq ensure_agent_role_binding collect_service_accounts_from_pods
    seen_accounts subjects_equal build_subjects lookup ensure_binding new_binding references
ensure_agent_role_binding-IsGrant_example =
    ensure_agent_role_binding-IsGrant as_they_are (server true) plain pods (some stale) granted
      (λ xs a. refl) stale-IsTrusted refl refl refl

ensure_agent_role_binding_failed_example :
    ((ensure_agent_role_binding as_they_are (server false) plain (some stale)).is_ok ≡ false
      ↔ Fails as_they_are (server false) plain (some stale))
    × (((ensure_agent_role_binding as_they_are (server false) plain (some stale)).is_ok ≡ true)
        ⊎ ((ensure_agent_role_binding as_they_are (server false) plain (some stale)).binding
            ≡ some stale))
ensure_agent_role_binding_failed_example =
    ensure_agent_role_binding_failed as_they_are (server false) plain (some stale)

abbrev other_role : RoleBinding
other_role = record granted { role_ref = record agent_role_ref { name = "admin" } }

other_role-IsTrusted : IsTrusted plain (some other_role)
other_role-IsTrusted old e named = let same : other_role ≡ old = cc e in cc (same, named)

ensure_agent_role_binding-IsBound_example : IsBound plain pods (
    ensure_agent_role_binding as_they_are
      (server true)
      plain
      (ensure_agent_role_binding as_they_are (server true) plain (some other_role)).binding)
ensure_agent_role_binding-IsBound_example =
    ensure_agent_role_binding-IsBound as_they_are (server true) plain pods (some other_role)
      (λ xs a. refl) other_role-IsTrusted
      (record {
        lists = refl;
        gets = refl;
        owns = refl;
        creates = refl;
        deletes = refl;
        updates = refl;
      })
