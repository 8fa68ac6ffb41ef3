-- ===== src/Controller/Reconcile.antt =====
-- Reconcile of gatewaysync_controller.go: the steps in their order.
pub mod Laws
pub mod Kept
mod Tests
use stoker_operator.Prelude.{
  ℕ, ◌*◌, String, ◌<>◌, Bool, true, false, not, ◌&&◌, ◌||◌, Option, none, some, List, [], ◌∷◌,
  length, contains, ◌==◌, string_eq, if◌then◌else◌,
}
use stoker_operator.Prelude.Dict.{Dict, lookup}
use stoker_operator.Api.{is_true, is_false, DiscoveredGateway, GatewaySync}
use stoker_operator.Api.Annotation
use stoker_operator.Api.ConditionType
use stoker_operator.Api.Names
use stoker_operator.Api.Reason
use stoker_operator.Git.Remote.{GitResult}
use stoker_operator.Webhook.Inject.Auth.{is_some}
use stoker_operator.Controller.Backoff.{reset_backoff}
use stoker_operator.Controller.Conditions.{
  set_condition, update_all_gateways_synced_condition, update_ready_condition,
}
use stoker_operator.Controller.Validate.{validate_profiles}
use stoker_operator.Controller.Ref.{
  TokenCache, Resolution, resolved_to, unresolved_by, resolve_ref, requeue_interval,
  clear_requested_ref_if_caught_up,
}
use stoker_operator.Controller.Discovery.{discover_gateways, collect_gateway_status}
use stoker_operator.Controller.Rbac.{Outcome, ensure_agent_role_binding}
use stoker_operator.Controller.Metadata.{
  Objects, Stored, ensure_metadata_config_map, validate_git_secrets, validate_api_key_secret,
}
use stoker_operator.Controller.Steps.{
  Env, State, Result, done, requeue_after, errored, with_object, patch_status, ok_or_error,
  with_finalizers, append_finalizer, update_object, finalize, wait_for_secret, wait_for_ref,
  judge_profiles, judge_host_key, ssh_key_of, with_resolution, note_commit,
}

abbrev values_of : Option Stored → Option (Dict String String)
values_of none = none
values_of (some s) = some s.values

-- Step 5: the status ConfigMap of the agents.
abbrev agent_status : Env → GatewaySync → State → Option (Dict String String)
agent_status env gs st =
    let name = "stoker-status-" <> gs.meta.name in
    if env.api.get_succeeds name then values_of (lookup name st.objects.config_maps) else none

abbrev with_gateways : GatewaySync → List DiscoveredGateway → GatewaySync
with_gateways gs gws =
    let st = gs.status in record gs { status = record st { discovered_gateways = gws } }

abbrev discovered_or :
    Env → Option (Dict String String) → GatewaySync → Option (List DiscoveredGateway) → GatewaySync
discovered_or env cm_data gs none = gs
discovered_or env cm_data gs (some gws) =
    with_gateways gs (collect_gateway_status env.decoders cm_data gws)

unfoldable pub discover : Env → GatewaySync → State → GatewaySync
discover env gs st =
    discovered_or env (agent_status env gs st) gs (discover_gateways gs env.server.pods)

-- Steps 4 and 5.5: what is written beside the object; their errors are only logged.
unfoldable pub write_owned : Env → GatewaySync → GitResult → State → State
write_owned env gs result st =
    let (ok, objects) =
      ensure_metadata_config_map env.api env.marshal st.tokens gs result st.objects in
    let bound = (ensure_agent_role_binding env.sort env.server gs st.binding).binding in
    record st { objects = objects; binding = if env.auto_bind then bound else st.binding }

-- Steps 6 and 7, but for the patch.
unfoldable pub summarize : Env → GatewaySync → GatewaySync
summarize env gs =
    let judged =
      update_ready_condition env.seconds (update_all_gateways_synced_condition env.seconds gs) in
    let st = judged.status in
    record judged {
      status = record st {
        observed_generation = gs.meta.generation;
        profile_count = length gs.spec.sync.profiles;
      };
    }

abbrev patched_or : State → Option GatewaySync → State
patched_or st none = st
patched_or st (some new) = with_object new st

-- Step 7.5
unfoldable pub clear_requested : Env → GatewaySync → State → State
clear_requested env gs st =
    if env.refetch_succeeds && env.patch_succeeds
    then patched_or st (clear_requested_ref_if_caught_up gs st.object)
    else st

-- From step 4 on.
unfoldable pub publish : Env → GatewaySync → GitResult → State → Result × State
unfolding discover write_owned summarize clear_requested
publish env gs result st =
    let written = write_owned env gs result st in
    let summary = summarize env (discover env gs written) in
    if not env.patch_status_succeeds then (errored, written) else (
      requeue_after (requeue_interval env.world st.tokens summary),
      clear_requested env summary (with_object summary written),
    )

-- Step 3.5
unfoldable pub with_api_key :
    Env → String → GatewaySync → GitResult → State → Option String → Result × State
with_api_key env key gs result st (some name) = wait_for_secret env key name gs st
with_api_key env key gs result st none = publish env gs result st

-- What step 3 sets in the status where the ref was resolved.
unfoldable pub note_resolution : Env → GitResult → GatewaySync → GatewaySync
unfolding note_commit
note_resolution env result gs = note_commit env result (
    with_resolution "Resolved" (
      set_condition env.seconds ConditionType.ref_resolved is_true Reason.ref_resolved result.commit
        gs))

-- Step 3
unfoldable pub with_resolved : Env → String → GatewaySync → State → Resolution → Result × State
with_resolved env key gs st (unresolved_by e) = wait_for_ref env key e gs st
with_resolved env key gs st (resolved_to result) =
    with_api_key env key (note_resolution env result gs) result
      (record st { backoff = reset_backoff key st.backoff })
      (validate_api_key_secret env.world.calls gs)

-- Step 2.5, and the call of step 3.
unfoldable pub with_git_secrets :
    Env → String → GatewaySync → State → Option String → Result × State
with_git_secrets env key gs st (some name) = wait_for_secret env key name gs st
with_git_secrets env key gs st none =
    let judged = judge_host_key env (ssh_key_of gs.spec.git.auth) gs in
    let (resolution, tokens) = resolve_ref env.world st.tokens judged in
    with_resolved env key judged (record st { tokens = tokens }) resolution

-- Steps 1 and 2.
unfoldable pub sync : Env → String → GatewaySync → State → Result × State
sync env key gs st =
    let judged = judge_profiles env (validate_profiles gs) gs in
    with_git_secrets env key judged st (validate_git_secrets env.world.calls gs)

-- Step 0.5
unfoldable pub pause : Env → GatewaySync → State → Result × State
pause env gs st =
    let paused =
      set_condition env.seconds ConditionType.ready is_false Reason.paused "Reconciliation paused"
        gs in
    (ok_or_error env.patch_status_succeeds, patch_status env paused st)

abbrev is_requested : Option String → Bool
is_requested none = false
is_requested (some ref) = not (ref == "")

-- A webhook's request resets the backoff.
unfoldable pub on_request : String → GatewaySync → State → State
on_request key gs st =
    if is_requested (lookup Annotation.requested_ref gs.meta.annotations)
    then record st { backoff = reset_backoff key st.backoff }
    else st

unfoldable pub reconcile_object : Env → String → GatewaySync → State → Result × State
reconcile_object env key gs st =
    if is_some gs.meta.deletion_timestamp
    then finalize env key gs st
    else if not (contains gs.meta.finalizers Names.finalizer)
    then update_object env (with_finalizers (append_finalizer gs.meta.finalizers) gs) st
    else if gs.spec.paused
    then pause env gs st
    else sync env key gs st

abbrev reconcile_found : Env → String → State → Option GatewaySync → Result × State
reconcile_found env key st none = (done, st)
reconcile_found env key st (some gs) = reconcile_object env key gs (on_request key gs st)

-- Reconcile of the object of that key.
unfoldable pub reconcile : Env → String → State → Result × State
reconcile env key st =
    if env.object_get_fails then (errored, st) else reconcile_found env key st st.object
