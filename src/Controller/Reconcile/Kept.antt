-- ===== src/Controller/Reconcile/Kept.antt =====
-- A whole reconcile keeps its object good.
use stoker_operator.Prelude.{
  String, ◌≡◌, refl, sym, ◌∙◌, Bool, true, false, not, ◌&&◌, Option, none, some, contains,
  string_eq, if◌then◌else◌, Option-cases, Bool-cases, inl, inr,
}
use stoker_operator.Prelude.Dict.{lookup}
use stoker_operator.Api.{is_false, GatewaySyncSpec, GatewaySync}
use stoker_operator.Api.ConditionType
use stoker_operator.Api.Names
use stoker_operator.Api.Reason
use stoker_operator.Git.Remote.{GitResult}
use stoker_operator.Webhook.Inject.Auth.{is_some}
use stoker_operator.Controller.Conditions.{set_condition}
use stoker_operator.Controller.Conditions.Laws.{IsUnique}
use stoker_operator.Controller.Validate.{validate_profiles}
use stoker_operator.Controller.Ref.{
  Resolution, resolved_to, unresolved_by, resolve_ref, clear_requested_ref_if_caught_up,
}
use stoker_operator.Controller.Metadata.{validate_git_secrets, validate_api_key_secret}
use stoker_operator.Controller.Steps.{
  Env, State, Result, errored, append_finalizer, with_object, with_finalizers, update_object,
  finalize, judge_profiles, judge_host_key, ssh_key_of,
}
use stoker_operator.Controller.Backoff.{reset_backoff}
use stoker_operator.Api.Annotation
use stoker_operator.Controller.Reconcile.{
  is_requested, discover, write_owned, summarize, clear_requested, publish, with_api_key,
  note_resolution, with_resolved, with_git_secrets, sync, pause, on_request, reconcile_object,
  reconcile_found, reconcile,
}
use stoker_operator.Controller.Ref.Laws.{clear_requested_ref_if_caught_up-same}
use stoker_operator.Controller.Reconcile.Laws.{
  IsGood, StoresGood, set_condition-IsGood, summarize-IsGood, judge_profiles-IsGood,
  judge_host_key-IsGood, note_resolution-IsGood, discover-IsGood, stored-IsGood,
  patch_status-StoresGood, update_object-StoresGood, finalize-StoresGood,
  wait_for_secret-StoresGood, wait_for_ref-StoresGood,
}

clear_requested-StoresGood :
    (spec : GatewaySyncSpec) (env : Env) (gs : GatewaySync) (st : State)
    → StoresGood spec st
    → StoresGood spec (clear_requested env gs st)
unfolding clear_requested
clear_requested-StoresGood spec env gs st h =
    elim (Bool-cases (env.refetch_succeeds && env.patch_succeeds)) [
      | inl e ↦ elim (Option-cases (clear_requested_ref_if_caught_up gs st.object)) [
        | inl f ↦ rw (e, f) h
        | inr (new, f) ↦
            let (fresh, is_fresh, same_spec, same_status) =
              clear_requested_ref_if_caught_up-same gs st.object new f in
            let (good, unique) = h fresh is_fresh in
            rw (e, f)
              (λ later k. stored-IsGood spec new later (same_spec ∙ good, rw same_status unique) k)
      ]
      | inr e ↦ rw e h
    ]

publish-StoresGood :
    (spec : GatewaySyncSpec) (env : Env) (gs : GatewaySync) (result : GitResult) (st : State)
    → IsGood spec gs
    → StoresGood spec st
    → StoresGood spec (publish env gs result st).1
unfolding publish
publish-StoresGood spec env gs result st g h =
    let written = write_owned env gs result st in
    let summary = summarize env (discover env gs written) in
    let good =
      summarize-IsGood spec env (discover env gs written) (discover-IsGood spec env gs written g) in
    elim (Bool-cases env.patch_status_succeeds) [
      | inl e ↦ rw e (
          clear_requested-StoresGood spec env summary (with_object summary written)
            (λ new f. stored-IsGood spec summary new good f))
      | inr e ↦ rw e h
    ]

with_api_key-StoresGood :
    (spec : GatewaySyncSpec) (env : Env) (key : String) (gs : GatewaySync) (result : GitResult)
    (st : State) (o : Option String)
    → IsGood spec gs
    → StoresGood spec st
    → StoresGood spec (with_api_key env key gs result st o).1
unfolding with_api_key
with_api_key-StoresGood spec env key gs result st (some name) g h =
    wait_for_secret-StoresGood spec env key name gs st g h
with_api_key-StoresGood spec env key gs result st none g h =
    publish-StoresGood spec env gs result st g h

with_resolved-StoresGood :
    (spec : GatewaySyncSpec) (env : Env) (key : String) (gs : GatewaySync) (st : State)
    (r : Resolution)
    → IsGood spec gs
    → StoresGood spec st
    → StoresGood spec (with_resolved env key gs st r).1
unfolding with_resolved
with_resolved-StoresGood spec env key gs st (unresolved_by e) g h =
    wait_for_ref-StoresGood spec env key e gs st g h
with_resolved-StoresGood spec env key gs st (resolved_to result) g h =
    with_api_key-StoresGood spec env key (note_resolution env result gs) result
      (record st { backoff = reset_backoff key st.backoff })
      (validate_api_key_secret env.world.calls gs) (note_resolution-IsGood spec env result gs g) h

with_git_secrets-StoresGood :
    (spec : GatewaySyncSpec) (env : Env) (key : String) (gs : GatewaySync) (st : State)
    (o : Option String)
    → IsGood spec gs
    → StoresGood spec st
    → StoresGood spec (with_git_secrets env key gs st o).1
unfolding with_git_secrets
with_git_secrets-StoresGood spec env key gs st (some name) g h =
    wait_for_secret-StoresGood spec env key name gs st g h
with_git_secrets-StoresGood spec env key gs st none g h =
    let judged = judge_host_key env (ssh_key_of gs.spec.git.auth) gs in
    let (resolution, tokens) = resolve_ref env.world st.tokens judged in
    with_resolved-StoresGood spec env key judged (record st { tokens = tokens }) resolution
      (judge_host_key-IsGood spec env (ssh_key_of gs.spec.git.auth) gs g) h

if-StoresGood :
    (spec : GatewaySyncSpec) (b : Bool) (x y : Result × State)
    → StoresGood spec x.1
    → StoresGood spec y.1
    → StoresGood spec (if b then x else y).1
if-StoresGood spec true x y g h = g
if-StoresGood spec false x y g h = h

pause-StoresGood :
    (spec : GatewaySyncSpec) (env : Env) (gs : GatewaySync) (st : State)
    → IsGood spec gs
    → StoresGood spec st
    → StoresGood spec (pause env gs st).1
unfolding pause
pause-StoresGood spec env gs st g h =
    let paused =
      set_condition env.seconds ConditionType.ready is_false Reason.paused "Reconciliation paused"
        gs in
    patch_status-StoresGood spec env paused st
      (set_condition-IsGood spec env.seconds ConditionType.ready is_false Reason.paused
        "Reconciliation paused" gs g)
      h

sync-StoresGood :
    (spec : GatewaySyncSpec) (env : Env) (key : String) (gs : GatewaySync) (st : State)
    → IsGood spec gs
    → StoresGood spec st
    → StoresGood spec (sync env key gs st).1
unfolding sync
sync-StoresGood spec env key gs st g h =
    with_git_secrets-StoresGood spec env key (judge_profiles env (validate_profiles gs) gs) st
      (validate_git_secrets env.world.calls gs)
      (judge_profiles-IsGood spec env (validate_profiles gs) gs g) h

reconcile_object-StoresGood :
    (spec : GatewaySyncSpec) (env : Env) (key : String) (gs : GatewaySync) (st : State)
    → IsGood spec gs
    → StoresGood spec st
    → StoresGood spec (reconcile_object env key gs st).1
unfolding reconcile_object
reconcile_object-StoresGood spec env key gs st g h =
    let with_finalizer = with_finalizers (append_finalizer gs.meta.finalizers) gs in
    let add = update_object env with_finalizer st in
    let halt = pause env gs st in
    let go = sync env key gs st in
    let active = if gs.spec.paused then halt else go in
    let unfinished = not (contains gs.meta.finalizers Names.finalizer) in
    if-StoresGood spec (is_some gs.meta.deletion_timestamp) (finalize env key gs st)
      (if unfinished then add else active) (finalize-StoresGood spec env key gs st g h)
      (if-StoresGood spec unfinished add active
        (update_object-StoresGood spec env with_finalizer st g h)
        (if-StoresGood spec gs.spec.paused halt go (pause-StoresGood spec env gs st g h)
          (sync-StoresGood spec env key gs st g h)))

on_request-StoresGood :
    (spec : GatewaySyncSpec) (key : String) (gs : GatewaySync) (st : State)
    → StoresGood spec st
    → StoresGood spec (on_request key gs st)
unfolding on_request
on_request-StoresGood spec key gs st h =
    elim (Bool-cases (is_requested (lookup Annotation.requested_ref gs.meta.annotations))) [
      | inl e ↦ rw e h
      | inr e ↦ rw e h
    ]

reconcile_found-StoresGood :
    (spec : GatewaySyncSpec) (env : Env) (key : String) (st : State) (o : Option GatewaySync)
    → ((gs : GatewaySync) → o ≡ some gs → IsGood spec gs)
    → StoresGood spec st
    → StoresGood spec (reconcile_found env key st o).1
reconcile_found-StoresGood spec env key st none g h = h
reconcile_found-StoresGood spec env key st (some gs) g h =
    reconcile_object-StoresGood spec env key gs (on_request key gs st) (g gs refl)
      (on_request-StoresGood spec key gs st h)

-- Whatever the server answers, a reconcile of an object that has at most one condition of each type
-- leaves, if the object is still there, one with the same specification and again at most one
-- condition of each type.
pub reconcile-IsGood :
    (env : Env) (key : String) (st : State) (gs new : GatewaySync)
    → st.object ≡ some gs
    → IsUnique gs.status.conditions
    → (reconcile env key st).1.object ≡ some new
    → IsGood gs.spec new
unfolding reconcile
reconcile-IsGood env key st gs new e unique h =
    let good : StoresGood gs.spec st =
      λ old f. stored-IsGood gs.spec gs old (refl, unique) (sym e ∙ f) in
    if-StoresGood gs.spec env.object_get_fails (errored, st) (reconcile_found env key st st.object)
      good (reconcile_found-StoresGood gs.spec env key st st.object good good) new h
