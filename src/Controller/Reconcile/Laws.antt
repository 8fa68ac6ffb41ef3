-- ===== src/Controller/Reconcile/Laws.antt =====
-- What a reconcile keeps of an object.
use stoker_operator.Prelude.{
  ℕ, String, ◌≡◌, sym, ◌∙◌, Option, none, some, contains, ◌==◌, string_eq, arith, Option-cases,
  Bool-cases, inl, inr,
}
use stoker_operator.Api.{
  ConditionStatus, is_true, is_false, SshKeyAuth, GatewaySyncSpec, GatewaySync,
}
use stoker_operator.Api.ConditionType
use stoker_operator.Api.Names
use stoker_operator.Api.Reason
use stoker_operator.Git.Remote.{GitResult}
use stoker_operator.Webhook.Inject.Auth.{is_some}
use stoker_operator.Controller.Conditions.{
  set_condition, update_all_gateways_synced_condition, update_ready_condition, set_synced,
  set_sidecar_injected,
}
use stoker_operator.Controller.Conditions.Laws.{
  IsUnique, set_condition-IsUnique, update_ready_condition-IsUnique,
}
use stoker_operator.Controller.Conditions.Summary.{update_all_gateways_synced_condition-IsUnique}
use stoker_operator.Controller.Validate.{ProfileError}
use stoker_operator.Controller.Ref.{RefError}
use stoker_operator.Controller.Discovery.{discover_gateways}
use stoker_operator.Controller.Metadata.{cleanup_owned_resources}
use stoker_operator.Controller.Steps.{
  Env, State, secret_missing, ref_failed, is_gone, delay_of_next, count_failure, reason_of,
  patch_status, update_object, finalize, wait_for_secret, wait_for_ref, judge_profiles,
  judge_host_key, with_resolution, note_commit,
}
use stoker_operator.Controller.Reconcile.{discover, summarize, note_resolution}

-- An object with that specification and at most one condition of each type.
abbrev pub IsGood : GatewaySyncSpec → GatewaySync → Type 0
IsGood spec gs = (gs.spec ≡ spec) × IsUnique gs.status.conditions

-- The object that is stored, if there is one, is good.
abbrev pub StoresGood : GatewaySyncSpec → State → Type 0
StoresGood spec st = (gs : GatewaySync) → st.object ≡ some gs → IsGood spec gs

pub set_condition-IsGood :
    (spec : GatewaySyncSpec) (now : ℕ) (t : String) (s : ConditionStatus) (reason message : String)
    (gs : GatewaySync)
    → IsGood spec gs
    → IsGood spec (set_condition now t s reason message gs)
unfolding set_condition
set_condition-IsGood spec now t s reason message gs (e, h) =
    (e, set_condition-IsUnique now t s reason message gs h)

spec-update_ready_condition :
    (now : ℕ) (gs : GatewaySync) → (update_ready_condition now gs).spec ≡ gs.spec
unfolding update_ready_condition set_condition
spec-update_ready_condition now gs = ground arith

spec-update_all_gateways_synced_condition :
    (now : ℕ) (gs : GatewaySync) → (update_all_gateways_synced_condition now gs).spec ≡ gs.spec
unfolding update_all_gateways_synced_condition set_synced set_sidecar_injected set_condition
spec-update_all_gateways_synced_condition now gs = ground arith

pub summarize-IsGood :
    (spec : GatewaySyncSpec) (env : Env) (gs : GatewaySync)
    → IsGood spec gs
    → IsGood spec (summarize env gs)
unfolding summarize
summarize-IsGood spec env gs (e, h) =
    let synced = update_all_gateways_synced_condition env.seconds gs in
    (
      spec-update_ready_condition env.seconds synced
          ∙ spec-update_all_gateways_synced_condition env.seconds gs
          ∙ e,
      update_ready_condition-IsUnique env.seconds synced
          (update_all_gateways_synced_condition-IsUnique env.seconds gs h),
    )

pub judge_profiles-IsGood :
    (spec : GatewaySyncSpec) (env : Env) (o : Option ProfileError) (gs : GatewaySync)
    → IsGood spec gs
    → IsGood spec (judge_profiles env o gs)
judge_profiles-IsGood spec env none gs g = set_condition-IsGood spec env.seconds _ is_true _ _ gs g
judge_profiles-IsGood spec env (some e) gs g =
    set_condition-IsGood spec env.seconds _ is_false _ _ gs g

pub judge_host_key-IsGood :
    (spec : GatewaySyncSpec) (env : Env) (o : Option SshKeyAuth) (gs : GatewaySync)
    → IsGood spec gs
    → IsGood spec (judge_host_key env o gs)
judge_host_key-IsGood spec env none gs g = g
judge_host_key-IsGood spec env (some k) gs g = elim (Bool-cases (is_some k.known_hosts)) [
  | inl e ↦ rw e (set_condition-IsGood spec env.seconds _ is_true _ _ gs g)
  | inr e ↦ rw e (set_condition-IsGood spec env.seconds _ is_false _ _ gs g)
]

note_commit-IsGood :
    (spec : GatewaySyncSpec) (env : Env) (result : GitResult) (gs : GatewaySync)
    → IsGood spec gs
    → IsGood spec (note_commit env result gs)
unfolding note_commit
note_commit-IsGood spec env result gs g =
    elim (Bool-cases (gs.status.last_sync_commit == result.commit)) [
      | inl e ↦ rw e g
      | inr e ↦ rw e g
    ]

pub note_resolution-IsGood :
    (spec : GatewaySyncSpec) (env : Env) (result : GitResult) (gs : GatewaySync)
    → IsGood spec gs
    → IsGood spec (note_resolution env result gs)
unfolding note_resolution
note_resolution-IsGood spec env result gs g =
    let set =
      set_condition env.seconds ConditionType.ref_resolved is_true Reason.ref_resolved result.commit
        gs in
    note_commit-IsGood spec env result (with_resolution "Resolved" set) (
      set_condition-IsGood spec env.seconds ConditionType.ref_resolved is_true Reason.ref_resolved
        result.commit gs g)

pub discover-IsGood :
    (spec : GatewaySyncSpec) (env : Env) (gs : GatewaySync) (st : State)
    → IsGood spec gs
    → IsGood spec (discover env gs st)
unfolding discover
discover-IsGood spec env gs st g = elim (Option-cases (discover_gateways gs env.server.pods)) [
  | inl e ↦ rw e g
  | inr (gws, e) ↦ rw e g
]

pub stored-IsGood :
    (spec : GatewaySyncSpec) (gs new : GatewaySync)
    → IsGood spec gs
    → ◌≡◌ {A = Option GatewaySync} (some gs) (some new)
    → IsGood spec new
stored-IsGood spec gs new (e, h) f = let same : gs ≡ new = ground (arith, f) in rw (sym same) (e, h)

pub patch_status-StoresGood :
    (spec : GatewaySyncSpec) (env : Env) (gs : GatewaySync) (st : State)
    → IsGood spec gs
    → StoresGood spec st
    → StoresGood spec (patch_status env gs st)
patch_status-StoresGood spec env gs st g h = elim (Bool-cases env.patch_status_succeeds) [
  | inl e ↦ rw e (λ new f. stored-IsGood spec gs new g f)
  | inr e ↦ rw e h
]

pub update_object-StoresGood :
    (spec : GatewaySyncSpec) (env : Env) (gs : GatewaySync) (st : State)
    → IsGood spec gs
    → StoresGood spec st
    → StoresGood spec (update_object env gs st).1
update_object-StoresGood spec env gs st g h = elim (Bool-cases env.update_succeeds) [
  | inl e ↦ elim (Bool-cases (is_gone gs)) [
    | inl f ↦ rw (e, f) (λ new k. ground (arith, k))
    | inr f ↦ rw (e, f) (λ new k. stored-IsGood spec gs new g k)
  ]
  | inr e ↦ rw e h
]

pub finalize-StoresGood :
    (spec : GatewaySyncSpec) (env : Env) (key : String) (gs : GatewaySync) (st : State)
    → IsGood spec gs
    → StoresGood spec st
    → StoresGood spec (finalize env key gs st).1
unfolding finalize
finalize-StoresGood spec env key gs st g h =
    elim (Bool-cases (contains gs.meta.finalizers Names.finalizer)) [
      | inl e ↦ elim (Bool-cases (cleanup_owned_resources env.api gs st.objects).0) [
        | inl f ↦ rw (e, f) (update_object-StoresGood spec env _ _ g h)
        | inr f ↦ rw (e, f) h
      ]
      | inr e ↦ rw e h
    ]

pub wait_for_secret-StoresGood :
    (spec : GatewaySyncSpec) (env : Env) (key name : String) (gs : GatewaySync) (st : State)
    → IsGood spec gs
    → StoresGood spec st
    → StoresGood spec (wait_for_secret env key name gs st).1
unfolding wait_for_secret
wait_for_secret-StoresGood spec env key name gs st g h =
    patch_status-StoresGood spec env _ (count_failure env key st)
      (set_condition-IsGood spec env.seconds ConditionType.ready is_false Reason.reconciling
        (env.message (secret_missing name) (delay_of_next env key st)) gs g)
      h

pub wait_for_ref-StoresGood :
    (spec : GatewaySyncSpec) (env : Env) (key : String) (e : RefError) (gs : GatewaySync)
    (st : State)
    → IsGood spec gs
    → StoresGood spec st
    → StoresGood spec (wait_for_ref env key e gs st).1
unfolding wait_for_ref
wait_for_ref-StoresGood spec env key e gs st g h =
    let message = env.message (ref_failed e) (delay_of_next env key st) in
    let set =
      set_condition env.seconds ConditionType.ref_resolved is_false (reason_of gs e) message gs in
    patch_status-StoresGood spec env (with_resolution "Error" set) (count_failure env key st)
      (set_condition-IsGood spec env.seconds ConditionType.ref_resolved is_false (reason_of gs e)
        message gs g)
      h
