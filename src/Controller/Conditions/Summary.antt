-- ===== src/Controller/Conditions/Summary.antt =====
-- The two summaries one after the other, as Reconcile runs them.
use stoker_operator.Prelude.{
  ℕ, ◌≡◌, refl, String, ◌<>◌, false, ◌&&◌, length, ◌==◌, ==_refl, ltb, string_eq, nat_eq, arith,
  if◌then◌else◌,
}
use stoker_operator.Prelude.Text.{decimal}
use stoker_operator.Api.{is_true, is_false, GatewaySync}
use stoker_operator.Api.ConditionType
use stoker_operator.Api.Reason
use stoker_operator.Api.SyncStatus
use stoker_operator.Controller.Conditions.{
  count_status, fraction, set_synced, set_sidecar_injected, update_all_gateways_synced_condition,
  holds, update_ready_condition,
}
use stoker_operator.Controller.Conditions.Laws.{
  IsUnique, set_condition-IsUnique, has_status-set_condition, set_synced-IsUnique, all_synced,
  count_status_every, ready-update_ready_condition,
}

set_sidecar_injected-IsUnique :
    (now missing : ℕ) (gs : GatewaySync)
    → IsUnique gs.status.conditions
    → IsUnique (set_sidecar_injected now missing gs).status.conditions
unfolding set_sidecar_injected
set_sidecar_injected-IsUnique now missing gs h = λ u. ground (
  arith,
  set_condition-IsUnique now ConditionType.sidecar_injected is_false Reason.sidecar_missing
      (decimal missing <> " gateway(s) missing stoker-agent sidecar") gs h u,
  set_condition-IsUnique now ConditionType.sidecar_injected is_true Reason.sidecar_present
      "All gateways have stoker-agent sidecar" gs h u,
)

pub update_all_gateways_synced_condition-IsUnique :
    (now : ℕ) (gs : GatewaySync)
    → IsUnique gs.status.conditions
    → IsUnique (update_all_gateways_synced_condition now gs).status.conditions
unfolding update_all_gateways_synced_condition
update_all_gateways_synced_condition-IsUnique now gs h = λ u.
    let total = length gs.status.discovered_gateways in
    let missing = count_status SyncStatus.missing_sidecar gs.status.discovered_gateways in
    let synced = count_status SyncStatus.synced gs.status.discovered_gateways in
    ground (
      arith,
      set_condition-IsUnique now ConditionType.all_gateways_synced is_false Reason.no_gateways
          "0/0 synced" gs h u,
      set_sidecar_injected-IsUnique now missing (set_synced now total synced missing gs)
          (set_synced-IsUnique now total synced missing gs h) u,
    )

-- The types that the first summary does not set.
abbrev IsOther : String → Type 0
IsOther t =
    ((ConditionType.sidecar_injected == t) ≡ false)
    × ((ConditionType.all_gateways_synced == t) ≡ false)

ref_IsOther : IsOther ConditionType.ref_resolved
unfolding string_eq
ref_IsOther = (refl, refl)

valid_IsOther : IsOther ConditionType.profiles_valid
unfolding string_eq
valid_IsOther = (refl, refl)

synced_not_sidecar : (ConditionType.sidecar_injected == ConditionType.all_gateways_synced) ≡ false
unfolding string_eq
synced_not_sidecar = refl

holds-set_sidecar_injected :
    (now missing : ℕ) (gs : GatewaySync) (t : String)
    → IsUnique gs.status.conditions
    → (ConditionType.sidecar_injected == t) ≡ false
    → holds t (set_sidecar_injected now missing gs) ≡ holds t gs
unfolding set_sidecar_injected holds
holds-set_sidecar_injected now missing gs t h e = ground (
  arith,
  e,
  has_status-set_condition now ConditionType.sidecar_injected is_false Reason.sidecar_missing
      (decimal missing <> " gateway(s) missing stoker-agent sidecar") gs t is_true h,
  has_status-set_condition now ConditionType.sidecar_injected is_true Reason.sidecar_present
      "All gateways have stoker-agent sidecar" gs t is_true h,
)

holds-set_synced :
    (now total synced missing : ℕ) (gs : GatewaySync) (t : String)
    → IsUnique gs.status.conditions
    → holds t (set_synced now total synced missing gs)
      ≡ (if ConditionType.all_gateways_synced == t then synced == total else holds t gs)
unfolding set_synced holds
holds-set_synced now total synced missing gs t h =
    let set = λ (reason message : String).
      has_status-set_condition now ConditionType.all_gateways_synced is_false reason message gs t
        is_true h in
    ground (
      arith,
      has_status-set_condition now ConditionType.all_gateways_synced is_true Reason.sync_succeeded
          (fraction synced total) gs t is_true h,
      set Reason.sync_in_progress (
          if ltb 0 missing
          then fraction synced total <> " (" <> decimal missing <> " missing sidecar)"
          else fraction synced total),
    )

-- After the first summary: AllGatewaysSynced is true exactly if there are gateways and each is
-- synced, and the conditions that it does not set are as they were.
pub holds-update_all_gateways_synced_condition :
    (now : ℕ) (gs : GatewaySync) (t : String)
    → IsUnique gs.status.conditions
    → (ConditionType.sidecar_injected == t) ≡ false
    → holds t (update_all_gateways_synced_condition now gs) ≡ (
        if ConditionType.all_gateways_synced == t
        then all_synced gs.status.discovered_gateways
        else holds t gs)
unfolding update_all_gateways_synced_condition all_synced holds
holds-update_all_gateways_synced_condition now gs t h e =
    let gateways = gs.status.discovered_gateways in
    let total = length gateways in
    let missing = count_status SyncStatus.missing_sidecar gateways in
    let synced = count_status SyncStatus.synced gateways in
    ground (
      arith,
      count_status_every gateways,
      has_status-set_condition now ConditionType.all_gateways_synced is_false Reason.no_gateways
          "0/0 synced" gs t is_true h,
      holds-set_sidecar_injected now missing (set_synced now total synced missing gs) t
          (set_synced-IsUnique now total synced missing gs h) e,
      holds-set_synced now total synced missing gs t h,
    )

-- The verdict of a reconcile: where there is at most one condition of each type, Ready is true after
-- the two summaries exactly if the ref is resolved, the profiles are valid, and there are gateways of
-- which each is synced.
pub ready_summary :
    (now : ℕ) (gs : GatewaySync)
    → IsUnique gs.status.conditions
    → holds ConditionType.ready
        (update_ready_condition now (update_all_gateways_synced_condition now gs))
      ≡ (holds ConditionType.ref_resolved gs
          && (all_synced gs.status.discovered_gateways && holds ConditionType.profiles_valid gs))
ready_summary now gs h =
    let keeps = λ (t : String) (e : (ConditionType.sidecar_injected == t) ≡ false).
      holds-update_all_gateways_synced_condition now gs t h e in
    let (ref_sidecar, ref_synced) = ref_IsOther in
    let (valid_sidecar, valid_synced) = valid_IsOther in
    ground (
      arith,
      ready-update_ready_condition now (update_all_gateways_synced_condition now gs)
          (update_all_gateways_synced_condition-IsUnique now gs h),
      keeps ConditionType.ref_resolved ref_sidecar,
      ref_synced,
      keeps ConditionType.profiles_valid valid_sidecar,
      valid_synced,
      keeps ConditionType.all_gateways_synced synced_not_sidecar,
      ==_refl ConditionType.all_gateways_synced,
    )
