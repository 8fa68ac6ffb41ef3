-- ===== src/Controller/Conditions.antt =====
-- setCondition and the tests on conditions of gatewaysync_controller.go, and the two functions of
-- gateway_discovery.go that summarise a status in conditions.
pub mod Laws
pub mod Summary
use stoker_operator.Prelude.{
  ℕ, suc, ◌+◌, String, ◌<>◌, Bool, true, false, not, ◌&&◌, ◌||◌, List, [], ◌∷◌, any, length, ◌==◌,
  ltb, string_eq, nat_eq, if◌then◌else◌,
}
use stoker_operator.Prelude.Text.{decimal}
use stoker_operator.Api.{
  Condition, ConditionStatus, is_true, is_false, DiscoveredGateway, GatewaySync,
}
use stoker_operator.Api.ConditionType
use stoker_operator.Api.Reason
use stoker_operator.Api.SyncStatus

abbrev pub same_status : ConditionStatus → ConditionStatus → Bool
same_status is_true is_true = true
same_status is_false is_false = true
same_status is_true is_false = false
same_status is_false is_true = false

-- A condition that is set anew keeps its instant if the status is the same.
unfoldable pub renewed : Condition → Condition → Condition
renewed new c =
    if same_status c.status new.status
    then record c {
      reason = new.reason;
      message = new.message;
      observed_generation = new.observed_generation;
    }
    else new

-- The loop of setCondition and what follows it: the first condition of the type is set anew,
-- and where there is none the condition is appended.
unfoldable pub set_in : Condition → List Condition → List Condition
unfolding renewed
set_in new [] = new ∷ []
set_in new (c ∷ cs) = if c.cond_type == new.cond_type then renewed new c ∷ cs else c ∷ set_in new cs

abbrev with_conditions : GatewaySync → List Condition → GatewaySync
with_conditions gs conds =
    let st = gs.status in record gs { status = record st { conditions = conds } }

-- setCondition at the instant `now`.
unfoldable pub set_condition :
    ℕ → String → ConditionStatus → String → String → GatewaySync → GatewaySync
unfolding set_in
set_condition now cond_type status reason message gs = with_conditions gs (
    set_in
      (record {
        cond_type = cond_type;
        status = status;
        observed_generation = gs.meta.generation;
        last_transition_time = now;
        reason = reason;
        message = message;
      })
      gs.status.conditions)

unfoldable pub condition_has_status : List Condition → String → ConditionStatus → Bool
condition_has_status conds cond_type status =
    any (λ c. c.cond_type == cond_type && same_status c.status status) conds

unfoldable pub condition_has_reason : List Condition → String → String → Bool
condition_has_reason conds cond_type reason =
    any (λ c. c.cond_type == cond_type && c.reason == reason) conds

unfoldable pub count_status : String → List DiscoveredGateway → ℕ
count_status status [] = 0
count_status status (gw ∷ gws) =
    let n = count_status status gws in if gw.sync_status == status then suc n else n

abbrev fraction : ℕ → ℕ → String
fraction n total = decimal n <> "/" <> decimal total <> " synced"

unfoldable pub set_synced : ℕ → ℕ → ℕ → ℕ → GatewaySync → GatewaySync
set_synced now total synced missing gs =
    if synced == total
    then set_condition now ConditionType.all_gateways_synced is_true Reason.sync_succeeded
        (fraction synced total) gs
    else set_condition now ConditionType.all_gateways_synced is_false Reason.sync_in_progress
        (if ltb 0 missing
          then fraction synced total <> " (" <> decimal missing <> " missing sidecar)"
          else fraction synced total)
        gs

unfoldable pub set_sidecar_injected : ℕ → ℕ → GatewaySync → GatewaySync
set_sidecar_injected now missing gs =
    if ltb 0 missing
    then set_condition now ConditionType.sidecar_injected is_false Reason.sidecar_missing
        (decimal missing <> " gateway(s) missing stoker-agent sidecar") gs
    else set_condition now ConditionType.sidecar_injected is_true Reason.sidecar_present
        "All gateways have stoker-agent sidecar" gs

unfoldable pub update_all_gateways_synced_condition : ℕ → GatewaySync → GatewaySync
update_all_gateways_synced_condition now gs =
    let gateways = gs.status.discovered_gateways in
    let total = length gateways in
    let missing = count_status SyncStatus.missing_sidecar gateways in
    if total == 0
    then set_condition now ConditionType.all_gateways_synced is_false Reason.no_gateways
        "0/0 synced" gs
    else set_sidecar_injected now missing
        (set_synced now total (count_status SyncStatus.synced gateways) missing gs)

-- Some condition of the type is true, as the loop of updateReadyCondition finds.
unfoldable pub holds : String → GatewaySync → Bool
holds cond_type gs = condition_has_status gs.status.conditions cond_type is_true

unfoldable pub update_ready_condition : ℕ → GatewaySync → GatewaySync
update_ready_condition now gs =
    let ref_resolved = holds ConditionType.ref_resolved gs in
    let all_synced = holds ConditionType.all_gateways_synced gs in
    let profiles_valid = holds ConditionType.profiles_valid gs in
    if ref_resolved && (all_synced && profiles_valid)
    then set_condition now ConditionType.ready is_true Reason.sync_succeeded "All gateways synced"
        gs
    else if not profiles_valid
    then set_condition now ConditionType.ready is_false Reason.reconciling "Profiles invalid" gs
    else if not ref_resolved
    then set_condition now ConditionType.ready is_false Reason.reconciling "Ref not resolved" gs
    else set_condition now ConditionType.ready is_false Reason.reconciling
        "Waiting for gateways to sync" gs
