-- ===== src/Controller/Conditions/Laws.antt =====
-- What the conditions of a status say.
use stoker_operator.Prelude.{
  ℕ, suc, ◌≤◌, ◌≡◌, refl, String, ◌<>◌, Bool, true, false, not, ◌&&◌, List, [], ◌∷◌, length, ◌==◌,
  ==_refl, ltb, leb, string_eq, nat_eq, arith, if◌then◌else◌,
}
use stoker_operator.Prelude.Text.{decimal}
use stoker_operator.Api.{
  Condition, ConditionStatus, is_true, is_false, DiscoveredGateway, GatewaySync,
}
use stoker_operator.Api.ConditionType
use stoker_operator.Api.Reason
use stoker_operator.Api.SyncStatus
use stoker_operator.Controller.Conditions.{
  same_status, renewed, set_in, set_condition, condition_has_status, count_status, fraction,
  set_synced, holds, update_ready_condition,
}

abbrev pub count_type : String → List Condition → ℕ
count_type t [] = 0
count_type t (c ∷ cs) = let n = count_type t cs in if c.cond_type == t then suc n else n

-- At most one condition of each type.
abbrev pub IsUnique : List Condition → Type 0
IsUnique cs = (t : String) → count_type t cs ≤ 1

same_status_sym :
    (a b c : ConditionStatus) → same_status a b ≡ true → same_status a c ≡ same_status b c
same_status_sym is_true is_true c h = refl
same_status_sym is_false is_false c h = refl
same_status_sym is_true is_false c h = ground arith
same_status_sym is_false is_true c h = ground arith

renewed-type :
    (new c : Condition) → c.cond_type ≡ new.cond_type → (renewed new c).cond_type ≡ new.cond_type
unfolding renewed
renewed-type new c e = ground arith

renewed-status :
    (new c : Condition) (s : ConditionStatus)
    → same_status (renewed new c).status s ≡ same_status new.status s
unfolding renewed
renewed-status new c s = ground (arith, same_status_sym c.status new.status s)

count_type-set_in :
    (new : Condition) (cs : List Condition) (t : String)
    → count_type t (set_in new cs)
      ≡ (if new.cond_type == t && leb (count_type t cs) 0 then 1 else count_type t cs)
unfolding set_in
count_type-set_in new [] t = ground arith
count_type-set_in new (c ∷ cs) t = ground (arith, renewed-type new c, count_type-set_in new cs t)

has_status_none :
    (cs : List Condition) (t : String) (s : ConditionStatus)
    → count_type t cs ≡ 0
    → condition_has_status cs t s ≡ false
unfolding condition_has_status
has_status_none [] t s h = refl
has_status_none (c ∷ cs) t s h = ground (arith, has_status_none cs t s)

has_status-set_in :
    (new : Condition) (cs : List Condition) (t : String) (s : ConditionStatus)
    → count_type t cs ≤ 1
    → condition_has_status (set_in new cs) t s
      ≡ (if new.cond_type == t then same_status new.status s else condition_has_status cs t s)
unfolding condition_has_status set_in
has_status-set_in new [] t s h = ground arith
has_status-set_in new (c ∷ cs) t s h = ground (
  arith,
  renewed-type new c,
  renewed-status new c s,
  has_status-set_in new cs t s,
  has_status_none cs t s,
)

set_in-IsUnique : (new : Condition) (cs : List Condition) → IsUnique cs → IsUnique (set_in new cs)
set_in-IsUnique new cs h = λ t. ground (arith, h t, count_type-set_in new cs t)

-- Setting a condition keeps that there is at most one condition of each type.
pub set_condition-IsUnique :
    (now : ℕ) (t : String) (s : ConditionStatus) (reason message : String) (gs : GatewaySync)
    → IsUnique gs.status.conditions
    → IsUnique (set_condition now t s reason message gs).status.conditions
unfolding set_condition
set_condition-IsUnique now t s reason message gs h = set_in-IsUnique _ gs.status.conditions h

-- Where there is at most one condition of each type, after a condition is set its type has its status
-- alone, and each other type what it had.
pub has_status-set_condition :
    (now : ℕ) (t : String) (s : ConditionStatus) (reason message : String) (gs : GatewaySync)
    (u : String) (v : ConditionStatus)
    → IsUnique gs.status.conditions
    → condition_has_status (set_condition now t s reason message gs).status.conditions u v
      ≡ (if t == u then same_status s v else condition_has_status gs.status.conditions u v)
unfolding set_condition
has_status-set_condition now t s reason message gs u v h =
    has_status-set_in _ gs.status.conditions u v (h u)

-- Ready is true after the summary exactly if the ref is resolved, the gateways are synced and the
-- profiles are valid.
pub ready-update_ready_condition :
    (now : ℕ) (gs : GatewaySync)
    → IsUnique gs.status.conditions
    → holds ConditionType.ready (update_ready_condition now gs) ≡ (
        holds ConditionType.ref_resolved gs
        && (holds ConditionType.all_gateways_synced gs && holds ConditionType.profiles_valid gs))
unfolding update_ready_condition holds
ready-update_ready_condition now gs h =
    let set = λ (s : ConditionStatus) (reason message : String).
      has_status-set_condition now ConditionType.ready s reason message gs ConditionType.ready
        is_true h in
    let same = ==_refl ConditionType.ready in
    ground (
      arith,
      same,
      set is_true Reason.sync_succeeded "All gateways synced",
      set is_false Reason.reconciling "Profiles invalid",
      set is_false Reason.reconciling "Ref not resolved",
      set is_false Reason.reconciling "Waiting for gateways to sync",
    )

unfoldable pub every_synced : List DiscoveredGateway → Bool
every_synced [] = true
every_synced (gw ∷ gws) = gw.sync_status == SyncStatus.synced && every_synced gws

-- There are gateways, and each is synced.
unfoldable pub all_synced : List DiscoveredGateway → Bool
all_synced gws = not (leb (length gws) 0) && every_synced gws

count_status-length : (t : String) (gws : List DiscoveredGateway) → count_status t gws ≤ length gws
unfolding count_status
count_status-length t [] = omega arith
count_status-length t (gw ∷ gws) = ground (arith, count_status-length t gws)

pub count_status_every :
    (gws : List DiscoveredGateway)
    → (count_status SyncStatus.synced gws == length gws) ≡ every_synced gws
unfolding count_status every_synced nat_eq
count_status_every [] = refl
count_status_every (gw ∷ gws) =
    ground (arith, count_status_every gws, count_status-length SyncStatus.synced gws)

pub set_synced-IsUnique :
    (now total synced missing : ℕ) (gs : GatewaySync)
    → IsUnique gs.status.conditions
    → IsUnique (set_synced now total synced missing gs).status.conditions
unfolding set_synced
set_synced-IsUnique now total synced missing gs h = λ u.
    let set = λ (s : ConditionStatus) (reason message : String).
      set_condition-IsUnique now ConditionType.all_gateways_synced s reason message gs h u in
    ground (
      arith,
      set is_true Reason.sync_succeeded (fraction synced total),
      set is_false Reason.sync_in_progress (
          if ltb 0 missing
          then fraction synced total <> " (" <> decimal missing <> " missing sidecar)"
          else fraction synced total),
    )

pub update_ready_condition-IsUnique :
    (now : ℕ) (gs : GatewaySync)
    → IsUnique gs.status.conditions
    → IsUnique (update_ready_condition now gs).status.conditions
unfolding update_ready_condition
update_ready_condition-IsUnique now gs h = λ u.
    let set = λ (s : ConditionStatus) (reason message : String).
      set_condition-IsUnique now ConditionType.ready s reason message gs h u in
    ground (
      arith,
      set is_true Reason.sync_succeeded "All gateways synced",
      set is_false Reason.reconciling "Profiles invalid",
      set is_false Reason.reconciling "Ref not resolved",
      set is_false Reason.reconciling "Waiting for gateways to sync",
    )
