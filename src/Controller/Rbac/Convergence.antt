-- ===== src/Controller/Rbac/Convergence.antt =====
-- That the RoleBinding comes to be.
use stoker_operator.Prelude.{
  String, ◌≡◌, refl, sym, ap, ◌∙◌, true, Option, none, some, List, string_eq, nat_eq, list_eq,
  arith, Bool-cases, inl, inr,
}
use stoker_operator.Api.{GatewaySync}
use stoker_operator.Api.Pod.{Pod}
use stoker_operator.Controller.Rbac.{
  agent_cluster_role_name, Subject, RoleBinding, seen_accounts, build_subjects, Server, Outcome,
  collect_service_accounts_from_pods, subjects_equal, or_baseline, new_binding, ensure_binding,
  ensure_agent_role_binding,
}
use stoker_operator.Controller.Rbac.Laws.{
  KeepsContents, IsTrusted, IsGrant, ensure_agent_role_binding-IsGrant,
}

-- The step succeeds, and there is a RoleBinding afterwards.
abbrev pub IsThere : Outcome → Type 0
IsThere o = (o.is_ok ≡ true) × ((rb : RoleBinding) × (o.binding ≡ some rb))

-- Every call on the server succeeds.
pub record IsUp (sv : Server) (pods : List Pod) : Type 0 where
  pub lists : sv.pods ≡ some pods
  pub gets : sv.get_succeeds ≡ true
  pub owns : sv.owner_is_settable ≡ true
  pub creates : sv.create_succeeds ≡ true
  pub deletes : sv.delete_succeeds ≡ true
  pub updates : sv.update_succeeds ≡ true

ensure_binding-IsThere :
    (sort : List String → List String) (sv : Server) (gs : GatewaySync) (desired : List Subject)
    (rb : RoleBinding)
    → sv.update_succeeds ≡ true
    → rb.role_ref.name ≡ agent_cluster_role_name
    → IsThere (ensure_binding sort sv gs desired (some rb))
unfolding ensure_binding
ensure_binding-IsThere sort sv gs desired rb up role =
    elim (Bool-cases (subjects_equal sort rb.subjects desired)) [
      | inl e ↦ (ground (arith, role, e), (rb, ground (arith, role, e)))
      | inr e ↦ (
        ground (arith, role, e, up),
        (record rb { subjects = desired }, ground (arith, role, e, up)),
      )
    ]

create-IsThere :
    (sort : List String → List String) (sv : Server) (gs : GatewaySync) (desired : List Subject)
    → sv.owner_is_settable ≡ true
    → sv.create_succeeds ≡ true
    → IsThere (ensure_binding sort sv gs desired none)
unfolding ensure_binding
create-IsThere sort sv gs desired owns creates =
    (ground (arith, owns, creates), (new_binding gs desired, ground (arith, owns, creates)))

next-IsThere :
    (sort : List String → List String) (sv : Server) (gs : GatewaySync) (pods : List Pod)
    (desired : List Subject) (o : Option RoleBinding)
    → IsUp sv pods
    → ((rb : RoleBinding) → o ≡ some rb → rb.role_ref.name ≡ agent_cluster_role_name)
    → IsThere (ensure_binding sort sv gs desired o)
next-IsThere sort sv gs pods desired none up role =
    create-IsThere sort sv gs desired up.owns up.creates
next-IsThere sort sv gs pods desired (some rb) up role =
    ensure_binding-IsThere sort sv gs desired rb up.updates (role rb refl)

role_ref-ensure_binding :
    (sort : List String → List String) (sv : Server) (gs : GatewaySync) (pods : List Pod)
    (desired : List Subject) (existing : Option RoleBinding) (rb : RoleBinding)
    → IsUp sv pods
    → (ensure_binding sort sv gs desired existing).binding ≡ some rb
    → rb.role_ref.name ≡ agent_cluster_role_name
unfolding ensure_binding new_binding
role_ref-ensure_binding sort sv gs pods desired none rb up h =
    ground (arith, up.owns, up.creates, h)
role_ref-ensure_binding sort sv gs pods desired (some old) rb up h =
    ground (arith, up.deletes, up.updates, h)

ensure_agent_role_binding_up :
    (sort : List String → List String) (sv : Server) (gs : GatewaySync) (pods : List Pod)
    (existing : Option RoleBinding)
    → IsUp sv pods
    → ensure_agent_role_binding sort sv gs existing
      ≡ ensure_binding sort sv gs
          (build_subjects (or_baseline (sort (seen_accounts gs pods))) gs.meta.namespace)
          existing
unfolding ensure_agent_role_binding collect_service_accounts_from_pods
ensure_agent_role_binding_up sort sv gs pods existing up = ground (arith, up.lists, up.gets)

ensure_binding_ok :
    (sort : List String → List String) (sv : Server) (gs : GatewaySync) (pods : List Pod)
    (desired : List Subject) (existing : Option RoleBinding)
    → IsUp sv pods
    → (ensure_binding sort sv gs desired existing).is_ok ≡ true
unfolding ensure_binding
ensure_binding_ok sort sv gs pods desired none up = ground (arith, up.owns, up.creates)
ensure_binding_ok sort sv gs pods desired (some rb) up = ground (arith, up.deletes, up.updates)

ensure_agent_role_binding_ok :
    (sort : List String → List String) (sv : Server) (gs : GatewaySync) (pods : List Pod)
    (existing : Option RoleBinding)
    → IsUp sv pods
    → (ensure_agent_role_binding sort sv gs existing).is_ok ≡ true
ensure_agent_role_binding_ok sort sv gs pods existing up =
    rw (ensure_agent_role_binding_up sort sv gs pods existing up)
      (ensure_binding_ok sort sv gs pods _ existing up)

twice-IsThere :
    (sort : List String → List String) (sv : Server) (gs : GatewaySync) (pods : List Pod)
    (existing : Option RoleBinding)
    → IsUp sv pods
    → IsThere (
        ensure_agent_role_binding sort sv gs
          (ensure_agent_role_binding sort sv gs existing).binding)
twice-IsThere sort sv gs pods existing up =
    let desired = build_subjects (or_baseline (sort (seen_accounts gs pods))) gs.meta.namespace in
    let first = ensure_agent_role_binding_up sort sv gs pods existing up in
    let second =
      ensure_agent_role_binding_up sort sv gs pods
        (ensure_agent_role_binding sort sv gs existing).binding up in
    rw second (
      next-IsThere sort sv gs pods desired (ensure_agent_role_binding sort sv gs existing).binding
        up
        (λ rb h.
          role_ref-ensure_binding sort sv gs pods desired existing rb up
            (ap (λ (o : Outcome). o.binding) (sym first) ∙ h)))

first-IsTrusted :
    (sort : List String → List String) (sv : Server) (gs : GatewaySync) (pods : List Pod)
    (existing : Option RoleBinding)
    → KeepsContents sort
    → IsTrusted gs existing
    → IsUp sv pods
    → IsTrusted gs (ensure_agent_role_binding sort sv gs existing).binding
first-IsTrusted sort sv gs pods existing k trust up rb h named =
    let ok = ensure_agent_role_binding_ok sort sv gs pods existing up in
    (ensure_agent_role_binding-IsGrant sort sv gs pods existing rb k trust up.lists ok h).0

-- The step succeeds, and the RoleBinding is the grant that the pods ask for.
abbrev pub IsBound : GatewaySync → List Pod → Outcome → Type 0
IsBound gs pods o =
    (o.is_ok ≡ true) × ((rb : RoleBinding) × (o.binding ≡ some rb) × IsGrant gs pods rb)

-- Where every call on the server succeeds, and a RoleBinding before whose role has the name of the
-- agent's is for that ClusterRole and for service accounts of the object's namespace: whatever else
-- there was before, one with another role included, two steps one after the other succeed and leave a
-- RoleBinding of the agent's ClusterRole for exactly the accounts of the pods that name the object, or
-- the default account where no pod does. The sort is one that keeps which texts there are.
pub ensure_agent_role_binding-IsBound :
    (sort : List String → List String) (sv : Server) (gs : GatewaySync) (pods : List Pod)
    (existing : Option RoleBinding)
    → KeepsContents sort
    → IsTrusted gs existing
    → IsUp sv pods
    → IsBound gs pods (
        ensure_agent_role_binding sort sv gs
          (ensure_agent_role_binding sort sv gs existing).binding)
ensure_agent_role_binding-IsBound sort sv gs pods existing k trust up =
    let first = (ensure_agent_role_binding sort sv gs existing).binding in
    let (ok, (rb, h)) = twice-IsThere sort sv gs pods existing up in
    let again = first-IsTrusted sort sv gs pods existing k trust up in
    (ok, (rb, h, ensure_agent_role_binding-IsGrant sort sv gs pods first rb k again up.lists ok h))
