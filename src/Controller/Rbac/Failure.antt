-- ===== src/Controller/Rbac/Failure.antt =====
-- When the step fails, and what it leaves then.
use stoker_operator.Prelude.{
  String, ◌≡◌, ◌≢◌, ◌⊎◌, ◌↔◌, refl, true, false, Option, none, some, List, Eq, string_eq, nat_eq,
  list_eq, arith, Bool-cases, Option-cases, inl, inr,
}
use stoker_operator.Api.{GatewaySync}
use stoker_operator.Api.Pod.{Pod}
use stoker_operator.Controller.Rbac.{
  agent_cluster_role_name, Subject, RoleBinding, seen_accounts, build_subjects, Server,
  collect_service_accounts_from_pods, subjects_equal, or_baseline, ensure_binding,
  ensure_agent_role_binding,
}

abbrev pub desired_for : (List String → List String) → GatewaySync → List Pod → List Subject
desired_for sort gs pods =
    build_subjects (or_baseline (sort (seen_accounts gs pods))) gs.meta.namespace

-- A call that the step needs and that fails.
pub data Fails (sort : List String → List String) (sv : Server) (gs : GatewaySync)
    : Option RoleBinding → Type 0 where
  not_listed : (existing : Option RoleBinding) → sv.pods ≡ none → Fails sort sv gs existing
  not_read : (existing : Option RoleBinding) → sv.get_succeeds ≡ false → Fails sort sv gs existing
  not_owned : sv.owner_is_settable ≡ false → Fails sort sv gs none
  not_created : sv.create_succeeds ≡ false → Fails sort sv gs none
  not_deleted :
      (rb : RoleBinding)
      → rb.role_ref.name ≢ agent_cluster_role_name
      → sv.delete_succeeds ≡ false
      → Fails sort sv gs (some rb)
  not_updated :
      (rb : RoleBinding) (pods : List Pod)
      → rb.role_ref.name ≡ agent_cluster_role_name
      → sv.pods ≡ some pods
      → subjects_equal sort rb.subjects (desired_for sort gs pods) ≡ false
      → sv.update_succeeds ≡ false
      → Fails sort sv gs (some rb)

Fails-ensure :
    (sort : List String → List String) (sv : Server) (gs : GatewaySync)
    (existing : Option RoleBinding)
    → Fails sort sv gs existing
    → (ensure_agent_role_binding sort sv gs existing).is_ok ≡ false
unfolding ensure_agent_role_binding collect_service_accounts_from_pods ensure_binding
Fails-ensure sort sv gs existing (not_listed _ e) = rw e refl
Fails-ensure sort sv gs existing (not_read _ e) = elim (Option-cases sv.pods) [
  | inl none_listed ↦ rw none_listed refl
  | inr (pods, listed) ↦ rw (listed, e) refl
]
Fails-ensure sort sv gs _ (not_owned e) = elim (Option-cases sv.pods) [
  | inl none_listed ↦ rw none_listed refl
  | inr (pods, listed) ↦ ground (arith, listed, e)
]
Fails-ensure sort sv gs _ (not_created e) = elim (Option-cases sv.pods) [
  | inl none_listed ↦ rw none_listed refl
  | inr (pods, listed) ↦ ground (arith, listed, e)
]
Fails-ensure sort sv gs _ (not_deleted rb role e) = elim (Option-cases sv.pods) [
  | inl none_listed ↦ rw none_listed refl
  | inr (pods, listed) ↦ ground (arith, listed, e, role)
]
Fails-ensure sort sv gs _ (not_updated rb pods role listed differ e) =
    ground (arith, listed, e, role, differ)

ensure_binding-Fails :
    (sort : List String → List String) (sv : Server) (gs : GatewaySync) (pods : List Pod)
    (existing : Option RoleBinding)
    → sv.pods ≡ some pods
    → (ensure_binding sort sv gs (desired_for sort gs pods) existing).is_ok ≡ false
    → Fails sort sv gs existing
unfolding ensure_binding
ensure_binding-Fails sort sv gs pods none listed f = elim (Bool-cases sv.owner_is_settable) [
  | inl owned ↦ not_created (ground (arith, f, owned))
  | inr bad ↦ not_owned bad
]
ensure_binding-Fails sort sv gs pods (some rb) listed f =
    elim (Eq.dec string_eq rb.role_ref.name agent_cluster_role_name) [
      | yes role ↦ elim (Bool-cases (subjects_equal sort rb.subjects (desired_for sort gs pods))) [
        | inl same ↦ absurd (ground (arith, f, role, same))
        | inr differ ↦ not_updated rb pods role listed differ (ground (arith, f, role, differ))
      ]
      | no role ↦ not_deleted rb role (ground (arith, f, role))
    ]

ensure-Fails :
    (sort : List String → List String) (sv : Server) (gs : GatewaySync)
    (existing : Option RoleBinding)
    → (ensure_agent_role_binding sort sv gs existing).is_ok ≡ false
    → Fails sort sv gs existing
unfolding ensure_agent_role_binding collect_service_accounts_from_pods
ensure-Fails sort sv gs existing f = elim (Option-cases sv.pods) [
  | inl none_listed ↦ not_listed existing none_listed
  | inr (pods, listed) ↦ elim (Bool-cases sv.get_succeeds) [
    | inl read ↦
        ensure_binding-Fails sort sv gs pods existing listed (ground (arith, f, listed, read))
    | inr bad ↦ not_read existing bad
  ]
]

ensure_binding_failed :
    (sort : List String → List String) (sv : Server) (gs : GatewaySync) (desired : List Subject)
    (existing : Option RoleBinding)
    → (ensure_binding sort sv gs desired existing).is_ok ≡ false
    → (ensure_binding sort sv gs desired existing).binding ≡ existing
unfolding ensure_binding
ensure_binding_failed sort sv gs desired none h = ground arith
ensure_binding_failed sort sv gs desired (some rb) h = ground arith

ensure_agent_role_binding_kept :
    (sort : List String → List String) (sv : Server) (gs : GatewaySync)
    (existing : Option RoleBinding)
    → (ensure_agent_role_binding sort sv gs existing).is_ok ≡ false
    → (ensure_agent_role_binding sort sv gs existing).binding ≡ existing
unfolding ensure_agent_role_binding
ensure_agent_role_binding_kept sort sv gs existing h =
    elim (Option-cases (collect_service_accounts_from_pods sort gs sv.pods)) [
      | inl e ↦ rw e refl
      | inr (names, e) ↦
          let desired = build_subjects (or_baseline names) gs.meta.namespace in
          ground (arith, e, ensure_binding_failed sort sv gs desired existing)
    ]

-- The step fails exactly if a call that it needs fails: the listing of the pods, so that no account
-- loses the role because they could not be listed, the reading of the RoleBinding, or what is then
-- needed of setting its owner, creating, deleting or updating it. And it succeeds, or it leaves the
-- RoleBinding as it was.
pub ensure_agent_role_binding_failed :
    (sort : List String → List String) (sv : Server) (gs : GatewaySync)
    (existing : Option RoleBinding)
    → ((ensure_agent_role_binding sort sv gs existing).is_ok ≡ false ↔ Fails sort sv gs existing)
      × (((ensure_agent_role_binding sort sv gs existing).is_ok ≡ true)
          ⊎ ((ensure_agent_role_binding sort sv gs existing).binding ≡ existing))
ensure_agent_role_binding_failed sort sv gs existing = (
  (ensure-Fails sort sv gs existing, Fails-ensure sort sv gs existing),
  elim (Bool-cases (ensure_agent_role_binding sort sv gs existing).is_ok) [
    | inl ok ↦ inl ok
    | inr bad ↦ inr (ensure_agent_role_binding_kept sort sv gs existing bad)
  ],
)
