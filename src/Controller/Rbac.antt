-- ===== src/Controller/Rbac.antt =====
-- rbac.go. `sort` is the standard library's `sort.Strings`.
pub mod Laws
pub mod Failure
pub mod Convergence
use stoker_operator.Prelude.{
  ℕ, String, ◌<>◌, Bool, true, false, not, ◌&&◌, ◌||◌, Option, none, some, List, [], ◌∷◌, map,
  length, contains, ◌==◌, string_eq, nat_eq, list_eq, if◌then◌else◌,
}
use stoker_operator.Prelude.Dict.{Dict}
use stoker_operator.Api.{GatewaySync}
use stoker_operator.Api.Pod.{Pod}
use stoker_operator.Controller.Discovery.{references, service_account_of, default_service_account}

abbrev pub agent_cluster_role_name : String
agent_cluster_role_name = "stoker-agent"

unfoldable pub agent_role_binding_name : String → String
agent_role_binding_name cr_name = "stoker-agent-" <> cr_name

pub record Subject : Type 0 where
  pub kind : String
  pub name : String
  pub namespace : String

-- `rbacv1.RoleRef`
pub record RoleRef : Type 0 where
  pub api_group : String
  pub kind : String
  pub name : String

abbrev pub agent_role_ref : RoleRef
agent_role_ref = record {
  api_group = "rbac.authorization.k8s.io";
  kind = "ClusterRole";
  name = agent_cluster_role_name;
}

-- `rbacv1.RoleBinding`, with the object that owns it.
pub record RoleBinding : Type 0 where
  pub name : String
  pub namespace : String
  pub labels : Dict String String
  pub owner : String
  pub role_ref : RoleRef
  pub subjects : List Subject

-- The keys of `seen` after the loop over the pods, each once, in some order.
unfoldable pub seen_accounts : GatewaySync → List Pod → List String
unfolding references service_account_of
seen_accounts gs [] = []
seen_accounts gs (pod ∷ pods) =
    let rest = seen_accounts gs pods in
    if not (references gs pod)
    then rest
    else if contains rest (service_account_of pod)
    then rest
    else service_account_of pod ∷ rest

unfoldable pub build_subjects : List String → String → List Subject
build_subjects names namespace =
    map (λ n. record { kind = "ServiceAccount"; name = n; namespace = namespace }) names

-- The API server: the pods of the namespace, where List succeeds, and whether each of the other calls
-- does.
pub record Server : Type 0 where
  pub pods : Option (List Pod)
  pub get_succeeds : Bool
  pub owner_is_settable : Bool
  pub create_succeeds : Bool
  pub delete_succeeds : Bool
  pub update_succeeds : Bool

-- An error or none, and the RoleBinding of that name afterwards.
pub record Outcome : Type 0 where
  pub is_ok : Bool
  pub binding : Option RoleBinding

abbrev pub fail : Option RoleBinding → Outcome
fail rb = record { is_ok = false; binding = rb }

abbrev succeed : Option RoleBinding → Outcome
succeed rb = record { is_ok = true; binding = rb }

module _ (sort : List String → List String) where
  unfoldable pub collect_service_accounts_from_pods :
      GatewaySync → Option (List Pod) → Option (List String)
  collect_service_accounts_from_pods gs none = none
  collect_service_accounts_from_pods gs (some pods) = some (sort (seen_accounts gs pods))

  unfoldable pub subjects_equal : List Subject → List Subject → Bool
  subjects_equal a b =
      if not (length a == length b)
      then false
      else sort (map (λ s. s.name) a) == sort (map (λ s. s.name) b)

abbrev pub or_baseline : List String → List String
or_baseline [] = default_service_account ∷ []
or_baseline (n ∷ ns) = n ∷ ns

unfoldable pub new_binding : GatewaySync → List Subject → RoleBinding
unfolding agent_role_binding_name
new_binding gs desired = record {
  name = agent_role_binding_name gs.meta.name;
  namespace = gs.meta.namespace;
  labels =
      ("app.kubernetes.io/managed-by", "stoker-operator")
      ∷ ("stoker.io/gatewaysync", gs.meta.name)
      ∷ [];
  owner = gs.meta.name;
  role_ref = agent_role_ref;
  subjects = desired;
}

module _ (sort : List String → List String) (sv : Server) (gs : GatewaySync) where
  unfoldable pub ensure_binding : List Subject → Option RoleBinding → Outcome
  unfolding new_binding
  ensure_binding desired none =
      if not sv.owner_is_settable
      then fail none
      else if sv.create_succeeds
      then succeed (some (new_binding gs desired))
      else fail none
  ensure_binding desired (some rb) =
      if not (rb.role_ref.name == agent_cluster_role_name)
      then (if sv.delete_succeeds then succeed none else fail (some rb))
      else if subjects_equal sort rb.subjects desired
      then succeed (some rb)
      else if sv.update_succeeds
      then succeed (some (record rb { subjects = desired }))
      else fail (some rb)

  abbrev pub ensure_for : Option RoleBinding → Option (List String) → Outcome
  ensure_for existing none = fail existing
  ensure_for existing (some names) =
      if not sv.get_succeeds
      then fail existing
      else ensure_binding (build_subjects (or_baseline names) gs.meta.namespace) existing

  -- ensureAgentRoleBinding, on the RoleBinding of that name that there is.
  unfoldable pub ensure_agent_role_binding : Option RoleBinding → Outcome
  ensure_agent_role_binding existing =
      ensure_for existing (collect_service_accounts_from_pods sort gs sv.pods)
