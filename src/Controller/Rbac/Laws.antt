-- ===== src/Controller/Rbac/Laws.antt =====
-- Whom the RoleBinding grants the agent's role.
use stoker_operator.Prelude.{
  String, ◌≡◌, refl, sym, ap, ◌∙◌, true, ◌&&◌, Option, none, some, List, [], ◌∷◌, map, any, All,
  contains, ◌==◌, ==_refl, string_eq, nat_eq, list_eq, arith, if◌then◌else◌, Bool-cases, inl, inr,
}
use stoker_operator.Api.{GatewaySync}
use stoker_operator.Api.Pod.{Pod}
use stoker_operator.Controller.Discovery.{references, service_account_of, default_service_account}
use stoker_operator.Controller.Rbac.{
  agent_cluster_role_name, agent_role_ref, Subject, RoleBinding, seen_accounts, build_subjects,
  Server, Outcome, collect_service_accounts_from_pods, subjects_equal, or_baseline, new_binding,
  ensure_binding, ensure_agent_role_binding,
}

-- What the code relies on of the sort: it keeps which texts there are.
abbrev pub KeepsContents : (List String → List String) → Type 0
KeepsContents sort = (xs : List String) (a : String) → contains (sort xs) a ≡ contains xs a

abbrev pub subject_names : List Subject → List String
subject_names subjects = map (λ s. s.name) subjects

contains-seen_accounts :
    (gs : GatewaySync) (pods : List Pod) (a : String)
    → contains (seen_accounts gs pods) a
      ≡ any (λ pod. references gs pod && service_account_of pod == a) pods
unfolding seen_accounts
contains-seen_accounts gs [] a = refl
contains-seen_accounts gs (pod ∷ pods) a = ground (
  arith,
  contains-seen_accounts gs pods a,
  contains-seen_accounts gs pods (service_account_of pod),
)

subject_names-build_subjects :
    (names : List String) (namespace : String)
    → subject_names (build_subjects names namespace) ≡ names
unfolding build_subjects
subject_names-build_subjects [] namespace = refl
subject_names-build_subjects (n ∷ ns) namespace =
    ap (λ r. n ∷ r) (subject_names-build_subjects ns namespace)

subjects_equal-contains :
    (sort : List String → List String) (a b : List Subject)
    → KeepsContents sort
    → subjects_equal sort a b ≡ true
    → (n : String) → contains (subject_names a) n ≡ contains (subject_names b) n
unfolding subjects_equal
subjects_equal-contains sort a b k h n =
    let same : sort (subject_names a) ≡ sort (subject_names b) = ground (arith, h) in
    sym (k (subject_names a) n) ∙ ap (λ xs. contains xs n) same ∙ k (subject_names b) n

-- A service account of the namespace.
abbrev pub IsAccount : String → Subject → Type 0
IsAccount namespace s = (s.kind ≡ "ServiceAccount") × (s.namespace ≡ namespace)

-- A RoleBinding of the agent's role, as this step makes it, for service accounts of the object's
-- namespace only.
abbrev pub IsOurs : GatewaySync → RoleBinding → Type 0
IsOurs gs rb = (rb.role_ref ≡ agent_role_ref) × All (IsAccount gs.meta.namespace) rb.subjects

-- The RoleBinding that there is, if its role has the name of the agent's, was made by this step.
abbrev pub IsTrusted : GatewaySync → Option RoleBinding → Type 0
IsTrusted gs existing =
    (old : RoleBinding)
    → existing ≡ some old
    → old.role_ref.name ≡ agent_cluster_role_name
    → IsOurs gs old

build_subjects-IsAccount :
    (names : List String) (namespace : String)
    → All (IsAccount namespace) (build_subjects names namespace)
unfolding build_subjects
build_subjects-IsAccount [] namespace = tt
build_subjects-IsAccount (n ∷ ns) namespace = ((refl, refl), build_subjects-IsAccount ns namespace)

-- Such a RoleBinding, for the accounts that the names list.
abbrev pub Binds : GatewaySync → List String → RoleBinding → Type 0
Binds gs names rb =
    IsOurs gs rb × ((a : String) → contains (subject_names rb.subjects) a ≡ contains names a)

ensure_binding-Binds :
    (sort : List String → List String) (sv : Server) (gs : GatewaySync) (names : List String)
    (existing : Option RoleBinding) (rb : RoleBinding)
    → KeepsContents sort
    → IsTrusted gs existing
    → (ensure_binding sort sv gs (build_subjects names gs.meta.namespace) existing).is_ok ≡ true
    → (ensure_binding sort sv gs (build_subjects names gs.meta.namespace) existing).binding
      ≡ some rb
    → Binds gs names rb
unfolding ensure_binding new_binding
ensure_binding-Binds sort sv gs names none rb k trust ok h =
    let desired = build_subjects names gs.meta.namespace in
    let is_new : rb ≡ new_binding gs desired = ground (arith, ok, h) in
    rw is_new (
      (refl, build_subjects-IsAccount names gs.meta.namespace),
      λ a. ap (λ xs. contains xs a) (subject_names-build_subjects names gs.meta.namespace),
    )
ensure_binding-Binds sort sv gs names (some old) rb k trust ok h =
    let desired = build_subjects names gs.meta.namespace in
    let built = subject_names-build_subjects names gs.meta.namespace in
    elim (Bool-cases (subjects_equal sort old.subjects desired)) [
      | inl e ↦
          let is_old : rb ≡ old = ground (arith, ok, h, e) in
          (
            rw is_old (trust old refl (ground (arith, ok, h, e, is_old))),
            rw is_old (λ a.
                subjects_equal-contains sort old.subjects desired k e a
                ∙ ap (λ xs. contains xs a) built),
          )
      | inr e ↦
          let is_new : rb ≡ record old { subjects = desired } = ground (arith, ok, h, e) in
          let role = trust old refl (ground (arith, ok, h, e, is_new)) in
          (
            rw is_new (role.0, build_subjects-IsAccount names gs.meta.namespace),
            rw is_new (λ a. ap (λ xs. contains xs a) built),
          )
    ]

contains-or_baseline :
    (names : List String) (a : String)
    → contains (or_baseline names) a
      ≡ (if any (λ _. true) names then contains names a else default_service_account == a)
contains-or_baseline [] a = ground arith
contains-or_baseline (n ∷ ns) a = ground arith

is_empty_iff :
    (xs ys : List String)
    → ((a : String) → contains xs a ≡ contains ys a)
    → any (λ (_ : String). true) xs ≡ any (λ (_ : String). true) ys
is_empty_iff [] [] h = refl
is_empty_iff [] (y ∷ ys) h = let same = ==_refl y in ground (arith, h y, same)
is_empty_iff (x ∷ xs) [] h = let same = ==_refl x in ground (arith, h x, same)
is_empty_iff (x ∷ xs) (y ∷ ys) h = refl

contains-any :
    (xs : List String) (a : String) → contains xs a ≡ true → any (λ (_ : String). true) xs ≡ true
contains-any [] a h = h
contains-any (x ∷ xs) a h = refl

any-seen_accounts :
    (gs : GatewaySync) (pods : List Pod)
    → any (λ (_ : String). true) (seen_accounts gs pods) ≡ any (references gs) pods
unfolding seen_accounts
any-seen_accounts gs [] = refl
any-seen_accounts gs (pod ∷ pods) =
    let some_seen = contains-any (seen_accounts gs pods) (service_account_of pod) in
    ground (arith, any-seen_accounts gs pods, some_seen)

-- The agent's role, and the accounts of the pods that name the object; where no pod does, the default account.
abbrev pub IsGrant : GatewaySync → List Pod → RoleBinding → Type 0
IsGrant gs pods rb =
    IsOurs gs rb
    × ((a : String)
        → contains (subject_names rb.subjects) a ≡ (
            if any (references gs) pods
            then any (λ pod. references gs pod && service_account_of pod == a) pods
            else default_service_account == a))

IsGrant-Binds :
    (sort : List String → List String) (gs : GatewaySync) (pods : List Pod) (rb : RoleBinding)
    → KeepsContents sort
    → Binds gs (or_baseline (sort (seen_accounts gs pods))) rb
    → IsGrant gs pods rb
IsGrant-Binds sort gs pods rb k (role, names) =
    let seen = seen_accounts gs pods in
    (
      role,
      λ a. ground (
        arith,
        names a,
        contains-or_baseline (sort seen) a,
        k seen a,
        contains-seen_accounts gs pods a,
        is_empty_iff (sort seen) seen (k seen),
        any-seen_accounts gs pods,
      ),
    )

-- The RoleBinding before, if there is one whose role has the name of the agent's, is for that
-- ClusterRole and for service accounts of the object's namespace only. Then where the step succeeds
-- and there is a RoleBinding afterwards, that is so again, and it binds the agent's ClusterRole to
-- exactly the service accounts, of that namespace, of the pods that name the object, running or not,
-- or to the default account where no pod does. The sort is one that keeps which texts there are.
pub ensure_agent_role_binding-IsGrant :
    (sort : List String → List String) (sv : Server) (gs : GatewaySync) (pods : List Pod)
    (existing : Option RoleBinding) (rb : RoleBinding)
    → KeepsContents sort
    → IsTrusted gs existing
    → sv.pods ≡ some pods
    → (ensure_agent_role_binding sort sv gs existing).is_ok ≡ true
    → (ensure_agent_role_binding sort sv gs existing).binding ≡ some rb
    → IsGrant gs pods rb
unfolding ensure_agent_role_binding collect_service_accounts_from_pods
ensure_agent_role_binding-IsGrant sort sv gs pods existing rb k trust e ok h =
    let names = sort (seen_accounts gs pods) in
    let done : ensure_agent_role_binding sort sv gs existing
        ≡ ensure_binding sort sv gs (build_subjects (or_baseline names) gs.meta.namespace)
            existing =
      rw (e, ensure_agent_role_binding) (ground (arith, e, ok)) in
    IsGrant-Binds sort gs pods rb k (
      ensure_binding-Binds sort sv gs (or_baseline names) existing rb k trust
        (ap (λ (o : Outcome). o.is_ok) (sym done) ∙ ok)
        (ap (λ (o : Outcome). o.binding) (sym done) ∙ h))
