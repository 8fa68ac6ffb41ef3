-- ===== src/Controller/Discovery/Found.antt =====
-- Which pods are gateways, in which order, and as what each is listed.
use stoker_operator.Prelude.{
  String, ◌≡◌, ◌≢◌, ◌⊎◌, inl, inr, refl, ap, true, false, Option, none, some, List, [], ◌∷◌, any,
  All, Eq, ◌==◌, string_eq, arith, Bool-cases, Option-cases,
}
use stoker_operator.Prelude.Dict.{lookup}
use stoker_operator.Api.{GatewaySync}
use stoker_operator.Api.Annotation
use stoker_operator.Api.Names
use stoker_operator.Api.Pod.{
  Container, Pod, PodPhase, phase_running, phase_pending, phase_succeeded, phase_failed,
  phase_unknown,
}
use stoker_operator.Controller.Discovery.{
  references, is_running, is_phase_running, is_text, nonempty_or, text_or_empty, has_sync_agent,
  service_account_of, gateway_name_of, gateway_of, discover_among,
}
use stoker_operator.Controller.Discovery.Described.{
  IsUnset, IsNamed, by_annotation, by_label, by_pod, HasStatus, lacks_sidecar, unasked, has_sidecar,
  IsAccountOf, IsProfileOf, Describes, Discovered, ended, not_ours, not_running, found,
}

is_text-true : (s : String) (o : Option String) → is_text s o ≡ true → o ≡ some s
is_text-true s none h = absurd (cc)
is_text-true s (some t) h = ground (arith, h)

is_text-false : (s : String) (o : Option String) → is_text s o ≡ false → o ≢ some s
is_text-false s none h e = cc
is_text-false s (some t) h e = ground (arith, h, e)

running_true : (p : PodPhase) → is_phase_running p ≡ true → p ≡ phase_running
running_true phase_running h = refl
running_true phase_pending h = absurd (cc)
running_true phase_succeeded h = absurd (cc)
running_true phase_failed h = absurd (cc)
running_true phase_unknown h = absurd (cc)

running_false : (p : PodPhase) → is_phase_running p ≡ false → p ≢ phase_running
running_false p h e = cc (h, ap is_phase_running e)

-- The first of two texts that is set and not empty, or the default.
nonempty_or_cases :
    (d : String) (o : Option String)
    → ((s : String) × (o ≡ some s) × (s ≢ "") × (nonempty_or d o ≡ s))
      ⊎ (IsUnset o × (nonempty_or d o ≡ d))
nonempty_or_cases d none = inr (inl refl, refl)
nonempty_or_cases d (some s) = elim (Eq.dec string_eq s "") [
  | yes e ↦ inr (inr (ground (arith, e)), ground (arith, e))
  | no n ↦ inl (s, refl, n, ground (arith, n))
]

gateway_name_of-IsNamed : (pod : Pod) → IsNamed pod (gateway_name_of pod)
unfolding gateway_name_of
gateway_name_of-IsNamed pod =
    let label = lookup Names.label_app_name pod.meta.labels in
    let annotated = lookup Annotation.gateway_name pod.meta.annotations in
    elim (nonempty_or_cases (nonempty_or pod.meta.name label) annotated) [
      | inl (s, e, n, same) ↦ rw same (by_annotation s e n)
      | inr (unset, same) ↦ elim (nonempty_or_cases pod.meta.name label) [
        | inl (s, e, n, again) ↦ rw (same, again) (by_label s unset e n)
        | inr (free, again) ↦ rw (same, again) (by_pod unset free)
      ]
    ]

any-NoAgent :
    (cs : List Container)
    → any (λ (c : Container). c.name == "stoker-agent") cs ≡ false
    → All (λ (c : Container). c.name ≢ "stoker-agent") cs
any-NoAgent [] h = tt
any-NoAgent (c ∷ cs) h = (ground (arith, h), any-NoAgent cs (ground (arith, h)))

NoAgent-any :
    (cs : List Container)
    → All (λ (c : Container). c.name ≢ "stoker-agent") cs
    → any (λ (c : Container). c.name == "stoker-agent") cs ≡ false
NoAgent-any [] h = refl
NoAgent-any (c ∷ cs) h = ground (arith, h.0, NoAgent-any cs h.1)

empty_false : ◌==◌ {A = String} "" "true" ≡ false
unfolding string_eq
empty_false = refl

text_or_empty-true : (o : Option String) → (text_or_empty o == "true") ≡ true → o ≡ some "true"
text_or_empty-true none h = absurd (cc (h, empty_false))
text_or_empty-true (some s) h = ground (arith, h)

text_or_empty-false : (o : Option String) → (text_or_empty o == "true") ≡ false → o ≢ some "true"
text_or_empty-false o h e = ground (arith, h, e)

status-HasStatus : (pod : Pod) → HasStatus pod (gateway_of pod).sync_status
unfolding gateway_of has_sync_agent
status-HasStatus pod =
    let asked = lookup Annotation.inject pod.meta.annotations in
    elim (Bool-cases (text_or_empty asked == "true")) [
      | inl yes_asked ↦ elim (Bool-cases (has_sync_agent pod)) [
        | inl there ↦
            rw (yes_asked, there)
              (has_sidecar (λ no. cc (there, NoAgent-any pod.init_containers no)))
        | inr absent ↦
            rw (yes_asked, absent)
              (lacks_sidecar (text_or_empty-true asked yes_asked)
                (any-NoAgent pod.init_containers absent))
      ]
      | inr no_asked ↦ rw no_asked (unasked (text_or_empty-false asked no_asked))
    ]

profile-IsProfileOf : (pod : Pod) → IsProfileOf pod (gateway_of pod).profile
unfolding gateway_of
profile-IsProfileOf pod = elim (Option-cases (lookup Annotation.profile pod.meta.annotations)) [
  | inl e ↦ inr (e, rw e refl)
  | inr (s, e) ↦ inl (rw e refl)
]

account-IsAccountOf : (pod : Pod) → IsAccountOf pod (service_account_of pod)
unfolding service_account_of
account-IsAccountOf pod = elim (Eq.dec string_eq pod.service_account_name "") [
  | yes e ↦ inr (e, ground (arith, e))
  | no n ↦ inl (n, ground (arith, n))
]

gateway_of-Describes : (pod : Pod) → Describes pod (gateway_of pod)
unfolding gateway_of
gateway_of-Describes pod = record {
  named = gateway_name_of-IsNamed pod;
  same_namespace = refl;
  same_pod = refl;
  account = account-IsAccountOf pod;
  profile = profile-IsProfileOf pod;
  status = status-HasStatus pod;
  never_synced = refl;
  no_commit = refl;
  no_ref = refl;
  no_duration = refl;
  no_version = refl;
  no_scan = refl;
  no_projects = refl;
  no_files = refl;
}

-- The discovered gateways are the running pods whose annotation names the object, one for each and in
-- the pods' order. Each has its name by its annotation, label or pod, its pod's namespace, account
-- (or the default one) and profile, the status MissingSidecar where it asks for the sidecar and has
-- none and else Pending, and no report yet.
pub discover_among-Discovered :
    (gs : GatewaySync) (pods : List Pod) → Discovered gs pods (discover_among gs pods)
unfolding discover_among references is_running
discover_among-Discovered gs [] = ended
discover_among-Discovered gs (pod ∷ pods) =
    let rest = discover_among-Discovered gs pods in
    let cr = lookup Annotation.cr_name pod.meta.annotations in
    elim (Bool-cases (is_text gs.meta.name cr)) [
      | inr other ↦ rw other (not_ours pod pods _ (is_text-false gs.meta.name cr other) rest)
      | inl ours ↦ elim (Bool-cases (is_phase_running pod.phase)) [
        | inr down ↦ rw (ours, down) (not_running pod pods _ (running_false pod.phase down) rest)
        | inl up ↦
            rw (ours, up)
              (found pod pods _ _ (is_text-true gs.meta.name cr ours) (running_true pod.phase up)
                (gateway_of-Describes pod) rest)
      ]
    ]
