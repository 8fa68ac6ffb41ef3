-- ===== src/Agent/Config/Laws.antt =====
-- The configuration that an injected agent loads.
use stoker_operator.Prelude.{
  String, ◌<>◌, ◌≡◌, ◌≢◌, refl, sym, ap, ◌∙◌, All, Bool, true, false, Option, none, some, List, [],
  ◌∷◌, ◌++◌, ◌==◌, string_eq, nat_eq, arith, if◌then◌else◌,
}
use mathlib.Core.Path.{subst}
use stoker_operator.Prelude.Outcome.{done}
use stoker_operator.Prelude.Int.{parse_bool, atoi}
use stoker_operator.Prelude.Text.{decimal}
use stoker_operator.Api.{GatewaySync, ObjectMeta}
use stoker_operator.Api.Annotation
use stoker_operator.Api.Pod.{EnvVar, EnvValue, literal, field_ref, Container, Pod}
use stoker_operator.Webhook.Inject.Sidecar.{
  agent_container, build_env_vars, set_env, mount_data, inject_sidecar, tls_text, annotation,
  annotation_true,
}
use stoker_operator.Webhook.Inject.Volumes.{resolve_data_volume}
use stoker_operator.Webhook.Inject.Auth.{choose, auth_env}
use stoker_operator.Agent.Config.{Config, load_config, read_config, parse_period, or_default}

-- What Kubernetes puts into a variable: a literal, or a field of the pod.
abbrev pub value_in : ObjectMeta → EnvValue → String
value_in meta (literal v) = v
value_in meta (field_ref path) =
    if path == "metadata.name"
    then meta.name
    else if path == "metadata.namespace"
    then meta.namespace
    else ""

-- A container's process finds each of its variables in its environment.
abbrev pub IsEnvironment : (String → String) → ObjectMeta → List EnvVar → Type 0
IsEnvironment getenv meta env = All (λ e. getenv e.name ≡ value_in meta e.value) env

All-append_right {ℓ κ} :
    {A : Type ℓ} (P : A → Type κ) (xs ys : List A) → All P (xs ++ ys) → All P ys
All-append_right P [] ys h = h
All-append_right P (x ∷ xs) ys h = All-append_right P xs ys h.1

parse_period_30 : parse_period "30" ≡ 30
unfolding parse_period atoi string_eq
parse_period_30 = refl

parse_bool-true : parse_bool annotation_true ≡ true
unfolding parse_bool string_eq
parse_bool-true = refl

parse_bool-false : parse_bool "false" ≡ false
unfolding parse_bool string_eq
parse_bool-false = refl

abbrev pub is_on : Option Bool → Bool
is_on (some b) = b
is_on none = false

parse_bool-tls_text : (tls : Option Bool) → parse_bool (tls_text tls) ≡ is_on tls
parse_bool-tls_text none = parse_bool-false
parse_bool-tls_text (some true) = parse_bool-true
parse_bool-tls_text (some false) = parse_bool-false

-- Where the pod's containers mount the data volume, if there is one and they do.
abbrev pub mounted_at : Option (String × String) → String
mounted_at none = "/ignition-data"
mounted_at (some (name, path)) = or_default path "/ignition-data"

-- What an agent is to know, from its pod and from the object.
abbrev pub injected_config : ObjectMeta → Pod → GatewaySync → Config
injected_config meta pod gs = record {
  pod_name = meta.name;
  pod_namespace = meta.namespace;
  gateway_name = or_default (annotation Annotation.gateway_name pod) meta.name;
  cr_name = or_default (annotation Annotation.cr_name pod) gs.meta.name;
  cr_namespace = meta.namespace;
  repo_path = "/repo";
  data_path = mounted_at (resolve_data_volume pod);
  gateway_port =
      or_default (if gs.spec.gateway.port == 0 then "8088" else decimal gs.spec.gateway.port)
        "8088";
  gateway_tls = is_on gs.spec.gateway.tls;
  api_key_file = "/etc/stoker/api-key/" <> gs.spec.gateway.api.secret_key;
  sync_period = 30;
  profile_name = annotation Annotation.profile pod;
}

value_name : (meta : ObjectMeta) → value_in meta (field_ref "metadata.name") ≡ meta.name
unfolding string_eq
value_name meta = refl

value_namespace :
    (meta : ObjectMeta) → value_in meta (field_ref "metadata.namespace") ≡ meta.namespace
unfolding string_eq
value_namespace meta = refl

or_default-ne : (s d : String) → d ≢ "" → or_default s d ≢ ""
or_default-ne s d h = ground arith

or_default_same : (s : String) → or_default s s ≡ s
or_default_same s = ground arith

load_config-read_config :
    (getenv : String → String)
    → getenv "CR_NAME" ≢ ""
    → getenv "POD_NAMESPACE" ≢ ""
    → load_config getenv ≡ done (read_config getenv)
unfolding load_config
load_config-read_config getenv cr ns = ground arith

mount_ne : ◌==◌ {A = String} "/repo" "" ≡ false
unfolding string_eq
mount_ne = refl

module _ (getenv : String → String) (meta : ObjectMeta) (image_env : String) (pod : Pod)
    (gs : GatewaySync) where
  -- With that path in DATA_PATH.
  read_config_at :
      (path : String)
      → IsEnvironment getenv meta (set_env "DATA_PATH" path (agent_container image_env pod gs).env)
      → mounted_at (resolve_data_volume pod) ≡ or_default path "/ignition-data"
      → read_config getenv ≡ injected_config meta pod gs
  unfolding agent_container build_env_vars set_env read_config string_eq
  read_config_at path h at =
      let period =
        (All-append_right (λ e. getenv e.name ≡ value_in meta e.value)
          (auth_env (choose gs.spec.git.auth)) _ h.1.1.1.1.1.1.1.1.1.1.1).0 in
      rw
        (
          h.0 ∙ value_name meta,
          h.1.0 ∙ value_namespace meta,
          h.1.1.0,
          h.1.1.1.0 ∙ value_namespace meta,
          h.1.1.1.1.0,
          h.1.1.1.1.1.0,
          h.1.1.1.1.1.1.0,
          h.1.1.1.1.1.1.1.0,
          h.1.1.1.1.1.1.1.1.0,
          h.1.1.1.1.1.1.1.1.1.0,
          h.1.1.1.1.1.1.1.1.1.1.0,
          period,
          parse_period_30,
          parse_bool-tls_text gs.spec.gateway.tls,
          mount_ne,
          at,
          or_default_same meta.namespace,
        )
        refl

  read_config_mounted :
      (volume : Option (String × String))
      → resolve_data_volume pod ≡ volume
      → IsEnvironment getenv meta (mount_data volume (agent_container image_env pod gs)).env
      → read_config getenv ≡ injected_config meta pod gs
  unfolding agent_container build_env_vars mount_data set_env string_eq
  read_config_mounted none e h = read_config_at "/ignition-data" h (rw e refl)
  read_config_mounted (some (name, path)) e h = read_config_at path h (rw e refl)

  -- For the container that the injector puts first into a pod, for an object with a name, run in a pod
  -- with that metadata and with a namespace, whose process finds its variables: the agent loads a
  -- configuration, without an error, and it is the one that the pod's annotations, the object, and the
  -- place where the pod mounts its data volume ask for.
  pub load_config_injected :
      (c : Container) (cs : List Container)
      → (inject_sidecar image_env pod gs).init_containers ≡ c ∷ cs
      → IsEnvironment getenv meta c.env
      → gs.meta.name ≢ ""
      → meta.namespace ≢ ""
      → load_config getenv ≡ done (injected_config meta pod gs)
  unfolding inject_sidecar read_config
  load_config_injected c cs first h named spaced =
      let volume = resolve_data_volume pod in
      let same : mount_data volume (agent_container image_env pod gs) ≡ c = cc first in
      let env = subst (λ (x : Container). IsEnvironment getenv meta x.env) (sym same) h in
      let whole = read_config_mounted volume refl env in
      let cr : getenv "CR_NAME" ≡ or_default (annotation Annotation.cr_name pod) gs.meta.name =
        ap (λ (c : Config). c.cr_name) whole in
      let ns : getenv "POD_NAMESPACE" ≡ meta.namespace =
        ap (λ (c : Config). c.pod_namespace) whole in
      load_config-read_config getenv
        (λ e. or_default-ne (annotation Annotation.cr_name pod) gs.meta.name named (sym cr ∙ e))
        (λ e. spaced (sym ns ∙ e))
      ∙ ap (λ c. done c) whole
