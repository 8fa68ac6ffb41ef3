-- ===== src/Webhook/Inject/Sidecar.antt =====
-- injectSidecar and what it is made of, in inject.go
use stoker_operator.Prelude.{
  String, ◌<>◌, Bool, true, false, Option, none, some, List, [], ◌∷◌, ◌++◌, ◌==◌, string_eq, nat_eq,
  if◌then◌else◌,
}
use stoker_operator.Prelude.Text.{decimal}
use stoker_operator.Prelude.Dict.{lookup, insert}
use stoker_operator.Api.{GatewaySync, ResourceRequirements}
use stoker_operator.Api.Annotation
use stoker_operator.Api.Names
use stoker_operator.Api.Pod.{EnvVar, literal, field_ref, Container, Pod}
use stoker_operator.Webhook.Inject.Auth.{choose, auth_env}
use stoker_operator.Webhook.Inject.Volumes.{
  agent_volume_mounts, agent_volumes, resolve_data_volume, mount_ignition_data,
}

abbrev pub agent_container_name : String
agent_container_name = "stoker-agent"

abbrev pub annotation_true : String
annotation_true = "true"

abbrev or_empty : Option String → String
or_empty (some s) = s
or_empty none = ""

abbrev pub annotation : String → Pod → String
annotation key pod = or_empty (lookup key pod.meta.annotations)

-- `image_env` is `DEFAULT_AGENT_IMAGE`.
unfoldable pub resolve_agent_image : String → GatewaySync → String
resolve_agent_image image_env gs =
    let spec = gs.spec.agent.image in
    if spec.repository == ""
    then if image_env == "" then "ghcr.io/knorrlabs/stoker-agent:latest" else image_env
    else spec.repository <> ":" <> (if spec.tag == "" then "latest" else spec.tag)

unfoldable pub resolve_agent_pull_policy : GatewaySync → String
resolve_agent_pull_policy gs =
    let p = gs.spec.agent.image.pull_policy in if p == "" then "IfNotPresent" else p

abbrev env_of : String → String → EnvVar
env_of name v = record { name = name; value = literal v }

abbrev env_from : String → String → EnvVar
env_from name path = record { name = name; value = field_ref path }

unfoldable pub build_env_vars :
    String → String → String → String → String → GatewaySync → List EnvVar
unfolding choose auth_env
build_env_vars cr_name gateway_name profile port tls gs =
    (env_from "POD_NAME" "metadata.name"
      ∷ env_from "POD_NAMESPACE" "metadata.namespace"
      ∷ env_of "CR_NAME" cr_name
      ∷ env_from "CR_NAMESPACE" "metadata.namespace"
      ∷ env_of "GATEWAY_NAME" gateway_name
      ∷ env_of "PROFILE" profile
      ∷ env_of "REPO_PATH" "/repo"
      ∷ env_of "DATA_PATH" mount_ignition_data
      ∷ env_of "GATEWAY_PORT" port
      ∷ env_of "GATEWAY_TLS" tls
      ∷ env_of "API_KEY_FILE" ("/etc/stoker/api-key/" <> gs.spec.gateway.api.secret_key)
      ∷ [])
    ++ (auth_env (choose gs.spec.git.auth) ++ (env_of "SYNC_PERIOD" "30" ∷ []))

unfoldable pub build_resources : GatewaySync → ResourceRequirements
build_resources gs = elim gs.spec.agent.resources [
  | some r ↦ r
  | none ↦ record {
    requests = ("cpu", "50m") ∷ ("memory", "64Mi") ∷ [];
    limits = ("cpu", "200m") ∷ ("memory", "256Mi") ∷ [];
  }
]

abbrev pub tls_text : Option Bool → String
tls_text (some true) = annotation_true
tls_text (some false) = "false"
tls_text none = "false"

-- The first variable of that name gets the value.
unfoldable pub set_env : String → String → List EnvVar → List EnvVar
set_env name v [] = []
set_env name v (e ∷ es) =
    if e.name == name then record e { value = literal v } ∷ es else e ∷ set_env name v es

unfoldable pub agent_container : String → Pod → GatewaySync → Container
unfolding resolve_agent_image resolve_agent_pull_policy build_env_vars build_resources
    agent_volume_mounts decimal
agent_container image_env pod gs =
    let named = annotation Annotation.cr_name pod in
    let cr_name = if named == "" then gs.meta.name else named in
    let port = if gs.spec.gateway.port == 0 then "8088" else decimal gs.spec.gateway.port in
    record {
      name = agent_container_name;
      image = resolve_agent_image image_env gs;
      image_pull_policy = resolve_agent_pull_policy gs;
      command = "/agent" ∷ [];
      restart_always = true;
      env =
          build_env_vars cr_name (annotation Annotation.gateway_name pod)
            (annotation Annotation.profile pod) port (tls_text gs.spec.gateway.tls) gs;
      resources = some (build_resources gs);
      ports = record { name = "metrics"; container_port = 8083 } ∷ [];
      security_context = some (record {
        run_as_non_root = true;
        read_only_root_filesystem = true;
        allow_privilege_escalation = false;
        seccomp_runtime_default = true;
        drop = "ALL" ∷ [];
      });
      startup_probe =
          some (record {
            path = "/startupz";
            port = 8082;
            period_seconds = 2;
            failure_threshold = 150;
          });
      liveness_probe =
          some
            (record { path = "/healthz"; port = 8082; period_seconds = 10; failure_threshold = 3 });
      readiness_probe =
          some
            (record { path = "/readyz"; port = 8082; period_seconds = 5; failure_threshold = 3 });
      volume_mounts = agent_volume_mounts gs;
    }

-- The data volume is mounted where the pod's own containers mount it.
unfoldable pub mount_data : Option (String × String) → Container → Container
unfolding set_env
mount_data none c = c
mount_data (some (name, path)) c = record c {
  volume_mounts =
      c.volume_mounts ++ (record { name = name; mount_path = path; read_only = false } ∷ []);
  env = set_env "DATA_PATH" path c.env;
}

unfoldable pub inject_sidecar : String → Pod → GatewaySync → Pod
unfolding agent_container mount_data resolve_data_volume agent_volumes
inject_sidecar image_env pod gs =
    let m = pod.meta in
    record pod {
      init_containers =
          mount_data (resolve_data_volume pod) (agent_container image_env pod gs)
          ∷ pod.init_containers;
      volumes = pod.volumes ++ agent_volumes gs;
      meta = record m {
        annotations = insert Annotation.injected annotation_true m.annotations;
        labels = insert Names.label_agent annotation_true m.labels;
      };
    }
