-- ===== src/Api/Pod.antt =====
-- The parts of `corev1.Pod` that the operator reads and writes.
use stoker_operator.Prelude.{ℕ, String, Bool, Option, List}
use stoker_operator.Api.{ObjectMeta, ResourceRequirements}

pub data EnvValue : Type 0 where
  literal field_ref : String → EnvValue

pub record EnvVar : Type 0 where
  pub name : String
  pub value : EnvValue

pub record VolumeMount : Type 0 where
  pub name : String
  pub mount_path : String
  pub read_only : Bool

pub data VolumeSource : Type 0 where
  empty_dir : VolumeSource
  secret : String → ℕ → VolumeSource
  other_source : VolumeSource

pub record Volume : Type 0 where
  pub name : String
  pub source : VolumeSource

pub record ContainerPort : Type 0 where
  pub name : String
  pub container_port : ℕ

-- Of the security context: what the restricted pod security standard asks.
pub record SecurityContext : Type 0 where
  pub run_as_non_root : Bool
  pub read_only_root_filesystem : Bool
  pub allow_privilege_escalation : Bool
  pub seccomp_runtime_default : Bool
  pub drop : List String

-- `httpGet` on a path and port.
pub record Probe : Type 0 where
  pub path : String
  pub port : ℕ
  pub period_seconds : ℕ
  pub failure_threshold : ℕ

pub record Container : Type 0 where
  pub name : String
  pub image : String
  pub image_pull_policy : String
  pub command : List String
  pub restart_always : Bool
  pub env : List EnvVar
  pub resources : Option ResourceRequirements
  pub ports : List ContainerPort
  pub security_context : Option SecurityContext
  pub startup_probe : Option Probe
  pub liveness_probe : Option Probe
  pub readiness_probe : Option Probe
  pub volume_mounts : List VolumeMount

pub data PodPhase : Type 0 where
  phase_pending phase_running phase_succeeded phase_failed phase_unknown : PodPhase

pub record Pod : Type 0 where
  pub meta : ObjectMeta
  pub service_account_name : String
  pub init_containers : List Container
  pub containers : List Container
  pub volumes : List Volume
  pub phase : PodPhase
