-- ===== src/Api.antt =====
-- api/v1alpha1/gatewaysync_types.go, and the parts of Kubernetes' object types that the code reads.
-- A pointer is an Option, a map a Dict, and an integer that the CRD keeps from being negative an ℕ.
pub mod Names
pub mod Annotation
pub mod SyncStatus
pub mod ConditionType
pub mod Reason
pub mod Pod
pub mod Samples
use stoker_operator.Prelude.{ℕ, String, Bool, Option, List}
use stoker_operator.Prelude.Dict.{Dict}

pub record SecretKeyRef : Type 0 where
  pub name : String
  pub key : String

pub record KnownHosts : Type 0 where
  pub secret_ref : SecretKeyRef

pub record SshKeyAuth : Type 0 where
  pub secret_ref : SecretKeyRef
  pub known_hosts : Option KnownHosts

pub record GitHubAppAuth : Type 0 where
  pub app_id : ℕ
  pub installation_id : ℕ
  pub private_key_secret_ref : SecretKeyRef
  pub api_base_url : String

pub record TokenAuth : Type 0 where
  pub secret_ref : SecretKeyRef

pub record GitAuthSpec : Type 0 where
  pub ssh_key : Option SshKeyAuth
  pub git_hub_app : Option GitHubAppAuth
  pub token : Option TokenAuth

pub record GitSpec : Type 0 where
  pub repo : String
  pub ref : String
  pub auth : Option GitAuthSpec

pub record PollingSpec : Type 0 where
  pub enabled : Option Bool
  pub interval : String

pub record GatewayApiSpec : Type 0 where
  pub secret_name : String
  pub secret_key : String

pub record GatewaySpec : Type 0 where
  pub port : ℕ
  pub tls : Option Bool
  pub api : GatewayApiSpec

pub record AgentImageSpec : Type 0 where
  pub repository : String
  pub tag : String
  pub pull_policy : String

-- `corev1.ResourceRequirements`, quantities as they are written.
pub record ResourceRequirements : Type 0 where
  pub requests : Dict String String
  pub limits : Dict String String

pub record AgentSpec : Type 0 where
  pub image : AgentImageSpec
  pub resources : Option ResourceRequirements

pub record MappingPatch : Type 0 where
  pub file : String
  pub set : Dict String String

pub record SyncMapping : Type 0 where
  pub source : String
  pub destination : String
  pub mapping_type : String
  pub required : Bool
  pub template : Bool
  pub patches : List MappingPatch

pub record SyncDefaults : Type 0 where
  pub exclude_patterns : List String
  pub vars : Dict String String
  pub sync_period : ℕ
  pub designer_session_policy : String
  pub dry_run : Bool
  pub paused : Bool

pub record SyncProfileSpec : Type 0 where
  pub mappings : List SyncMapping
  pub exclude_patterns : List String
  pub vars : Dict String String
  pub sync_period : Option ℕ
  pub dry_run : Option Bool
  pub designer_session_policy : String
  pub paused : Option Bool

pub record SyncSpec : Type 0 where
  pub defaults : SyncDefaults
  pub profiles : Dict String SyncProfileSpec

pub record GatewaySyncSpec : Type 0 where
  pub git : GitSpec
  pub polling : PollingSpec
  pub gateway : GatewaySpec
  pub sync : SyncSpec
  pub agent : AgentSpec
  pub paused : Bool

pub record DiscoveredGateway : Type 0 where
  pub name : String
  pub namespace : String
  pub pod_name : String
  pub service_account_name : String
  pub profile : String
  pub sync_status : String
  pub last_sync_time : Option ℕ
  pub last_sync_duration : String
  pub synced_commit : String
  pub synced_ref : String
  pub agent_version : String
  pub last_scan_result : String
  pub files_changed : ℕ
  pub projects_synced : List String

-- `metav1.ConditionStatus`
pub data ConditionStatus : Type 0 where
  is_true is_false : ConditionStatus

-- `metav1.Condition`; instants are numbers.
pub record Condition : Type 0 where
  pub cond_type : String
  pub status : ConditionStatus
  pub observed_generation : ℕ
  pub last_transition_time : ℕ
  pub reason : String
  pub message : String

pub record GatewaySyncStatus : Type 0 where
  pub observed_generation : ℕ
  pub last_sync_time : Option ℕ
  pub last_sync_ref : String
  pub last_sync_commit : String
  pub last_sync_commit_short : String
  pub ref_resolution_status : String
  pub profile_count : ℕ
  pub discovered_gateways : List DiscoveredGateway
  pub conditions : List Condition

-- `metav1.ObjectMeta`
pub record ObjectMeta : Type 0 where
  pub name : String
  pub namespace : String
  pub generation : ℕ
  pub annotations : Dict String String
  pub labels : Dict String String
  pub finalizers : List String
  pub deletion_timestamp : Option ℕ

pub record GatewaySync : Type 0 where
  pub meta : ObjectMeta
  pub spec : GatewaySyncSpec
  pub status : GatewaySyncStatus
