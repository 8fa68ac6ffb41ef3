-- ===== src/Api/Reason.antt =====
-- The condition reasons of pkg/conditions/conditions.go.
use stoker_operator.Prelude.{String}

abbrev pub reconciling : String
reconciling = "Reconciling"

abbrev pub ref_resolved : String
ref_resolved = "RefResolved"

abbrev pub ref_resolution_failed : String
ref_resolution_failed = "RefResolutionFailed"

abbrev pub sync_succeeded : String
sync_succeeded = "SyncSucceeded"

abbrev pub sync_in_progress : String
sync_in_progress = "SyncInProgress"

abbrev pub paused : String
paused = "Paused"

abbrev pub no_gateways : String
no_gateways = "NoGatewaysDiscovered"

abbrev pub profiles_valid : String
profiles_valid = "ProfilesValid"

abbrev pub profiles_invalid : String
profiles_invalid = "ProfilesInvalid"

abbrev pub sidecar_missing : String
sidecar_missing = "SidecarMissing"

abbrev pub sidecar_present : String
sidecar_present = "SidecarPresent"

abbrev pub git_hub_app_exchange_failed : String
git_hub_app_exchange_failed = "GitHubAppExchangeFailed"

abbrev pub host_key_verification_disabled : String
host_key_verification_disabled = "HostKeyVerificationDisabled"

abbrev pub host_key_verification_enabled : String
host_key_verification_enabled = "HostKeyVerificationEnabled"
