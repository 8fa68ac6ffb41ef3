-- ===== src/Api/ConditionType.antt =====
-- The condition types of pkg/conditions/conditions.go.
use stoker_operator.Prelude.{String}

abbrev pub ready : String
ready = "Ready"

abbrev pub ref_resolved : String
ref_resolved = "RefResolved"

abbrev pub profiles_valid : String
profiles_valid = "ProfilesValid"

abbrev pub all_gateways_synced : String
all_gateways_synced = "AllGatewaysSynced"

abbrev pub sidecar_injected : String
sidecar_injected = "SidecarInjected"

abbrev pub ssh_host_key_verification : String
ssh_host_key_verification = "SSHHostKeyVerification"
