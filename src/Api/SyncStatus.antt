-- ===== src/Api/SyncStatus.antt =====
-- The status values of pkg/types/sync_status.go and annotations.go.
use stoker_operator.Prelude.{String}

abbrev pub pending : String
pending = "Pending"

abbrev pub synced : String
synced = "Synced"

abbrev pub error : String
error = "Error"

abbrev pub missing_sidecar : String
missing_sidecar = "MissingSidecar"
