-- ===== src/Engine/Samples.antt =====
-- A matcher and files for the runs of this module and of the agent.
use text.Mathlib.TextPositions.{starts_with-append}
use stoker_operator.Prelude.{
  String, ◌<>◌, starts_with, ap, Bool, Option, some, [], ◌∷◌, ◌==◌, ==_refl, string_eq,
  if◌then◌else◌,
}
use stoker_operator.Prelude.Text.{join_by}
use stoker_operator.Engine.Disk.{Node, file}
use stoker_operator.Engine.Plan.Kept.{HidesStaging}

-- A matcher for the patterns that these runs use.
abbrev pub toy_glob : String → String → Option Bool
toy_glob pattern path = some (
    if pattern == "**/.sync-staging/**"
    then starts_with path ".sync-staging"
    else if pattern == "**/.resources/**"
    then starts_with path ".resources"
    else pattern == path)

abbrev pub note : String → Node
note s = file (record { bytes = s; mode = 420 })

pub toy_glob-HidesStaging : HidesStaging toy_glob
unfolding join_by
toy_glob-HidesStaging [] = rw ==_refl (ap some (starts_with-append ".sync-staging" ""))
toy_glob-HidesStaging (y ∷ rel) =
    rw ==_refl (ap some (starts_with-append ".sync-staging" ("/" <> join_by "/" (y ∷ rel))))
