-- ===== src/Engine/Tests.antt =====
-- Runs of the sync engine, and its theorems at concrete data.
use stoker_operator.Prelude.{
  ◌≡◌, refl, Bool, true, false, none, some, [], ◌∷◌, string_eq, nat_eq, list_eq,
}
use stoker_operator.Prelude.Text.{join_by}
use stoker_operator.Engine.Samples.{toy_glob, note, toy_glob-HidesStaging}
use stoker_operator.Engine.Disk.{dir, Disk, ok, lstat, is_below}
use stoker_operator.Engine.Plan.{SyncPlan, execute_plan}
use stoker_operator.Engine.Plan.Stage.{ResolvedMapping, render, components, descend}
use stoker_operator.Engine.Plan.Stage.Keeps.{IsSound}
use stoker_operator.Engine.Plan.DryRun.{as_file, execute_plan_dry_run}
use stoker_operator.Engine.Plan.Kept.{IsSoundPlan, execute_plan_kept_out, execute_plan_unmanaged}

abbrev disk : Disk
disk =
    ("data" ∷ [], dir)
    ∷ ("data" ∷ ".resources" ∷ [], dir)
    ∷ ("data" ∷ ".resources" ∷ "x" ∷ [], note "runtime")
    ∷ ("data" ∷ "cfg" ∷ [], dir)
    ∷ ("data" ∷ "cfg" ∷ "old" ∷ [], dir)
    ∷ ("data" ∷ "cfg" ∷ "old" ∷ "gone" ∷ [], note "1")
    ∷ ("data" ∷ "cfg" ∷ "same" ∷ [], note "2")
    ∷ ("data" ∷ "db" ∷ [], note "db")
    ∷ ("repo" ∷ [], dir)
    ∷ ("repo" ∷ "cfg" ∷ [], dir)
    ∷ ("repo" ∷ "cfg" ∷ "new" ∷ [], note "3")
    ∷ ("repo" ∷ "cfg" ∷ "same" ∷ [], note "2")
    ∷ []

abbrev cfg : ResolvedMapping
cfg = record {
  source = "repo" ∷ "cfg" ∷ [];
  destination = "cfg";
  mapping_type = "dir";
  template = false;
  apply_patches = none;
}

abbrev plan : Bool → SyncPlan
plan dry = record {
  mappings = cfg ∷ [];
  exclude_patterns = [];
  staging_dir = "data" ∷ ".sync-staging" ∷ [];
  live_dir = "data" ∷ [];
  dry_run = dry;
  apply_template = none;
}

run : Bool → Disk
unfolding execute_plan string_eq nat_eq list_eq
run dry = (execute_plan toy_glob (λ s. s) (plan dry) disk).0

live_run :
    run false
    ≡ ("data" ∷ [], dir)
      ∷ ("data" ∷ ".resources" ∷ [], dir)
      ∷ ("data" ∷ ".resources" ∷ "x" ∷ [], note "runtime")
      ∷ ("data" ∷ "cfg" ∷ [], dir)
      ∷ ("data" ∷ "cfg" ∷ "new" ∷ [], note "3")
      ∷ ("data" ∷ "cfg" ∷ "same" ∷ [], note "2")
      ∷ ("data" ∷ "db" ∷ [], note "db")
      ∷ ("repo" ∷ [], dir)
      ∷ ("repo" ∷ "cfg" ∷ [], dir)
      ∷ ("repo" ∷ "cfg" ∷ "new" ∷ [], note "3")
      ∷ ("repo" ∷ "cfg" ∷ "same" ∷ [], note "2")
      ∷ []
unfolding run join_by
live_run = refl

dry_run_diff :
    (execute_plan toy_glob (λ s. s) (plan true) disk).1
    ≡ ok (record {
      files_added = 1;
      files_modified = 0;
      files_deleted = 1;
      projects_synced = [];
      dry_run_diff =
          some (record { added = "cfg/new" ∷ []; modified = []; deleted = "cfg/old/gone" ∷ [] });
    })
unfolding execute_plan string_eq nat_eq list_eq join_by
dry_run_diff = refl

-- A destination that leads above its start leaves staging, and is matched as it is written.
leaves_staging : descend ("data" ∷ ".sync-staging" ∷ []) (components "../new") ≡ "data" ∷ "new" ∷ []
unfolding descend components string_eq
leaves_staging = refl

leads_above : render (components "a/../../new") ≡ "../new"
unfolding components join_by string_eq
leads_above = refl

from_the_root : render (components "/a/../b") ≡ "/b"
unfolding components join_by string_eq
from_the_root = refl

cfg-IsSound : IsSound cfg
unfolding components join_by string_eq
cfg-IsSound = record {
  is_inside = ((λ p. cc, λ p. cc), tt);
  is_clean = λ _. refl;
  patches_in_place = tt;
}

plan-IsSoundPlan : (dry : Bool) → IsSoundPlan (plan dry)
plan-IsSoundPlan dry = record {
  in_live = refl;
  mappings_sound = (cfg-IsSound, tt);
  template_in_place = tt;
}

execute_plan_kept_out_example :
    lstat ("data" ∷ ".resources" ∷ "x" ∷ []) (run false) ≡ some (note "runtime")
unfolding run is_below join_by
execute_plan_kept_out_example =
    execute_plan_kept_out toy_glob (λ s. s) (plan false) (plan-IsSoundPlan false)
      toy_glob-HidesStaging (".resources" ∷ "x" ∷ []) (record { bytes = "runtime"; mode = 420 })
      refl disk refl refl

execute_plan_unmanaged_example : lstat ("data" ∷ "db" ∷ []) (run false) ≡ some (note "db")
unfolding run is_below join_by
execute_plan_unmanaged_example =
    execute_plan_unmanaged toy_glob (λ s. s) (plan false) (plan-IsSoundPlan false)
      toy_glob-HidesStaging ("db" ∷ []) (record { bytes = "db"; mode = 420 }) refl disk refl
      (λ g e. cc) refl

execute_plan_dry_run_example :
    as_file (lstat ("data" ∷ "cfg" ∷ "old" ∷ "gone" ∷ []) (run true))
    ≡ some (record { bytes = "1"; mode = 420 })
unfolding run is_below lstat
execute_plan_dry_run_example =
    execute_plan_dry_run toy_glob (λ s. s) (plan true) ("data" ∷ "cfg" ∷ "old" ∷ "gone" ∷ []) disk
      refl (cfg-IsSound, tt) tt refl
