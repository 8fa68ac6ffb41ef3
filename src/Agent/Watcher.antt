-- ===== src/Agent/Watcher.antt =====
-- internal/agent/watcher.go. Durations are in seconds.
pub mod Laws
use stoker_operator.Prelude.{
  ℕ, String, Bool, true, false, not, ◌&&◌, Option, none, some, ◌==◌, string_eq, nat_eq,
  if◌then◌else◌,
}

-- `pending` is whether `syncCh`, of capacity 1, is full; `reset` is what `resetCh`, of capacity 1,
-- holds; `ticker` is the period of the timer in Run, and `last_version` the variable of
-- pollConfigMap.
pub record Watcher : Type 0 where
  pub period : ℕ
  pub pending : Bool
  pub reset : Option ℕ
  pub ticker : ℕ
  pub last_version : String

-- NewWatcher, with the timer and the variable as they are when Run starts.
unfoldable pub new_watcher : ℕ → Watcher
new_watcher sync_period = record {
  period = sync_period;
  pending = false;
  reset = none;
  ticker = sync_period;
  last_version = "";
}

-- The drain of `resetCh`: a receive if there is something.
unfoldable pub drain : Watcher → Watcher
drain w = record w { reset = none }

unfoldable pub send_reset : ℕ → Watcher → Watcher
unfolding drain
send_reset d w = elim w.reset [
  | none ↦ record w { reset = some d }
  | some old ↦ record (drain w) { reset = some d }
]

unfoldable pub update_period : ℕ → Watcher → Watcher
unfolding send_reset
update_period d w = if d == w.period then w else send_reset d (record w { period = d })

unfoldable pub trigger : Watcher → Watcher
trigger w = if w.pending then w else record w { pending = true }

-- One turn of Run: `resetCh` is ready, or the timer is.
unfoldable pub take_reset : Watcher → Watcher
take_reset w = elim w.reset [ none ↦ w | some d ↦ record w { reset = none; ticker = d } ]

unfoldable pub tick : Watcher → Watcher
unfolding trigger
tick w = trigger w

-- One turn of pollConfigMap, with the version that it read, if it read one.
unfoldable pub poll_config_map : Option String → Watcher → Watcher
unfolding trigger
poll_config_map none w = w
poll_config_map (some version) w =
    if version == w.last_version
    then w
    else if w.last_version == ""
    then record w { last_version = version }
    else record (trigger w) { last_version = version }

-- The main loop's receive from Events.
unfoldable pub take_event : Watcher → Watcher
take_event w = record w { pending = false }
