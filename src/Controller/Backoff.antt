-- ===== src/Controller/Backoff.antt =====
-- The backoff of gatewaysync_controller.go. Durations and instants are in seconds.
pub mod Laws
use stoker_operator.Prelude.{
  ℕ, zero, suc, ◌+◌, ◌*◌, ◌-◌, ◌≤◌, ◌<◌, ◌≡◌, refl, String, Bool, true, false, ◌&&◌, Option, none,
  some, ◌==◌, ltb, leb, string_eq, arith, if◌then◌else◌, ==_refl,
}
use stoker_operator.Prelude.Dict.{Dict, lookup, insert, erase, lookup-insert, lookup-erase}

pub record BackoffState : Type 0 where
  pub failure_count : ℕ
  pub last_failure : ℕ

-- The states by the objects' keys, here their namespaced names in one text.
abbrev pub Backoff : Type 0
Backoff = Dict String BackoffState

-- The loop, for as many rounds as there are: it stops once the delay is at 5 minutes.
unfoldable pub doubled : ℕ → ℕ → ℕ
doubled zero delay = delay
doubled (suc rounds) delay =
    let rest = doubled rounds (2 * delay) in if ltb delay 300 then rest else delay

unfoldable pub delay_of : Option BackoffState → ℕ
unfolding doubled
delay_of none = 30
delay_of (some state) =
    if leb state.failure_count 0
    then 30
    else let delay = doubled (state.failure_count - 1) 30 in if ltb 300 delay then 300 else delay

unfoldable pub backoff_delay : Backoff → String → ℕ
unfolding delay_of
backoff_delay backoff key = delay_of (lookup key backoff)

unfoldable pub failed_once_more : ℕ → Option BackoffState → BackoffState
failed_once_more now none = record { failure_count = 1; last_failure = now }
failed_once_more now (some state) = record {
  failure_count = suc state.failure_count;
  last_failure = now;
}

unfoldable pub record_failure : ℕ → String → Backoff → Backoff
unfolding failed_once_more
record_failure now key backoff = insert key (failed_once_more now (lookup key backoff)) backoff

unfoldable pub reset_backoff : String → Backoff → Backoff
reset_backoff key backoff = erase key backoff
