-- ===== src/Agent/Retry.antt =====
-- The delay after failed syncs in handleSyncTrigger of internal/agent/agent.go. Durations are
-- int64 nanoseconds.
pub mod Laws
use stoker_operator.Prelude.{ℕ, ◌+◌, ◌-◌, ◌*◌, ◌%◌, ◌^◌, ltb, leb, if◌then◌else◌}
use stoker_operator.Prelude.Int.{ℤ, pos, negsuc}

-- The number that a pattern of 64 bits stands for.
unfoldable pub int64 : ℕ → ℤ
int64 w = if ltb w (2 ^ 63) then pos w else negsuc (2 ^ 64 - w - 1)

abbrev pub nanoseconds : ℕ → ℕ
nanoseconds seconds = seconds * 1_000_000_000

-- `30*time.Second << (n-1)` for n from 1 on: the shift drops the bits past the word.
unfoldable pub shifted : ℕ → ℤ
unfolding int64
shifted n = int64 ((nanoseconds 30 * 2 ^ (n - 1)) % 2 ^ 64)

unfoldable pub min_with : ℤ → ℕ → ℤ
min_with (pos a) b = if leb a b then pos a else pos b
min_with (negsuc a) b = negsuc a

unfoldable pub retry_delay : ℕ → ℤ
unfolding shifted min_with
retry_delay consecutive_errors = min_with (shifted consecutive_errors) (nanoseconds 300)
