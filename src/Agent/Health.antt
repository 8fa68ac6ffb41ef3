-- ===== src/Agent/Health.antt =====
-- internal/agent/health.go, but for its HTTP servers.
pub mod Laws
use stoker_operator.Prelude.{ℕ, String, Bool, true, false, if◌then◌else◌}

pub record HealthServer : Type 0 where
  pub initial_sync_done : Bool
  pub shutting_down : Bool

unfoldable pub new_health_server : HealthServer
new_health_server = record { initial_sync_done = false; shutting_down = false }

unfoldable pub mark_ready : HealthServer → HealthServer
mark_ready hs = record hs { initial_sync_done = true }

unfoldable pub mark_not_ready : HealthServer → HealthServer
mark_not_ready hs = record hs { shutting_down = true }

unfoldable pub is_shutting_down : HealthServer → Bool
is_shutting_down hs = hs.shutting_down

-- The status and the body of an answer.
abbrev pub Reply : Type 0
Reply = ℕ × String

unfoldable pub handle_healthz : HealthServer → Reply
handle_healthz hs = (200, "ok")

unfoldable pub handle_readyz : HealthServer → Reply
handle_readyz hs =
    if hs.shutting_down
    then (503, "shutting down")
    else if hs.initial_sync_done
    then (200, "ok")
    else (503, "not ready")

unfoldable pub handle_startupz : HealthServer → Reply
handle_startupz hs = if hs.initial_sync_done then (200, "ok") else (503, "starting")
