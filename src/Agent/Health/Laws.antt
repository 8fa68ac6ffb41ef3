-- ===== src/Agent/Health/Laws.antt =====
-- What the probes say over the agent's life.
use stoker_operator.Prelude.{◌≡◌, ◌↔◌, Bool, true, false, ◌||◌, List, [], ◌∷◌, any, arith}
use stoker_operator.Agent.Health.{
  HealthServer, new_health_server, mark_ready, mark_not_ready, handle_readyz, handle_startupz,
}

-- What the agent tells its health server.
pub data Mark : Type 0 where
  ready not_ready : Mark

abbrev pub is_ready : Mark → Bool
is_ready ready = true
is_ready not_ready = false

abbrev pub is_not_ready : Mark → Bool
is_not_ready ready = false
is_not_ready not_ready = true

unfoldable pub apply_mark : Mark → HealthServer → HealthServer
unfolding mark_ready mark_not_ready
apply_mark ready hs = mark_ready hs
apply_mark not_ready hs = mark_not_ready hs

unfoldable pub apply_marks : List Mark → HealthServer → HealthServer
unfolding apply_mark
apply_marks [] hs = hs
apply_marks (m ∷ ms) hs = apply_marks ms (apply_mark m hs)

apply_marks_lem :
    (ms : List Mark) (hs : HealthServer)
    → apply_marks ms hs ≡ record {
      initial_sync_done = hs.initial_sync_done || any is_ready ms;
      shutting_down = hs.shutting_down || any is_not_ready ms;
    }
unfolding apply_marks apply_mark mark_ready mark_not_ready
apply_marks_lem [] hs = ground arith
apply_marks_lem (ready ∷ ms) hs = ground (arith, apply_marks_lem ms (mark_ready hs))
apply_marks_lem (not_ready ∷ ms) hs = ground (arith, apply_marks_lem ms (mark_not_ready hs))

-- After any sequence of marks of a new health server, the readiness probe answers 200 exactly if the
-- agent was marked ready at some time and was never marked not ready, and the startup probe exactly
-- if it was marked ready at some time.
probes_after :
    (ms : List Mark)
    → let hs = apply_marks ms new_health_server in
      ((handle_readyz hs).0 ≡ 200 ↔ (any is_ready ms ≡ true) × (any is_not_ready ms ≡ false))
      × ((handle_startupz hs).0 ≡ 200 ↔ any is_ready ms ≡ true)
unfolding handle_readyz handle_startupz new_health_server
probes_after ms = ground (arith, apply_marks_lem ms new_health_server)
