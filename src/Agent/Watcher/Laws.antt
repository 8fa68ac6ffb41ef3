-- ===== src/Agent/Watcher/Laws.antt =====
-- What the two channels of a watcher hold over any run.
use stoker_operator.Prelude.{ℕ, String, ◌≡◌, refl, Option, none, some, string_eq, nat_eq, arith}
use stoker_operator.Agent.Watcher.{
  Watcher, new_watcher, drain, send_reset, update_period, trigger, take_reset, tick,
  poll_config_map, take_event,
}

-- What happens to a watcher: the agent's calls, and the turns of its two loops.
pub data Step : Watcher → Watcher → Type 0 where
  updates : (w : Watcher) (d : ℕ) → Step w (update_period d w)
  resets : (w : Watcher) → Step w (take_reset w)
  ticks : (w : Watcher) → Step w (tick w)
  polls : (w : Watcher) (version : Option String) → Step w (poll_config_map version w)
  takes : (w : Watcher) → Step w (take_event w)

pub data Reach (s : Watcher) : Watcher → Type 0 where
  here : Reach s s
  next : {w v : Watcher} → Reach s w → Step w v → Reach s v

abbrev due : ℕ → Option ℕ → ℕ
due ticker none = ticker
due ticker (some d) = d

-- The timer runs at the watcher's period, or the period waits in the channel.
abbrev pub IsTimed : Watcher → Type 0
IsTimed w = due w.ticker w.reset ≡ w.period

update_period-IsTimed : (d : ℕ) (w : Watcher) → IsTimed w → IsTimed (update_period d w)
unfolding update_period send_reset drain
update_period-IsTimed d w h = ground arith

take_reset-IsTimed : (w : Watcher) → IsTimed w → IsTimed (take_reset w)
unfolding take_reset
take_reset-IsTimed w h = ground arith

trigger-IsTimed : (w : Watcher) → IsTimed w → IsTimed (trigger w)
unfolding trigger
trigger-IsTimed w h = ground arith

poll_config_map-IsTimed :
    (version : Option String) (w : Watcher) → IsTimed w → IsTimed (poll_config_map version w)
unfolding poll_config_map trigger
poll_config_map-IsTimed none w h = h
poll_config_map-IsTimed (some version) w h = ground arith

Step-IsTimed : {w v : Watcher} → Step w v → IsTimed w → IsTimed v
unfolding tick take_event
Step-IsTimed (updates w d) h = update_period-IsTimed d w h
Step-IsTimed (resets w) h = take_reset-IsTimed w h
Step-IsTimed (ticks w) h = trigger-IsTimed w h
Step-IsTimed (polls w version) h = poll_config_map-IsTimed version w h
Step-IsTimed (takes w) h = h

Reach-IsTimed : {s w : Watcher} → IsTimed s → Reach s w → IsTimed w
Reach-IsTimed h here = h
Reach-IsTimed h (next r st) = Step-IsTimed st (Reach-IsTimed h r)

-- In every state that a watcher reaches, by updates of its period, receives from its channels, ticks
-- and polls in any order: once the loop has received what the reset channel holds, if it holds
-- something, the timer runs at the period that was set last.
pub take_reset-period :
    (d : ℕ) (w : Watcher) → Reach (new_watcher d) w → (take_reset w).ticker ≡ w.period
unfolding take_reset new_watcher
take_reset-period d w r = let h : IsTimed w = Reach-IsTimed refl r in ground arith
