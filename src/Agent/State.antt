-- ===== src/Agent/State.antt =====
-- The agent of internal/agent/agent.go: its state, and what it works on.
use stoker_operator.Prelude.{ℕ, ◌+◌, ◌-◌, String, Bool, Option, none, some, List, [], ◌∷◌}
use stoker_operator.Prelude.Dict.{Dict}
use stoker_operator.Prelude.Int.{ℤ, pos, negsuc}
use stoker_operator.Prelude.Outcome.{Outcome}
use stoker_operator.Prelude.Text.{split_slash, clean}
use stoker_operator.Engine.Disk.{Disk, Err}
use stoker_operator.Git.Remote.{GitResult}
use stoker_operator.Ignition.Client.{Client, Log}
use stoker_operator.Ignition.Designer.{Envelope}
use stoker_operator.Controller.Profiles.{ResolvedProfile}
use stoker_operator.Controller.Discovery.{GatewayStatus}
use stoker_operator.Controller.Metadata.{Stored}
use stoker_operator.Agent.Health.{HealthServer}
use stoker_operator.Agent.Watcher.{Watcher}
use stoker_operator.Agent.Config.{Config}
use stoker_operator.Agent.ConfigMaps.{Fetched, StatusServer, write_status_config_map}
use stoker_operator.Agent.Context.{Tools}
use stoker_operator.Agent.Profile.{Places}

-- What the wait for designer sessions selects: ticks, until it is cancelled or times out.
pub data Waits : Type 0 where
  cancelled timed_out : Waits
  ticked : Waits → Waits

-- Everything around the agent. A call is answered by the number of calls that were made before it, so
-- that two reads of the same object may differ. Instants are in nanoseconds.
pub record Outside : Type 0 where
  pub config : Config
  pub version : String
  pub tools : Tools
  pub digest : String → String
  pub err_text : Err → String
  pub metadata : ℕ → Fetched
  pub pod_labels : ℕ → Outcome (Dict String String)
  pub clone_or_fetch : ℕ → String → String → Disk → Disk × Outcome GitResult
  pub now : ℕ → ℕ
  pub time_text : ℕ → String
  pub duration_text : ℕ → String
  pub unmarshal : String → Outcome (Dict String ResolvedProfile)
  pub marshal : GatewayStatus → Outcome String
  pub statuses : StatusServer
  pub gateway : Client
  pub envelope : Envelope
  pub waits : ℕ → Waits

-- The configured paths, which are absolute, by their components.
unfoldable pub places_of : Config → Places
unfolding split_slash clean
places_of cfg = record {
  repo_path = clean (split_slash cfg.repo_path);
  live_dir = clean (split_slash cfg.data_path);
}

-- New's patterns of the sync engine.
abbrev pub engine_excludes : List String
engine_excludes =
    "**/.git/**" ∷ "**/.git" ∷ "**/.gitkeep" ∷ "**/.resources/**" ∷ "**/.resources" ∷ []

-- The agent's variables, with the disk, the requests to the gateway, the number of calls, the statuses
-- that were handed to WriteStatusConfigMap and the ConfigMaps that the server stored, the latest first.
pub record AgentState : Type 0 where
  pub last_synced_commit : String
  pub last_synced_profiles : String
  pub initial_sync_done : Bool
  pub consecutive_errors : ℕ
  pub backoff_until : ℕ
  pub sync_in_progress : Bool
  pub shutdown_signal : Bool
  pub health : HealthServer
  pub watcher : Watcher
  pub disk : Disk
  pub log : Log
  pub clock : ℕ
  pub reports : List GatewayStatus
  pub written : List Stored

-- After `n` calls.
abbrev pub later : ℕ → AgentState → AgentState
later n st = record st { clock = st.clock + n }

abbrev pub with_written : Option Stored → AgentState → AgentState
with_written none st = st
with_written (some cm) st = record st { written = cm ∷ st.written }

-- WriteStatusConfigMap, whose error the agent only logs. It makes at most six calls.
unfoldable pub report : Outside → GatewayStatus → AgentState → AgentState
unfolding write_status_config_map
report o status st =
    let outgoing =
      write_status_config_map o.marshal o.statuses o.config.cr_name o.config.gateway_name st.clock
        status in
    with_written outgoing.0 (record st { reports = status ∷ st.reports; clock = st.clock + 6 })

-- `time.Time.Add`
abbrev pub add_delay : ℕ → ℤ → ℕ
add_delay now (pos d) = now + d
add_delay now (negsuc d) = now - (d + 1)
