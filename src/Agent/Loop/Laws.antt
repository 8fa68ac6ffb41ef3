-- ===== src/Agent/Loop/Laws.antt =====
-- What a sync trigger does to the agent's variables.
use stoker_operator.Prelude.{ℕ, suc, ◌+◌, String, ◌≡◌, ◌≢◌, ◌⊎◌, true, ltb, string_eq}
use stoker_operator.Prelude.Outcome.{Outcome, done, failed}
use stoker_operator.Engine.Disk.{Disk}
use stoker_operator.Git.Remote.{GitResult}
use stoker_operator.Agent.Retry.{retry_delay}
use stoker_operator.Agent.ConfigMaps.{Metadata, read_metadata_config_map}
use stoker_operator.Agent.State.{Outside, AgentState, later, add_delay}
use stoker_operator.Agent.Sync.Laws.{Memory, memory}
use stoker_operator.Agent.Loop.{ended}

module _ (o : Outside) where
  -- How a cycle with that metadata and that fetch can end: the fetched commit and the metadata's
  -- profiles are recorded and no error is left, or there is one more error and an instant until which
  -- triggers are skipped, or, after a fetch without an error, the sync was put off with nothing changed.
  pub data Cycle (meta : Metadata) (fetched : Outcome GitResult) (m : Memory)
      : Memory → Type 0 where
    synced :
        (result : GitResult)
        → fetched ≡ done result
        → Cycle meta fetched m
            (record m { commit = result.commit; profiles = meta.profiles; errors = 0; until = 0 })
    backed_off :
        (at : ℕ)
        → Cycle meta fetched m (record m {
          errors = suc m.errors;
          until = add_delay (o.now at) (retry_delay (suc m.errors));
        })
    put_off : (result : GitResult) → fetched ≡ done result → Cycle meta fetched m m

  -- What a trigger does to the agent's variables, its disk, its requests and its reports.
  pub data Triggered (git_url : String) (st : AgentState) : AgentState → Type 0 where
    skipped :
        (n : ℕ)
        → (ltb (o.now st.clock) st.backoff_until ≡ true)
          ⊎ (((e : String) × (read_metadata_config_map o.config.cr_name (o.metadata (st.clock + 1))
                  ≡ failed e))
              ⊎ ((meta : Metadata) × (read_metadata_config_map o.config.cr_name
                      (o.metadata (st.clock + 1))
                    ≡ done meta)
                  × ((meta.paused ≡ "true")
                      ⊎ ((meta.commit ≡ st.last_synced_commit)
                          × (meta.profiles ≡ st.last_synced_profiles)))))
        → Triggered git_url st (later n st)
    cycled :
        (meta : Metadata) (last : AgentState)
        → read_metadata_config_map o.config.cr_name (o.metadata (st.clock + 1)) ≡ done meta
        → meta.paused ≢ "true"
        → (meta.commit ≢ st.last_synced_commit) ⊎ (meta.profiles ≢ st.last_synced_profiles)
        → Cycle meta
            (o.clone_or_fetch (st.clock + 2) git_url meta.ref st.disk).1
            (record (memory st) { in_progress = true })
            (memory last)
        → Triggered git_url st (ended o last)
