-- ===== src/Sync/Executor/Calls.antt =====
-- The calls that the execution of one window makes.
use sumweave.Base.{◌⊎◌, refl, some, ◌≡◌, none, Option-cases, inl, inr}
use sumweave.Base.Text.{Str}
use sumweave.Base.Dict.{Dict}
use sumweave.Sync.Types.{Time, SyncState, SyncBatch, WindowSnapshot, zero_stats}
use sumweave.Sync.Diff.{plan_diff}
use sumweave.Sync.Apply.{plan_apply}
use sumweave.Sync.Orchestrator.{Call, returns, WindowSyncRequest, WindowSyncResult}
use sumweave.Sync.Executor.{
  Connector, WindowPorts, provider_transaction_identities, executed, resolve, success_state,
}

-- A state of success of the request's connection, window and job, with the request's statistics so far.
abbrev pub IsSuccess :
    {Secret : Type 0} → WindowSyncRequest Secret → Str → Time → SyncState → Type 0
IsSuccess request run_id at state =
    (state.connection ≡ request.connection)
    × (state.window ≡ request.requested_window)
    × (state.job_id ≡ request.job_id)
    × (state.run_id ≡ run_id)
    × (state.succeeded_at ≡ some at)
    × ((request.sync_state ≡ none) × (state.aggregate_stats ≡ zero_stats)
        ⊎ ((base : SyncState) × (request.sync_state ≡ some base)
            × (state.aggregate_stats ≡ base.aggregate_stats)
            × (state.attempted_at ≡ base.attempted_at)))

pub success_state-IsSuccess :
    (Secret World : Type 0) (request : WindowSyncRequest Secret) (run_id : Str) (at : Time)
    → IsSuccess request run_id at (success_state Secret World request run_id at)
success_state-IsSuccess Secret World request run_id at = elim (Option-cases request.sync_state) [
  | inl fresh ↦ (refl, refl, refl, refl, refl, inl (fresh, rw fresh refl))
  | inr (base, given) ↦
      (refl, refl, refl, refl, refl, inr (base, given, rw given refl, rw given refl))
]

module _ (Secret World : Type 0) (ports : WindowPorts World) where
  open ports use {load_existing_window, apply_sync, new_run_id, clock}

  -- What a connector's fetch for the requested connection and window comes to.
  abbrev pub Fetches :
      Connector Secret World → WindowSyncRequest Secret → World → Call SyncBatch → World → Type 0
  Fetches connector request world call later =
      connector.fetch
        (record {
          connection = request.connection;
          secret = request.secret;
          requested_window = request.requested_window;
          sync_state = request.sync_state;
        })
        world
      ≡ (call, later)

  -- What the load of that window with the identities of a batch comes to.
  abbrev pub Loads :
      WindowSyncRequest Secret → SyncBatch → World → Call WindowSnapshot → World → Type 0
  Loads request batch world call later =
      load_existing_window request.connection request.requested_window
        (provider_transaction_identities batch.transactions) world
      ≡ (call, later)

  -- The calls of an execution that succeeds, each on the world that the one before it left: the connector's
  -- fetch for the requested connection and window, the load of that window with the identities of what was
  -- fetched, the identifier of the run and the clock, and the write of the difference.
  pub record Applied (registry : Dict (Connector Secret World)) (request : WindowSyncRequest Secret)
      (world : World) (r : WindowSyncResult) (later : World) : Type 0 where
    pub connector : Connector Secret World
    pub resolved :
        resolve Secret World request.connection.connector_id registry ≡ executed connector
    pub fetched : SyncBatch
    pub fetched_at : World
    pub fetches : Fetches connector request world (returns fetched) fetched_at
    pub snapshot : WindowSnapshot
    pub loaded_at : World
    pub loads : Loads request fetched fetched_at (returns snapshot) loaded_at
    pub completed_at : Time
    pub before : World
    pub names_run : (new_run_id loaded_at).0 ≡ r.run_id
    pub reads_clock : clock (new_run_id loaded_at).1 ≡ (completed_at, before)
    pub of_batch : r.batch ≡ record fetched {
      connection = request.connection;
      requested_window = request.requested_window;
    }
    pub state : SyncState
    pub is_success : IsSuccess request r.run_id completed_at state
    pub wrote :
        apply_sync
          (plan_diff r.batch snapshot)
          (plan_apply (plan_diff r.batch snapshot))
          state
          before
        ≡ (returns r.stats, later)
    pub issues_kept : r.issues ≡ (plan_diff r.batch snapshot).issues
