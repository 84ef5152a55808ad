-- ===== src/Sync/Orchestrator.antt =====
-- One synchronisation of a connection: `SyncOrchestrator` of
-- finance/internal/providers/sync_orchestrator.go. What the orchestrator calls is a record of
-- operations on a world: the journal of sync states, the executor of one window, the clock. The
-- calls of the logger are left out.
pub mod Sums
pub mod Rounds
pub mod Calls
pub mod Progress
pub mod Failures
pub mod Stops
use sumweave.Base.{ℕ, Option, none, some, List, [], ◌∷◌, ◌++◌}
use sumweave.Base.Text.{Str}
use sumweave.Sync.Types.{
  Time, ConnectionRef, Window, SyncState, SyncStats, SyncBatch, SyncIssue, zero_stats, merge_stats,
}
use sumweave.Sync.Windows.{
  Calendar, Checked, valid, invalid, Invalid, Reason, TargetWindowRequest, determine, split,
}

-- What a call of a port comes to: a value, or an error with its text.
pub data Call (A : Type 0) : Type 0 where
  returns : A → Call A
  fails : Str → Call A

pub record WindowSyncRequest (Secret : Type 0) : Type 0 where
  pub connection : ConnectionRef
  pub secret : Secret
  pub requested_window : Window
  pub sync_state : Option SyncState
  pub job_id : Str
  pub reason : Str

pub record WindowSyncResult : Type 0 where
  pub run_id : Str
  pub batch : SyncBatch
  pub stats : SyncStats
  pub issues : List SyncIssue

pub record Ports (Secret World : Type 0) : Type 0 where
  pub load_last_state : ConnectionRef → World → Call (Option SyncState) × World
  pub append_sync_state : SyncState → World → Option Str × World
  pub execute : WindowSyncRequest Secret → World → Call WindowSyncResult × World
  pub clock : World → Time × World

pub record SyncOrchestrationRequest (Secret : Type 0) : Type 0 where
  pub connection : ConnectionRef
  pub secret : Secret
  pub job_id : Str
  pub reason : Str
  pub window_start : Option Time
  pub window_end : Option Time

pub record SyncOrchestrationResult : Type 0 where
  pub target_window : Window
  pub executed_windows : List Window
  pub window_results : List WindowSyncResult
  pub stats : SyncStats
  pub issues : List SyncIssue

-- The errors by the text that wraps them; `runs_on` would be a loop over windows without an end.
pub data SyncFailure : Type 0 where
  load_sync_state append_failed_sync_state execute_requested_window : Str → SyncFailure
  determine_target_window split_target_window : Invalid → Reason → SyncFailure
  runs_on : SyncFailure

pub data Orchestrated (A : Type 0) : Type 0 where
  completed : A → Orchestrated A
  stopped : SyncFailure → Orchestrated A

module _ (Secret World : Type 0) (ports : Ports Secret World) where
  open ports use {load_last_state, append_sync_state, execute, clock}

  abbrev pub chunk_state : SyncOrchestrationRequest Secret → Window → SyncStats → Time → SyncState
  chunk_state request window stats at = record {
    connection = request.connection;
    attempted_at = some at;
    succeeded_at = none;
    window = window;
    run_id = [];
    job_id = request.job_id;
    error_summary = [];
    aggregate_stats = stats;
  }

  abbrev pub window_request :
      SyncOrchestrationRequest Secret → Window → SyncState → WindowSyncRequest Secret
  window_request request window state = record {
    connection = request.connection;
    secret = request.secret;
    requested_window = window;
    sync_state = some state;
    job_id = request.job_id;
    reason = request.reason;
  }

  -- The end of a window that has failed: its state goes to the journal, with the error's text.
  unfoldable pub after_failure :
      SyncState → Str → World → Orchestrated (WindowSyncResult × SyncStats) × World
  after_failure state e world =
      let (appended, later) = append_sync_state (record state { error_summary = e }) world in
      (
        elim appended [
          | some append_err ↦ stopped (append_failed_sync_state append_err)
          | none ↦ stopped (execute_requested_window e)
        ],
        later,
      )

  unfoldable pub after_execution :
      SyncState
      → Call WindowSyncResult × World
      → Orchestrated (WindowSyncResult × SyncStats) × World
  after_execution state (fails e, world) = after_failure state e world
  after_execution state (returns r, world) =
      (completed (r, merge_stats state.aggregate_stats r.stats), world)

  unfoldable pub execute_requested_window_of :
      SyncOrchestrationRequest Secret
      → Window
      → SyncStats
      → World
      → Orchestrated (WindowSyncResult × SyncStats) × World
  execute_requested_window_of request window stats world =
      let (at, started) = clock world in
      let state = chunk_state request window stats at in
      after_execution state (execute (window_request request window state) started)

  abbrev pub extended :
      SyncOrchestrationResult → Window → WindowSyncResult → SyncStats → SyncOrchestrationResult
  extended result window r stats = record result {
    executed_windows = result.executed_windows ++ window ∷ [];
    window_results = result.window_results ++ r ∷ [];
    stats = stats;
    issues = result.issues ++ r.issues;
  }

  -- The loop over the requested windows.
  unfoldable pub run_windows :
      SyncOrchestrationRequest Secret
      → List Window
      → SyncOrchestrationResult
      → World
      → Orchestrated SyncOrchestrationResult × World
  run_windows request [] result world = (completed result, world)
  run_windows request (w ∷ ws) result world =
      let (outcome, later) = execute_requested_window_of request w result.stats world in
      elim outcome [
        | stopped e ↦ (stopped e, later)
        | completed done ↦ run_windows request ws (extended result w done.0 done.1) later
      ]

  abbrev pub started_result : Window → SyncOrchestrationResult
  started_result target = record {
    target_window = target;
    executed_windows = [];
    window_results = [];
    stats = zero_stats;
    issues = [];
  }

  -- `planRequestedWindows` and what follows it.
  unfoldable pub run_planned :
      SyncOrchestrationRequest Secret
      → Window
      → Checked (Option (List Window))
      → World
      → Orchestrated SyncOrchestrationResult × World
  run_planned request target (invalid kind why) world =
      (stopped (split_target_window kind why), world)
  run_planned request target (valid none) world = (stopped runs_on, world)
  run_planned request target (valid (some ws)) world =
      run_windows request ws (started_result target) world

  module _ (calendar : Calendar) where
    unfoldable pub run_target :
        SyncOrchestrationRequest Secret
        → Checked Window
        → World
        → Orchestrated SyncOrchestrationResult × World
    run_target request (invalid kind why) world =
        (stopped (determine_target_window kind why), world)
    run_target request (valid target) world =
        run_planned request target (split calendar target) world

    -- `Orchestrate` from the target window on, given the last state.
    unfoldable pub orchestrate_from :
        SyncOrchestrationRequest Secret
        → Option SyncState
        → World
        → Orchestrated SyncOrchestrationResult × World
    orchestrate_from request last_state world =
        let (now, started) = clock world in
        run_target request
          (determine calendar (record {
            now = now;
            state = last_state;
            window_start = request.window_start;
            window_end = request.window_end;
          }))
          started

    pub after_load :
        SyncOrchestrationRequest Secret
        → Call (Option SyncState) × World
        → Orchestrated SyncOrchestrationResult × World
    after_load request (fails e, world) = (stopped (load_sync_state e), world)
    after_load request (returns last_state, world) = orchestrate_from request last_state world

    -- The last state is loaded only when no start is asked for.
    unfoldable pub orchestrate :
        SyncOrchestrationRequest Secret → World → Orchestrated SyncOrchestrationResult × World
    unfolding after_load
    orchestrate request world = elim request.window_start [
      | some start ↦ orchestrate_from request none world
      | none ↦ after_load request (load_last_state request.connection world)
    ]
