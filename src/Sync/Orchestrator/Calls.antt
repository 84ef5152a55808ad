-- ===== src/Sync/Orchestrator/Calls.antt =====
-- The calls of the executor that a run of the loop over the windows makes.
use sumweave.Base.{◌≡◌, refl, ap, ◌∙◌, none, some, List, [], ◌∷◌, arith}
use sumweave.Base.Text.{Str}
use sumweave.Sync.Types.{Window, SyncState, SyncStats, merge_stats}
use sumweave.Sync.Orchestrator.{
  Call, returns, fails, WindowSyncRequest, WindowSyncResult, Ports, SyncOrchestrationRequest,
  execute_requested_window, completed, stopped, chunk_state, window_request, after_execution,
  execute_requested_window_of,
}
use sumweave.Sync.Orchestrator.Rounds.{after_failure_journal, after_failure_not_completed}

-- The state of an attempt at a window, of the request's connection and job, that has not succeeded, with the
-- statistics of the windows before it.
abbrev pub IsAttempt :
    {Secret : Type 0} → SyncOrchestrationRequest Secret → Window → SyncStats → SyncState → Type 0
IsAttempt request w stats state =
    (state.connection ≡ request.connection)
    × (state.job_id ≡ request.job_id)
    × (state.window ≡ w)
    × (state.succeeded_at ≡ none)
    × (state.aggregate_stats ≡ stats)

-- A request to the executor for one window of a synchronisation.
abbrev pub IsRequestOf :
    {Secret : Type 0}
    → SyncOrchestrationRequest Secret
    → Window
    → SyncStats
    → WindowSyncRequest Secret
    → Type 0
IsRequestOf request w stats sent =
    (sent.connection ≡ request.connection)
    × (sent.secret ≡ request.secret)
    × (sent.requested_window ≡ w)
    × (sent.job_id ≡ request.job_id)
    × (sent.reason ≡ request.reason)
    × ((state : SyncState) × (sent.sync_state ≡ some state) × IsAttempt request w stats state)

module _ (Secret World : Type 0) (ports : Ports Secret World) where
  open ports use {append_sync_state, execute, clock}

  -- One call of the executor, after a reading of the clock.
  abbrev pub Executes :
      SyncOrchestrationRequest Secret
      → Window
      → SyncStats
      → Call WindowSyncResult
      → World
      → World
      → Type 0
  Executes request w stats call world later =
      (sent : WindowSyncRequest Secret) × IsRequestOf request w stats sent
      × (execute sent (clock world).1 ≡ (call, later))

  -- The calls for some windows, one after the other, with the results that they return.
  abbrev pub ExecutesAll :
      SyncOrchestrationRequest Secret
      → List Window
      → List WindowSyncResult
      → SyncStats
      → World
      → World
      → Type 0
  ExecutesAll request [] [] stats world later = world ≡ later
  ExecutesAll request [] (r ∷ rs) stats world later = ⊥
  ExecutesAll request (w ∷ ws) [] stats world later = ⊥
  ExecutesAll request (w ∷ ws) (r ∷ rs) stats world later =
      (next : World) × Executes request w stats (returns r) world next
      × ExecutesAll request ws rs (merge_stats stats r.stats) next later

  -- A call that fails, and the state that is journalled of it as the last thing.
  pub record FailsAt (request : SyncOrchestrationRequest Secret) (w : Window) (stats : SyncStats)
      (e : Str) (world later : World) : Type 0 where
    pub before : World
    pub failed : Executes request w stats (fails e) world before
    pub state : SyncState
    pub is_attempt : IsAttempt request w stats state
    pub with_error : state.error_summary ≡ e
    pub journaled : append_sync_state state before ≡ (none, later)

  executed_of :
      (request : SyncOrchestrationRequest Secret) (w : Window) (stats : SyncStats)
      (call : Call WindowSyncResult) (world mid : World) (done : WindowSyncResult × SyncStats)
      (later : World)
      → let state = chunk_state Secret World ports request w stats (clock world).0 in
        execute (window_request Secret World ports request w state) (clock world).1 ≡ (call, mid)
        → after_execution Secret World ports state (call, mid) ≡ (completed done, later)
        → Executes request w stats (returns done.0) world later
  unfolding after_execution
  executed_of request w stats (fails e) world mid done later called h = absurd (
      after_failure_not_completed Secret World ports
        (chunk_state Secret World ports request w stats (clock world).0) e mid done later h)
  executed_of request w stats (returns r) world mid done later called h =
      let state = chunk_state Secret World ports request w stats (clock world).0 in
      (
        window_request Secret World ports request w state,
        (refl, refl, refl, refl, refl, (state, refl, (refl, refl, refl, refl, refl))),
        called ∙ ground (arith, h),
      )

  -- A round that completes is one call that returns.
  pub execute_completed-Executes :
      (request : SyncOrchestrationRequest Secret) (w : Window) (stats : SyncStats) (world : World)
      (done : WindowSyncResult × SyncStats) (later : World)
      → execute_requested_window_of Secret World ports request w stats world
        ≡ (completed done, later)
      → Executes request w stats (returns done.0) world later
  unfolding execute_requested_window_of
  execute_completed-Executes request w stats world done later h =
      executed_of request w stats _ world _ done later refl h

  failed_of :
      (request : SyncOrchestrationRequest Secret) (w : Window) (stats : SyncStats)
      (call : Call WindowSyncResult) (world mid : World) (e : Str) (later : World)
      → let state = chunk_state Secret World ports request w stats (clock world).0 in
        execute (window_request Secret World ports request w state) (clock world).1 ≡ (call, mid)
        → after_execution Secret World ports state (call, mid)
          ≡ (stopped (execute_requested_window e), later)
        → FailsAt request w stats e world later
  unfolding after_execution
  failed_of request w stats (returns r) world mid e later called h = cc
  failed_of request w stats (fails x) world mid e later called h =
      let state = chunk_state Secret World ports request w stats (clock world).0 in
      let (same, journal) = after_failure_journal Secret World ports state x e mid later h in
      record {
        before = mid;
        failed = (
          window_request Secret World ports request w state,
          (refl, refl, refl, refl, refl, (state, refl, (refl, refl, refl, refl, refl))),
          called ∙ ap (λ y. (fails y, mid)) same,
        );
        state = record state { error_summary = x };
        is_attempt = (refl, refl, refl, refl, refl);
        with_error = same;
        journaled = journal;
      }

  -- A round that stops with the error of the window is one call that fails, and a write to the journal.
  pub execute_stopped-FailsAt :
      (request : SyncOrchestrationRequest Secret) (w : Window) (stats : SyncStats) (world : World)
      (e : Str) (later : World)
      → execute_requested_window_of Secret World ports request w stats world
        ≡ (stopped (execute_requested_window e), later)
      → FailsAt request w stats e world later
  unfolding execute_requested_window_of
  execute_stopped-FailsAt request w stats world e later h =
      failed_of request w stats _ world _ e later refl h
