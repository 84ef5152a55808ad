-- ===== src/Sync/Orchestrator/Rounds.antt =====
-- What one round of the loop over the windows does, and how it ends the loop.
use sumweave.Base.{
  ◌≡◌, ◌≢◌, refl, sym, ap, ◌∙◌, ◌⊎◌, inl, inr, none, List, ◌∷◌, ◌++◌, arith, Option-cases,
}
use sumweave.Base.Text.{Str}
use sumweave.Sync.Types.{Window, SyncState, SyncStats, zero_stats, merge_stats}
use sumweave.Sync.Orchestrator.{
  Call, returns, fails, WindowSyncResult, Ports, SyncOrchestrationRequest, SyncOrchestrationResult,
  SyncFailure, execute_requested_window, Orchestrated, completed, stopped, chunk_state,
  window_request, after_failure, after_execution, execute_requested_window_of, extended,
  run_windows,
}
use sumweave.Sync.Orchestrator.Sums.{total-snoc, all_issues-snoc, IsSummed}

pub Orchestrated-cases :
    {A : Type 0}
    → (o : Orchestrated A) → ((e : SyncFailure) × (o ≡ stopped e)) ⊎ ((a : A) × (o ≡ completed a))
Orchestrated-cases (completed a) = inr (a, refl)
Orchestrated-cases (stopped e) = inl (e, refl)

module _ (Secret World : Type 0) (ports : Ports Secret World) where
  open ports use {load_last_state, append_sync_state, execute, clock}

  pub extended-IsSummed :
      (result : SyncOrchestrationResult) (w : Window) (r : WindowSyncResult)
      → IsSummed result
      → IsSummed (extended Secret World ports result w r (merge_stats result.stats r.stats))
  extended-IsSummed result w r h = (
    ap (λ s. merge_stats s r.stats) h.0 ∙ sym (total-snoc result.window_results r zero_stats),
    ap (λ is. is ++ r.issues) h.1 ∙ sym (all_issues-snoc result.window_results r),
  )

  pub after_failure_not_completed :
      (state : SyncState) (e : Str) (world : World) (done : WindowSyncResult × SyncStats)
      (later : World)
      → after_failure Secret World ports state e world ≢ (completed done, later)
  unfolding after_failure
  after_failure_not_completed state e world done later h =
      elim (Option-cases (append_sync_state (record state { error_summary = e }) world).0) [
        | inl none_ ↦ cc
        | inr (err, some_) ↦ cc
      ]

  -- A window fails with its own error only when its failed state is in the journal.
  pub after_failure_journal :
      (state : SyncState) (e e' : Str) (world later : World)
      → after_failure Secret World ports state e world
        ≡ (stopped (execute_requested_window e'), later)
      → (e ≡ e') × (append_sync_state (record state { error_summary = e }) world ≡ (none, later))
  unfolding after_failure
  after_failure_journal state e e' world later h =
      elim (Option-cases (append_sync_state (record state { error_summary = e }) world).0) [
        | inl none_ ↦ ground arith
        | inr (err, some_) ↦ cc
      ]

  after_execution_completed :
      (state : SyncState) (call : Call WindowSyncResult) (world : World)
      → (done : WindowSyncResult × SyncStats) (later : World)
      → after_execution Secret World ports state (call, world) ≡ (completed done, later)
      → done.1 ≡ merge_stats state.aggregate_stats done.0.stats
  unfolding after_execution
  after_execution_completed state (fails e) world done later h =
      absurd (after_failure_not_completed state e world done later h)
  after_execution_completed state (returns r) world done later h = ground arith

  pub execute_completed :
      (request : SyncOrchestrationRequest Secret) (w : Window) (stats : SyncStats) (world : World)
      → (done : WindowSyncResult × SyncStats) (later : World)
      → execute_requested_window_of Secret World ports request w stats world
        ≡ (completed done, later)
      → done.1 ≡ merge_stats stats done.0.stats
  unfolding execute_requested_window_of
  execute_completed request w stats world done later h =
      let (at, started) = clock world in
      let state = chunk_state Secret World ports request w stats at in
      let call = execute (window_request Secret World ports request w state) started in
      after_execution_completed state call.0 call.1 done later h

  pub run_windows_on :
      (request : SyncOrchestrationRequest Secret) (w : Window) (ws : List Window)
      → (result : SyncOrchestrationResult) (world : World) (done : WindowSyncResult × SyncStats)
      → let call = execute_requested_window_of Secret World ports request w result.stats world in
        call.0 ≡ completed done
        → run_windows Secret World ports request (w ∷ ws) result world
          ≡ run_windows Secret World ports request ws
              (extended Secret World ports result w done.0 done.1)
              call.1
  unfolding run_windows
  run_windows_on request w ws result world done e = rw (run_windows, e)

  pub run_windows_stop :
      (request : SyncOrchestrationRequest Secret) (w : Window) (ws : List Window)
      → (result : SyncOrchestrationResult) (world : World) (failure : SyncFailure)
      → let call = execute_requested_window_of Secret World ports request w result.stats world in
        call.0 ≡ stopped failure
        → run_windows Secret World ports request (w ∷ ws) result world ≡ (stopped failure, call.1)
  unfolding run_windows
  run_windows_stop request w ws result world failure e = rw (run_windows, e)
