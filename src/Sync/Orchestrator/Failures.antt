-- ===== src/Sync/Orchestrator/Failures.antt =====
-- What the loop over the windows has done when one of them fails.
use sumweave.Base.{
  ◌≡◌, refl, sym, ap, ◌∙◌, subst, inl, inr, List, [], ◌∷◌, ◌++◌, arith, Option-cases,
}
use sumweave.Base.Text.{Str}
use sumweave.Sync.Types.{Window, SyncState, SyncStats, merge_stats}
use sumweave.Sync.Orchestrator.{
  Call, returns, fails, WindowSyncResult, Ports, SyncOrchestrationRequest, SyncOrchestrationResult,
  SyncFailure, runs_on, execute_requested_window, load_sync_state, append_failed_sync_state,
  determine_target_window, split_target_window, Orchestrated, stopped, chunk_state, after_failure,
  after_execution, execute_requested_window_of, extended, run_windows,
}
use sumweave.Sync.Orchestrator.Rounds.{
  Orchestrated-cases, execute_completed, run_windows_on, run_windows_stop,
}
use sumweave.Sync.Orchestrator.Sums.{total}
use sumweave.Sync.Orchestrator.Calls.{
  Executes, ExecutesAll, FailsAt, execute_completed-Executes, execute_stopped-FailsAt,
}

pub stopped_injective :
    {World : Type 0}
    → (f g : SyncFailure) (v w : World)
    → Path (Orchestrated SyncOrchestrationResult × World) (stopped f, v) (stopped g, w)
    → (f ≡ g) × (v ≡ w)
stopped_injective f g v w e = (ground arith, ap (λ p. p.1) e)

module _ (Secret World : Type 0) (ports : Ports Secret World) where
  open ports use {load_last_state, append_sync_state, execute, clock}

  -- Of some windows, those before one were executed, and that one failed and was journalled.
  pub record FailsAmong (request : SyncOrchestrationRequest Secret) (ws : List Window)
      (stats : SyncStats) (e : Str) (world later : World) : Type 0 where
    pub done : List Window
    pub window : Window
    pub rest : List Window
    pub results : List WindowSyncResult
    pub order : ws ≡ done ++ window ∷ rest
    pub failed_at : World
    pub executed : ExecutesAll Secret World ports request done results stats world failed_at
    pub fails_at : FailsAt Secret World ports request window (total results stats) e failed_at later

  fails_later :
      (request : SyncOrchestrationRequest Secret) (w : Window) (r : WindowSyncResult)
      (ws : List Window) (stats : SyncStats) (e : Str) (world next later : World)
      → Executes Secret World ports request w stats (returns r) world next
      → FailsAmong request ws (merge_stats stats r.stats) e next later
      → FailsAmong request (w ∷ ws) stats e world later
  unfolding total
  fails_later request w r ws stats e world next later called f = record {
    done = w ∷ f.done;
    window = f.window;
    rest = f.rest;
    results = r ∷ f.results;
    order = ap (λ x. w ∷ x) f.order;
    failed_at = f.failed_at;
    executed = (next, called, f.executed);
    fails_at = f.fails_at;
  }

  -- What the end of the loop over some windows with an error means.
  abbrev pub LoopExplained :
      SyncOrchestrationRequest Secret
      → List Window
      → SyncStats
      → World
      → SyncFailure
      → World
      → Type 0
  LoopExplained request ws stats world runs_on later = ⊥
  LoopExplained request ws stats world (execute_requested_window e) later =
      FailsAmong request ws stats e world later
  LoopExplained request ws stats world (load_sync_state e) later = Unit
  LoopExplained request ws stats world (append_failed_sync_state e) later = Unit
  LoopExplained request ws stats world (determine_target_window kind why) later = Unit
  LoopExplained request ws stats world (split_target_window kind why) later = Unit

  after_execution_runs :
      (state : SyncState) (call : Call WindowSyncResult) (world later : World)
      → Path
          (Orchestrated (WindowSyncResult × SyncStats) × World)
          (after_execution Secret World ports state (call, world))
          (stopped runs_on, later)
      → ⊥
  unfolding after_execution after_failure
  after_execution_runs state (returns r) world later h = cc
  after_execution_runs state (fails e) world later h =
      elim (Option-cases (append_sync_state (record state { error_summary = e }) world).0) [
        | inl none_ ↦ cc
        | inr (err, some_) ↦ cc
      ]

  first-LoopExplained :
      (request : SyncOrchestrationRequest Secret) (w : Window) (ws : List Window)
      (stats : SyncStats) (world : World) (failure : SyncFailure) (later : World)
      → execute_requested_window_of Secret World ports request w stats world
        ≡ (stopped failure, later)
      → LoopExplained request (w ∷ ws) stats world failure later
  unfolding execute_requested_window_of total
  first-LoopExplained request w ws stats world runs_on later h =
      after_execution_runs (chunk_state Secret World ports request w stats (clock world).0) _ _
        later h
  first-LoopExplained request w ws stats world (execute_requested_window e) later h = record {
    done = [];
    window = w;
    rest = ws;
    results = [];
    order = refl;
    failed_at = world;
    executed = refl;
    fails_at = execute_stopped-FailsAt Secret World ports request w stats world e later h;
  }
  first-LoopExplained request w ws stats world (load_sync_state x) later h = tt
  first-LoopExplained request w ws stats world (append_failed_sync_state x) later h = tt
  first-LoopExplained request w ws stats world (determine_target_window x y) later h = tt
  first-LoopExplained request w ws stats world (split_target_window x y) later h = tt

  later-LoopExplained :
      (request : SyncOrchestrationRequest Secret) (w : Window) (r : WindowSyncResult)
      (ws : List Window) (stats : SyncStats) (world next : World) (failure : SyncFailure)
      (later : World)
      → Executes Secret World ports request w stats (returns r) world next
      → LoopExplained request ws (merge_stats stats r.stats) next failure later
      → LoopExplained request (w ∷ ws) stats world failure later
  later-LoopExplained request w r ws stats world next runs_on later called h = h
  later-LoopExplained request w r ws stats world next (execute_requested_window e) later called h =
      fails_later request w r ws stats e world next later called h
  later-LoopExplained request w r ws stats world next (load_sync_state x) later called h = tt
  later-LoopExplained request w r ws stats world next (append_failed_sync_state x) later called h =
      tt
  later-LoopExplained request w r ws stats world next (determine_target_window x y) later called h =
      tt
  later-LoopExplained request w r ws stats world next (split_target_window x y) later called h = tt

  pub run_windows-LoopExplained :
      (request : SyncOrchestrationRequest Secret) (ws : List Window)
      → (result : SyncOrchestrationResult) (world : World) (failure : SyncFailure) (later : World)
      → run_windows Secret World ports request ws result world ≡ (stopped failure, later)
      → LoopExplained request ws result.stats world failure later
  unfolding run_windows
  run_windows-LoopExplained request [] result world failure later e = cc
  run_windows-LoopExplained request (w ∷ ws) result world failure later e =
      let call = execute_requested_window_of Secret World ports request w result.stats world in
      elim (Orchestrated-cases call.0) [
        | inl (f, stop) ↦
            let stops =
              sym (run_windows_stop Secret World ports request w ws result world f stop) ∙ e in
            let (same, there) = stopped_injective f failure call.1 later stops in
            first-LoopExplained request w ws result.stats world failure later (
              ap (λ o. (o, call.1)) (stop ∙ ap stopped same) ∙ ap (λ v. (stopped failure, v)) there)
        | inr (done, on) ↦
            let went = ap (λ o. (o, call.1)) on in
            let sums =
              execute_completed Secret World ports request w result.stats world done call.1 went in
            later-LoopExplained request w done.0 ws result.stats world call.1 failure later
              (execute_completed-Executes Secret World ports request w result.stats world done
                call.1 went)
              (subst (λ x. LoopExplained request ws x call.1 failure later) sums
                (run_windows-LoopExplained request ws
                  (extended Secret World ports result w done.0 done.1) call.1 failure later
                  (sym (run_windows_on Secret World ports request w ws result world done on) ∙ e)))
      ]
