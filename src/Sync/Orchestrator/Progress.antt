-- ===== src/Sync/Orchestrator/Progress.antt =====
-- What a synchronisation that completes has done.
use sumweave.Base.{
  ◌≡◌, refl, sym, ap, ◌∙◌, subst, inl, inr, Option, none, some, List, [], ◌∷◌, ◌++◌, append-nil,
  append_assoc, arith, Option-cases,
}
use sumweave.Sync.Types.{Time, Window, SyncState, zero_stats}
use sumweave.Sync.Windows.{Calendar, Checked, valid, invalid, split, validate_sync_window}
use sumweave.Sync.Windows.Chunks.{Tiles, split-Tiles}
use sumweave.Sync.Orchestrator.{
  Call, returns, fails, WindowSyncResult, Ports, SyncOrchestrationRequest, SyncOrchestrationResult,
  Orchestrated, completed, execute_requested_window_of, extended, run_windows, started_result,
  run_planned, run_target, orchestrate_from, after_load, orchestrate,
}
use sumweave.Sync.Orchestrator.Calls.{ExecutesAll, execute_completed-Executes}
use sumweave.Sync.Orchestrator.Sums.{total, all_issues, IsSummed}
use sumweave.Sync.Orchestrator.Rounds.{
  Orchestrated-cases, extended-IsSummed, execute_completed, run_windows_on, run_windows_stop,
}

valid_injective :
    (a b : Option (List Window)) → Path (Checked (Option (List Window))) (valid a) (valid b) → a ≡ b
valid_injective a b e = ground arith

module _ (Secret World : Type 0) (ports : Ports Secret World) where
  open ports use {load_last_state, append_sync_state, execute, clock}

  completed_injective :
      (a b : SyncOrchestrationResult) (v w : World)
      → Path (Orchestrated SyncOrchestrationResult × World) (completed a, v) (completed b, w)
      → (a ≡ b) × (v ≡ w)
  completed_injective a b v w e = (ground arith, ap (λ p. p.1) e)

  -- A loop over windows that has completed, between two results.
  abbrev HasRun :
      SyncOrchestrationRequest Secret
      → List Window
      → SyncOrchestrationResult
      → World
      → SyncOrchestrationResult
      → World
      → Type 0
  HasRun request ws result world final later =
      (final.target_window ≡ result.target_window)
      × (final.executed_windows ≡ result.executed_windows ++ ws)
      × ((rs : List WindowSyncResult) × (final.window_results ≡ result.window_results ++ rs)
          × ExecutesAll Secret World ports request ws rs result.stats world later)

  run_windows_completed :
      (request : SyncOrchestrationRequest Secret) (ws : List Window)
      → (result : SyncOrchestrationResult) (world : World)
      → (final : SyncOrchestrationResult) (later : World) → IsSummed result
      → run_windows Secret World ports request ws result world ≡ (completed final, later)
      → HasRun request ws result world final later × IsSummed final
  unfolding run_windows
  run_windows_completed request [] result world final later h e =
      let (same, there) = completed_injective result final world later e in
      (
        (
          ap (λ x. x.target_window) (sym same),
          ap (λ x. x.executed_windows) (sym same) ∙ sym (append-nil result.executed_windows),
          (
            [],
            ap (λ x. x.window_results) (sym same) ∙ sym (append-nil result.window_results),
            there,
          ),
        ),
        subst IsSummed same h,
      )
  run_windows_completed request (w ∷ ws) result world final later h e =
      let call = execute_requested_window_of Secret World ports request w result.stats world in
      elim (Orchestrated-cases call.0) [
        | inl (failure, stop) ↦
            let clash =
              sym (run_windows_stop Secret World ports request w ws result world failure stop)
              ∙ e in
            cc
        | inr (done, on) ↦
            let sums =
              execute_completed Secret World ports request w result.stats world done call.1
                (ap (λ o. (o, call.1)) on) in
            let grown = extended-IsSummed Secret World ports result w done.0 h in
            let ((target, windows, (rs, results, calls)), summed) =
              run_windows_completed request ws (extended Secret World ports result w done.0 done.1)
                call.1 final later (sums ∙ grown.0, grown.1)
                (sym (run_windows_on Secret World ports request w ws result world done on) ∙ e) in
            let called =
              execute_completed-Executes Secret World ports request w result.stats world done call.1
                (ap (λ o. (o, call.1)) on) in
            (
              (
                target,
                windows ∙ append_assoc result.executed_windows (w ∷ []) ws,
                (
                  done.0 ∷ rs,
                  results ∙ append_assoc result.window_results (done.0 ∷ []) rs,
                  (
                    call.1,
                    called,
                    subst (λ x. ExecutesAll Secret World ports request ws rs x call.1 later) sums
                        calls,
                  ),
                ),
              ),
              summed,
            )
      ]

  -- What is known of the run once the windows are planned.
  abbrev Completes :
      Calendar → SyncOrchestrationRequest Secret → World → SyncOrchestrationResult → World → Type 0
  Completes calendar request begun final later =
      (split calendar final.target_window ≡ valid (some final.executed_windows))
      × IsSummed final
      × ExecutesAll Secret World ports request final.executed_windows final.window_results
          zero_stats begun later

  run_planned_completed :
      (calendar : Calendar) (request : SyncOrchestrationRequest Secret) (target : Window)
      → (planned : Checked (Option (List Window))) (world : World)
      → (final : SyncOrchestrationResult) (later : World) → split calendar target ≡ planned
      → run_planned Secret World ports request target planned world ≡ (completed final, later)
      → Completes calendar request world final later
  unfolding run_planned total all_issues
  run_planned_completed calendar request target (invalid kind why) world final later p e = cc
  run_planned_completed calendar request target (valid none) world final later p e = cc
  run_planned_completed calendar request target (valid (some ws)) world final later p e =
      let ((target_, windows, (rs, results, calls)), summed) =
        run_windows_completed request ws (started_result Secret World ports target) world final
          later (refl, refl) e in
      (
        ap (split calendar) target_ ∙ p ∙ ap (λ x. valid (some x)) (sym windows),
        summed,
        subst
            (λ x.
              ExecutesAll Secret World ports request x final.window_results zero_stats world later)
            (sym windows)
            (subst (λ x. ExecutesAll Secret World ports request ws x zero_stats world later)
              (sym results) calls),
      )

  run_target_completed :
      (calendar : Calendar) (request : SyncOrchestrationRequest Secret) (target : Checked Window)
      → (world : World) (final : SyncOrchestrationResult) (later : World)
      → run_target Secret World ports calendar request target world ≡ (completed final, later)
      → Completes calendar request world final later
  unfolding run_target
  run_target_completed calendar request (invalid kind why) world final later e = cc
  run_target_completed calendar request (valid target) world final later e =
      run_planned_completed calendar request target (split calendar target) world final later refl e

  orchestrate_from_completed :
      (calendar : Calendar) (request : SyncOrchestrationRequest Secret) (state : Option SyncState)
      → (world : World) (final : SyncOrchestrationResult) (later : World)
      → orchestrate_from Secret World ports calendar request state world ≡ (completed final, later)
      → Completes calendar request (clock world).1 final later
  unfolding orchestrate_from
  orchestrate_from_completed calendar request state world final later e =
      run_target_completed calendar request _ _ final later e

  pub orchestrate_given :
      (calendar : Calendar) (request : SyncOrchestrationRequest Secret) (world : World)
      (start : Time)
      → request.window_start ≡ some start
      → orchestrate Secret World ports calendar request world
        ≡ orchestrate_from Secret World ports calendar request none world
  unfolding orchestrate
  orchestrate_given calendar request world start e = simp (orchestrate, e)

  pub orchestrate_auto :
      (calendar : Calendar) (request : SyncOrchestrationRequest Secret) (world : World)
      → request.window_start ≡ none
      → orchestrate Secret World ports calendar request world
        ≡ after_load Secret World ports calendar request (load_last_state request.connection world)
  unfolding orchestrate
  orchestrate_auto calendar request world e = simp (orchestrate, e)

  abbrev begun_from : Option Time → SyncOrchestrationRequest Secret → World → World
  begun_from (some start) request world = (clock world).1
  begun_from none request world = (clock (load_last_state request.connection world).1).1

  -- The world in which the loop over the windows begins: the last state has been loaded, if no start is
  -- asked for, and the clock has been read.
  abbrev pub begun_at : SyncOrchestrationRequest Secret → World → World
  begun_at request world = begun_from request.window_start request world

  pub begun_auto :
      (request : SyncOrchestrationRequest Secret) (world : World)
      → request.window_start ≡ none
      → begun_at request world ≡ (clock (load_last_state request.connection world).1).1
  begun_auto request world e = ap (λ o. begun_from o request world) e

  pub begun_given :
      (request : SyncOrchestrationRequest Secret) (world : World) (start : Time)
      → request.window_start ≡ some start
      → begun_at request world ≡ (clock world).1
  begun_given request world start e = ap (λ o. begun_from o request world) e

  after_load_completed :
      (calendar : Calendar) (request : SyncOrchestrationRequest Secret)
      → (load : Call (Option SyncState)) (world : World)
      → (final : SyncOrchestrationResult) (later : World)
      → after_load Secret World ports calendar request (load, world) ≡ (completed final, later)
      → Completes calendar request (clock world).1 final later
  unfolding after_load
  after_load_completed calendar request (fails why) world final later e = cc
  after_load_completed calendar request (returns state) world final later e =
      orchestrate_from_completed calendar request state world final later e

  orchestrate-Completes :
      (calendar : Calendar) (request : SyncOrchestrationRequest Secret) (world : World)
      → (final : SyncOrchestrationResult) (later : World)
      → orchestrate Secret World ports calendar request world ≡ (completed final, later)
      → Completes calendar request (begun_at request world) final later
  orchestrate-Completes calendar request world final later e =
      elim (Option-cases request.window_start) [
        | inl auto ↦
            let load = load_last_state request.connection world in
            subst (λ begun. Completes calendar request begun final later)
              (sym (begun_auto request world auto))
              (after_load_completed calendar request load.0 load.1 final later
                (sym (orchestrate_auto calendar request world auto) ∙ e))
        | inr (start, asked) ↦
            subst (λ begun. Completes calendar request begun final later)
              (sym (begun_given request world start asked))
              (orchestrate_from_completed calendar request none world final later
                (sym (orchestrate_given calendar request world start asked) ∙ e))
      ]

pub split_planned :
    (calendar : Calendar) (target : Window) (planned : Option (List Window))
    → split calendar target ≡ valid planned
    → (ws : List Window) × (planned ≡ some ws) × Tiles calendar target.start target.end ws
unfolding split
split_planned calendar target planned e = elim (Option-cases (validate_sync_window target)) [
  | inl passes ↦
      let (ws, s, ne, tiles) = split-Tiles calendar target passes in
      (ws, valid_injective planned (some ws) (sym e ∙ s), tiles)
  | inr (why, refused) ↦ cc
]

some_windows : (a b : List Window) → some a ≡ some b → a ≡ b
some_windows a b e = ground arith

-- A synchronisation that completes has called the executor for windows that tile its whole target window,
-- oldest first, one call for each, with the connection, secret, job and reason of the request and the state
-- of this attempt, which carries the statistics of the windows before; the last call left the final world. It reports these windows, the results that the calls returned, the sum of
-- their statistics and all their issues.
pub orchestrate_completed :
    (Secret World : Type 0) (ports : Ports Secret World) (calendar : Calendar)
    → (request : SyncOrchestrationRequest Secret) (world : World)
    → (final : SyncOrchestrationResult) (later : World)
    → orchestrate Secret World ports calendar request world ≡ (completed final, later)
    → Tiles calendar final.target_window.start final.target_window.end final.executed_windows
      × ExecutesAll Secret World ports request final.executed_windows final.window_results
          zero_stats
          (begun_at Secret World ports request world)
          later
      × (final.stats ≡ total final.window_results zero_stats)
      × (final.issues ≡ all_issues final.window_results)
orchestrate_completed Secret World ports calendar request world final later e =
    let (planned, summed, calls) =
      orchestrate-Completes Secret World ports calendar request world final later e in
    let (ws, same, tiles) =
      split_planned calendar final.target_window (some final.executed_windows) planned in
    (
      subst (Tiles calendar final.target_window.start final.target_window.end)
          (sym (some_windows final.executed_windows ws same)) tiles,
      calls,
      summed.0,
      summed.1,
    )
