-- ===== src/Sync/Orchestrator/Stops.antt =====
-- How a synchronisation that does not complete ends.
use sumweave.Base.{◌≡◌, refl, sym, ◌∙◌, subst, inl, inr, Option, none, some, List, Option-cases}
use sumweave.Base.Text.{Str}
use sumweave.Sync.Types.{Window, SyncState, zero_stats}
use sumweave.Sync.Windows.{Calendar, Checked, valid, invalid, split}
use sumweave.Sync.Orchestrator.{
  Call, returns, fails, Ports, SyncOrchestrationRequest, SyncFailure, runs_on,
  execute_requested_window, load_sync_state, append_failed_sync_state, determine_target_window,
  split_target_window, stopped, started_result, run_planned, run_target, orchestrate_from,
  after_load, orchestrate,
}
use sumweave.Sync.Orchestrator.Progress.{
  begun_at, begun_auto, begun_given, split_planned, orchestrate_given, orchestrate_auto,
}
use sumweave.Sync.Orchestrator.Failures.{
  FailsAmong, LoopExplained, run_windows-LoopExplained, stopped_injective,
}

module _ (Secret World : Type 0) (ports : Ports Secret World) where
  open ports use {load_last_state, append_sync_state, execute, clock}

  -- A failure of one of the windows into which a target window was split.
  abbrev pub Journaled : Calendar → SyncOrchestrationRequest Secret → Str → World → World → Type 0
  Journaled calendar request e begun later =
      (target : Window) × (ws : List Window) × (split calendar target ≡ valid (some ws))
      × FailsAmong Secret World ports request ws zero_stats e begun later

  abbrev pub Explained :
      Calendar → SyncOrchestrationRequest Secret → World → SyncFailure → World → Type 0
  Explained calendar request begun runs_on later = ⊥
  Explained calendar request begun (execute_requested_window e) later =
      Journaled calendar request e begun later
  Explained calendar request begun (load_sync_state e) later = Unit
  Explained calendar request begun (append_failed_sync_state e) later = Unit
  Explained calendar request begun (determine_target_window kind why) later = Unit
  Explained calendar request begun (split_target_window kind why) later = Unit

  planned-Explained :
      (calendar : Calendar) (request : SyncOrchestrationRequest Secret) (target : Window)
      (ws : List Window) (world : World) (failure : SyncFailure) (later : World)
      → split calendar target ≡ valid (some ws)
      → LoopExplained Secret World ports request ws zero_stats world failure later
      → Explained calendar request world failure later
  planned-Explained calendar request target ws world runs_on later p h = h
  planned-Explained calendar request target ws world (execute_requested_window e) later p h =
      (target, ws, p, h)
  planned-Explained calendar request target ws world (load_sync_state x) later p h = tt
  planned-Explained calendar request target ws world (append_failed_sync_state x) later p h = tt
  planned-Explained calendar request target ws world (determine_target_window x y) later p h = tt
  planned-Explained calendar request target ws world (split_target_window x y) later p h = tt

  run_planned-Explained :
      (calendar : Calendar) (request : SyncOrchestrationRequest Secret) (target : Window)
      → (planned : Checked (Option (List Window))) (world : World)
      → (failure : SyncFailure) (later : World) → split calendar target ≡ planned
      → run_planned Secret World ports request target planned world ≡ (stopped failure, later)
      → Explained calendar request world failure later
  unfolding run_planned
  run_planned-Explained calendar request target (invalid kind why) world failure later p e =
      subst (λ f. Explained calendar request world f later)
        (stopped_injective _ failure world later e).0 tt
  run_planned-Explained calendar request target (valid none) world failure later p e =
      let (ws, never, tiles) = split_planned calendar target none p in cc
  run_planned-Explained calendar request target (valid (some ws)) world failure later p e =
      planned-Explained calendar request target ws world failure later p (
        run_windows-LoopExplained Secret World ports request ws
          (started_result Secret World ports target) world failure later e)

  run_target-Explained :
      (calendar : Calendar) (request : SyncOrchestrationRequest Secret) (target : Checked Window)
      → (world : World) (failure : SyncFailure) (later : World)
      → run_target Secret World ports calendar request target world ≡ (stopped failure, later)
      → Explained calendar request world failure later
  unfolding run_target
  run_target-Explained calendar request (invalid kind why) world failure later e =
      subst (λ f. Explained calendar request world f later)
        (stopped_injective _ failure world later e).0 tt
  run_target-Explained calendar request (valid target) world failure later e =
      run_planned-Explained calendar request target (split calendar target) world failure later refl
        e

  orchestrate_from-Explained :
      (calendar : Calendar) (request : SyncOrchestrationRequest Secret) (state : Option SyncState)
      → (world : World) (failure : SyncFailure) (later : World)
      → orchestrate_from Secret World ports calendar request state world ≡ (stopped failure, later)
      → Explained calendar request (clock world).1 failure later
  unfolding orchestrate_from
  orchestrate_from-Explained calendar request state world failure later e =
      run_target-Explained calendar request _ _ failure later e

  after_load-Explained :
      (calendar : Calendar) (request : SyncOrchestrationRequest Secret)
      → (load : Call (Option SyncState)) (world : World) (failure : SyncFailure) (later : World)
      → after_load Secret World ports calendar request (load, world) ≡ (stopped failure, later)
      → Explained calendar request (clock world).1 failure later
  unfolding after_load
  after_load-Explained calendar request (fails why) world failure later e =
      subst (λ f. Explained calendar request (clock world).1 f later)
        (stopped_injective _ failure world later e).0 tt
  after_load-Explained calendar request (returns state) world failure later e =
      orchestrate_from-Explained calendar request state world failure later e

-- A synchronisation ends: its loop over the windows never runs on. When it stops because a window
-- failed, the target window had been split, the executor had been called for the windows before that one,
-- one call for each, and its call for that window failed with the text of the error. The last thing it did
-- was to append the state of that window to the journal, for the connection and job of the request, with
-- that text, with no time of success, and with the sum of the statistics of the windows before.
pub orchestrate_stopped :
    (Secret World : Type 0) (ports : Ports Secret World) (calendar : Calendar)
    → (request : SyncOrchestrationRequest Secret) (world : World)
    → (failure : SyncFailure) (later : World)
    → orchestrate Secret World ports calendar request world ≡ (stopped failure, later)
    → Explained Secret World ports calendar request
        (begun_at Secret World ports request world)
        failure
        later
orchestrate_stopped Secret World ports calendar request world failure later e =
    elim (Option-cases request.window_start) [
      | inl auto ↦
          let load = ports.load_last_state request.connection world in
          subst (λ begun. Explained Secret World ports calendar request begun failure later)
            (sym (begun_auto Secret World ports request world auto))
            (after_load-Explained Secret World ports calendar request load.0 load.1 failure later
              (sym (orchestrate_auto Secret World ports calendar request world auto) ∙ e))
      | inr (start, asked) ↦
          subst (λ begun. Explained Secret World ports calendar request begun failure later)
            (sym (begun_given Secret World ports request world start asked))
            (orchestrate_from-Explained Secret World ports calendar request none world failure later
              (sym (orchestrate_given Secret World ports calendar request world start asked) ∙ e))
    ]
