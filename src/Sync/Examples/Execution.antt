-- ===== src/Sync/Examples/Execution.antt =====
-- The theorems on the execution of one window at concrete inputs.
use sumweave.Base.{◌≡◌, refl, ◌&&◌, not, none, some, List, [], ◌∷◌}
use sumweave.Base.Text.{Str, bytes, str_eq}
use sumweave.Base.Dict.{Dict, lookup}
use sumweave.Sync.Types.{SyncState, TransactionObservation, zero_stats}
use sumweave.Sync.Windows.{validate_sync_window}
use sumweave.Sync.Orchestrator.{returns, WindowSyncRequest, WindowSyncResult}
use sumweave.Sync.Executor.{
  Identity, Connector, WindowPorts, executed, execute_window, in_identities, is_incomplete,
  provider_transaction_identities, resolve, with_connector, after_fetch, after_load_window,
  apply_window, after_apply,
}
use sumweave.Sync.Executor.Identities.{
  AreDistinct, observed_as, provider_transaction_identities_lem,
}
use sumweave.Sync.Executor.Calls.{Applied}
use sumweave.Sync.Executor.Applied.{execute_window-Applied}
use sumweave.Sync.Diff.{
  plan_diff, plan_transaction_action, plan_strong, append_unique_matches, matching_provider_ids,
  identified_transaction, snapshot_transaction, plan_from, count_action,
}
use sumweave.Sync.Apply.{plan_apply}
use sumweave.Sync.Examples.{connection, target, batch, snapshot, observed, two_created}

abbrev other : TransactionObservation
other = record observed { provider_transaction_id = [] }

abbrev identity : Identity
identity = record { provider_account_id = bytes "p1"; provider_transaction_id = bytes "x1" }

provider_transaction_identities_lem_example :
    (in_identities identity (provider_transaction_identities (observed ∷ other ∷ observed ∷ []))
      ≡ (not (is_incomplete identity) && observed_as identity (observed ∷ other ∷ observed ∷ [])))
    × AreDistinct (provider_transaction_identities (observed ∷ other ∷ observed ∷ []))
provider_transaction_identities_lem_example =
    provider_transaction_identities_lem (observed ∷ other ∷ observed ∷ []) identity

-- The world is the list of the states that were written.
abbrev connector : Connector Str (List SyncState)
connector = record { connector_id = bytes "api"; fetch = λ r world. (returns batch, world) }

abbrev window_ports : WindowPorts (List SyncState)
window_ports = record {
  load_existing_window = λ c w is world. (returns snapshot, world);
  apply_sync = λ d p s world. (returns two_created, s ∷ world);
  new_run_id = λ world. (bytes "run-1", world);
  clock = λ world. (5071, world);
}

abbrev registry : Dict (Connector Str (List SyncState))
registry = (bytes "api", connector) ∷ []

abbrev window_request : WindowSyncRequest Str
window_request = record {
  connection = connection;
  secret = bytes "key";
  requested_window = target;
  sync_state = none;
  job_id = bytes "job-1";
  reason = bytes "manual";
}

abbrev written : SyncState
written = record {
  connection = connection;
  attempted_at = none;
  succeeded_at = some 5071;
  window = target;
  run_id = bytes "run-1";
  job_id = bytes "job-1";
  error_summary = [];
  aggregate_stats = zero_stats;
}

abbrev window_result : WindowSyncResult
window_result = record { run_id = bytes "run-1"; batch = batch; stats = two_created; issues = [] }

executes :
    execute_window Str (List SyncState) window_ports registry window_request []
    ≡ (executed window_result, written ∷ [])
unfolding execute_window validate_sync_window with_connector resolve lookup str_eq after_fetch
    after_load_window apply_window after_apply plan_apply plan_diff plan_transaction_action
    plan_strong append_unique_matches matching_provider_ids identified_transaction
    snapshot_transaction plan_from count_action
executes = refl

execute_window-Applied_example :
    (validate_sync_window target ≡ none)
    × Applied Str
        (List SyncState)
        window_ports
        registry
        window_request
        []
        window_result
        (written ∷ [])
execute_window-Applied_example =
    execute_window-Applied Str (List SyncState) window_ports registry window_request []
      window_result (written ∷ []) executes
