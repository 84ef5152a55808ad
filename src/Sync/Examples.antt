-- ===== src/Sync/Examples.antt =====
-- The theorems on synchronisation at concrete inputs, in a calendar of days of 24 hours.
mod Again
mod Execution
use sumweave.Base.{
  ℕ, ◌≡◌, ◌≢◌, ◌≤◌, ◌+◌, ◌*◌, ◌-◌, ◌<◌, refl, ◌⊎◌, Bool, true, false, none, some, List, [], ◌∷◌,
  arith, length,
}
use sumweave.Base.Text.{Str, bytes}
use sumweave.Base.Int.{negsuc}
use sumweave.Sync.Types.{
  ConnectionRef, Window, SyncState, SyncStats, SyncBatch, WindowSnapshot, Transaction,
  TransactionMatch, TransactionOriginal, TransactionObservation, zero_stats, provider, pending,
  booked, expense, merge_stats,
}
use sumweave.Sync.Windows.{
  Calendar, valid, TargetWindowRequest, determine, split, or_else, checkpoint, validate_sync_window,
  checked_target, determine_start,
}
use sumweave.Sync.Windows.Chunks.{Tiles, split-Tiles}
use sumweave.Sync.Windows.Targets.{ResumesFrom, determine_bounds, determine_no_gap}
use sumweave.Sync.Diff.{plan_diff}
use sumweave.Sync.Diff.Plans.{observations, plan_diff_complete}
use sumweave.Sync.Apply.{merge_transaction}
use sumweave.Sync.Apply.Merging.{merge_transaction_edits}
use sumweave.Sync.Orchestrator.{
  Call, returns, fails, Ports, SyncOrchestrationRequest, SyncOrchestrationResult, WindowSyncResult,
  completed, stopped, execute_requested_window, orchestrate, orchestrate_from, run_target,
  run_planned, run_windows, execute_requested_window_of, after_execution, after_failure,
}
use sumweave.Sync.Orchestrator.Sums.{total, all_issues}
use sumweave.Sync.Orchestrator.Calls.{ExecutesAll}
use sumweave.Sync.Orchestrator.Progress.{orchestrate_completed}
use sumweave.Sync.Orchestrator.Stops.{Journaled, orchestrate_stopped}

-- A day is one unit of time here.
abbrev plain : Calendar
plain = record {
  days_after = λ n t. t + n;
  days_before = λ n t. t - n;
  years_before = λ n t. t - n * 365;
  later = λ n t h. omega arith;
  not_later_days = λ n t. omega arith;
  not_later_years = λ n t. omega arith;
}

abbrev connection : ConnectionRef
connection = record {
  connection_id = bytes "c1";
  provider_id = bytes "bank";
  connector_id = bytes "api";
  provider_reference = [];
}

abbrev target : Window
target = record { start = 5000; end = 5070 }

abbrev state : SyncState
state = record {
  connection = connection;
  attempted_at = some 5000;
  succeeded_at = some 5001;
  window = record { start = 4900; end = 5000 };
  run_id = [];
  job_id = [];
  error_summary = [];
  aggregate_stats = zero_stats;
}

abbrev target_request : TargetWindowRequest
target_request = record { now = 5070; state = some state; window_start = none; window_end = none }

target_is_valid : validate_sync_window target ≡ none
unfolding validate_sync_window
target_is_valid = refl

split-Tiles_example :
    (ws : List Window) × (split plain target ≡ valid (some ws))
    × (ws ≢ [])
    × Tiles plain 5000 5070 ws
split-Tiles_example = split-Tiles plain target target_is_valid

determined : determine plain target_request ≡ valid target
unfolding determine checked_target determine_start validate_sync_window
determined = refl

determine_no_gap_example :
    (validate_sync_window state.window ≡ none)
    × ((state.succeeded_at ≡ none) × ResumesFrom plain state.window.start target
        ⊎ ((at : ℕ) × (state.succeeded_at ≡ some at)) × ResumesFrom plain state.window.end target)
determine_no_gap_example = determine_no_gap plain target_request state target refl refl determined

abbrev original : TransactionOriginal
original = record {
  amount_minor = negsuc 99;
  currency = bytes "EUR";
  description = bytes "SHOP 17";
  effective_at = some 5010;
}

-- The user has corrected the description.
abbrev stored : Transaction
stored = record {
  id = bytes "t1";
  tenant_id = bytes "tenant";
  account_id = bytes "a1";
  source = provider;
  status = pending;
  kind = expense;
  amount_minor = negsuc 99;
  currency = bytes "EUR";
  description = bytes "groceries";
  effective_at = 5010;
  category_id = none;
  tag_ids = [];
  transfer_group_id = none;
  transfer_matched_at = none;
  transfer_matching_excluded = false;
  hidden_at = none;
  created_at = 5010;
  updated_at = 5010;
  provider_original = some original;
}

abbrev observed : TransactionObservation
observed = record {
  connection = connection;
  provider_account_id = bytes "p1";
  provider_transaction_id = bytes "x1";
  status = booked;
  amount_minor = negsuc 119;
  currency = bytes "EUR";
  description = bytes "SHOP 17 ";
  effective_at = 5011;
  fingerprint = bytes "f1";
  provider_original = none;
}

abbrev match_1 : TransactionMatch
match_1 = record {
  id = bytes "m1";
  connection_id = bytes "c1";
  provider_account_id = bytes "p1";
  provider_transaction_id = bytes "x1";
  fingerprint = bytes "f1";
  transaction_id = bytes "t1";
  status = pending;
  created_at = 5010;
  updated_at = 5010;
}

abbrev snapshot : WindowSnapshot
snapshot = record {
  connection = connection;
  snapshot_window = target;
  accounts = [];
  transactions = stored ∷ [];
  matches = match_1 ∷ [];
  identity_transactions = [];
  identity_matches = match_1 ∷ [];
}

abbrev batch : SyncBatch
batch = record {
  connection = connection;
  requested_window = target;
  accounts = [];
  balances = [];
  transactions = observed ∷ observed ∷ [];
  snapshots = [];
}

plan_diff_complete_example :
    let plan = plan_diff batch snapshot in
    (observations plan.transaction_actions ≡ observed ∷ observed ∷ [])
    × (plan.stats.created_transactions + plan.stats.updated_transactions
        ≡ plan.stats.observed_transactions)
    × (plan.stats.ambiguous_created_transactions ≡ length plan.issues)
    × (plan.stats.ambiguous_created_transactions ≤ plan.stats.created_transactions)
plan_diff_complete_example = plan_diff_complete batch snapshot

-- A world that counts the journal's entries and whose second window fails or not.
abbrev ran : SyncStats → WindowSyncResult
ran stats = record { run_id = bytes "r"; batch = batch; stats = stats; issues = [] }

abbrev two_created : SyncStats
two_created = record zero_stats { observed_transactions = 2; created_transactions = 2 }

abbrev answers : Bool → ℕ → Call WindowSyncResult
answers true start = returns (ran two_created)
answers false start = fails (bytes "timeout")

abbrev ports : Bool → Ports Str (List SyncState)
ports works = record {
  load_last_state = λ c world. (returns (some state), world);
  append_sync_state = λ s world. (none, s ∷ world);
  execute = λ r world. (answers works r.requested_window.start, world);
  clock = λ world. (5070, world);
}

abbrev request : SyncOrchestrationRequest Str
request = record {
  connection = connection;
  secret = bytes "key";
  job_id = bytes "job-1";
  reason = bytes "manual";
  window_start = none;
  window_end = none;
}

abbrev final : SyncOrchestrationResult
final = record {
  target_window = target;
  executed_windows =
      record { start = 5000; end = 5030 }
      ∷ record { start = 5030; end = 5060 }
      ∷ record { start = 5060; end = 5070 }
      ∷ [];
  window_results = ran two_created ∷ ran two_created ∷ ran two_created ∷ [];
  stats = record zero_stats { observed_transactions = 6; created_transactions = 6 };
  issues = [];
}

completes : orchestrate Str (List SyncState) (ports true) plain request [] ≡ (completed final, [])
unfolding orchestrate orchestrate_from run_target determine checked_target determine_start
    validate_sync_window run_planned split run_windows execute_requested_window_of after_execution
    after_failure merge_stats
completes = refl

orchestrate_completed_example :
    Tiles plain 5000 5070 final.executed_windows
    × ExecutesAll Str
        (List SyncState)
        (ports true)
        request
        final.executed_windows
        final.window_results
        zero_stats
        []
        []
    × (final.stats ≡ total final.window_results zero_stats)
    × (final.issues ≡ all_issues final.window_results)
orchestrate_completed_example =
    orchestrate_completed Str (List SyncState) (ports true) plain request [] final [] completes

abbrev failed_state : SyncState
failed_state = record {
  connection = connection;
  attempted_at = some 5070;
  succeeded_at = none;
  window = record { start = 5000; end = 5030 };
  run_id = [];
  job_id = bytes "job-1";
  error_summary = bytes "timeout";
  aggregate_stats = zero_stats;
}

stops :
    orchestrate Str (List SyncState) (ports false) plain request []
    ≡ (stopped (execute_requested_window (bytes "timeout")), failed_state ∷ [])
unfolding orchestrate orchestrate_from run_target determine checked_target determine_start
    validate_sync_window run_planned split run_windows execute_requested_window_of after_execution
    after_failure merge_stats
stops = refl

orchestrate_stopped_example :
    Journaled Str
      (List SyncState)
      (ports false)
      plain
      request
      (bytes "timeout")
      []
      (failed_state ∷ [])
orchestrate_stopped_example =
    orchestrate_stopped Str (List SyncState) (ports false) plain request []
      (execute_requested_window (bytes "timeout")) (failed_state ∷ []) stops
