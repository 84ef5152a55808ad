-- ===== src/Sync/Types.antt =====
-- The data of finance/domain that the synchronisation works on (provider_sync_v2.go,
-- finance_management.go, bank_connection.go). An instant is a number of nanoseconds since Go's zero
-- time; an amount in minor units is a signed integer, which this component only compares and copies.
use sumweave.Base.{ℕ, ◌+◌, Bool, Option, List}
use sumweave.Base.Text.{Str}
use sumweave.Base.Int.{ℤ}

abbrev pub Time : Type 0
Time = ℕ

pub record ConnectionRef : Type 0 where
  pub connection_id : Str
  pub provider_id : Str
  pub connector_id : Str
  pub provider_reference : Str

pub record Window : Type 0 where
  pub start : Time
  pub end : Time

pub data TransactionSource : Type 0 where
  manual provider csv system : TransactionSource

pub data TransactionStatus : Type 0 where
  pending booked : TransactionStatus

pub data TransactionKind : Type 0 where
  expense income regular refund transfer reconciliation opening_balance : TransactionKind

pub record TransactionOriginal : Type 0 where
  pub amount_minor : ℤ
  pub currency : Str
  pub description : Str
  pub effective_at : Option Time

pub record Transaction : Type 0 where
  pub id : Str
  pub tenant_id : Str
  pub account_id : Str
  pub source : TransactionSource
  pub status : TransactionStatus
  pub kind : TransactionKind
  pub amount_minor : ℤ
  pub currency : Str
  pub description : Str
  pub effective_at : Time
  pub category_id : Option Str
  pub tag_ids : List Str
  pub transfer_group_id : Option Str
  pub transfer_matched_at : Option Time
  pub transfer_matching_excluded : Bool
  pub hidden_at : Option Time
  pub created_at : Time
  pub updated_at : Time
  pub provider_original : Option TransactionOriginal

pub record AccountObservation : Type 0 where
  pub connection : ConnectionRef
  pub provider_account_id : Str
  pub name : Str
  pub currency : Str
  pub iban : Str
  pub masked_pan : Str

pub record BalanceObservation : Type 0 where
  pub connection : ConnectionRef
  pub provider_account_id : Str
  pub currency : Str
  pub current_balance_minor : ℤ
  pub available_balance_minor : Option ℤ
  pub captured_at : Time

pub record TransactionObservation : Type 0 where
  pub connection : ConnectionRef
  pub provider_account_id : Str
  pub provider_transaction_id : Str
  pub status : TransactionStatus
  pub amount_minor : ℤ
  pub currency : Str
  pub description : Str
  pub effective_at : Time
  pub fingerprint : Str
  pub provider_original : Option TransactionOriginal

pub record SnapshotObservation : Type 0 where
  pub kind : Str
  pub provider_object_id : Str
  pub provider_account_id : Str
  pub provider_transaction_id : Str
  pub document_json : Str
  pub captured_at : Time

pub record SyncBatch : Type 0 where
  pub connection : ConnectionRef
  pub requested_window : Window
  pub accounts : List AccountObservation
  pub balances : List BalanceObservation
  pub transactions : List TransactionObservation
  pub snapshots : List SnapshotObservation

pub record TransactionMatch : Type 0 where
  pub id : Str
  pub connection_id : Str
  pub provider_account_id : Str
  pub provider_transaction_id : Str
  pub fingerprint : Str
  pub transaction_id : Str
  pub status : TransactionStatus
  pub created_at : Time
  pub updated_at : Time

pub record ProviderAccount : Type 0 where
  pub id : Str
  pub connection_id : Str
  pub provider_account_id : Str
  pub finance_account_id : Str
  pub name : Str
  pub currency : Str
  pub iban : Str
  pub masked_pan : Str
  pub last_successful_sync_at : Option Time
  pub created_at : Time
  pub updated_at : Time

pub record SyncStats : Type 0 where
  pub observed_accounts : ℕ
  pub created_accounts : ℕ
  pub observed_transactions : ℕ
  pub created_transactions : ℕ
  pub updated_transactions : ℕ
  pub ambiguous_created_transactions : ℕ

abbrev pub zero_stats : SyncStats
zero_stats = record {
  observed_accounts = 0;
  created_accounts = 0;
  observed_transactions = 0;
  created_transactions = 0;
  updated_transactions = 0;
  ambiguous_created_transactions = 0;
}

-- `mergeProviderSyncStats` of sync_orchestrator.go.
unfoldable pub merge_stats : SyncStats → SyncStats → SyncStats
merge_stats left right = record {
  observed_accounts = left.observed_accounts + right.observed_accounts;
  created_accounts = left.created_accounts + right.created_accounts;
  observed_transactions = left.observed_transactions + right.observed_transactions;
  created_transactions = left.created_transactions + right.created_transactions;
  updated_transactions = left.updated_transactions + right.updated_transactions;
  ambiguous_created_transactions =
      left.ambiguous_created_transactions + right.ambiguous_created_transactions;
}

pub data Severity : Type 0 where
  info warning error : Severity

pub record SyncIssue : Type 0 where
  pub code : Str
  pub severity : Severity
  pub summary : Str
  pub provider_account_id : Str
  pub provider_transaction_id : Str

pub record SyncState : Type 0 where
  pub connection : ConnectionRef
  pub attempted_at : Option Time
  pub succeeded_at : Option Time
  pub window : Window
  pub run_id : Str
  pub job_id : Str
  pub error_summary : Str
  pub aggregate_stats : SyncStats

-- `ExistingWindowSnapshot` of contracts.go.
pub record WindowSnapshot : Type 0 where
  pub connection : ConnectionRef
  pub snapshot_window : Window
  pub accounts : List ProviderAccount
  pub transactions : List Transaction
  pub matches : List TransactionMatch
  pub identity_transactions : List Transaction
  pub identity_matches : List TransactionMatch
