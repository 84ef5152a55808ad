-- ===== src/Sync/Diff.antt =====
-- The comparison of a provider's observations with the stored window: `DiffPlanner` of
-- finance/internal/providers/diff.go.
pub mod Matching
pub mod Decisions
pub mod Plans
use sumweave.Base.{
  ℕ, ◌+◌, Bool, true, false, not, Option, none, some, List, [], ◌∷◌, ◌++◌, ◌&&◌, ◌||◌, ◌==◌,
  if◌then◌else◌, length, keep,
}
use sumweave.Base.Text.{Str, bytes, str_eq, is_empty}
use sumweave.Base.Int.{◌==ℤ◌}
use sumweave.Sync.Types.{
  Window, ConnectionRef, Transaction, TransactionSource, provider, AccountObservation,
  BalanceObservation, TransactionObservation, SnapshotObservation, SyncBatch, TransactionMatch,
  ProviderAccount, SyncStats, SyncIssue, Severity, warning, WindowSnapshot,
}

pub data ActionType : Type 0 where
  create update : ActionType

pub data MatchStrategy : Type 0 where
  new provider_id fingerprint weak_candidate ambiguous : MatchStrategy

pub record Action : Type 0 where
  pub type : ActionType
  pub match_strategy : MatchStrategy
  pub observation : TransactionObservation
  pub existing_transaction : Option Transaction

pub record DiffPlan : Type 0 where
  pub connection : ConnectionRef
  pub requested_window : Window
  pub snapshot_window : Window
  pub account_observations : List AccountObservation
  pub balance_observations : List BalanceObservation
  pub transaction_actions : List Action
  pub snapshot_observations : List SnapshotObservation
  pub stats : SyncStats
  pub issues : List SyncIssue

-- A match of the same connection and provider account.
abbrev pub same_account : TransactionObservation → TransactionMatch → Bool
same_account o m =
    str_eq m.connection_id o.connection.connection_id
    && str_eq m.provider_account_id o.provider_account_id

abbrev pub has_provider_id : TransactionObservation → TransactionMatch → Bool
has_provider_id o m = same_account o m && str_eq m.provider_transaction_id o.provider_transaction_id

abbrev pub has_fingerprint : TransactionObservation → TransactionMatch → Bool
has_fingerprint o m = same_account o m && str_eq m.fingerprint o.fingerprint

unfoldable pub matching_provider_ids :
    List TransactionMatch → TransactionObservation → List TransactionMatch
matching_provider_ids matches o =
    if is_empty o.provider_transaction_id then [] else keep (has_provider_id o) matches

unfoldable pub matching_fingerprints :
    List TransactionMatch → TransactionObservation → List TransactionMatch
matching_fingerprints matches o =
    if is_empty o.fingerprint then [] else keep (has_fingerprint o) matches

-- `seen` as the list of the identifiers that are in the map.
unfoldable pub seen_id : Str → List Str → Bool
seen_id id [] = false
seen_id id (s ∷ seen) = str_eq s id || seen_id id seen

ids_of : List TransactionMatch → List Str
ids_of [] = []
ids_of (m ∷ ms) = m.id ∷ ids_of ms

append_unseen : List Str → List TransactionMatch → List TransactionMatch
append_unseen seen [] = []
append_unseen seen (m ∷ ms) =
    let skipped = append_unseen seen ms in
    let taken = m ∷ append_unseen (m.id ∷ seen) ms in if seen_id m.id seen then skipped else taken

unfoldable pub append_unique_matches :
    List TransactionMatch → List TransactionMatch → List TransactionMatch
unfolding ids_of append_unseen seen_id
append_unique_matches matches additional = matches ++ append_unseen (ids_of matches) additional

unfoldable pub snapshot_transaction : List Transaction → Str → Option Transaction
snapshot_transaction [] id = none
snapshot_transaction (t ∷ ts) id = if str_eq t.id id then some t else snapshot_transaction ts id

abbrev pub provider_source : TransactionSource → Bool
provider_source provider = true
provider_source s = false

-- The finance account that the observation's provider account is linked to, or "".
unfoldable pub linked_account : List ProviderAccount → TransactionObservation → Str
linked_account [] o = []
linked_account (a ∷ rest) o =
    if str_eq a.connection_id o.connection.connection_id
      && str_eq a.provider_account_id o.provider_account_id
    then a.finance_account_id
    else linked_account rest o

abbrev pub is_weak_candidate : Str → TransactionObservation → Transaction → Bool
is_weak_candidate account o t =
    provider_source t.source
    && str_eq t.account_id account
    && t.amount_minor ==ℤ o.amount_minor
    && str_eq t.currency o.currency
    && t.effective_at == o.effective_at

unfoldable pub any_transaction : (Transaction → Bool) → List Transaction → Bool
any_transaction p [] = false
any_transaction p (t ∷ ts) = p t || any_transaction p ts

unfoldable pub has_weak_candidate : WindowSnapshot → TransactionObservation → Bool
unfolding any_transaction
has_weak_candidate snapshot o =
    let account = linked_account snapshot.accounts o in
    if is_empty account
    then false
    else any_transaction (is_weak_candidate account o) snapshot.transactions

abbrev pub update_action :
    MatchStrategy → TransactionObservation → Transaction → Action × Option SyncIssue
update_action strategy o t = (
  record {
    type = update;
    match_strategy = strategy;
    observation = o;
    existing_transaction = some t;
  },
  none,
)

abbrev pub create_action : MatchStrategy → TransactionObservation → Action
create_action strategy o = record {
  type = create;
  match_strategy = strategy;
  observation = o;
  existing_transaction = none;
}

abbrev issue : Str → Str → TransactionObservation → SyncIssue
issue code summary o = record {
  code = code;
  severity = warning;
  summary = summary;
  provider_account_id = o.provider_account_id;
  provider_transaction_id = o.provider_transaction_id;
}

abbrev pub ambiguous_create_action : TransactionObservation → Str → Action × Option SyncIssue
ambiguous_create_action o reason = (
  create_action ambiguous o,
  some (
      issue (bytes "ambiguous-transaction-match")
        (bytes "created a new transaction because " ++ reason) o),
)

abbrev pub weak_create_action : TransactionObservation → Action × Option SyncIssue
weak_create_action o = (
  create_action weak_candidate o,
  some (
      issue (bytes "weak-transaction-match")
        (bytes "created a new transaction because only weak candidates were available") o),
)

-- The stages of `planTransactionAction`, each with what follows it.
unfoldable pub plan_weak : WindowSnapshot → TransactionObservation → Action × Option SyncIssue
plan_weak snapshot o =
    if has_weak_candidate snapshot o then weak_create_action o else (create_action new o, none)

unfoldable pub plan_fingerprint :
    WindowSnapshot → TransactionObservation → List TransactionMatch → Action × Option SyncIssue
plan_fingerprint snapshot o [] = plan_weak snapshot o
plan_fingerprint snapshot o (m ∷ []) =
    elim (snapshot_transaction snapshot.transactions m.transaction_id) [
      | some t ↦ update_action fingerprint o t
      | none ↦ plan_weak snapshot o
    ]
plan_fingerprint snapshot o (m ∷ k ∷ ms) =
    ambiguous_create_action o (bytes "multiple fingerprint matches")

-- In the window first, then among the transactions loaded by identity.
unfoldable pub identified_transaction : WindowSnapshot → Str → Option Transaction
identified_transaction snapshot id = elim (snapshot_transaction snapshot.transactions id) [
  | some t ↦ some t
  | none ↦ snapshot_transaction snapshot.identity_transactions id
]

unfoldable pub plan_strong :
    WindowSnapshot → TransactionObservation → List TransactionMatch → Action × Option SyncIssue
plan_strong snapshot o [] = plan_fingerprint snapshot o (matching_fingerprints snapshot.matches o)
plan_strong snapshot o (m ∷ []) = elim (identified_transaction snapshot m.transaction_id) [
  | some t ↦ update_action provider_id o t
  | none ↦ plan_fingerprint snapshot o (matching_fingerprints snapshot.matches o)
]
plan_strong snapshot o (m ∷ k ∷ ms) =
    ambiguous_create_action o (bytes "multiple provider-id matches")

abbrev pub strong_matches : WindowSnapshot → TransactionObservation → List TransactionMatch
strong_matches snapshot o =
    append_unique_matches (matching_provider_ids snapshot.matches o)
      (matching_provider_ids snapshot.identity_matches o)

unfoldable pub plan_transaction_action :
    WindowSnapshot → TransactionObservation → Action × Option SyncIssue
plan_transaction_action snapshot o = plan_strong snapshot o (strong_matches snapshot o)

abbrev pub doubtful : MatchStrategy → Bool
doubtful weak_candidate = true
doubtful ambiguous = true
doubtful s = false

-- The `switch` in the loop of `Plan`.
unfoldable pub count_action : Action → SyncStats → SyncStats
count_action a stats = elim a.type [
  | update ↦ record stats { updated_transactions = stats.updated_transactions + 1 }
  | create ↦ record stats {
    created_transactions = stats.created_transactions + 1;
    ambiguous_created_transactions =
        if doubtful a.match_strategy
        then stats.ambiguous_created_transactions + 1
        else stats.ambiguous_created_transactions;
  }
]

abbrev pub append_issue : Option SyncIssue → List SyncIssue → List SyncIssue
append_issue none issues = issues
append_issue (some i) issues = issues ++ (i ∷ [])

abbrev add_action : Action × Option SyncIssue → DiffPlan → DiffPlan
add_action (action, found) plan = record plan {
  transaction_actions = plan.transaction_actions ++ (action ∷ []);
  stats = count_action action plan.stats;
  issues = append_issue found plan.issues;
}

unfoldable pub plan_from : WindowSnapshot → List TransactionObservation → DiffPlan → DiffPlan
unfolding count_action
plan_from snapshot [] plan = plan
plan_from snapshot (o ∷ os) plan =
    plan_from snapshot os (add_action (plan_transaction_action snapshot o) plan)

abbrev pub empty_plan : SyncBatch → WindowSnapshot → DiffPlan
empty_plan batch snapshot = record {
  connection = batch.connection;
  requested_window = batch.requested_window;
  snapshot_window = snapshot.snapshot_window;
  account_observations = batch.accounts;
  balance_observations = batch.balances;
  transaction_actions = [];
  snapshot_observations = batch.snapshots;
  stats = record {
    observed_accounts = length batch.accounts;
    created_accounts = 0;
    observed_transactions = length batch.transactions;
    created_transactions = 0;
    updated_transactions = 0;
    ambiguous_created_transactions = 0;
  };
  issues = [];
}

-- `DiffPlanner.Plan`
unfoldable pub plan_diff : SyncBatch → WindowSnapshot → DiffPlan
unfolding plan_from
plan_diff batch snapshot = plan_from snapshot batch.transactions (empty_plan batch snapshot)
