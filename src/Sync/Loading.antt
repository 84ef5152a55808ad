-- ===== src/Sync/Loading.antt =====
-- `LoadExistingWindow` of finance/internal/providers/window_sync_store.go, with the queries of
-- finance/persistence/provider_window_sync_persistence.go on the tables of models.go. A query sees its table
-- whole, or the driver reports a failure.

pub mod Items
pub mod Identified
use sumweave.Base.{
  ℕ, Bool, Option, none, some, List, [], ◌∷◌, ◌++◌, true, false, ◌&&◌, ◌||◌, ◌==◌, leb, ltb, not,
  map, if◌then◌else◌, keep, sort_by,
}
use sumweave.Base.Text.{Str, bytes, str_eq, str_lt, is_empty, trim_space}
use sumweave.Sync.Types.{
  Time, ConnectionRef, Window, Transaction, TransactionMatch, ProviderAccount, WindowSnapshot,
}
use sumweave.Sync.Diff.{provider_source, seen_id, snapshot_transaction}
use sumweave.Sync.Executor.{Identity, in_identities, is_incomplete}
use sumweave.Sync.Orchestrator.{Call, returns, fails}

pub record SyncTables : Type 0 where
  pub accounts : List ProviderAccount
  pub transactions : List Transaction
  pub matches : List TransactionMatch

-- What each query reports, the last two for the matches of identities and for their transactions.
pub record LoadFaults : Type 0 where
  pub accounts_fault : Option Str
  pub transactions_fault : Option Str
  pub matches_fault : Option Str
  pub identities_fault : Option Str
  pub identity_transactions_fault : Option Str

-- `ORDER BY created_at, id`
abbrev pub oldest_first : TransactionMatch → TransactionMatch → Bool
oldest_first m k =
    ltb m.created_at k.created_at || (m.created_at == k.created_at && str_lt m.id k.id)

abbrev pub oldest_account_first : ProviderAccount → ProviderAccount → Bool
oldest_account_first a b =
    ltb a.created_at b.created_at || (a.created_at == b.created_at && str_lt a.id b.id)

-- `ORDER BY effective_at DESC, created_at DESC, id DESC`
abbrev pub latest_first : Transaction → Transaction → Bool
latest_first t u =
    if t.effective_at == u.effective_at
    then (if t.created_at == u.created_at then str_lt u.id t.id else ltb u.created_at t.created_at)
    else ltb u.effective_at t.effective_at

unfoldable pub list_connection_provider_accounts : Str → SyncTables → List ProviderAccount
list_connection_provider_accounts connection tables =
    sort_by oldest_account_first
      (keep (λ a. str_eq a.connection_id (trim_space connection)) tables.accounts)

-- The values that are not blank, trimmed.
unfoldable pub non_empty_trimmed : List Str → List Str
non_empty_trimmed [] = []
non_empty_trimmed (s ∷ rest) =
    let others = non_empty_trimmed rest in
    if is_empty (trim_space s) then others else trim_space s ∷ others

-- The values that are not empty, once each.
unfoldable pub distinct_from : List Str → List Str → List Str
distinct_from seen [] = []
distinct_from seen (s ∷ rest) =
    let skipped = distinct_from seen rest in
    let taken = s ∷ distinct_from (s ∷ seen) rest in
    if is_empty s then skipped else if seen_id s seen then skipped else taken

abbrev pub mapped_finance_account_ids : List ProviderAccount → List Str
mapped_finance_account_ids accounts = distinct_from [] (map (λ a. a.finance_account_id) accounts)

abbrev pub transaction_ids : List Transaction → List Str
transaction_ids ts = distinct_from [] (map (λ t. t.id) ts)

abbrev pub is_in_window : List Str → Window → Transaction → Bool
is_in_window accounts window t =
    seen_id t.account_id accounts
    && provider_source t.source
    && leb window.start t.effective_at
    && ltb t.effective_at window.end

unfoldable pub list_provider_transactions_in_window :
    List Str → Window → SyncTables → List Transaction
list_provider_transactions_in_window accounts window tables =
    sort_by latest_first
      (keep (is_in_window (non_empty_trimmed accounts) window) tables.transactions)

abbrev pub is_match_of : Str → List Str → TransactionMatch → Bool
is_match_of connection ids m = str_eq m.connection_id connection && seen_id m.transaction_id ids

unfoldable pub list_matches_by_transaction_ids : Str → List Str → SyncTables → List TransactionMatch
list_matches_by_transaction_ids connection ids tables =
    sort_by oldest_first
      (keep (is_match_of (trim_space connection) (non_empty_trimmed ids)) tables.matches)

abbrev pub is_identified : Str → List Identity → TransactionMatch → Bool
is_identified connection identities m =
    str_eq m.connection_id connection
    && in_identities
        (record {
          provider_account_id = m.provider_account_id;
          provider_transaction_id = m.provider_transaction_id;
        })
        identities

abbrev pub provider_row : Option Transaction → Option Transaction
provider_row none = none
provider_row (some t) = if provider_source t.source then some t else none

-- `SELECT ... WHERE id IN ? AND source = 'provider'`, at one identifier.
abbrev pub provider_transaction : SyncTables → Str → Option Transaction
provider_transaction tables id = provider_row (snapshot_transaction tables.transactions id)

abbrev pub item_before :
    Option Transaction
    → TransactionMatch
    → List (Transaction × TransactionMatch)
    → List (Transaction × TransactionMatch)
item_before none m items = items
item_before (some t) m items = (t, m) ∷ items

unfoldable pub identity_items :
    SyncTables → List TransactionMatch → List (Transaction × TransactionMatch)
unfolding snapshot_transaction
identity_items tables [] = []
identity_items tables (m ∷ ms) =
    item_before (provider_transaction tables m.transaction_id) m (identity_items tables ms)

-- `nonEmptyProviderTransactionIdentities`
unfoldable pub identities_kept : List Identity → List Identity → List Identity
unfolding in_identities
identities_kept seen [] = []
identities_kept seen (i ∷ is) =
    let skipped = identities_kept seen is in
    let taken = i ∷ identities_kept (i ∷ seen) is in
    if is_incomplete i then skipped else if in_identities i seen then skipped else taken

abbrev pub identity_rows : Str → List Identity → SyncTables → List TransactionMatch
identity_rows connection identities tables =
    sort_by oldest_first
      (keep (is_identified connection (identities_kept [] identities)) tables.matches)

unfoldable pub list_identity_matches :
    Str → List Identity → SyncTables → List (Transaction × TransactionMatch)
unfolding identity_items
list_identity_matches connection identities tables =
    identity_items tables (identity_rows connection identities tables)

abbrev has_none {ℓ} : {A : Type ℓ} → List A → Bool
has_none [] = true
has_none (x ∷ xs) = false

abbrev pub unless_none {ℓ} : {A : Type ℓ} → List A → Option Str → Option Str
unless_none xs none = none
unless_none xs (some e) = if has_none xs then none else some e

-- The first query that fails ends the load.
abbrev pub unless_failed : {A : Type 0} → List (Str × Option Str) → A → Call A
unless_failed [] a = returns a
unless_failed ((prefix, some e) ∷ queries) a = fails (prefix ++ e)
unless_failed ((prefix, none) ∷ queries) a = unless_failed queries a

-- The snapshot, once every query has answered.
unfoldable pub loaded_window : ConnectionRef → Window → List Identity → SyncTables → WindowSnapshot
unfolding list_connection_provider_accounts list_provider_transactions_in_window
    list_matches_by_transaction_ids list_identity_matches distinct_from identities_kept
loaded_window connection window identities tables =
    let accounts = list_connection_provider_accounts connection.connection_id tables in
    let transactions =
      list_provider_transactions_in_window (mapped_finance_account_ids accounts) window tables in
    let items = list_identity_matches connection.connection_id identities tables in
    record {
      connection = connection;
      snapshot_window = window;
      accounts = accounts;
      transactions = transactions;
      matches =
          list_matches_by_transaction_ids connection.connection_id (transaction_ids transactions)
            tables;
      identity_transactions = map (λ i. i.0) items;
      identity_matches = map (λ i. i.1) items;
    }

abbrev pub queries :
    LoadFaults → List Identity → List TransactionMatch → WindowSnapshot → List (Str × Option Str)
queries faults kept rows snapshot =
    (bytes "list connection provider accounts: ", faults.accounts_fault)
    ∷ (
      bytes "list provider transactions in window: ",
      unless_none (non_empty_trimmed (mapped_finance_account_ids snapshot.accounts))
          faults.transactions_fault,
    )
    ∷ (
      bytes "list provider transaction matches by transaction ids: ",
      unless_none (non_empty_trimmed (transaction_ids snapshot.transactions)) faults.matches_fault,
    )
    ∷ (
      bytes "list provider transaction identity matches: ",
      unless_none kept faults.identities_fault,
    )
    ∷ (
      bytes "list provider transaction identity matches: ",
      unless_none rows faults.identity_transactions_fault,
    )
    ∷ []

unfoldable pub load_existing_window :
    LoadFaults → ConnectionRef → Window → List Identity → SyncTables → Call WindowSnapshot
unfolding loaded_window identities_kept
load_existing_window faults connection window identities tables =
    unless_failed
      (queries faults (identities_kept [] identities)
        (identity_rows connection.connection_id identities tables)
        (loaded_window connection window identities tables))
      (loaded_window connection window identities tables)
