-- ===== src/Transfers/Loading.antt =====
-- `ListEligibleTransferMatchingTransactions` of finance/persistence/transfer_pair_store.go. Primary keys make a
-- join on an identifier find one row.
use sumweave.Base.{
  ℕ, ◌-◌, ◌+◌, ◌*◌, Bool, true, false, Option, none, some, List, [], ◌∷◌, ◌&&◌, ◌||◌, not, ltb,
  if◌then◌else◌, is_nil,
}
use sumweave.Base.Text.{Str, str_eq, bytes}
use sumweave.Base.Int.{pos, ◌==ℤ◌}
use sumweave.Transfers.Types.{Time, TransferMatchingTransaction}
use sumweave.Transfers.Rows.{
  TransactionModel, AccountModel, BankConnectionModel, ProviderTransactionMatchModel,
  ConnectionProviderAccountModel, ProviderSnapshotModel, Tables,
}

-- 144 hours.
abbrev pub transfer_matching_load_extension : ℕ
transfer_matching_load_extension = 144 * 3_600_000_000_000

-- `JOIN ... ON accounts.id = transactions.account_id AND accounts.tenant_id = transactions.tenant_id`
unfoldable pub account_of : Str → Str → List AccountModel → Option AccountModel
account_of id tenant_id [] = none
account_of id tenant_id (a ∷ accounts) =
    if str_eq a.id id && str_eq a.tenant_id tenant_id
    then some a
    else account_of id tenant_id accounts

-- The tenant's connection of the identifier.
unfoldable pub connection_of : Str → Str → List BankConnectionModel → Option BankConnectionModel
connection_of id tenant_id [] = none
connection_of id tenant_id (c ∷ connections) =
    if str_eq c.id id && str_eq c.tenant_id tenant_id
    then some c
    else connection_of id tenant_id connections

-- The tenant's connections that a transaction was matched in, with repetitions.
unfoldable pub matched_connections :
    Str
    → Str
    → List BankConnectionModel
    → List ProviderTransactionMatchModel
    → List BankConnectionModel
matched_connections id tenant_id connections [] = []
matched_connections id tenant_id connections (m ∷ matches) =
    let rest = matched_connections id tenant_id connections matches in
    if str_eq m.transaction_id id
    then (elim (connection_of m.connection_id tenant_id connections) [
      | none ↦ rest
      | some c ↦ c ∷ rest
    ])
    else rest

unfoldable pub all_connections : Str → List BankConnectionModel → Bool
all_connections id [] = true
all_connections id (c ∷ connections) = str_eq c.id id && all_connections id connections

-- `COUNT(DISTINCT matches.connection_id) = 1`
abbrev pub sole_connection : List BankConnectionModel → Option BankConnectionModel
sole_connection [] = none
sole_connection (c ∷ connections) = if all_connections c.id connections then some c else none

-- `COUNT(*) = 1`
abbrev pub sole : List Str → Option Str
sole [] = none
sole (s ∷ []) = some s
sole (s ∷ r ∷ rest) = none

unfoldable pub tracked_ibans : Str → Str → List ConnectionProviderAccountModel → List Str
tracked_ibans connection_id account_id [] = []
tracked_ibans connection_id account_id (a ∷ accounts) =
    let rest = tracked_ibans connection_id account_id accounts in
    if str_eq a.connection_id connection_id && str_eq a.finance_account_id account_id
    then a.iban ∷ rest
    else rest

unfoldable pub snapshot_documents : Str → Str → Str → List ProviderSnapshotModel → List Str
snapshot_documents tenant_id connection_id transaction_id [] = []
snapshot_documents tenant_id connection_id transaction_id (s ∷ snapshots) =
    let rest = snapshot_documents tenant_id connection_id transaction_id snapshots in
    if str_eq s.tenant_id tenant_id
      && str_eq s.subject (bytes "transaction")
      && str_eq s.kind (bytes "transaction")
      && str_eq s.connection_id connection_id
      && str_eq s.finance_transaction_id transaction_id
    then s.document_json ∷ rest
    else rest

-- The columns that the load selects, where the transaction has one connection and where it has not.
unfoldable pub selected :
    Tables → Str → TransactionModel → Option BankConnectionModel → TransferMatchingTransaction
unfolding tracked_ibans snapshot_documents
selected tables tenant_id t none = record {
  id = t.id;
  account_id = t.account_id;
  currency = t.currency;
  amount_minor = t.amount_minor;
  effective_at = t.effective_at;
  description = t.description;
  connection_id = none;
  provider_id = none;
  connector_id = none;
  tracked_account_iban = none;
  provider_original_amount_minor = none;
  provider_original_currency = none;
  snapshot_json = none;
}
selected tables tenant_id t (some c) = record {
  id = t.id;
  account_id = t.account_id;
  currency = t.currency;
  amount_minor = t.amount_minor;
  effective_at = t.effective_at;
  description = t.description;
  connection_id = some c.id;
  provider_id = some c.provider;
  connector_id = some c.connector_id;
  tracked_account_iban = sole (tracked_ibans c.id t.account_id tables.provider_accounts);
  provider_original_amount_minor = t.original_amount_minor;
  provider_original_currency = t.original_currency;
  snapshot_json = sole (snapshot_documents tenant_id c.id t.id tables.snapshots);
}

abbrev pub is_matching_kind : Str → Bool
is_matching_kind kind =
    str_eq kind (bytes "regular")
    || str_eq kind (bytes "expense")
    || str_eq kind (bytes "income")
    || str_eq kind (bytes "transfer")

abbrev pub is_visible_account : Option AccountModel → Bool
is_visible_account none = false
is_visible_account (some a) = is_nil a.hidden_at

-- The conditions of the load.
unfoldable pub is_eligible : Tables → Str → Time → Time → TransactionModel → Bool
unfolding account_of
is_eligible tables tenant_id range_start range_end t =
    str_eq t.tenant_id tenant_id
    && not (ltb t.effective_at (range_start - transfer_matching_load_extension))
    && ltb t.effective_at (range_end + transfer_matching_load_extension)
    && (is_nil t.hidden_at
        && is_visible_account (account_of t.account_id t.tenant_id tables.accounts))
    && str_eq t.status (bytes "booked")
    && is_matching_kind t.kind
    && not (str_eq t.source (bytes "system"))
    && not (t.amount_minor ==ℤ pos 0)
    && not t.transfer_matching_excluded
    && (is_nil t.transfer_group_id && is_nil t.transfer_matched_at)

unfoldable pub list_eligible_transfer_matching_transactions :
    Tables → Str → Time → Time → List TransactionModel → List TransferMatchingTransaction
unfolding is_eligible selected matched_connections all_connections
list_eligible_transfer_matching_transactions tables tenant_id rs re [] = []
list_eligible_transfer_matching_transactions tables tenant_id rs re (t ∷ transactions) =
    let rest = list_eligible_transfer_matching_transactions tables tenant_id rs re transactions in
    if is_eligible tables tenant_id rs re t
    then selected tables tenant_id t
        (sole_connection (matched_connections t.id tenant_id tables.connections tables.matches))
      ∷ rest
    else rest
