-- ===== src/Sync/Saving.antt =====
-- `saveTransactionWritesWithResults` of finance/internal/providers/window_sync_store.go with its helpers, and the
-- writes of SaveTransaction and SaveProviderTransactionMatch in finance/persistence, which insert a row or
-- update the one of its identifier. The generator of identifiers is a function of the number of its calls.
pub mod Rows
pub mod Rounds
pub mod Created
pub mod Again
use sumweave.Base.{
  ℕ, suc, ◌+◌, Bool, true, false, Option, none, some, List, [], ◌∷◌, ◌++◌, ◌&&◌, if◌then◌else◌,
  keep,
}
use sumweave.Base.Text.{Str, str_eq, is_empty}
use sumweave.Base.Dict.{Dict, lookup, insert}
use sumweave.Sync.Types.{
  Time, ConnectionRef, Transaction, TransactionObservation, TransactionMatch, ProviderAccount,
  provider, regular,
}
use sumweave.Sync.Diff.{
  Action, MatchStrategy, new, provider_id, fingerprint, weak_candidate, ambiguous,
}
use sumweave.Sync.Apply.{TransactionWrite, build_provider_original}
use sumweave.Sync.Loading.{SyncTables}

-- The columns that a conflict on the identifier updates; the others keep what the row has.
abbrev pub updated_row : Transaction → Transaction → Transaction
updated_row row t = record t {
  kind = row.kind;
  tag_ids = [];
  transfer_group_id = row.transfer_group_id;
  transfer_matched_at = row.transfer_matched_at;
  transfer_matching_excluded = row.transfer_matching_excluded;
  created_at = row.created_at;
}

unfoldable pub save_transaction : Transaction → List Transaction → List Transaction
save_transaction t [] = record t { tag_ids = [] } ∷ []
save_transaction t (row ∷ rows) =
    if str_eq row.id t.id then updated_row row t ∷ rows else row ∷ save_transaction t rows

abbrev pub updated_match : TransactionMatch → TransactionMatch → TransactionMatch
updated_match row m = record m {
  connection_id = row.connection_id;
  provider_account_id = row.provider_account_id;
  created_at = row.created_at;
}

unfoldable pub save_provider_transaction_match :
    TransactionMatch → List TransactionMatch → List TransactionMatch
save_provider_transaction_match m [] = m ∷ []
save_provider_transaction_match m (row ∷ rows) =
    if str_eq row.id m.id
    then updated_match row m ∷ rows
    else row ∷ save_provider_transaction_match m rows

abbrev linked : Option ProviderAccount → Option ProviderAccount
linked none = none
linked (some a) = if is_empty a.finance_account_id then none else some a

-- `resolveProviderAccount`
abbrev pub resolve_provider_account : Dict ProviderAccount → Str → Option ProviderAccount
resolve_provider_account accounts id = linked (lookup id accounts)

abbrev pub by_strategy : MatchStrategy → TransactionObservation → TransactionMatch → Bool
by_strategy provider_id o m = str_eq m.provider_transaction_id o.provider_transaction_id
by_strategy fingerprint o m = str_eq m.fingerprint o.fingerprint
by_strategy new o m = false
by_strategy weak_candidate o m = false
by_strategy ambiguous o m = false

abbrev pub only_of : List TransactionMatch → Option TransactionMatch
only_of (m ∷ []) = some m
only_of ms = none

abbrev pub match_of_existing :
    Action → List TransactionMatch → Option Transaction → Option TransactionMatch
match_of_existing a matches none = none
match_of_existing a matches (some t) = only_of (
    keep
      (λ m.
        str_eq m.transaction_id t.id
        && str_eq m.provider_account_id a.observation.provider_account_id
        && by_strategy a.match_strategy a.observation m)
      matches)

unfoldable pub existing_snapshot_match : Action → List TransactionMatch → Option TransactionMatch
existing_snapshot_match a matches = match_of_existing a matches a.existing_transaction

-- What the writes of one window share.
pub record SaveContext : Type 0 where
  pub connection : ConnectionRef
  pub tenant_id : Str
  pub accounts : Dict ProviderAccount
  pub snapshot_matches : List TransactionMatch
  pub new_id : ℕ → Str
  pub now : Time
  pub transaction_fault : ℕ → Option Str
  pub match_fault : ℕ → Option Str

-- The tables, how many identifiers have been drawn, and `savedTransactions`.
pub record SaveState : Type 0 where
  pub tables : SyncTables
  pub drawn : ℕ
  pub saved_transactions : Dict Transaction

pub data SaveFailure : Type 0 where
  mapping_not_found save_transaction_failed save_match_failed : Str → SaveFailure

pub data Saved : Type 0 where
  saved : SaveState → Saved
  save_failed : SaveFailure → Saved

abbrev pub created_transaction : SaveContext → TransactionObservation → Str → Str → Transaction
created_transaction c o id account = record {
  id = id;
  tenant_id = c.tenant_id;
  account_id = account;
  source = provider;
  status = o.status;
  kind = regular;
  amount_minor = o.amount_minor;
  currency = o.currency;
  description = o.description;
  effective_at = o.effective_at;
  category_id = none;
  tag_ids = [];
  transfer_group_id = none;
  transfer_matched_at = none;
  transfer_matching_excluded = false;
  hidden_at = none;
  created_at = c.now;
  updated_at = c.now;
  provider_original = some (build_provider_original o);
}

abbrev pub created_in :
    SaveContext → TransactionObservation → ℕ → Option ProviderAccount → Option (Transaction × ℕ)
created_in c o n none = none
created_in c o n (some a) = some (created_transaction c o (c.new_id n) a.finance_account_id, suc n)

abbrev pub build_from :
    SaveContext → TransactionObservation → ℕ → Option Transaction → Option (Transaction × ℕ)
build_from c o n (some t) = some (record t { updated_at = c.now }, n)
build_from c o n none = created_in c o n (resolve_provider_account c.accounts o.provider_account_id)

-- `buildTransactionWrite`, with the identifiers that are drawn by then.
abbrev pub build_transaction_write : SaveContext → TransactionWrite → ℕ → Option (Transaction × ℕ)
build_transaction_write c w n = build_from c w.action.observation n w.merged_transaction

abbrev pub match_identity : SaveContext → Option TransactionMatch → ℕ → Str × Time × ℕ
match_identity c none n = (c.new_id n, c.now, suc n)
match_identity c (some m) n = (m.id, m.created_at, n)

abbrev pub built_match :
    SaveContext → TransactionObservation → Transaction → Str × Time × ℕ → TransactionMatch
built_match c o t (id, created_at, n) = record {
  id = id;
  connection_id = c.connection.connection_id;
  provider_account_id = o.provider_account_id;
  provider_transaction_id = o.provider_transaction_id;
  fingerprint = o.fingerprint;
  transaction_id = t.id;
  status = t.status;
  created_at = created_at;
  updated_at = c.now;
}

-- `providerSnapshotTransactionKey` of the observation.
abbrev pub transaction_key : TransactionObservation → Str
transaction_key o =
    o.provider_account_id
    ++ 0 ∷ (if is_empty o.provider_transaction_id then o.fingerprint else o.provider_transaction_id)

-- The row under the identifier, as SaveTransaction returns it: without the row's own `created_at`.
abbrev pub returned : Transaction → List Transaction → Transaction
returned t [] = record t { tag_ids = [] }
returned t (row ∷ rows) =
    if str_eq row.id t.id
    then record (updated_row row t) { created_at = t.created_at }
    else returned t rows

abbrev pub save_rows :
    SaveContext → TransactionObservation → Transaction → Str × Time × ℕ → SaveState → SaveState
save_rows c o t (id, created_at, n) st = record {
  tables = record st.tables {
    transactions = save_transaction t st.tables.transactions;
    matches =
        save_provider_transaction_match (built_match c o t (id, created_at, n)) st.tables.matches;
  };
  drawn = n;
  saved_transactions =
      insert (transaction_key o) (returned t st.tables.transactions) st.saved_transactions;
}

abbrev pub saved_unless : Option Str → Option Str → SaveState → Saved
saved_unless (some e) second st = save_failed (save_transaction_failed e)
saved_unless none (some e) st = save_failed (save_match_failed e)
saved_unless none none st = saved st

abbrev pub save_built :
    SaveContext → ℕ → TransactionWrite → Option (Transaction × ℕ) → SaveState → Saved
save_built c k w none st = save_failed (mapping_not_found w.action.observation.provider_account_id)
save_built c k w (some (t, n)) st = saved_unless (c.transaction_fault k) (c.match_fault k) (
    save_rows c w.action.observation t
      (match_identity c (existing_snapshot_match w.action c.snapshot_matches) n) st)

-- One round of the loop, the kth.
unfoldable pub save_write : SaveContext → ℕ → TransactionWrite → SaveState → Saved
unfolding existing_snapshot_match save_transaction save_provider_transaction_match
save_write c k w st = save_built c k w (build_transaction_write c w st.drawn) st

abbrev pub save_then : Saved → (SaveState → Saved) → Saved
save_then (save_failed e) next = save_failed e
save_then (saved st) next = next st

unfoldable pub save_transaction_writes : SaveContext → ℕ → List TransactionWrite → SaveState → Saved
unfolding save_write
save_transaction_writes c k [] st = saved st
save_transaction_writes c k (w ∷ ws) st =
    save_then (save_write c k w st) (λ next. save_transaction_writes c (suc k) ws next)
