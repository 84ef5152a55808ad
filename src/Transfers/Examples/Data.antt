-- ===== src/Transfers/Examples/Data.antt =====
-- A tenant with two legs of one transfer and a payment, and what the matching decides on them.
use sumweave.Base.{
  insert_by, sort_by, ℕ, ◌+◌, ◌≡◌, refl, false, Option, none, some, List, [], ◌∷◌, if◌then◌else◌,
}
use sumweave.Base.Text.{Str, str_eq, bytes}
use sumweave.Base.Int.{pos, negsuc, ◌-ℤ◌}
use sumweave.Transfers.Types.{
  TransferMatchingTransaction, TransferMatchingPair, TransferMatchingAttemptCounts,
  IndexedTransaction, no_counts, negate, str_lt, add_transfer_matching_attempt_counts,
}
use sumweave.Transfers.Index.{
  transfer_matching_index, append_to, bucket, index_by, sort_buckets, starting_in,
}
use sumweave.Transfers.Candidates.{
  transfer_matching_candidates, add_candidates, is_candidate, scan, search_from,
  transfer_matching_same_currency_candidates, transfer_matching_fx_candidates,
  transfer_matching_monobank_candidates, transfer_matching_pko_candidates,
}
use sumweave.Transfers.Decide.{
  planned, decide_transfer_matching_pairs, decide_from, accept, evaluate_transfer_matching_start,
}
use sumweave.Transfers.Decide.Mutual.{HasUniqueIds}
use sumweave.Transfers.Rows.{TransactionModel, Tables}
use sumweave.Transfers.Store.Eligible.{ArePrimaryIds}
use sumweave.Transfers.Evidence.{Libraries}
use sumweave.Transfers.Service.{TransferMatchingParams}

abbrev euro : Str
euro = bytes "EUR"

abbrev two_decimals : Str → Option ℕ
two_decimals code = if str_eq code euro then some 2 else none

abbrev pub libraries : Libraries
libraries = record {
  currencies = record { parse_currency = λ code. none };
  monobank = record { decode = λ s. none };
  pko = record { decode = λ s. none };
}

abbrev pub noon : ℕ
noon = 1_000_000_000_000_000

abbrev pub spent : TransactionModel
spent = record {
  id = bytes "t1";
  tenant_id = bytes "home";
  account_id = bytes "a1";
  source = bytes "manual";
  status = bytes "booked";
  kind = bytes "expense";
  amount_minor = negsuc 499;
  currency = euro;
  description = [];
  effective_at = noon;
  category_id = none;
  transfer_group_id = none;
  transfer_matched_at = none;
  transfer_matching_excluded = false;
  hidden_at = none;
  original_amount_minor = none;
  original_currency = none;
  original_description = none;
  original_effective_at = none;
  created_at = noon;
  updated_at = noon;
}

abbrev pub received : TransactionModel
received = record spent {
  id = bytes "t2";
  account_id = bytes "a2";
  kind = bytes "income";
  amount_minor = pos 500;
}

abbrev pub payment : TransactionModel
payment = record spent { id = bytes "t3"; amount_minor = negsuc 70 }

abbrev pub stored : List TransactionModel
stored = spent ∷ received ∷ payment ∷ []

abbrev pub tables : Tables
tables = record {
  accounts =
      record { id = bytes "a1"; tenant_id = bytes "home"; hidden_at = none }
      ∷ record { id = bytes "a2"; tenant_id = bytes "home"; hidden_at = none }
      ∷ [];
  connections = [];
  matches = [];
  provider_accounts = [];
  snapshots = [];
}

abbrev pub day : TransferMatchingParams
day = record { tenant_id = bytes "home"; range_start = noon; range_end_exclusive = noon + 1 }

abbrev loaded : TransactionModel → TransferMatchingTransaction
loaded t = record {
  id = t.id;
  account_id = t.account_id;
  currency = t.currency;
  amount_minor = t.amount_minor;
  effective_at = t.effective_at;
  description = t.description;
  connection_id = none;
  provider_id = none;
  connector_id = none;
  tracked_account_iban = none;
  provider_original_amount_minor = none;
  provider_original_currency = none;
  snapshot_json = none;
}

abbrev pub indexed_transaction : TransactionModel → IndexedTransaction
indexed_transaction t = record {
  transaction = loaded t;
  evidence = none;
  monobank_evidence = none;
  pko_evidence = none;
}

abbrev pub three : List IndexedTransaction
three = indexed_transaction spent ∷ indexed_transaction received ∷ indexed_transaction payment ∷ []

abbrev pub pair : TransferMatchingPair
pair = record { first = loaded spent; second = loaded received }

abbrev pub one_unmatched : TransferMatchingAttemptCounts
one_unmatched = record no_counts { unmatched = 1 }

abbrev pub never : ℕ → Option Str
never n = none

pub three-HasUniqueIds : HasUniqueIds three
unfolding str_eq
three-HasUniqueIds = ((refl, (refl, tt)), ((refl, tt), (tt, tt)))

pub decided :
    decide_transfer_matching_pairs libraries.currencies never three noon (noon + 1)
    ≡ planned (pair ∷ []) one_unmatched
unfolding decide_transfer_matching_pairs decide_from evaluate_transfer_matching_start accept sort_by
    insert_by add_transfer_matching_attempt_counts transfer_matching_index append_to bucket index_by
    sort_buckets starting_in transfer_matching_candidates add_candidates is_candidate scan
    search_from transfer_matching_same_currency_candidates transfer_matching_fx_candidates
    transfer_matching_monobank_candidates transfer_matching_pko_candidates negate str_lt str_eq ◌-ℤ◌
decided = refl

pub stored-ArePrimaryIds : ArePrimaryIds stored
unfolding str_eq
stored-ArePrimaryIds = ((refl, (refl, tt)), ((refl, tt), (tt, tt)))
