-- ===== src/Transfers/Service.antt =====
-- One attempt of the matching: `Match` of finance/service_transfer_matching.go with its load and its save.
-- The clock, the identifiers of groups and the driver's faults are numbered by the pair; `ctx_err n` is what
-- the nth call of `ctx.Err()` answers. Logging is left out.
pub mod Saved
pub mod Present
pub mod Linking
pub mod Completed
use sumweave.Base.{
  ℕ, zero, suc, ◌+◌, Bool, true, false, Option, none, some, List, [], ◌∷◌, ◌==◌, ltb, not,
  if◌then◌else◌, length,
}
use sumweave.Base.Text.{Str}
use sumweave.Transfers.Types.{
  Time, TransferMatchingTransaction, TransferMatchingPair, TransferMatchingAttemptCounts, no_counts,
}
use sumweave.Transfers.Index.{Indexes, transfer_matching_index}
use sumweave.Transfers.Decide.{Decided, planned, interrupted, decide_transfer_matching_pairs}
use sumweave.Transfers.Rows.{TransactionModel, Tables}
use sumweave.Transfers.Loading.{list_eligible_transfer_matching_transactions}
use sumweave.Transfers.Store.{
  PairError, transaction_ids_must_differ, transaction_not_found, driver, Faults,
  TransferPairLinkParams, link_transfer_pair,
}
use sumweave.Transfers.Evidence.{Libraries, index_transactions}

pub data RangeError : Type 0 where
  start_required end_required start_not_before_end : RangeError

-- The zero time is the instant 0.
abbrev pub validate_transfer_matching_range : Time → Time → Option RangeError
validate_transfer_matching_range range_start range_end =
    if range_start == 0
    then some start_required
    else if range_end == 0
    then some end_required
    else if not (ltb range_start range_end)
    then some start_not_before_end
    else none

pub record TransferMatchingParams : Type 0 where
  pub tenant_id : Str
  pub range_start : Time
  pub range_end_exclusive : Time

-- What the attempt meets outside.
pub record Outside : Type 0 where
  pub ctx_err : ℕ → Option Str
  pub load_fault : Option Str
  pub now : ℕ → Time
  pub new_id : ℕ → Str
  pub faults : ℕ → Faults

pub data MatchError : Type 0 where
  invalid_range : RangeError → MatchError
  cancelled : Str → MatchError
  load_failed : Str → MatchError
  save_failed : PairError → MatchError

pub record Attempt : Type 0 where
  pub counts : TransferMatchingAttemptCounts
  pub error : Option MatchError
  pub transactions : List TransactionModel

abbrev pub link_params : Outside → Str → ℕ → TransferMatchingPair → TransferPairLinkParams
link_params o tenant_id n pair = record {
  tenant_id = tenant_id;
  first_transaction_id = pair.first.id;
  second_transaction_id = pair.second.id;
  transfer_group_id = o.new_id n;
  transfer_matched_at = o.now n;
  updated_at = o.now n;
}

abbrev pub one_more_matched : TransferMatchingAttemptCounts → TransferMatchingAttemptCounts
one_more_matched counts = record counts { matched_pairs = counts.matched_pairs + 1 }

abbrev pub one_more_skipped : TransferMatchingAttemptCounts → TransferMatchingAttemptCounts
one_more_skipped counts = record counts { skipped = counts.skipped + 1 }

abbrev pub ended : Option Str → TransferMatchingAttemptCounts → List TransactionModel → Attempt
ended none counts ts = record { counts = counts; error = none; transactions = ts }
ended (some e) counts ts = record { counts = counts; error = some (cancelled e); transactions = ts }

-- What one link has returned: go on with other counts, or stop.
pub data SaveStep : Type 0 where
  go_on : TransferMatchingAttemptCounts → List TransactionModel → SaveStep
  stop : PairError → List TransactionModel → SaveStep

abbrev pub saved :
    TransferMatchingAttemptCounts → Option PairError × List TransactionModel → SaveStep
saved counts (none, ts) = go_on (one_more_matched counts) ts
saved counts (some transaction_not_found, ts) = go_on (one_more_skipped counts) ts
saved counts (some transaction_ids_must_differ, ts) = stop transaction_ids_must_differ ts
saved counts (some (driver e), ts) = stop (driver e) ts

-- The loop over the planned pairs, from the nth on; `checks` calls of `ctx.Err()` came before the loop.
unfoldable pub save_from :
    Outside
    → Str
    → ℕ
    → ℕ
    → List TransferMatchingPair
    → TransferMatchingAttemptCounts
    → List TransactionModel
    → Attempt
save_from o tenant_id checks n [] counts ts = ended (o.ctx_err (checks + n)) counts ts
save_from o tenant_id checks n (pair ∷ pairs) counts ts = elim (o.ctx_err (checks + n)) [
  | some e ↦ ended (some e) counts ts
  | none ↦
      elim (saved counts (link_transfer_pair (o.faults n) (link_params o tenant_id n pair) ts)) [
        | stop e after ↦ record {
          counts = counts;
          error = some (save_failed e);
          transactions = after;
        }
        | go_on more after ↦ save_from o tenant_id checks (suc n) pairs more after
      ]
]

unfoldable pub save_transfer_matching_pairs :
    Outside
    → Str
    → ℕ
    → List TransferMatchingPair
    → TransferMatchingAttemptCounts
    → List TransactionModel
    → Attempt
unfolding save_from
save_transfer_matching_pairs o tenant_id checks pairs counts ts =
    save_from o tenant_id checks 0 pairs counts ts

pub data Loaded : Type 0 where
  rows : List TransferMatchingTransaction → Loaded
  failed : MatchError → Loaded

abbrev pub loaded_if :
    Option RangeError → Option Str → Option Str → List TransferMatchingTransaction → Loaded
loaded_if (some e) ctx fault found = failed (invalid_range e)
loaded_if none (some e) fault found = failed (cancelled e)
loaded_if none none (some e) found = failed (load_failed e)
loaded_if none none none found = rows found

unfoldable pub load_transfer_matching_transactions :
    Outside → Tables → TransferMatchingParams → List TransactionModel → Loaded
load_transfer_matching_transactions o tables params ts =
    loaded_if (validate_transfer_matching_range params.range_start params.range_end_exclusive)
      (o.ctx_err 0) o.load_fault
      (list_eligible_transfer_matching_transactions tables params.tenant_id params.range_start
        params.range_end_exclusive ts)

module _ (libraries : Libraries) where
  abbrev pub indexed : List TransferMatchingTransaction → TransferMatchingParams → Indexes
  indexed found params =
      transfer_matching_index (index_transactions libraries found) params.range_start
        params.range_end_exclusive

  abbrev pub after_decision :
      Outside → TransferMatchingParams → ℕ → List TransactionModel → Decided → Attempt
  after_decision o params starts ts (interrupted counts e) = record {
    counts = counts;
    error = some (cancelled e);
    transactions = ts;
  }
  after_decision o params starts ts (planned pairs counts) =
      save_transfer_matching_pairs o params.tenant_id (suc starts) pairs counts ts

  abbrev pub after_load :
      Outside → TransferMatchingParams → List TransactionModel → Loaded → Attempt
  after_load o params ts (failed e) = record {
    counts = no_counts;
    error = some e;
    transactions = ts;
  }
  after_load o params ts (rows found) =
      after_decision o params (length (indexed found params).starting) ts (
        decide_transfer_matching_pairs libraries.currencies (λ n. o.ctx_err (suc n))
          (index_transactions libraries found) params.range_start params.range_end_exclusive)

  -- `Match`
  unfoldable pub match_transfers :
      Outside → Tables → TransferMatchingParams → List TransactionModel → Attempt
  unfolding load_transfer_matching_transactions save_transfer_matching_pairs
  match_transfers o tables params ts =
      after_load o params ts (load_transfer_matching_transactions o tables params ts)
