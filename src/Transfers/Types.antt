-- ===== src/Transfers/Types.antt =====
-- The data of transfer matching: finance/service_transfer_matching.go, and the rows that
-- finance/persistence/transfer_pair_store.go loads. An instant is a number of nanoseconds; an amount
-- is an int64, as an integer.
unfoldable pub use sumweave.Base.Text.{str_lt}
use sumweave.Base.{ℕ, ◌+◌, ◌-◌, ◌*◌, ◌^◌, Option}
use sumweave.Base.Text.{Str}
use sumweave.Base.Int.{ℤ, pos, negsuc, ◌-ℤ◌}

abbrev pub Time : Type 0
Time = ℕ

-- 72 hours.
abbrev pub transfer_matching_window : ℕ
transfer_matching_window = 72 * 3_600_000_000_000

abbrev pub transfer_matching_max_candidates : ℕ
transfer_matching_max_candidates = 2

-- `math.MinInt64`
abbrev pub min_int64 : ℤ
min_int64 = negsuc (2 ^ 63 - 1)

-- `-amount`, where the amount is not the least one.
unfoldable pub negate : ℤ → ℤ
negate amount = pos 0 -ℤ amount

pub record TransferMatchingTransaction : Type 0 where
  pub id : Str
  pub account_id : Str
  pub currency : Str
  pub amount_minor : ℤ
  pub effective_at : Time
  pub description : Str
  pub connection_id : Option Str
  pub provider_id : Option Str
  pub connector_id : Option Str
  pub tracked_account_iban : Option Str
  pub provider_original_amount_minor : Option ℤ
  pub provider_original_currency : Option Str
  pub snapshot_json : Option Str

pub record FxEvidence : Type 0 where
  pub namespace : Str
  pub reference : Str
  pub base_currency : Str
  pub quote_currency : Str
  pub rate_coefficient : Str
  pub rate_scale : ℕ

pub record MonobankEvidence : Type 0 where
  pub amount_minor : ℤ
  pub operation_amount_minor : ℤ
  pub operation_currency : Str

pub record PkoEvidence : Type 0 where
  pub direction : Str
  pub source_iban : Str
  pub destination_iban : Str
  pub amount_minor : ℤ
  pub currency : Str

pub record TransferMatchingAttemptCounts : Type 0 where
  pub matched_pairs : ℕ
  pub unmatched : ℕ
  pub ambiguous : ℕ
  pub skipped : ℕ

abbrev pub no_counts : TransferMatchingAttemptCounts
no_counts = record { matched_pairs = 0; unmatched = 0; ambiguous = 0; skipped = 0 }

unfoldable pub add_transfer_matching_attempt_counts :
    TransferMatchingAttemptCounts → TransferMatchingAttemptCounts → TransferMatchingAttemptCounts
add_transfer_matching_attempt_counts current delta = record {
  matched_pairs = current.matched_pairs + delta.matched_pairs;
  unmatched = current.unmatched + delta.unmatched;
  ambiguous = current.ambiguous + delta.ambiguous;
  skipped = current.skipped + delta.skipped;
}

pub record TransferMatchingPair : Type 0 where
  pub first : TransferMatchingTransaction
  pub second : TransferMatchingTransaction

-- The transaction with its evidence; the evidence is `none` where the flag beside it is false.
pub record IndexedTransaction : Type 0 where
  pub transaction : TransferMatchingTransaction
  pub evidence : Option FxEvidence
  pub monobank_evidence : Option MonobankEvidence
  pub pko_evidence : Option PkoEvidence
