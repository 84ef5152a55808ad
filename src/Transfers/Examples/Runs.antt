-- ===== src/Transfers/Examples/Runs.antt =====
-- The theorems on a run of the matching at three transactions.
use sumweave.Base.{insert_by, sort_by, suc, ◌+◌, ◌≡◌, refl, none, [], ◌∷◌}
use sumweave.Base.Text.{str_eq, bytes}
use sumweave.Base.Int.{◌-ℤ◌}
use sumweave.Transfers.Types.{negate, str_lt, add_transfer_matching_attempt_counts}
use sumweave.Transfers.Index.{
  transfer_matching_index, append_to, bucket, index_by, sort_buckets, starting_in,
}
use sumweave.Transfers.Candidates.{
  transfer_matching_candidates, add_candidates, is_candidate, scan, search_from,
  transfer_matching_same_currency_candidates, transfer_matching_fx_candidates,
  transfer_matching_monobank_candidates, transfer_matching_pko_candidates,
}
use sumweave.Transfers.Decide.{
  planned, decide_transfer_matching_pairs, decide_from, accept, evaluate_transfer_matching_start,
}
use sumweave.Transfers.Loading.{
  list_eligible_transfer_matching_transactions, is_eligible, account_of, selected,
  matched_connections,
}
use sumweave.Transfers.Evidence.{index_transaction, index_transactions}
use sumweave.Transfers.Service.{Outside, validate_transfer_matching_range, match_transfers}
use sumweave.Transfers.Service.Linking.{no_faults, IsQuiet, link_rows}
use sumweave.Transfers.Service.Completed.{loaded_transactions, match_transfers_lem}
use sumweave.Transfers.Examples.Data.{
  libraries, noon, stored, tables, day, pair, one_unmatched, never, stored-ArePrimaryIds,
}

abbrev quiet : Outside
quiet = record {
  ctx_err = never;
  load_fault = none;
  now = λ n. noon;
  new_id = λ n. bytes "g";
  faults = λ n. no_faults;
}

quiet-IsQuiet : IsQuiet quiet
quiet-IsQuiet = record { not_cancelled = λ n. refl; loads = refl; links = λ n. refl }

day_is_valid : validate_transfer_matching_range day.range_start day.range_end_exclusive ≡ none
day_is_valid = refl

loaded_decided :
    decide_transfer_matching_pairs libraries.currencies
      (λ n. quiet.ctx_err (suc n))
      (index_transactions libraries (loaded_transactions libraries tables day stored))
      noon
      (noon + 1)
    ≡ planned (pair ∷ []) one_unmatched
unfolding decide_transfer_matching_pairs decide_from evaluate_transfer_matching_start accept sort_by
    insert_by add_transfer_matching_attempt_counts transfer_matching_index append_to bucket index_by
    sort_buckets starting_in transfer_matching_candidates add_candidates is_candidate scan
    search_from transfer_matching_same_currency_candidates transfer_matching_fx_candidates
    transfer_matching_monobank_candidates transfer_matching_pko_candidates negate str_lt str_eq ◌-ℤ◌
    index_transactions index_transaction list_eligible_transfer_matching_transactions is_eligible
    account_of selected matched_connections
loaded_decided = refl

match_transfers_lem_example : match_transfers libraries quiet tables day stored ≡ record {
  counts = record one_unmatched { matched_pairs = 1 };
  error = none;
  transactions = link_rows quiet (bytes "home") 0 (pair ∷ []) stored;
}
match_transfers_lem_example =
    match_transfers_lem libraries tables day stored quiet (pair ∷ []) one_unmatched quiet-IsQuiet
      day_is_valid stored-ArePrimaryIds loaded_decided
