-- ===== src/Transfers/Service/Completed.antt =====
-- An attempt of the matching that nothing disturbs.
use sumweave.Base.{ℕ, suc, ◌+◌, ◌≡◌, refl, ap, ◌∙◌, none, List, [], ◌∷◌, arith, All, length}
use sumweave.Base.Text.{Str}
use sumweave.Transfers.Types.{
  TransferMatchingTransaction, TransferMatchingPair, TransferMatchingAttemptCounts,
}
use sumweave.Transfers.Index.{transfer_matching_index}
use sumweave.Transfers.Decide.{planned, decide_transfer_matching_pairs}
use sumweave.Transfers.Decide.Pairs.{AreDisjoint}
use sumweave.Transfers.Decide.Accepted.{
  IsMatch, decide_transfer_matching_pairs-IsMatch, decide_transfer_matching_pairs-AreDisjoint,
}
use sumweave.Transfers.Decide.Counts.{decide_transfer_matching_pairs-counts}
use sumweave.Transfers.Rows.{TransactionModel, Tables}
use sumweave.Transfers.Loading.{list_eligible_transfer_matching_transactions}
use sumweave.Transfers.Store.Eligible.{ArePrimaryIds, list_eligible-AreDistinctRows}
use sumweave.Transfers.Evidence.{Libraries, index_transactions}
use sumweave.Transfers.Service.{
  Outside, Attempt, TransferMatchingParams, validate_transfer_matching_range, save_from,
  save_transfer_matching_pairs, load_transfer_matching_transactions, rows, after_load,
  after_decision, match_transfers,
}
use sumweave.Transfers.Service.Present.{index_transactions-HasUniqueIds, partnered_legs}
use sumweave.Transfers.Service.Linking.{
  IsQuiet, linked_by, link_rows, IsReady, link_ready, legs_remain, linked_table,
  link_rows-linked_table,
}

module _ (o : Outside) (quiet : IsQuiet o) (tenant_id : Str) where
  open quiet use {not_cancelled, links}

  all_matched : TransferMatchingAttemptCounts → ℕ → List TransactionModel → Attempt
  all_matched counts n ts = record {
    counts = record counts { matched_pairs = counts.matched_pairs + n };
    error = none;
    transactions = ts;
  }

  no_rows : (n : ℕ) (ts : List TransactionModel) → link_rows o tenant_id n [] ts ≡ ts
  unfolding link_rows linked_by
  no_rows n [] = refl
  no_rows n (t ∷ ts) = ap (λ rest. t ∷ rest) (no_rows n ts)

  save_from-ready :
      (checks n : ℕ) (pairs : List TransferMatchingPair) (counts : TransferMatchingAttemptCounts)
      (ts : List TransactionModel)
      → All (IsReady tenant_id ts) pairs
      → AreDisjoint pairs
      → save_from o tenant_id checks n pairs counts ts
        ≡ all_matched counts (length pairs) (link_rows o tenant_id n pairs ts)
  unfolding save_from all_matched
  save_from-ready checks n [] counts ts ready apart =
      rw (not_cancelled (checks + n), save_from) (ground (arith, no_rows n ts))
  save_from-ready checks n (p ∷ pairs) counts ts ready apart =
      rw (not_cancelled (checks + n), save_from)
        (rw (link_ready o quiet tenant_id n p ts ready.0, save_from)
          (save_from-ready checks (suc n) pairs
              (record counts { matched_pairs = counts.matched_pairs + 1 })
              (linked_table o quiet tenant_id n p ts)
              (legs_remain o quiet tenant_id n p pairs ts ready.1) apart.1
            ∙ ground (arith, link_rows-linked_table o quiet tenant_id n p pairs ts apart.0)))

module _ (l : Libraries) (tables : Tables) (params : TransferMatchingParams)
    (ts : List TransactionModel) where
  abbrev pub loaded_transactions : List TransferMatchingTransaction
  loaded_transactions =
      list_eligible_transfer_matching_transactions tables params.tenant_id params.range_start
        params.range_end_exclusive ts

  legs_present :
      (pairs : List TransferMatchingPair)
      → ArePrimaryIds ts
      → All (IsMatch l.currencies (index_transactions l loaded_transactions)) pairs
      → All (IsReady params.tenant_id ts) pairs
  legs_present [] primary all = tt
  legs_present (p ∷ pairs) primary all =
      let legs =
        partnered_legs tables params.tenant_id params.range_start params.range_end_exclusive l p ts
          primary all.0.0 in
      ((all.0.0.differ, legs.0, legs.1), legs_present pairs primary all.1)

  loads_rows :
      (o : Outside)
      → IsQuiet o
      → validate_transfer_matching_range params.range_start params.range_end_exclusive ≡ none
      → load_transfer_matching_transactions o tables params ts ≡ rows loaded_transactions
  unfolding load_transfer_matching_transactions
  loads_rows o quiet valid = rw (valid, quiet.not_cancelled 0, quiet.loads) refl

  -- Of a valid range and a table with a primary key, when nothing fails and nothing is cancelled, Match
  -- returns no error and counts every planned pair as matched; each row of a leg of the nth pair is then
  -- a transfer of the nth new group, and every other row is as it was.
  pub match_transfers_lem :
      (o : Outside) (pairs : List TransferMatchingPair) (counts : TransferMatchingAttemptCounts)
      → IsQuiet o
      → validate_transfer_matching_range params.range_start params.range_end_exclusive ≡ none
      → ArePrimaryIds ts
      → decide_transfer_matching_pairs l.currencies
          (λ n. o.ctx_err (suc n))
          (index_transactions l loaded_transactions)
          params.range_start
          params.range_end_exclusive
        ≡ planned pairs counts
      → match_transfers l o tables params ts ≡ record {
        counts = record counts { matched_pairs = length pairs };
        error = none;
        transactions = link_rows o params.tenant_id 0 pairs ts;
      }
  unfolding match_transfers save_transfer_matching_pairs all_matched
  match_transfers_lem o pairs counts quiet valid primary decided =
      let found = index_transactions l loaded_transactions in
      let unique = index_transactions-HasUniqueIds l loaded_transactions (
        list_eligible-AreDistinctRows tables params.tenant_id params.range_start
          params.range_end_exclusive ts primary) in
      let matches =
        decide_transfer_matching_pairs-IsMatch l.currencies found params.range_start
          params.range_end_exclusive (λ n. o.ctx_err (suc n)) pairs counts unique decided in
      let apart =
        decide_transfer_matching_pairs-AreDisjoint l.currencies found params.range_start
          params.range_end_exclusive (λ n. o.ctx_err (suc n)) pairs counts unique decided in
      let counted =
        decide_transfer_matching_pairs-counts l.currencies found params.range_start
          params.range_end_exclusive (λ n. o.ctx_err (suc n)) pairs counts decided in
      let starts = suc (
        length
          (transfer_matching_index found params.range_start params.range_end_exclusive).starting) in
      let starting =
        (transfer_matching_index found params.range_start params.range_end_exclusive).starting in
      ap (after_load l o params ts) (loads_rows o quiet valid)
      ∙ ap (after_decision l o params (length starting) ts) decided
      ∙ save_from-ready o quiet params.tenant_id starts 0 pairs counts ts
          (legs_present pairs primary matches) apart
      ∙ ground (arith, counted.2)
