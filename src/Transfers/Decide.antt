-- ===== src/Transfers/Decide.antt =====
-- The decision which pairs to link: `evaluateTransferMatchingStart` and `decideTransferMatchingPairs` of
-- finance/service_transfer_matching.go. `ctx_err n` is what the nth call of `ctx.Err()` answers.
pub mod Paired
pub mod Pairs
pub mod Mutual
pub mod Accepted
pub mod Settled
pub mod Counts
use sumweave.Base.{
  sort_by, ℕ, suc, Bool, true, false, Option, none, some, List, [], ◌∷◌, ◌&&◌, if◌then◌else◌,
}
use sumweave.Base.Text.{Str, str_eq}
use sumweave.Transfers.Types.{
  Time, TransferMatchingTransaction, IndexedTransaction, TransferMatchingPair,
  TransferMatchingAttemptCounts, no_counts, add_transfer_matching_attempt_counts, str_lt,
}
use sumweave.Transfers.Fx.{Currencies}
use sumweave.Transfers.Index.{Indexes, transfer_matching_index}
use sumweave.Transfers.Candidates.{same_id, transfer_matching_candidates}

abbrev pub Evaluation : Type 0
Evaluation = Option TransferMatchingPair × TransferMatchingAttemptCounts

abbrev pub unmatched_start : Evaluation
unmatched_start = (none, record { matched_pairs = 0; unmatched = 1; ambiguous = 0; skipped = 0 })

abbrev pub ambiguous_start : Evaluation
ambiguous_start = (none, record { matched_pairs = 0; unmatched = 0; ambiguous = 1; skipped = 0 })

-- The pair in the order of the identifiers.
abbrev pub pair_of : IndexedTransaction → IndexedTransaction → TransferMatchingPair
pair_of t c =
    if str_lt c.transaction.id t.transaction.id
    then record { first = c.transaction; second = t.transaction }
    else record { first = t.transaction; second = c.transaction }

-- The start is the only candidate of its only candidate, or the two are ambiguous.
abbrev pub from_reverse :
    IndexedTransaction → IndexedTransaction → List IndexedTransaction → Evaluation
from_reverse t c [] = ambiguous_start
from_reverse t c (r ∷ []) = if same_id r t then (some (pair_of t c), no_counts) else ambiguous_start
from_reverse t c (r ∷ q ∷ rs) = ambiguous_start

-- `accepted[key] = pair`, where the key is the two identifiers.
abbrev pub same_key : TransferMatchingPair → TransferMatchingPair → Bool
same_key p q = str_eq p.first.id q.first.id && str_eq p.second.id q.second.id

unfoldable pub accept : TransferMatchingPair → List TransferMatchingPair → List TransferMatchingPair
accept p [] = p ∷ []
accept p (q ∷ qs) = let rest = accept p qs in if same_key q p then p ∷ qs else q ∷ rest

abbrev pub accept_if :
    Option TransferMatchingPair → List TransferMatchingPair → List TransferMatchingPair
accept_if none accepted = accepted
accept_if (some p) accepted = accept p accepted

-- The order of `sort.Slice`.
abbrev pub pair_before : TransferMatchingPair → TransferMatchingPair → Bool
pair_before p q =
    if str_eq p.first.id q.first.id
    then str_lt p.second.id q.second.id
    else str_lt p.first.id q.first.id

abbrev pub sort_pairs : List TransferMatchingPair → List TransferMatchingPair
sort_pairs ps = sort_by pair_before ps

pub data Decided : Type 0 where
  planned : List TransferMatchingPair → TransferMatchingAttemptCounts → Decided
  interrupted : TransferMatchingAttemptCounts → Str → Decided

module _ (currencies : Currencies) where
  abbrev pub from_counterparts : IndexedTransaction → Indexes → List IndexedTransaction → Evaluation
  from_counterparts t indexes [] = unmatched_start
  from_counterparts t indexes (c ∷ []) =
      from_reverse t c (transfer_matching_candidates currencies c indexes)
  from_counterparts t indexes (c ∷ d ∷ cs) = ambiguous_start

  unfoldable pub evaluate_transfer_matching_start : IndexedTransaction → Indexes → Evaluation
  unfolding str_lt
  evaluate_transfer_matching_start t indexes =
      from_counterparts t indexes (transfer_matching_candidates currencies t indexes)

  -- The loop over the starting transactions, at its nth round.
  unfoldable pub decide_from :
      (ℕ → Option Str)
      → Indexes
      → ℕ
      → List IndexedTransaction
      → List TransferMatchingPair
      → TransferMatchingAttemptCounts
      → Decided
  unfolding accept sort_by add_transfer_matching_attempt_counts
  decide_from ctx_err indexes n [] accepted counts = planned (sort_pairs accepted) counts
  decide_from ctx_err indexes n (t ∷ ts) accepted counts = elim (ctx_err n) [
    | some e ↦ interrupted counts e
    | none ↦
        let (pair, delta) = evaluate_transfer_matching_start t indexes in
        decide_from ctx_err indexes (suc n) ts (accept_if pair accepted)
          (add_transfer_matching_attempt_counts counts delta)
  ]

  abbrev pub decide_at : (ℕ → Option Str) → Indexes → Decided
  decide_at ctx_err indexes = decide_from ctx_err indexes 0 indexes.starting [] no_counts

  -- Of the transactions with their evidence.
  unfoldable pub decide_transfer_matching_pairs :
      (ℕ → Option Str) → List IndexedTransaction → Time → Time → Decided
  decide_transfer_matching_pairs ctx_err ts range_start range_end =
      decide_at ctx_err (transfer_matching_index ts range_start range_end)
