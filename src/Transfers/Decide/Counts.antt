-- ===== src/Transfers/Decide/Counts.antt =====
-- What `decideTransferMatchingPairs` counts.
use sumweave.Base.Sorting.{length-sort_by}
use sumweave.Base.{
  ℕ, suc, ◌+◌, ◌≤◌, ◌≡◌, refl, ap, ◌∙◌, subst, inl, inr, Bool, false, Option, none, some, List, [],
  ◌∷◌, ◌==◌, if◌then◌else◌, arith, take, keep, length, Bool-cases, Option-cases,
}
use sumweave.Base.Text.{Str}
use sumweave.Transfers.Types.{
  Time, IndexedTransaction, TransferMatchingPair, TransferMatchingAttemptCounts, no_counts,
  add_transfer_matching_attempt_counts,
}
use sumweave.Transfers.Fx.{Currencies}
use sumweave.Transfers.Index.{Indexes, transfer_matching_index, starting_in, sort_transactions}
use sumweave.Transfers.Candidates.{same_id, transfer_matching_candidates}
use sumweave.Transfers.Candidates.Reference.{counterparts, transfer_matching_candidates_lem}
use sumweave.Transfers.Decide.{
  Evaluation, from_reverse, from_counterparts, evaluate_transfer_matching_start, accept, accept_if,
  pair_before, Decided, planned, interrupted, decide_from, decide_transfer_matching_pairs,
}
use sumweave.Transfers.Decide.Settled.{Planned}

length-accept :
    (p : TransferMatchingPair) (ps : List TransferMatchingPair)
    → length (accept p ps) ≤ suc (length ps)
unfolding accept
length-accept p [] = ground arith
length-accept p (q ∷ qs) = ground (arith, length-accept p qs)

module _ (currencies : Currencies) (ts : List IndexedTransaction) where
  -- Whether a transaction has no counterpart.
  abbrev pub is_alone : IndexedTransaction → Bool
  is_alone t = length (counterparts currencies t ts) == 0

  abbrev pairs_in : Option TransferMatchingPair → ℕ
  pairs_in none = 0
  pairs_in (some p) = 1

  -- One start counts as one.
  abbrev IsOne : Bool → Evaluation → Type 0
  IsOne alone e =
      (e.1.unmatched ≡ (if alone then 1 else 0))
      × (e.1.unmatched + e.1.ambiguous + pairs_in e.0 ≡ 1)
      × (e.1.matched_pairs ≡ 0)
      × (e.1.skipped ≡ 0)

  from_reverse-IsOne :
      (t c : IndexedTransaction) (back : List IndexedTransaction)
      → IsOne false (from_reverse t c back)
  from_reverse-IsOne t c [] = (refl, refl, refl, refl)
  from_reverse-IsOne t c (r ∷ []) = elim (Bool-cases (same_id r t)) [
    | inl same ↦ rw same (refl, refl, refl, refl)
    | inr other ↦ rw other (refl, refl, refl, refl)
  ]
  from_reverse-IsOne t c (r ∷ q ∷ rest) = (refl, refl, refl, refl)

  length-accept_if :
      (p : Option TransferMatchingPair) (ps : List TransferMatchingPair)
      → length (accept_if p ps) ≤ pairs_in p + length ps
  length-accept_if none ps = omega arith
  length-accept_if (some p) ps = omega (arith, length-accept p ps)

  none_left : (cs : List IndexedTransaction) → (length (take 2 cs) == 0) ≡ (length cs == 0)
  none_left [] = refl
  none_left (c ∷ []) = refl
  none_left (c ∷ d ∷ cs) = ground arith

  Planned-map :
      (P Q : List TransferMatchingPair → TransferMatchingAttemptCounts → Type 0) (d : Decided)
      → ((ps : List TransferMatchingPair) (counts : TransferMatchingAttemptCounts)
          → P ps counts
          → Q ps counts)
      → Planned P d
      → Planned Q d
  Planned-map P Q (planned ps counts) f h = f ps counts h
  Planned-map P Q (interrupted counts e) f h = tt

  -- From the pairs and counts before the rounds to those after them.
  abbrev Grown :
      ℕ
      → ℕ
      → List TransferMatchingPair
      → TransferMatchingAttemptCounts
      → List TransferMatchingPair
      → TransferMatchingAttemptCounts
      → Type 0
  Grown alone rounds ps counts qs after =
      (after.unmatched ≡ counts.unmatched + alone)
      × (after.unmatched + after.ambiguous + length qs
          ≤ counts.unmatched + counts.ambiguous + length ps + rounds)
      × (after.matched_pairs ≡ counts.matched_pairs)
      × (after.skipped ≡ counts.skipped)

  one_round :
      (alone : Bool) (more rounds : ℕ) (e : Evaluation) (ps qs : List TransferMatchingPair)
      (counts after : TransferMatchingAttemptCounts)
      → IsOne alone e
      → Grown more rounds
          (accept_if e.0 ps)
          (add_transfer_matching_attempt_counts counts e.1)
          qs
          after
      → Grown ((if alone then 1 else 0) + more) (suc rounds) ps counts qs after
  unfolding add_transfer_matching_attempt_counts
  one_round alone more rounds e ps qs counts after one h = (
    omega (arith, one.0, h.0),
    omega (arith, one.1, h.1, length-accept_if e.0 ps),
    omega (arith, one.2, h.2),
    omega (arith, one.3, h.3),
  )

  length-keep :
      (p : IndexedTransaction → Bool) (t : IndexedTransaction) (starts : List IndexedTransaction)
      → length (keep p (t ∷ starts)) ≡ (if p t then 1 else 0) + length (keep p starts)
  length-keep p t starts = ground arith

  module _ (rs re : Time) where
    abbrev indexes : Indexes
    indexes = transfer_matching_index ts rs re

    abbrev candidates_of : IndexedTransaction → List IndexedTransaction
    candidates_of t = transfer_matching_candidates currencies t (transfer_matching_index ts rs re)

    from_counterparts-IsOne :
        (t : IndexedTransaction) (found : List IndexedTransaction)
        → IsOne (length found == 0) (from_counterparts currencies t indexes found)
    from_counterparts-IsOne t [] = (refl, refl, refl, refl)
    from_counterparts-IsOne t (c ∷ []) = from_reverse-IsOne t c (candidates_of c)
    from_counterparts-IsOne t (c ∷ d ∷ cs) = ground arith

    evaluate-IsOne :
        (t : IndexedTransaction)
        → IsOne (is_alone t) (evaluate_transfer_matching_start currencies t indexes)
    unfolding evaluate_transfer_matching_start
    evaluate-IsOne t =
        subst (λ b. IsOne b (from_counterparts currencies t indexes (candidates_of t)))
          (ap (λ (found : List IndexedTransaction). length found == 0)
              (transfer_matching_candidates_lem currencies t ts rs re)
            ∙ none_left (counterparts currencies t ts))
          (from_counterparts-IsOne t (candidates_of t))

    decide_from-Grown :
        (ctx_err : ℕ → Option Str) (n : ℕ) (starts : List IndexedTransaction)
        (ps : List TransferMatchingPair) (counts : TransferMatchingAttemptCounts)
        → Planned
            (Grown (length (keep is_alone starts)) (length starts) ps counts)
            (decide_from currencies ctx_err indexes n starts ps counts)
    unfolding decide_from
    decide_from-Grown ctx_err n [] ps counts =
        (omega arith, omega (arith, length-sort_by pair_before ps), refl, refl)
    decide_from-Grown ctx_err n (t ∷ starts) ps counts = elim (Option-cases (ctx_err n)) [
      | inr (e, stop) ↦ rw (stop, decide_from) tt
      | inl go ↦
          let evaluated = evaluate_transfer_matching_start currencies t indexes in
          let more = add_transfer_matching_attempt_counts counts evaluated.1 in
          let alone = length (keep is_alone starts) in
          rw (go, decide_from)
            (rw (length-keep is_alone t starts) (
              Planned-map (Grown alone (length starts) (accept_if evaluated.0 ps) more)
                (Grown ((if is_alone t then 1 else 0) + alone) (suc (length starts)) ps counts)
                (decide_from currencies ctx_err indexes (suc n) starts (accept_if evaluated.0 ps)
                  more)
                (λ qs after h.
                  one_round (is_alone t) alone (length starts) evaluated ps qs counts after
                    (evaluate-IsOne t) h)
                (decide_from-Grown ctx_err (suc n) starts (accept_if evaluated.0 ps) more)))
    ]

    -- A completed decision has counted as unmatched the starting transactions without a counterpart; with
    -- the ambiguous ones and the planned pairs these are at most the starting transactions; and nothing
    -- counts as matched or skipped yet.
    pub decide_transfer_matching_pairs-counts :
        (ctx_err : ℕ → Option Str) (pairs : List TransferMatchingPair)
        (counts : TransferMatchingAttemptCounts)
        → decide_transfer_matching_pairs currencies ctx_err ts rs re ≡ planned pairs counts
        → (counts.unmatched ≡ length (keep is_alone (transfer_matching_index ts rs re).starting))
          × (counts.unmatched + counts.ambiguous + length pairs
              ≤ length (transfer_matching_index ts rs re).starting)
          × (counts.matched_pairs ≡ 0)
          × (counts.skipped ≡ 0)
    unfolding decide_transfer_matching_pairs transfer_matching_index
    decide_transfer_matching_pairs-counts ctx_err pairs counts e =
        let starts = sort_transactions (starting_in rs re ts) in
        let grown =
          subst (Planned (Grown (length (keep is_alone starts)) (length starts) [] no_counts)) e
            (decide_from-Grown ctx_err 0 starts [] no_counts) in
        (omega (arith, grown.0), omega (arith, grown.1), grown.2, grown.3)
