-- ===== src/Transfers/Decide/Settled.antt =====
-- Which of the starting transactions `decideTransferMatchingPairs` pairs.
use sumweave.Base.{
  ℕ, suc, ◌≡◌, refl, sym, ap, ◌∙◌, subst, inl, inr, Bool, true, false, Option, none, some, List, [],
  ◌∷◌, ◌||◌, not, arith, All, Bool-cases, Option-cases,
}
use sumweave.Base.Text.{Str, str_eq_refl}
use sumweave.Transfers.Types.{
  Time, IndexedTransaction, TransferMatchingPair, TransferMatchingAttemptCounts, no_counts,
  add_transfer_matching_attempt_counts,
}
use sumweave.Transfers.Fx.{Currencies}
use sumweave.Transfers.Index.{Indexes, transfer_matching_index, starting_in, sort_transactions}
use sumweave.Base.Sorting.{sort_by-All}
use sumweave.Transfers.Index.{sorts_before}
use sumweave.Transfers.Candidates.{same_id, transfer_matching_candidates}
use sumweave.Transfers.Decide.{
  pair_of, from_reverse, from_counterparts, evaluate_transfer_matching_start, accept_if, Decided,
  planned, interrupted, decide_from, decide_transfer_matching_pairs,
}
use sumweave.Transfers.Decide.Mutual.{HasUniqueIds, IsFound, All-IsFound, candidates_fit, Fits}
use sumweave.Transfers.Decide.Accepted.{
  only, partner_id, IsMatch, starting_in-All, decide_transfer_matching_pairs-IsMatch,
}
use sumweave.Transfers.Decide.Paired.{
  in_pair, in_pairs, in_pairs-accept, in_pairs-sort_pairs, returns_to, partner_returns, is_mutual,
  in_pairs-is_mutual,
}

-- A property of what is planned.
abbrev pub Planned :
    (List TransferMatchingPair → TransferMatchingAttemptCounts → Type 0) → Decided → Type 0
Planned P (planned ps counts) = P ps counts
Planned P (interrupted counts e) = Unit

module _ (currencies : Currencies) (ts : List IndexedTransaction) where
  module _ (rs re : Time) where
    abbrev indexes : Indexes
    indexes = transfer_matching_index ts rs re

    abbrev candidates_of : IndexedTransaction → List IndexedTransaction
    candidates_of t = transfer_matching_candidates currencies t (transfer_matching_index ts rs re)

    abbrev in_evaluated : Str → Option TransferMatchingPair → Bool
    in_evaluated i none = false
    in_evaluated i (some p) = in_pair i p

    in_pair-pair_of : (t c : IndexedTransaction) → in_pair t.transaction.id (pair_of t c) ≡ true
    in_pair-pair_of t c = ground (arith, str_eq_refl t.transaction.id)

    from_reverse-is_mutual :
        (t c : IndexedTransaction) (back : List IndexedTransaction)
        → returns_to t.transaction.id (only back) ≡ true
        → in_evaluated t.transaction.id (from_reverse t c back).0 ≡ true
    from_reverse-is_mutual t c [] h = cc
    from_reverse-is_mutual t c (r ∷ []) h = rw h (in_pair-pair_of t c)
    from_reverse-is_mutual t c (r ∷ q ∷ rest) h = cc

    from_counterparts-is_mutual :
        (t : IndexedTransaction) (found : List IndexedTransaction)
        → All (IsFound ts) found
        → partner_returns currencies ts t.transaction.id (only found) ≡ true
        → in_evaluated t.transaction.id (from_counterparts currencies t indexes found).0 ≡ true
    from_counterparts-is_mutual t [] known h = cc
    from_counterparts-is_mutual t (c ∷ d ∷ cs) known h = cc
    from_counterparts-is_mutual t (c ∷ []) known h =
        from_reverse-is_mutual t c (candidates_of c)
          (ap (returns_to t.transaction.id) (sym (partner_id currencies ts rs re c known.0)) ∙ h)

    known_candidates :
        (cs : List IndexedTransaction) (t : IndexedTransaction)
        → All (λ c. (IsFound ts c × Fits t c) × (same_id t c ≡ false)) cs
        → All (IsFound ts) cs
    known_candidates [] t all = tt
    known_candidates (c ∷ cs) t all = (all.0.0.0, known_candidates cs t all.1)

    evaluate-is_mutual :
        (t : IndexedTransaction)
        → All (IsFound ts) ts
        → IsFound ts t
        → is_mutual currencies ts t.transaction.id ≡ true
        → in_evaluated t.transaction.id (evaluate_transfer_matching_start currencies t indexes).0
          ≡ true
    unfolding evaluate_transfer_matching_start
    evaluate-is_mutual t known found h =
        from_counterparts-is_mutual t (candidates_of t)
          (known_candidates (candidates_of t) t
            (candidates_fit currencies (IsFound ts) t ts known rs re))
          (ap (partner_returns currencies ts t.transaction.id)
              (sym (partner_id currencies ts rs re t found))
            ∙ h)

    in_pairs-accept_if :
        (i : Str) (p : Option TransferMatchingPair) (ps : List TransferMatchingPair)
        → in_pairs i (accept_if p ps) ≡ (in_evaluated i p || in_pairs i ps)
    in_pairs-accept_if i none ps = ground arith
    in_pairs-accept_if i (some p) ps = in_pairs-accept i p ps

    -- What is accepted stays in a pair.
    decide_from-keeps :
        (ctx_err : ℕ → Option Str) (n : ℕ) (starts : List IndexedTransaction)
        (ps : List TransferMatchingPair) (counts : TransferMatchingAttemptCounts) (i : Str)
        → in_pairs i ps ≡ true
        → Planned
            (λ qs _. in_pairs i qs ≡ true)
            (decide_from currencies ctx_err indexes n starts ps counts)
    unfolding decide_from
    decide_from-keeps ctx_err n [] ps counts i h = in_pairs-sort_pairs i ps ∙ h
    decide_from-keeps ctx_err n (t ∷ starts) ps counts i h = elim (Option-cases (ctx_err n)) [
      | inr (e, stop) ↦ rw (stop, decide_from) tt
      | inl go ↦
          let evaluated = evaluate_transfer_matching_start currencies t indexes in
          rw (go, decide_from)
            (decide_from-keeps ctx_err (suc n) starts (accept_if evaluated.0 ps)
              (add_transfer_matching_attempt_counts counts evaluated.1) i
              (ground (arith, in_pairs-accept_if i evaluated.0 ps, h)))
    ]

    Planned-both :
        (P Q : List TransferMatchingPair → TransferMatchingAttemptCounts → Type 0) (d : Decided)
        → Planned P d
        → Planned Q d
        → Planned (λ ps counts. P ps counts × Q ps counts) d
    Planned-both P Q (planned ps counts) h k = (h, k)
    Planned-both P Q (interrupted counts e) h k = tt

    abbrev is_settled : List TransferMatchingPair → IndexedTransaction → Bool
    is_settled ps t = not (is_mutual currencies ts t.transaction.id) || in_pairs t.transaction.id ps

    settled_now :
        (ctx_err : ℕ → Option Str) (n : ℕ) (t : IndexedTransaction)
        (starts : List IndexedTransaction) (ps : List TransferMatchingPair)
        (counts : TransferMatchingAttemptCounts)
        → All (IsFound ts) ts
        → IsFound ts t
        → Planned
            (λ qs _. is_settled qs t ≡ true)
            (decide_from currencies ctx_err indexes n starts
              (accept_if (evaluate_transfer_matching_start currencies t indexes).0 ps)
              counts)
    settled_now ctx_err n t starts ps counts known found =
        elim (Bool-cases (is_mutual currencies ts t.transaction.id)) [
          | inr other ↦ rw other (
              always (
                decide_from currencies ctx_err indexes n starts
                  (accept_if (evaluate_transfer_matching_start currencies t indexes).0 ps) counts))
          | inl paired ↦ rw paired (
              decide_from-keeps ctx_err n starts
                (accept_if (evaluate_transfer_matching_start currencies t indexes).0 ps) counts
                t.transaction.id
                (ground (
                  arith,
                  evaluate-is_mutual t known found paired,
                  in_pairs-accept_if t.transaction.id
                      (evaluate_transfer_matching_start currencies t indexes).0 ps,
                )))
        ]
      where
        always : (d : Decided) → Planned (λ qs _. true ≡ true) d
        always (planned qs c) = refl
        always (interrupted c e) = tt

    decide_from-settles :
        (ctx_err : ℕ → Option Str) (n : ℕ) (starts : List IndexedTransaction)
        (ps : List TransferMatchingPair) (counts : TransferMatchingAttemptCounts)
        → All (IsFound ts) ts
        → All (IsFound ts) starts
        → Planned
            (λ qs _. All (λ t. is_settled qs t ≡ true) starts)
            (decide_from currencies ctx_err indexes n starts ps counts)
    unfolding decide_from
    decide_from-settles ctx_err n [] ps counts known all = tt
    decide_from-settles ctx_err n (t ∷ starts) ps counts known all =
        elim (Option-cases (ctx_err n)) [
          | inr (e, stop) ↦ rw (stop, decide_from) tt
          | inl go ↦
              let evaluated = evaluate_transfer_matching_start currencies t indexes in
              let more = add_transfer_matching_attempt_counts counts evaluated.1 in
              rw (go, decide_from)
                (Planned-both (λ qs _. is_settled qs t ≡ true)
                  (λ qs _. All (λ u. is_settled qs u ≡ true) starts)
                  (decide_from currencies ctx_err indexes (suc n) starts (accept_if evaluated.0 ps)
                    more)
                  (settled_now ctx_err (suc n) t starts ps more known all.0)
                  (decide_from-settles ctx_err (suc n) starts (accept_if evaluated.0 ps) more known
                    all.1))
        ]

    exactly :
        (pairs : List TransferMatchingPair) (starts : List IndexedTransaction)
        → All (IsMatch currencies ts) pairs
        → All (λ t. is_settled pairs t ≡ true) starts
        → All
            (λ t. in_pairs t.transaction.id pairs ≡ is_mutual currencies ts t.transaction.id)
            starts
    exactly pairs [] match all = tt
    exactly pairs (t ∷ starts) match all = (
      ground (arith, in_pairs-is_mutual currencies ts t.transaction.id pairs match, all.0),
      exactly pairs starts match all.1,
    )

    -- Of loaded transactions with different identifiers, a starting transaction stands in a planned pair
    -- exactly when it is the only counterpart of its only counterpart.
    pub in_pairs-decide_transfer_matching_pairs :
        (ctx_err : ℕ → Option Str) (pairs : List TransferMatchingPair)
        (counts : TransferMatchingAttemptCounts)
        → HasUniqueIds ts
        → decide_transfer_matching_pairs currencies ctx_err ts rs re ≡ planned pairs counts
        → All
            (λ t. in_pairs t.transaction.id pairs ≡ is_mutual currencies ts t.transaction.id)
            (transfer_matching_index ts rs re).starting
    unfolding decide_transfer_matching_pairs transfer_matching_index
    in_pairs-decide_transfer_matching_pairs ctx_err pairs counts unique e =
        let known = All-IsFound ts unique in
        let starts = sort_transactions (starting_in rs re ts) in
        exactly pairs starts
          (decide_transfer_matching_pairs-IsMatch currencies ts rs re ctx_err pairs counts unique e)
          (subst (Planned (λ qs _. All (λ t. is_settled qs t ≡ true) starts)) e (
            decide_from-settles ctx_err 0 starts [] no_counts known (
              sort_by-All (IsFound ts) sorts_before (starting_in rs re ts)
                (starting_in-All (IsFound ts) rs re ts known))))
