-- ===== src/Transfers/Decide/Accepted.antt =====
-- The pairs that `decideTransferMatchingPairs` plans.
use sumweave.Base.{
  ℕ, suc, ◌+◌, ◌≤◌, ◌≡◌, refl, sym, ap, ◌∙◌, subst, inl, inr, true, false, Option, none, some, List,
  [], ◌∷◌, arith, take, All, Bool-cases, Option-cases,
}
use sumweave.Base.Text.{Str, str_eq, str_eq_iff}
use sumweave.Transfers.Types.{
  Time, IndexedTransaction, TransferMatchingPair, TransferMatchingAttemptCounts, no_counts,
  add_transfer_matching_attempt_counts, str_lt, transfer_matching_window,
}
use sumweave.Transfers.Fx.{Currencies}
use sumweave.Transfers.Index.{
  Indexes, transfer_matching_index, starting_in, starts_in, sort_transactions,
}
use sumweave.Base.Sorting.{sort_by-All}
use sumweave.Transfers.Index.{sorts_before}
use sumweave.Transfers.Candidates.{same_id, transfer_matching_candidates}
use sumweave.Transfers.Candidates.Reference.{counterparts, transfer_matching_candidates_lem}
use sumweave.Transfers.Decide.{
  pair_before, pair_of, from_reverse, from_counterparts, evaluate_transfer_matching_start,
  accept_if, Decided, planned, interrupted, decide_from, decide_transfer_matching_pairs,
}
use sumweave.Transfers.Decide.Pairs.{
  AreDisjoint, IsPartnered, accept-All, accept-AreDisjoint, sort_pairs-AreDisjoint,
}
use sumweave.Transfers.Decide.Mutual.{
  find_id, HasUniqueIds, IsFound, All-IsFound, Fits, candidates_fit,
}

str_lt_asym : (a b : Str) → str_lt a b ≡ true → str_lt b a ≡ false
unfolding str_lt
str_lt_asym [] [] h = cc
str_lt_asym [] (y ∷ b) h = refl
str_lt_asym (x ∷ a) [] h = cc
str_lt_asym (x ∷ a) (y ∷ b) h = ground (arith, str_lt_asym a b)

-- Two transactions of different accounts, at most 72 hours apart.
pub record IsTransfer (p : TransferMatchingPair) : Type 0 where
  pub other_account : str_eq p.first.account_id p.second.account_id ≡ false
  pub not_later : p.first.effective_at ≤ p.second.effective_at + transfer_matching_window
  pub not_earlier : p.second.effective_at ≤ p.first.effective_at + transfer_matching_window

-- The identifier of the only transaction of a list.
abbrev pub only : List IndexedTransaction → Option Str
only [] = none
only (c ∷ []) = some c.transaction.id
only (c ∷ d ∷ cs) = none

pub starting_in-All :
    (P : IndexedTransaction → Type 0) (rs re : Time) (ts : List IndexedTransaction)
    → All P ts
    → All P (starting_in rs re ts)
unfolding starting_in
starting_in-All P rs re [] all = tt
starting_in-All P rs re (t ∷ ts) all = elim (Bool-cases (starts_in rs re t)) [
  | inl h ↦ rw h (all.0, starting_in-All P rs re ts all.1)
  | inr h ↦ rw h (starting_in-All P rs re ts all.1)
]

module _ (currencies : Currencies) (ts : List IndexedTransaction) where
  -- The identifier of the only counterpart of a transaction, if there is exactly one: by the walk over
  -- all transactions.
  abbrev pub partner_from : Option IndexedTransaction → Option Str
  partner_from none = none
  partner_from (some t) = only (take 2 (counterparts currencies t ts))

  unfoldable pub only_counterpart : Str → Option Str
  only_counterpart i = partner_from (find_id i ts)

  -- A planned pair: each is the other's only counterpart, and it is a transfer.
  abbrev pub IsMatch : TransferMatchingPair → Type 0
  IsMatch p = IsPartnered only_counterpart p × IsTransfer p

  abbrev EachMatch : Option TransferMatchingPair → Type 0
  EachMatch none = Unit
  EachMatch (some p) = IsMatch p

  module _ (rs re : Time) where
    abbrev indexes : Indexes
    indexes = transfer_matching_index ts rs re

    abbrev candidates_of : IndexedTransaction → List IndexedTransaction
    candidates_of t = transfer_matching_candidates currencies t (transfer_matching_index ts rs re)

    pub partner_id :
        (t : IndexedTransaction)
        → IsFound ts t
        → only_counterpart t.transaction.id ≡ only (candidates_of t)
    unfolding only_counterpart
    partner_id t found =
        ap partner_from found
        ∙ ap only (sym (transfer_matching_candidates_lem currencies t ts rs re))

    pair_of-IsMatch :
        (t c r : IndexedTransaction)
        → IsFound ts t
        → (IsFound ts c × Fits t c) × (same_id t c ≡ false)
        → candidates_of t ≡ c ∷ []
        → candidates_of c ≡ r ∷ []
        → same_id r t ≡ true
        → IsMatch (pair_of t c)
    pair_of-IsMatch t c r found fits one back same =
        let there = partner_id t found ∙ ap only one in
        let again =
          partner_id c fits.0.0
          ∙ ap only back
          ∙ ap some ((str_eq_iff r.transaction.id t.transaction.id).0 same) in
        elim (Bool-cases (str_lt c.transaction.id t.transaction.id)) [
          | inl before ↦ rw before (
            record {
              first_partner = again;
              second_partner = there;
              in_order = str_lt_asym c.transaction.id t.transaction.id before;
              differ = ground (
                arith,
                fits.1,
                str_eq_iff c.transaction.id t.transaction.id,
                str_eq_iff t.transaction.id c.transaction.id,
              );
            },
            record {
              other_account = fits.0.1.other_account;
              not_later = fits.0.1.to_end;
              not_earlier = fits.0.1.from_start;
            },
          )
          | inr after ↦ rw after (
            record {
              first_partner = there;
              second_partner = again;
              in_order = after;
              differ = fits.1;
            },
            record {
              other_account = ground (
                arith,
                fits.0.1.other_account,
                str_eq_iff c.transaction.account_id t.transaction.account_id,
                str_eq_iff t.transaction.account_id c.transaction.account_id,
              );
              not_later = fits.0.1.from_start;
              not_earlier = fits.0.1.to_end;
            },
          )
        ]

    from_reverse-IsMatch :
        (t c : IndexedTransaction) (back : List IndexedTransaction)
        → IsFound ts t
        → (IsFound ts c × Fits t c) × (same_id t c ≡ false)
        → candidates_of t ≡ c ∷ []
        → candidates_of c ≡ back
        → EachMatch (from_reverse t c back).0
    from_reverse-IsMatch t c [] found fits one e = tt
    from_reverse-IsMatch t c (r ∷ q ∷ rest) found fits one e = tt
    from_reverse-IsMatch t c (r ∷ []) found fits one e = elim (Bool-cases (same_id r t)) [
      | inl same ↦ rw same (pair_of-IsMatch t c r found fits one e same)
      | inr other ↦ rw other tt
    ]

    from_counterparts-IsMatch :
        (t : IndexedTransaction) (found : List IndexedTransaction)
        → IsFound ts t
        → All (λ c. (IsFound ts c × Fits t c) × (same_id t c ≡ false)) found
        → candidates_of t ≡ found
        → EachMatch (from_counterparts currencies t indexes found).0
    from_counterparts-IsMatch t [] known all e = tt
    from_counterparts-IsMatch t (c ∷ d ∷ cs) known all e = tt
    from_counterparts-IsMatch t (c ∷ []) known all e =
        from_reverse-IsMatch t c (candidates_of c) known all.0 e refl

    evaluate-IsMatch :
        (t : IndexedTransaction)
        → All (IsFound ts) ts
        → IsFound ts t
        → EachMatch (evaluate_transfer_matching_start currencies t indexes).0
    unfolding evaluate_transfer_matching_start
    evaluate-IsMatch t known found =
        from_counterparts-IsMatch t (candidates_of t) found
          (candidates_fit currencies (IsFound ts) t ts known rs re) refl

    -- What is accepted so far.
    abbrev AreMatches : List TransferMatchingPair → Type 0
    AreMatches ps = All IsMatch ps × AreDisjoint ps

    partnered :
        (ps : List TransferMatchingPair) → All IsMatch ps → All (IsPartnered only_counterpart) ps
    partnered [] all = tt
    partnered (p ∷ ps) all = (all.0.0, partnered ps all.1)

    accept_if-AreMatches :
        (p : Option TransferMatchingPair) (ps : List TransferMatchingPair)
        → EachMatch p
        → AreMatches ps
        → AreMatches (accept_if p ps)
    accept_if-AreMatches none ps h all = all
    accept_if-AreMatches (some p) ps h all = (
      accept-All IsMatch p ps h all.0,
      accept-AreDisjoint only_counterpart p ps h.0 (partnered ps all.0) all.1,
    )

    abbrev ArePlanned : Decided → Type 0
    ArePlanned (planned ps counts) = AreMatches ps
    ArePlanned (interrupted counts e) = Unit

    decide_from-AreMatches :
        (ctx_err : ℕ → Option Str) (n : ℕ) (starts : List IndexedTransaction)
        (ps : List TransferMatchingPair) (counts : TransferMatchingAttemptCounts)
        → All (IsFound ts) ts
        → All (IsFound ts) starts
        → AreMatches ps
        → ArePlanned (decide_from currencies ctx_err indexes n starts ps counts)
    unfolding decide_from
    decide_from-AreMatches ctx_err n [] ps counts known all h =
        (sort_by-All IsMatch pair_before ps h.0, sort_pairs-AreDisjoint ps h.1)
    decide_from-AreMatches ctx_err n (t ∷ starts) ps counts known all h =
        elim (Option-cases (ctx_err n)) [
          | inr (e, stop) ↦ rw (stop, decide_from) tt
          | inl go ↦
              let evaluated = evaluate_transfer_matching_start currencies t indexes in
              rw (go, decide_from)
                (decide_from-AreMatches ctx_err (suc n) starts (accept_if evaluated.0 ps)
                  (add_transfer_matching_attempt_counts counts evaluated.1) known all.1
                  (accept_if-AreMatches evaluated.0 ps (evaluate-IsMatch t known all.0) h))
        ]

    decide-ArePlanned :
        (ctx_err : ℕ → Option Str)
        → HasUniqueIds ts
        → ArePlanned (decide_transfer_matching_pairs currencies ctx_err ts rs re)
    unfolding decide_transfer_matching_pairs transfer_matching_index
    decide-ArePlanned ctx_err unique =
        let known = All-IsFound ts unique in
        decide_from-AreMatches ctx_err 0 (sort_transactions (starting_in rs re ts)) [] no_counts
          known
          (sort_by-All (IsFound ts) sorts_before (starting_in rs re ts)
            (starting_in-All (IsFound ts) rs re ts known))
          (tt, tt)

    -- Of loaded transactions with different identifiers, no transaction stands in two planned pairs.
    pub decide_transfer_matching_pairs-AreDisjoint :
        (ctx_err : ℕ → Option Str) (pairs : List TransferMatchingPair)
        (counts : TransferMatchingAttemptCounts)
        → HasUniqueIds ts
        → decide_transfer_matching_pairs currencies ctx_err ts rs re ≡ planned pairs counts
        → AreDisjoint pairs
    decide_transfer_matching_pairs-AreDisjoint ctx_err pairs counts unique e =
        (subst ArePlanned e (decide-ArePlanned ctx_err unique)).1

    -- Of loaded transactions with different identifiers, the two of each planned pair are each other's
    -- only counterpart in a walk over all transactions; they lie in different accounts, at most 72
    -- hours apart, and stand in the order of their identifiers.
    pub decide_transfer_matching_pairs-IsMatch :
        (ctx_err : ℕ → Option Str) (pairs : List TransferMatchingPair)
        (counts : TransferMatchingAttemptCounts)
        → HasUniqueIds ts
        → decide_transfer_matching_pairs currencies ctx_err ts rs re ≡ planned pairs counts
        → All IsMatch pairs
    decide_transfer_matching_pairs-IsMatch ctx_err pairs counts unique e =
        (subst ArePlanned e (decide-ArePlanned ctx_err unique)).0
