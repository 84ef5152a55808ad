-- ===== src/Transfers/Candidates/Reference.antt =====
-- The candidates of a transaction against their definition, without index and early exits.
use sumweave.Base.{
  ◌≡◌, refl, ap, ◌∙◌, inl, inr, false, none, some, List, [], ◌∷◌, ◌++◌, arith, take, Bool-cases,
}
use sumweave.Transfers.Types.{Time, IndexedTransaction}
use sumweave.Transfers.Fx.{Currencies}
use sumweave.Transfers.Index.{fx_key_eq, fx_key_for, transfer_matching_index}
use sumweave.Transfers.Candidates.{
  same_id, accepts_fx, transfer_matching_fx_candidates, is_candidate, add_candidate, is_full,
  add_candidates, add_source, transfer_matching_candidates,
}
use sumweave.Transfers.Candidates.Search.{first_two}
use sumweave.Transfers.Candidates.Searches.{
  under_key, fx_test, walked_if, same_currency_lem, monobank_lem, pko_lem, same_id_sym,
  same_currency_reference, monobank_reference, pko_reference, in_ids, unseen,
}

module _ (currencies : Currencies) where
  unfoldable pub fx_reference :
      IndexedTransaction → List IndexedTransaction → List IndexedTransaction
  fx_reference t ts = elim (fx_key_for t) [
    | none ↦ []
    | some k ↦ first_two (accepts_fx currencies t) t (under_key fx_key_eq fx_key_for k ts)
  ]

  fx_lem :
      (t : IndexedTransaction) (ts : List IndexedTransaction) (rs re : Time)
      → transfer_matching_fx_candidates currencies t (transfer_matching_index ts rs re)
        ≡ fx_reference t ts
  unfolding transfer_matching_fx_candidates fx_reference transfer_matching_index
  fx_lem t ts rs re =
      walked_if fx_key_eq fx_test fx_key_for (accepts_fx currencies t) t ts (fx_key_for t)

  add_source-add_candidates :
      (t : IndexedTransaction) (as' bs xs : List IndexedTransaction)
      → is_full currencies xs ≡ false
      → add_source currencies t bs (add_candidates currencies t as' xs)
        ≡ add_candidates currencies t (as' ++ bs) xs
  unfolding add_candidates
  add_source-add_candidates t [] bs xs h = ground arith
  add_source-add_candidates t (a ∷ as') bs xs h =
      elim (Bool-cases (is_full currencies (add_candidate currencies t a xs))) [
        | inl full ↦ ground (arith, full)
        | inr more ↦
            rw more (add_source-add_candidates t as' bs (add_candidate currencies t a xs) more)
      ]

  -- The second candidate, and the first.
  add_second :
      (t x : IndexedTransaction) (cs : List IndexedTransaction)
      → add_candidates currencies t cs (x ∷ []) ≡ x ∷ take 1 (unseen (x ∷ t ∷ []) cs)
  unfolding add_candidates unseen is_candidate in_ids
  add_second t x [] = refl
  add_second t x (c ∷ cs) = elim (Bool-cases (same_id c t)) [
    | inl self ↦ ground (arith, same_id_sym c t, add_second t x cs)
    | inr other ↦ elim (Bool-cases (same_id x c)) [
      | inl again ↦ ground (arith, same_id_sym c t, add_second t x cs)
      | inr fresh ↦ ground (arith, same_id_sym c t)
    ]
  ]

  add_first :
      (t : IndexedTransaction) (cs : List IndexedTransaction)
      → add_candidates currencies t cs [] ≡ take 2 (unseen (t ∷ []) cs)
  unfolding add_candidates unseen is_candidate in_ids
  add_first t [] = refl
  add_first t (c ∷ cs) = elim (Bool-cases (same_id c t)) [
    | inl self ↦ ground (arith, same_id_sym c t, add_first t cs)
    | inr other ↦ ground (arith, same_id_sym c t, add_second t c cs)
  ]

  chain :
      (t : IndexedTransaction) (a b c d : List IndexedTransaction)
      → add_source currencies t d
          (add_source currencies t c (add_source currencies t b (add_source currencies t a [])))
        ≡ take 2 (unseen (t ∷ []) (((a ++ b) ++ c) ++ d))
  chain t a b c d =
      ap (λ x. add_source currencies t d (add_source currencies t c x))
        (add_source-add_candidates t a b [] refl)
      ∙ ap (λ x. add_source currencies t d x) (add_source-add_candidates t (a ++ b) c [] refl)
      ∙ add_source-add_candidates t ((a ++ b) ++ c) d [] refl
      ∙ add_first t (((a ++ b) ++ c) ++ d)

  -- By definition: what the searches for the same currency, for a rate, for a Monobank and for a PKO
  -- exchange find over all transactions, in this order, without the transaction itself and without
  -- repetition.
  abbrev pub counterparts : IndexedTransaction → List IndexedTransaction → List IndexedTransaction
  counterparts t ts = unseen (t ∷ []) (
      ((same_currency_reference t ts ++ fx_reference t ts) ++ monobank_reference t ts)
      ++ pko_reference t ts)

  -- The candidates of a transaction, found by index, binary search and early exits, are the first two
  -- counterparts that a walk over all transactions finds: those of the opposite amount in the same
  -- currency, then by rate, then by the Monobank and then by the PKO evidence, each within 72 hours
  -- and in another account.
  pub transfer_matching_candidates_lem :
      (t : IndexedTransaction) (ts : List IndexedTransaction) (range_start range_end : Time)
      → transfer_matching_candidates currencies t (transfer_matching_index ts range_start range_end)
        ≡ take 2 (counterparts t ts)
  unfolding transfer_matching_candidates
  transfer_matching_candidates_lem t ts rs re =
      rw
        (
          same_currency_lem t ts rs re,
          fx_lem t ts rs re,
          monobank_lem t ts rs re,
          pko_lem t ts rs re,
        )
        (chain t (same_currency_reference t ts) (fx_reference t ts) (monobank_reference t ts)
          (pko_reference t ts))
