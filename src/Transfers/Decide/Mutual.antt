-- ===== src/Transfers/Decide/Mutual.antt =====
-- What is known of a candidate of a loaded transaction.
use sumweave.Base.{
  All-both, ◌+◌, ◌≤◌, ◌≡◌, inl, inr, Bool, true, false, Option, none, some, List, [], ◌∷◌, ◌++◌,
  ◌&&◌, leb, if◌then◌else◌, arith, keep, All, All-append, All-take, All-map, All-keep, Bool-cases,
}
use sumweave.Base.Text.{Str, str_eq, str_eq_refl}
use sumweave.Base.Int.{◌==ℤ◌}
use sumweave.Transfers.Types.{Time, IndexedTransaction, transfer_matching_window, min_int64, negate}
use sumweave.Transfers.Fx.{Currencies}
use sumweave.Transfers.Index.{
  amount_key_eq, fx_key_eq, monobank_key_eq, pko_key_eq, amount_key_for, fx_key_for,
  monobank_key_for, pko_key_for, transfer_matching_index,
}
use sumweave.Transfers.Index.Buckets.{has_key}
use sumweave.Transfers.Index.{sorts_before}
use sumweave.Base.Sorting.{sort_by-All, All-kept}
use sumweave.Transfers.Candidates.{
  window_start, window_end, same_id, same_account, accepts_same_currency, accepts_fx,
  accepts_monobank, accepts_pko, monobank_counterpart_key, transfer_matching_candidates,
}
use sumweave.Transfers.Candidates.Search.{first_two}
use sumweave.Transfers.Candidates.Searches.{
  under_key, same_currency_reference, monobank_reference, pko_reference, in_ids, unseen,
}
use sumweave.Transfers.Candidates.Reference.{
  fx_reference, counterparts, transfer_matching_candidates_lem,
}

-- The transaction of the identifier.
unfoldable pub find_id : Str → List IndexedTransaction → Option IndexedTransaction
find_id i [] = none
find_id i (t ∷ ts) = if str_eq t.transaction.id i then some t else find_id i ts

-- No two transactions have the same identifier: it is the primary key of their table.
abbrev pub HasUniqueIds : List IndexedTransaction → Type 0
HasUniqueIds [] = Unit
HasUniqueIds (t ∷ ts) = All (λ c. same_id t c ≡ false) ts × HasUniqueIds ts

abbrev pub IsFound : List IndexedTransaction → IndexedTransaction → Type 0
IsFound ts t = find_id t.transaction.id ts ≡ some t

behind_head :
    (t : IndexedTransaction) (ts us : List IndexedTransaction)
    → All (λ c. same_id t c ≡ false) us
    → All (IsFound ts) us
    → All (IsFound (t ∷ ts)) us
unfolding find_id
behind_head t ts [] h all = tt
behind_head t ts (u ∷ us) h all = (ground (arith, h.0, all.0), behind_head t ts us h.1 all.1)

pub All-IsFound : (ts : List IndexedTransaction) → HasUniqueIds ts → All (IsFound ts) ts
unfolding find_id
All-IsFound [] h = tt
All-IsFound (t ∷ ts) h =
    (ground (arith, str_eq_refl t.transaction.id), behind_head t ts ts h.0 (All-IsFound ts h.1))

pub record Fits (t c : IndexedTransaction) : Type 0 where
  pub other_account : same_account c t ≡ false
  pub from_start :
      t.transaction.effective_at ≤ c.transaction.effective_at + transfer_matching_window
  pub to_end : c.transaction.effective_at ≤ t.transaction.effective_at + transfer_matching_window

-- A counterpart among the transactions of which P holds.
module _ (P : IndexedTransaction → Type 0) (t : IndexedTransaction) where
  abbrev Good : IndexedTransaction → Type 0
  Good c = P c × Fits t c

  first_two-Good :
      (accepts : IndexedTransaction → Bool) (bucket : List IndexedTransaction)
      → ((c : IndexedTransaction) → accepts c ≡ true → same_account c t ≡ false)
      → All P bucket
      → All Good (first_two accepts t bucket)
  unfolding first_two
  first_two-Good accepts bucket other all =
      let test = λ (c : IndexedTransaction).
        leb (window_start t) c.transaction.effective_at
        && (leb c.transaction.effective_at (window_end t) && accepts c) in
      All-take Good 2 (keep test bucket) (
        All-map (λ c. P c × (test c ≡ true)) Good
          (λ c h. (
            h.0,
            record {
              other_account = other c (ground (arith, h.1));
              from_start = ground (arith, h.1);
              to_end = ground (arith, h.1);
            },
          ))
          (keep test bucket)
          (All-both P (λ c. test c ≡ true) (keep test bucket) (All-kept P test bucket all)
            (All-keep test bucket)))

  under_key-All :
      {K : Type 0} (key_eq : K → K → Bool) (key_for : IndexedTransaction → Option K) (k : K)
      (ts : List IndexedTransaction)
      → All P ts
      → All P (under_key key_eq key_for k ts)
  unfolding under_key
  under_key-All key_eq key_for k ts all =
      sort_by-All P sorts_before (keep (has_key key_eq key_for k) ts)
        (All-kept P (has_key key_eq key_for k) ts all)

  searched-Good :
      {K : Type 0} (key_eq : K → K → Bool) (key_for : IndexedTransaction → Option K)
      (accepts : IndexedTransaction → Bool) (ts : List IndexedTransaction)
      → ((c : IndexedTransaction) → accepts c ≡ true → same_account c t ≡ false)
      → All P ts
      → (k : Option K)
      → All Good
          (elim k [ none ↦ [] | some j ↦ first_two accepts t (under_key key_eq key_for j ts) ])
  searched-Good key_eq key_for accepts ts other all none = tt
  searched-Good key_eq key_for accepts ts other all (some k) =
      first_two-Good accepts (under_key key_eq key_for k ts) other
        (under_key-All key_eq key_for k ts all)

  unseen-All : (seen cs : List IndexedTransaction) → All Good cs → All Good (unseen seen cs)
  unfolding unseen
  unseen-All seen [] all = tt
  unseen-All seen (c ∷ cs) all = elim (Bool-cases (in_ids c seen)) [
    | inl again ↦ rw (again, unseen) (unseen-All seen cs all.1)
    | inr fresh ↦ rw (fresh, unseen) (all.0, unseen-All (c ∷ seen) cs all.1)
  ]

-- What is there already is not found again.
unseen_other :
    (t : IndexedTransaction) (seen cs : List IndexedTransaction)
    → ((c : IndexedTransaction) → in_ids c seen ≡ false → same_id t c ≡ false)
    → All (λ c. same_id t c ≡ false) (unseen seen cs)
unfolding unseen in_ids
unseen_other t seen [] h = tt
unseen_other t seen (c ∷ cs) h = elim (Bool-cases (in_ids c seen)) [
  | inl again ↦ rw (again, unseen) (unseen_other t seen cs h)
  | inr fresh ↦
      rw (fresh, unseen) (h c fresh, unseen_other t (c ∷ seen) cs (λ d k. h d (ground (arith, k))))
]

module _ (currencies : Currencies) (P : IndexedTransaction → Type 0) (t : IndexedTransaction)
    (ts : List IndexedTransaction) (all : All P ts) where
  same_currency-Good : All (λ c. P c × Fits t c) (same_currency_reference t ts)
  unfolding same_currency_reference
  same_currency-Good = elim (Bool-cases (t.transaction.amount_minor ==ℤ min_int64)) [
    | inl least ↦ rw least tt
    | inr other ↦ rw other (
        first_two-Good P t (accepts_same_currency t)
          (under_key amount_key_eq amount_key_for
            (record {
              currency = t.transaction.currency;
              amount = negate t.transaction.amount_minor;
            })
            ts)
          (λ c h. ground (arith, h))
          (under_key-All P t amount_key_eq amount_key_for
            (record {
              currency = t.transaction.currency;
              amount = negate t.transaction.amount_minor;
            })
            ts all))
  ]

  pub counterparts-Fits : All (λ c. P c × Fits t c) (counterparts currencies t ts)
  unfolding fx_reference monobank_reference pko_reference
  counterparts-Fits =
      let Q = λ (c : IndexedTransaction). P c × Fits t c in
      let a = same_currency_reference t ts in
      let b = fx_reference currencies t ts in
      let c = monobank_reference t ts in
      let d = pko_reference t ts in
      let b-Good =
        searched-Good P t fx_key_eq fx_key_for (accepts_fx currencies t) ts
          (λ c h. ground (arith, h)) all (fx_key_for t) in
      let c-Good =
        searched-Good P t monobank_key_eq monobank_key_for (accepts_monobank t) ts
          (λ c h. ground (arith, h)) all (monobank_counterpart_key t) in
      let d-Good =
        searched-Good P t pko_key_eq pko_key_for (accepts_pko t) ts (λ c h. ground (arith, h)) all
          (pko_key_for t) in
      unseen-All P t (t ∷ []) (((a ++ b) ++ c) ++ d) (
        All-append Q ((a ++ b) ++ c) d
          (All-append Q (a ++ b) c (All-append Q a b same_currency-Good b-Good) c-Good) d-Good)

  pub counterparts_other : All (λ c. same_id t c ≡ false) (counterparts currencies t ts)
  unfolding in_ids
  counterparts_other =
      unseen_other t (t ∷ [])
        (((same_currency_reference t ts ++ fx_reference currencies t ts) ++ monobank_reference t ts)
          ++ pko_reference t ts)
        (λ c h. ground (arith, h))

  -- What holds of the candidates.
  pub candidates_fit :
      (rs re : Time)
      → All
          (λ c. (P c × Fits t c) × (same_id t c ≡ false))
          (transfer_matching_candidates currencies t (transfer_matching_index ts rs re))
  candidates_fit rs re = rw (transfer_matching_candidates_lem currencies t ts rs re) (
      All-take (λ c. (P c × Fits t c) × (same_id t c ≡ false)) 2 (counterparts currencies t ts)
        (All-both (λ c. P c × Fits t c) (λ c. same_id t c ≡ false) (counterparts currencies t ts)
          counterparts-Fits counterparts_other))
