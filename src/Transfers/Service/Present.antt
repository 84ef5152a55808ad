-- ===== src/Transfers/Service/Present.antt =====
-- The rows from which the transactions of a planned pair were loaded.
use sumweave.Base.{
  ◌≡◌, refl, sym, ap, ◌∙◌, subst, inl, inr, Bool, true, false, some, List, [], ◌∷◌, arith,
  Option-cases, Bool-cases, ◌||◌, All,
}
use sumweave.Base.Text.{Str, str_eq, str_eq_iff}
use sumweave.Transfers.Types.{
  Time, TransferMatchingTransaction, TransferMatchingPair, IndexedTransaction,
}
use sumweave.Transfers.Candidates.{same_id}
use sumweave.Transfers.Decide.Pairs.{IsPartnered}
use sumweave.Transfers.Decide.Mutual.{find_id, HasUniqueIds}
use sumweave.Transfers.Decide.Accepted.{only_counterpart, partner_from}
use sumweave.Transfers.Rows.{TransactionModel, Tables}
use sumweave.Transfers.Loading.{
  is_eligible, sole_connection, matched_connections, list_eligible_transfer_matching_transactions,
}
use sumweave.Transfers.Store.{is_leg, count_legs}
use sumweave.Transfers.Store.Eligible.{ArePrimaryIds, AreDistinctRows, eligible_tenant, selected_id}
use sumweave.Transfers.Evidence.{Libraries, index_transaction, index_transactions}

in_rows : Str → List TransferMatchingTransaction → Bool
in_rows i [] = false
in_rows i (r ∷ rs) = str_eq r.id i || in_rows i rs

find_id-in_rows :
    (l : Libraries) (i : Str) (found : List TransferMatchingTransaction) (t : IndexedTransaction)
    → find_id i (index_transactions l found) ≡ some t
    → in_rows i found ≡ true
unfolding find_id index_transactions index_transaction in_rows
find_id-in_rows l i [] t h = cc
find_id-in_rows l i (r ∷ found) t h = elim (Bool-cases (str_eq r.id i)) [
  | inl here ↦ rw here refl
  | inr later ↦ rw later (find_id-in_rows l i found t (ground (arith, h, later)))
]

only_counterpart-in_rows :
    (l : Libraries) (i j : Str) (found : List TransferMatchingTransaction)
    → only_counterpart l.currencies (index_transactions l found) i ≡ some j
    → in_rows i found ≡ true
unfolding only_counterpart
only_counterpart-in_rows l i j found h =
    elim (Option-cases (find_id i (index_transactions l found))) [
      | inr (t, e) ↦ find_id-in_rows l i found t e
      | inl e ↦ cc (sym (ap (partner_from l.currencies (index_transactions l found)) e) ∙ h)
    ]

other_rows :
    (l : Libraries) (r : TransferMatchingTransaction) (found : List TransferMatchingTransaction)
    → All (λ s. str_eq r.id s.id ≡ false) found
    → All (λ c. same_id (index_transaction l r) c ≡ false) (index_transactions l found)
unfolding index_transactions index_transaction
other_rows l r [] all = tt
other_rows l r (s ∷ found) all = (all.0, other_rows l r found all.1)

-- Distinct rows make distinct transactions.
pub index_transactions-HasUniqueIds :
    (l : Libraries) (found : List TransferMatchingTransaction)
    → AreDistinctRows found
    → HasUniqueIds (index_transactions l found)
unfolding index_transactions
index_transactions-HasUniqueIds l [] h = tt
index_transactions-HasUniqueIds l (r ∷ found) h =
    (other_rows l r found h.0, index_transactions-HasUniqueIds l found h.1)

pub no_legs :
    (tenant_id i : Str) (ts : List TransactionModel)
    → All (λ u. str_eq i u.id ≡ false) ts
    → count_legs (is_leg tenant_id i) ts ≡ 0
unfolding count_legs
no_legs tenant_id i [] all = refl
no_legs tenant_id i (t ∷ ts) all =
    ground (arith, all.0, str_eq_iff i t.id, str_eq_iff t.id i, no_legs tenant_id i ts all.1)

module _ (tables : Tables) (tenant_id : Str) (rs re : Time) where
  abbrev eligible : List TransactionModel → List TransferMatchingTransaction
  eligible ts = list_eligible_transfer_matching_transactions tables tenant_id rs re ts

  not_among :
      (i j : Str) (ts : List TransactionModel)
      → All (λ u. str_eq j u.id ≡ false) ts
      → in_rows i (eligible ts) ≡ true
      → str_eq j i ≡ false
  unfolding list_eligible_transfer_matching_transactions in_rows
  not_among i j [] all h = cc
  not_among i j (t ∷ ts) all h = elim (Bool-cases (is_eligible tables tenant_id rs re t)) [
    | inr closed ↦ not_among i j ts all.1 (ground (arith, h, closed))
    | inl chosen ↦
        let c =
          sole_connection (matched_connections t.id tenant_id tables.connections tables.matches) in
        elim (Bool-cases (str_eq t.id i)) [
          | inl here ↦ ground (arith, all.0, here, str_eq_iff t.id i)
          | inr later ↦
              not_among i j ts all.1
                (ground (arith, h, chosen, later, selected_id tables tenant_id t c))
        ]
  ]

  one_leg :
      (i : Str) (ts : List TransactionModel)
      → ArePrimaryIds ts
      → in_rows i (eligible ts) ≡ true
      → count_legs (is_leg tenant_id i) ts ≡ 1
  unfolding list_eligible_transfer_matching_transactions count_legs in_rows
  one_leg i [] primary h = cc
  one_leg i (t ∷ ts) primary h = elim (Bool-cases (is_eligible tables tenant_id rs re t)) [
    | inr closed ↦
        let later : in_rows i (eligible ts) ≡ true = ground (arith, h, closed) in
        ground (arith, not_among i t.id ts primary.0 later, one_leg i ts primary.1 later)
    | inl chosen ↦
        let c =
          sole_connection (matched_connections t.id tenant_id tables.connections tables.matches) in
        elim (Bool-cases (str_eq t.id i)) [
          | inl here ↦
              let same = (str_eq_iff t.id i).0 here in
              let others =
                no_legs tenant_id i ts
                  (subst (λ j. All (λ u. str_eq j u.id ≡ false) ts) same primary.0) in
              ground (arith, here, others, eligible_tenant tables tenant_id rs re t chosen)
          | inr later ↦ ground (
            arith,
            later,
            one_leg i ts primary.1
                (ground (arith, h, chosen, later, selected_id tables tenant_id t c)),
          )
        ]
  ]

  -- Each transaction of a planned pair is exactly one row of the tenant.
  pub partnered_legs :
      (l : Libraries) (p : TransferMatchingPair) (ts : List TransactionModel)
      → ArePrimaryIds ts
      → IsPartnered (only_counterpart l.currencies (index_transactions l (eligible ts))) p
      → (count_legs (is_leg tenant_id p.first.id) ts ≡ 1)
        × (count_legs (is_leg tenant_id p.second.id) ts ≡ 1)
  partnered_legs l p ts primary h = (
    one_leg p.first.id ts primary
        (only_counterpart-in_rows l p.first.id p.second.id (eligible ts) h.first_partner),
    one_leg p.second.id ts primary
        (only_counterpart-in_rows l p.second.id p.first.id (eligible ts) h.second_partner),
  )
