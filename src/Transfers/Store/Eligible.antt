-- ===== src/Transfers/Store/Eligible.antt =====
-- Which rows the load returns once a pair is linked or unlinked.
use sumweave.Base.{
  ◌≡◌, refl, sym, ap, ◌∙◌, inl, inr, Bool, true, false, Option, none, some, List, [], ◌∷◌, ◌&&◌,
  not, arith, All, Bool-cases, subst,
}
use sumweave.Base.Text.{Str, str_eq}
use sumweave.Transfers.Types.{Time, TransferMatchingTransaction}
use sumweave.Transfers.Rows.{TransactionModel, Tables, BankConnectionModel}
use sumweave.Transfers.Loading.{
  is_eligible, selected, sole_connection, matched_connections,
  list_eligible_transfer_matching_transactions,
}
use sumweave.Transfers.Store.{
  Faults, update_legs, update_pair, TransferPairLinkParams, TransferPairUnlinkParams, linked_row,
  unlinked_row, link_transfer_pair, unlink_transfer_pair,
}
use sumweave.Transfers.Store.Linked.{
  KeepsKeys, linked_row-KeepsKeys, unlinked_row-KeepsKeys, is_either, pair_error, changed_table,
  update_pair_lem,
}

-- A row that is neither of two transactions.
abbrev pub is_other : Str → Str → TransferMatchingTransaction → Bool
is_other first second r = not (str_eq r.id first) && not (str_eq r.id second)

pub selected_id :
    (tables : Tables) (tenant_id : Str) (t : TransactionModel) (c : Option BankConnectionModel)
    → (selected tables tenant_id t c).id ≡ t.id
unfolding selected
selected_id tables tenant_id t none = refl
selected_id tables tenant_id t (some c) = refl

pub eligible_tenant :
    (tables : Tables) (tenant_id : Str) (rs re : Time) (t : TransactionModel)
    → is_eligible tables tenant_id rs re t ≡ true
    → str_eq t.tenant_id tenant_id ≡ true
unfolding is_eligible
eligible_tenant tables tenant_id rs re t h = ground arith

linked_not_eligible :
    (tables : Tables) (tenant_id : Str) (rs re : Time) (params : TransferPairLinkParams)
    (t : TransactionModel)
    → is_eligible tables tenant_id rs re (linked_row params t) ≡ false
unfolding is_eligible
linked_not_eligible tables tenant_id rs re params t = ground arith

unlinked_not_eligible :
    (tables : Tables) (tenant_id : Str) (rs re : Time) (params : TransferPairUnlinkParams)
    (t : TransactionModel)
    → is_eligible tables tenant_id rs re (unlinked_row params t) ≡ false
unfolding is_eligible
unlinked_not_eligible tables tenant_id rs re params t = ground arith

module _ (tables : Tables) (tenant_id : Str) (rs re : Time) where
  abbrev eligible : List TransactionModel → List TransferMatchingTransaction
  eligible ts = list_eligible_transfer_matching_transactions tables tenant_id rs re ts

  eligible_others :
      (updates : TransactionModel → TransactionModel) (first second : Str)
      (ts : List TransactionModel)
      → ((t : TransactionModel) → is_eligible tables tenant_id rs re (updates t) ≡ false)
      → All
          (λ r. is_other first second r ≡ true)
          (eligible (update_legs (is_either tenant_id first second) updates ts))
  unfolding list_eligible_transfer_matching_transactions update_legs
  eligible_others updates first second [] closed = tt
  eligible_others updates first second (t ∷ ts) closed =
      let rest = eligible_others updates first second ts closed in
      elim (Bool-cases (is_either tenant_id first second t)) [
        | inl leg ↦ rw (leg, closed t) rest
        | inr other ↦ elim (Bool-cases (is_eligible tables tenant_id rs re t)) [
          | inr closed_row ↦ rw (other, closed_row) rest
          | inl open_row ↦
              rw (other, open_row)
                (
                  ground (
                    arith,
                    eligible_tenant tables tenant_id rs re t open_row,
                    other,
                    selected_id tables tenant_id t (
                        sole_connection
                          (matched_connections t.id tenant_id tables.connections tables.matches)),
                  ),
                  rest,
                )
        ]
      ]

  after_update :
      (updates : TransactionModel → TransactionModel) (faults : Faults) (first second : Str)
      (ts ts' : List TransactionModel)
      → KeepsKeys updates
      → ((t : TransactionModel) → is_eligible tables tenant_id rs re (updates t) ≡ false)
      → update_pair faults tenant_id first second updates ts ≡ (none, ts')
      → All (λ r. is_other first second r ≡ true) (eligible ts')
  after_update updates faults first second ts ts' keeps closed h =
      subst (λ rows. All (λ r. is_other first second r ≡ true) (eligible rows))
        (changed_table (pair_error faults tenant_id first second ts)
          (update_legs (is_either tenant_id first second) updates ts) ts ts'
          (sym (update_pair_lem updates keeps tenant_id faults first second ts) ∙ h))
        (eligible_others updates first second ts closed)

-- Once LinkTransferPair has returned without an error, no load of the tenant, over any range, returns
-- either leg: a linked transaction is not matched again.
pub link_transfer_pair-list_eligible :
    (tables : Tables) (rs re : Time) (faults : Faults) (params : TransferPairLinkParams)
    (ts ts' : List TransactionModel)
    → link_transfer_pair faults params ts ≡ (none, ts')
    → All
        (λ r. is_other params.first_transaction_id params.second_transaction_id r ≡ true)
        (list_eligible_transfer_matching_transactions tables params.tenant_id rs re ts')
unfolding link_transfer_pair
link_transfer_pair-list_eligible tables rs re faults params ts ts' h =
    after_update tables params.tenant_id rs re (linked_row params) faults
      params.first_transaction_id params.second_transaction_id ts ts' (linked_row-KeepsKeys params)
      (linked_not_eligible tables params.tenant_id rs re params) h

-- Once UnlinkTransferPair has returned without an error, no load of the tenant, over any range, returns
-- either leg: a pair that was taken apart is not matched again.
pub unlink_transfer_pair-list_eligible :
    (tables : Tables) (rs re : Time) (faults : Faults) (params : TransferPairUnlinkParams)
    (ts ts' : List TransactionModel)
    → unlink_transfer_pair faults params ts ≡ (none, ts')
    → All
        (λ r. is_other params.first_transaction_id params.second_transaction_id r ≡ true)
        (list_eligible_transfer_matching_transactions tables params.tenant_id rs re ts')
unfolding unlink_transfer_pair
unlink_transfer_pair-list_eligible tables rs re faults params ts ts' h =
    after_update tables params.tenant_id rs re (unlinked_row params) faults
      params.first_transaction_id params.second_transaction_id ts ts'
      (unlinked_row-KeepsKeys params) (unlinked_not_eligible tables params.tenant_id rs re params) h

-- The identifier is the primary key of the transactions.
abbrev pub ArePrimaryIds : List TransactionModel → Type 0
ArePrimaryIds [] = Unit
ArePrimaryIds (t ∷ ts) = All (λ u. str_eq t.id u.id ≡ false) ts × ArePrimaryIds ts

abbrev pub AreDistinctRows : List TransferMatchingTransaction → Type 0
AreDistinctRows [] = Unit
AreDistinctRows (r ∷ rs) = All (λ s. str_eq r.id s.id ≡ false) rs × AreDistinctRows rs

eligible-other_id :
    (tables : Tables) (tenant_id : Str) (rs re : Time) (i : Str) (ts : List TransactionModel)
    → All (λ u. str_eq i u.id ≡ false) ts
    → All
        (λ s. str_eq i s.id ≡ false)
        (list_eligible_transfer_matching_transactions tables tenant_id rs re ts)
unfolding list_eligible_transfer_matching_transactions
eligible-other_id tables tenant_id rs re i [] all = tt
eligible-other_id tables tenant_id rs re i (t ∷ ts) all =
    let rest = eligible-other_id tables tenant_id rs re i ts all.1 in
    elim (Bool-cases (is_eligible tables tenant_id rs re t)) [
      | inr closed ↦ rw closed rest
      | inl chosen ↦
          let c =
            sole_connection
              (matched_connections t.id tenant_id tables.connections tables.matches) in
          rw chosen (ap (str_eq i) (selected_id tables tenant_id t c) ∙ all.0, rest)
    ]

-- The joins return each transaction at most once.
pub list_eligible-AreDistinctRows :
    (tables : Tables) (tenant_id : Str) (rs re : Time) (ts : List TransactionModel)
    → ArePrimaryIds ts
    → AreDistinctRows (list_eligible_transfer_matching_transactions tables tenant_id rs re ts)
unfolding list_eligible_transfer_matching_transactions
list_eligible-AreDistinctRows tables tenant_id rs re [] h = tt
list_eligible-AreDistinctRows tables tenant_id rs re (t ∷ ts) h =
    let rest = list_eligible-AreDistinctRows tables tenant_id rs re ts h.1 in
    elim (Bool-cases (is_eligible tables tenant_id rs re t)) [
      | inr closed ↦ rw closed rest
      | inl chosen ↦
          let c =
            sole_connection
              (matched_connections t.id tenant_id tables.connections tables.matches) in
          rw chosen (
            subst
                (λ i.
                  All (λ s. str_eq i s.id ≡ false)
                    (list_eligible_transfer_matching_transactions tables tenant_id rs re ts))
                (sym (selected_id tables tenant_id t c))
                (eligible-other_id tables tenant_id rs re t.id ts h.0),
            rest,
          )
    ]
