-- ===== src/Transfers/Service/Linking.antt =====
-- The rows of a table after the planned pairs have been linked, each under its own group.
use sumweave.Base.{
  ℕ, suc, ◌≡◌, refl, ◌∙◌, inl, inr, Bool, true, false, none, List, [], ◌∷◌, arith, Bool-cases,
  if◌then◌else◌, All,
}
use sumweave.Base.Text.{Str, str_eq, str_eq_iff}
use sumweave.Transfers.Types.{TransferMatchingPair}
use sumweave.Transfers.Decide.Pairs.{shares}
use sumweave.Transfers.Rows.{TransactionModel}
use sumweave.Transfers.Store.{
  Faults, is_leg, update_legs, count_legs, linked_row, link_transfer_pair,
}
use sumweave.Transfers.Store.Linked.{KeepsKeys, linked_row-KeepsKeys, is_either, update_pair_lem}
use sumweave.Transfers.Service.{Outside, link_params}

abbrev pub no_faults : Faults
no_faults = record {
  begin_fault = none;
  first_fault = none;
  second_fault = none;
  commit_fault = none;
}

-- Nothing fails and nothing is cancelled.
pub record IsQuiet (o : Outside) : Type 0 where
  pub not_cancelled : (n : ℕ) → o.ctx_err n ≡ none
  pub loads : o.load_fault ≡ none
  pub links : (n : ℕ) → o.faults n ≡ no_faults

-- The row of a transaction after the pairs have been linked, the first of them as the nth.
unfoldable pub linked_by :
    Outside → Str → ℕ → List TransferMatchingPair → TransactionModel → TransactionModel
linked_by o tenant_id n [] t = t
linked_by o tenant_id n (p ∷ pairs) t =
    let rest = linked_by o tenant_id (suc n) pairs t in
    if is_either tenant_id p.first.id p.second.id t
    then linked_row (link_params o tenant_id n p) t
    else rest

unfoldable pub link_rows :
    Outside → Str → ℕ → List TransferMatchingPair → List TransactionModel → List TransactionModel
unfolding linked_by
link_rows o tenant_id n pairs [] = []
link_rows o tenant_id n pairs (t ∷ ts) =
    linked_by o tenant_id n pairs t ∷ link_rows o tenant_id n pairs ts

-- Each leg is one row, and the two legs differ.
abbrev pub IsReady : Str → List TransactionModel → TransferMatchingPair → Type 0
IsReady tenant_id ts p =
    (str_eq p.first.id p.second.id ≡ false)
    × (count_legs (is_leg tenant_id p.first.id) ts ≡ 1)
    × (count_legs (is_leg tenant_id p.second.id) ts ≡ 1)

pub count_legs-update_legs :
    (updates : TransactionModel → TransactionModel) (p : TransactionModel → Bool)
    (tenant_id i : Str) (ts : List TransactionModel)
    → KeepsKeys updates
    → count_legs (is_leg tenant_id i) (update_legs p updates ts)
      ≡ count_legs (is_leg tenant_id i) ts
unfolding count_legs update_legs
count_legs-update_legs updates p tenant_id i [] keeps = refl
count_legs-update_legs updates p tenant_id i (t ∷ ts) keeps = ground (
  arith,
  keeps.same_id t,
  keeps.same_tenant t,
  count_legs-update_legs updates p tenant_id i ts keeps,
)

module _ (o : Outside) (quiet : IsQuiet o) (tenant_id : Str) where
  open quiet use {not_cancelled, links}

  unfoldable pub linked_table :
      ℕ → TransferMatchingPair → List TransactionModel → List TransactionModel
  linked_table n p ts =
      update_legs (is_either tenant_id p.first.id p.second.id)
        (linked_row (link_params o tenant_id n p)) ts

  pub link_ready :
      (n : ℕ) (p : TransferMatchingPair) (ts : List TransactionModel)
      → IsReady tenant_id ts p
      → link_transfer_pair (o.faults n) (link_params o tenant_id n p) ts
        ≡ (none, linked_table n p ts)
  unfolding link_transfer_pair linked_table
  link_ready n p ts ready =
      update_pair_lem (linked_row (link_params o tenant_id n p))
        (linked_row-KeepsKeys (link_params o tenant_id n p)) tenant_id (o.faults n) p.first.id
        p.second.id ts
      ∙ rw (links n, ready.0, ready.1, ready.2) refl

  pub legs_remain :
      (n : ℕ) (p : TransferMatchingPair) (pairs : List TransferMatchingPair)
      (ts : List TransactionModel)
      → All (IsReady tenant_id ts) pairs
      → All (IsReady tenant_id (linked_table n p ts)) pairs
  unfolding linked_table
  legs_remain n p [] ts all = tt
  legs_remain n p (q ∷ pairs) ts all =
      let updates = linked_row (link_params o tenant_id n p) in
      let keeps = linked_row-KeepsKeys (link_params o tenant_id n p) in
      let here = is_either tenant_id p.first.id p.second.id in
      (
        (
          all.0.0,
          count_legs-update_legs updates here tenant_id q.first.id ts keeps ∙ all.0.1,
          count_legs-update_legs updates here tenant_id q.second.id ts keeps ∙ all.0.2,
        ),
        legs_remain n p pairs ts all.1,
      )

  -- A leg of one pair is no leg of the others.
  not_linked_again :
      (n : ℕ) (p : TransferMatchingPair) (pairs : List TransferMatchingPair) (t : TransactionModel)
      → is_either tenant_id p.first.id p.second.id t ≡ true
      → All (λ q. shares p q ≡ false) pairs
      → linked_by o tenant_id n pairs t ≡ t
  unfolding linked_by
  not_linked_again n p [] t h all = refl
  not_linked_again n p (q ∷ pairs) t h all = ground (
    arith,
    all.0,
    not_linked_again (suc n) p pairs t h all.1,
    str_eq_iff t.id p.first.id,
    str_eq_iff t.id p.second.id,
    str_eq_iff t.id q.first.id,
    str_eq_iff t.id q.second.id,
    str_eq_iff p.first.id q.first.id,
    str_eq_iff p.first.id q.second.id,
    str_eq_iff p.second.id q.first.id,
    str_eq_iff p.second.id q.second.id,
  )

  pub link_rows-linked_table :
      (n : ℕ) (p : TransferMatchingPair) (pairs : List TransferMatchingPair)
      (ts : List TransactionModel)
      → All (λ q. shares p q ≡ false) pairs
      → link_rows o tenant_id (suc n) pairs (linked_table n p ts)
        ≡ link_rows o tenant_id n (p ∷ pairs) ts
  unfolding link_rows linked_table update_legs linked_by
  link_rows-linked_table n p pairs [] all = refl
  link_rows-linked_table n p pairs (t ∷ ts) all =
      elim (Bool-cases (is_either tenant_id p.first.id p.second.id t)) [
        | inl leg ↦ rw leg (λ i.
            not_linked_again (suc n) p pairs (linked_row (link_params o tenant_id n p) t) leg all i
            ∷ link_rows-linked_table n p pairs ts all i)
        | inr other ↦
            rw other (λ i.
              linked_by o tenant_id (suc n) pairs t ∷ link_rows-linked_table n p pairs ts all i)
      ]
