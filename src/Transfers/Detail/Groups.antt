-- ===== src/Transfers/Detail/Groups.antt =====
-- The rows of a transfer group after a link.
use sumweave.Base.Sorting.{sort_by-All, All-kept, length-keep-sort_by}
use sumweave.Base.{
  All-both, sort_by, ℕ, ◌≡◌, refl, ◌∙◌, subst, ◌⊎◌, inl, inr, Bool, true, false, Option, none, some,
  List, [], ◌∷◌, arith, ◌&&◌, not, ◌==◌, if◌then◌else◌, keep, length, All, All-map, All-keep,
  Bool-cases,
}
use sumweave.Base.Text.{Str, str_eq, str_eq_iff, str_eq_refl, trim_space, is_empty, bytes}
use sumweave.Transfers.Rows.{TransactionModel}
use sumweave.Transfers.Store.{
  transaction_ids_must_differ, TransferPairLinkParams, is_leg, update_legs, count_legs, linked_row,
}
use sumweave.Transfers.Store.Linked.{linked_row-KeepsKeys, is_either, fault_or, missing_or}
use sumweave.Transfers.Store.Eligible.{ArePrimaryIds}
use sumweave.Transfers.Service.Linking.{count_legs-update_legs}
use sumweave.Transfers.Service.Present.{no_legs}
use sumweave.Transfers.Detail.Ordered.{length-keep-keep}
use sumweave.Transfers.Detail.{
  found, row_of, matched_transfer_group_id, in_group, id_before, equals_column, sole_partner,
}

pub no_error :
    (same : Bool) (a b c d : Option Str) (n k : ℕ)
    → (if same
        then some transaction_ids_must_differ
        else fault_or a (fault_or b (missing_or n (fault_or c (missing_or k (fault_or d none))))))
      ≡ none
    → (same ≡ false) × (n ≡ 1) × (k ≡ 1)
no_error true a b c d n k h = cc
no_error false (some e) b c d n k h = cc
no_error false none (some e) c d n k h = cc
no_error false none none (some e) d n k h = ground arith
no_error false none none none (some e) n k h = ground arith
no_error false none none none none n k h = ground arith

module _ (params : TransferPairLinkParams) where
  open params use {
    tenant_id, first_transaction_id, second_transaction_id, transfer_group_id, transfer_matched_at,
  }

  abbrev pub after : List TransactionModel → List TransactionModel
  after ts =
      update_legs (is_either tenant_id first_transaction_id second_transaction_id)
        (linked_row params) ts

  -- No transaction of the table is in the new group.
  abbrev pub IsNewGroup : List TransactionModel → Type 0
  IsNewGroup ts = All (λ t. equals_column t.transfer_group_id transfer_group_id ≡ false) ts

  -- The group is a text that is not blank, and the match has a time.
  abbrev pub is_proper : Bool
  is_proper =
      str_eq (trim_space transfer_group_id) transfer_group_id
      && not (is_empty transfer_group_id)
      && not (transfer_matched_at == 0)

  abbrev not_first : TransactionModel → Bool
  not_first t = not (str_eq t.id first_transaction_id)

  -- Of the rows after the link: the others of the group are the second leg.
  abbrev pub IsSettled : TransactionModel → Type 0
  IsSettled t =
      ((in_group tenant_id transfer_group_id t && not_first t)
          ≡ is_leg tenant_id second_transaction_id t)
        × (equals_column t.transfer_group_id transfer_group_id ≡ false)
      ⊎ (((in_group tenant_id transfer_group_id t && not_first t)
            ≡ is_leg tenant_id second_transaction_id t)
          × (matched_transfer_group_id t ≡ some transfer_group_id))

  pub linked_group :
      is_proper ≡ true
      → (t : TransactionModel)
      → matched_transfer_group_id (linked_row params t) ≡ some transfer_group_id
  linked_group proper t =
      let same = (str_eq_iff (trim_space transfer_group_id) transfer_group_id).0 (ground arith) in
      ground (arith, proper, same, str_eq_refl (bytes "transfer"))

  pub after-IsSettled :
      (ts : List TransactionModel)
      → is_proper ≡ true
      → str_eq first_transaction_id second_transaction_id ≡ false
      → IsNewGroup ts
      → All IsSettled (after ts)
  unfolding update_legs
  after-IsSettled [] proper differ fresh = tt
  after-IsSettled (t ∷ ts) proper differ fresh =
      elim (Bool-cases (is_either tenant_id first_transaction_id second_transaction_id t)) [
        | inl leg ↦ rw leg (
          inr (
            ground (
              arith,
              leg,
              str_eq_refl transfer_group_id,
              str_eq_iff t.id first_transaction_id,
              str_eq_iff t.id second_transaction_id,
              str_eq_iff first_transaction_id second_transaction_id,
              differ,
            ),
            linked_group proper t,
          ),
          after-IsSettled ts proper differ fresh.1,
        )
        | inr other ↦ rw other (
          inl (ground (arith, other, fresh.0), fresh.0),
          after-IsSettled ts proper differ fresh.1,
        )
      ]

  -- The row of the first leg.
  pub first_row :
      (ts : List TransactionModel)
      → ArePrimaryIds ts
      → count_legs (is_leg tenant_id first_transaction_id) ts ≡ 1
      → (t : TransactionModel) × (row_of first_transaction_id (after ts)
          ≡ some (linked_row params t))
        × (t.id ≡ first_transaction_id)
        × (t.tenant_id ≡ tenant_id)
  unfolding row_of update_legs count_legs
  first_row [] primary one = ground arith
  first_row (t ∷ ts) primary one = elim (Bool-cases (str_eq t.id first_transaction_id)) [
    | inl here ↦
        let same = (str_eq_iff t.id first_transaction_id).0 here in
        let none_later =
          no_legs tenant_id first_transaction_id ts
            (subst (λ j. All (λ u. str_eq j u.id ≡ false) ts) same primary.0) in
        let mine : str_eq t.tenant_id tenant_id ≡ true = ground (arith, one, none_later) in
        (t, ground (arith, here, mine), same, (str_eq_iff t.tenant_id tenant_id).0 mine)
    | inr later ↦
        let (r, e, i, j) = first_row ts primary.1 (ground (arith, one, later)) in
        (r, ground (arith, later, e), i, j)
  ]

  -- The rows of the group without the first leg.
  unfoldable pub others : List TransactionModel → List TransactionModel
  others rows =
      keep not_first (sort_by id_before (keep (in_group tenant_id transfer_group_id) rows))

  abbrev pub IsSecond : TransactionModel → Type 0
  IsSecond t =
      (t.id ≡ second_transaction_id) × (matched_transfer_group_id t ≡ some transfer_group_id)

  other_leg :
      (t : TransactionModel)
      → IsSettled t
      → in_group tenant_id transfer_group_id t ≡ true
      → not_first t ≡ true
      → IsSecond t
  other_leg t (inl (e, outside)) h k = ground (arith, outside, h)
  other_leg t (inr (e, group)) h k =
      ((str_eq_iff t.id second_transaction_id).0 (ground (arith, e, h, k)), group)

  pub others-IsSecond :
      (rows : List TransactionModel) → All IsSettled rows → All IsSecond (others rows)
  unfolding others
  others-IsSecond rows all =
      let group = in_group tenant_id transfer_group_id in
      let P = λ (t : TransactionModel). IsSettled t × (group t ≡ true) in
      let ordered = sort_by id_before (keep group rows) in
      let in_order = sort_by-All P id_before (keep group rows) (
        All-both IsSettled (λ t. group t ≡ true) (keep group rows)
          (All-kept IsSettled group rows all) (All-keep group rows)) in
      All-map (λ (t : TransactionModel). P t × (not_first t ≡ true)) IsSecond
        (λ t h. other_leg t h.0.0 h.0.1 h.1) (keep not_first ordered)
        (All-both P (λ t. not_first t ≡ true) (keep not_first ordered)
          (All-kept P not_first ordered in_order) (All-keep not_first ordered))

  settled_test :
      (rows : List TransactionModel)
      → All IsSettled rows
      → All
          (λ t.
            (in_group tenant_id transfer_group_id t && not_first t)
            ≡ is_leg tenant_id second_transaction_id t)
          rows
  settled_test [] all = tt
  settled_test (t ∷ rows) all =
      ((elim all.0 [ inl h ↦ h.0 | inr h ↦ h.0 ]), settled_test rows all.1)

  pub one_other :
      (ts : List TransactionModel)
      → All IsSettled (after ts)
      → count_legs (is_leg tenant_id second_transaction_id) ts ≡ 1
      → length (others (after ts)) ≡ 1
  unfolding others
  one_other ts all one =
      length-keep-sort_by id_before not_first
        (keep (in_group tenant_id transfer_group_id) (after ts))
      ∙ length-keep-keep not_first (in_group tenant_id transfer_group_id)
          (is_leg tenant_id second_transaction_id) (after ts) (settled_test (after ts) all)
      ∙ count_legs-update_legs (linked_row params)
          (is_either tenant_id first_transaction_id second_transaction_id) tenant_id
          second_transaction_id ts (linked_row-KeepsKeys params)
      ∙ one

  pub sole_second :
      (items : List TransactionModel)
      → All IsSecond items
      → length items ≡ 1
      → (p : TransactionModel) × (sole_partner transfer_group_id items ≡ found p)
        × (p.id ≡ second_transaction_id)
  sole_second [] all one = ground arith
  sole_second (p ∷ q ∷ rest) all one = ground arith
  sole_second (p ∷ []) all one =
      (p, rw (all.0.1) (rw (str_eq_refl transfer_group_id) refl), all.0.0)
