-- ===== src/Transfers/Detail/Partners.antt =====
-- What a link shows to a reader: `GetTransferPartner` of finance/transfer_detail_service.go after a link.
use sumweave.Base.{◌≡◌, refl, sym, ap, ◌∙◌, subst, true, none, some, List, arith}
use sumweave.Base.Text.{Str, str_eq, str_eq_iff, trim_space}
use sumweave.Transfers.Rows.{TransactionModel}
use sumweave.Transfers.Store.{
  Faults, TransferPairLinkParams, is_leg, count_legs, linked_row, link_transfer_pair,
}
use sumweave.Transfers.Store.Linked.{
  linked_row-KeepsKeys, pair_error, error_of, changed_table, update_pair_lem,
}
use sumweave.Transfers.Store.Eligible.{ArePrimaryIds}
use sumweave.Transfers.Detail.{
  TenantMembership, DetailFaults, found, is_tenant_member, row_of, require_tenant_transaction,
  list_transfer_group_transactions, sole_partner, partner_in, partner_of_source,
  get_transfer_partner,
}
use sumweave.Transfers.Detail.Groups.{
  no_error, after, IsNewGroup, is_proper, linked_group, after-IsSettled, first_row, others,
  others-IsSecond, one_other, sole_second,
}

abbrev pub no_detail_faults : DetailFaults
no_detail_faults = record { member_fault = none; get_fault = none; list_fault = none }

module _ (params : TransferPairLinkParams) where
  open params use {
    tenant_id, first_transaction_id, second_transaction_id, transfer_group_id, transfer_matched_at,
  }

  source_found :
      (members : List TenantMembership) (user : Str) (rows : List TransactionModel)
      (s : TransactionModel)
      → trim_space tenant_id ≡ tenant_id
      → trim_space first_transaction_id ≡ first_transaction_id
      → is_tenant_member tenant_id (trim_space user) members ≡ true
      → row_of first_transaction_id rows ≡ some s
      → s.tenant_id ≡ tenant_id
      → require_tenant_transaction no_detail_faults members
          (record {
            actor_user_id = user;
            tenant_id = tenant_id;
            transaction_id = first_transaction_id;
          })
          rows
        ≡ found s
  unfolding require_tenant_transaction
  source_found members user rows s tenant first member row mine =
      rw (tenant, member, first, first, row)
        (ground (arith, str_eq_iff s.tenant_id tenant_id, mine))

  partner_shown :
      (rows : List TransactionModel) (s : TransactionModel)
      → trim_space tenant_id ≡ tenant_id
      → trim_space transfer_group_id ≡ transfer_group_id
      → s.id ≡ first_transaction_id
      → s.tenant_id ≡ tenant_id
      → partner_in no_detail_faults rows s (some transfer_group_id)
        ≡ sole_partner transfer_group_id (others params rows)
  unfolding others list_transfer_group_transactions
  partner_shown rows s tenant group same mine = rw (mine, tenant, group, same) refl

  -- Once a link under a new group, which is not blank and has no spaces around it, has returned without an
  -- error, a member of the tenant who asks for the partner of the first leg is given the second, provided
  -- that the queries succeed and that neither identifier has spaces around it.
  pub link_transfer_pair-get_transfer_partner :
      (faults : Faults) (members : List TenantMembership) (user : Str)
      (ts ts' : List TransactionModel)
      → ArePrimaryIds ts
      → IsNewGroup params ts
      → is_proper params ≡ true
      → trim_space tenant_id ≡ tenant_id
      → trim_space first_transaction_id ≡ first_transaction_id
      → is_tenant_member tenant_id (trim_space user) members ≡ true
      → link_transfer_pair faults params ts ≡ (none, ts')
      → (p : TransactionModel) × (get_transfer_partner no_detail_faults members
            (record {
              actor_user_id = user;
              tenant_id = tenant_id;
              transaction_id = first_transaction_id;
            })
            ts'
          ≡ found p)
        × (p.id ≡ second_transaction_id)
  unfolding link_transfer_pair get_transfer_partner
  link_transfer_pair-get_transfer_partner faults members user ts ts' primary fresh proper tenant
        first member linked =
      let e = pair_error faults tenant_id first_transaction_id second_transaction_id ts in
      let as_changed =
        sym (
          update_pair_lem (linked_row params) (linked_row-KeepsKeys params) tenant_id faults
            first_transaction_id second_transaction_id ts)
        ∙ linked in
      let (differ, one, another) =
        no_error (str_eq first_transaction_id second_transaction_id) faults.begin_fault
          faults.first_fault faults.second_fault faults.commit_fault
          (count_legs (is_leg tenant_id first_transaction_id) ts)
          (count_legs (is_leg tenant_id second_transaction_id) ts)
          (error_of e (after params ts) ts ts' as_changed) in
      let settled = after-IsSettled params ts proper differ fresh in
      let (t, row, same, mine) = first_row params ts primary one in
      let (p, shown, second) =
        sole_second params (others params (after params ts))
          (others-IsSecond params (after params ts) settled)
          (one_other params ts settled another) in
      let trimmed =
        (str_eq_iff (trim_space transfer_group_id) transfer_group_id).0 (ground arith) in
      (
        p,
        subst
            (λ rows.
              get_transfer_partner no_detail_faults members
                (record {
                  actor_user_id = user;
                  tenant_id = tenant_id;
                  transaction_id = first_transaction_id;
                })
                rows
              ≡ found p)
            (changed_table e (after params ts) ts ts' as_changed)
            (ap (partner_of_source no_detail_faults (after params ts)) (
                source_found members user (after params ts) (linked_row params t) tenant first
                  member row mine)
              ∙ ap (partner_in no_detail_faults (after params ts) (linked_row params t))
                  (linked_group params proper t)
              ∙ partner_shown (after params ts) (linked_row params t) tenant trimmed same mine
              ∙ shown),
        second,
      )
