-- ===== src/Transfers/Examples/Links.antt =====
-- The theorems on the link of a pair at three transactions, and on the reading of it.
use sumweave.Base.{◌+◌, ◌≡◌, refl, true, none, List, [], ◌∷◌, All}
use sumweave.Transfers.Detail.{TenantMembership, found, is_tenant_member, get_transfer_partner}
use sumweave.Transfers.Detail.Groups.{IsNewGroup, is_proper}
use sumweave.Transfers.Detail.Partners.{no_detail_faults, link_transfer_pair-get_transfer_partner}
use sumweave.Base.Text.{trim_space, str_eq, bytes}
use sumweave.Transfers.Rows.{TransactionModel}
use sumweave.Transfers.Loading.{list_eligible_transfer_matching_transactions}
use sumweave.Transfers.Store.{
  TransferPairLinkParams, TransferPairUnlinkParams, linked_row, unlinked_row, link_transfer_pair,
  unlink_transfer_pair, update_pair, update_transfer_pair_leg, update_legs, count_legs,
}
use sumweave.Transfers.Store.Linked.{
  linked_row-KeepsKeys, is_either, pair_error, all_or_nothing, update_pair_lem,
}
use sumweave.Transfers.Store.Eligible.{
  is_other, link_transfer_pair-list_eligible, unlink_transfer_pair-list_eligible,
}
use sumweave.Transfers.Service.Linking.{no_faults}
use sumweave.Transfers.Examples.Data.{
  noon, spent, received, payment, stored, tables, stored-ArePrimaryIds,
}

abbrev link : TransferPairLinkParams
link = record {
  tenant_id = bytes "home";
  first_transaction_id = bytes "t1";
  second_transaction_id = bytes "t2";
  transfer_group_id = bytes "g1";
  transfer_matched_at = noon;
  updated_at = noon;
}

abbrev unlink : TransferPairUnlinkParams
unlink = record {
  tenant_id = bytes "home";
  first_transaction_id = bytes "t1";
  second_transaction_id = bytes "t2";
  updated_at = noon;
}

-- The second leg is gone.
update_pair_lem_example :
    update_pair no_faults
      (bytes "home")
      (bytes "t1")
      (bytes "t2")
      (linked_row link)
      (spent ∷ payment ∷ [])
    ≡ all_or_nothing
        (pair_error no_faults (bytes "home") (bytes "t1") (bytes "t2") (spent ∷ payment ∷ []))
        (update_legs
          (is_either (bytes "home") (bytes "t1") (bytes "t2"))
          (linked_row link)
          (spent ∷ payment ∷ []))
        (spent ∷ payment ∷ [])
update_pair_lem_example =
    update_pair_lem (linked_row link) (linked_row-KeepsKeys link) (bytes "home") no_faults
      (bytes "t1") (bytes "t2") (spent ∷ payment ∷ [])

links :
    link_transfer_pair no_faults link stored
    ≡ (none, linked_row link spent ∷ linked_row link received ∷ payment ∷ [])
unfolding link_transfer_pair update_pair update_transfer_pair_leg update_legs count_legs str_eq
links = refl

link_transfer_pair-list_eligible_example :
    All
      (λ r. is_other (bytes "t1") (bytes "t2") r ≡ true)
      (list_eligible_transfer_matching_transactions tables
        (bytes "home")
        noon
        (noon + 1)
        (linked_row link spent ∷ linked_row link received ∷ payment ∷ []))
link_transfer_pair-list_eligible_example =
    link_transfer_pair-list_eligible tables noon (noon + 1) no_faults link stored
      (linked_row link spent ∷ linked_row link received ∷ payment ∷ []) links

unlinks :
    unlink_transfer_pair no_faults unlink
      (linked_row link spent ∷ linked_row link received ∷ payment ∷ [])
    ≡ (
      none,
      unlinked_row unlink (linked_row link spent)
          ∷ unlinked_row unlink (linked_row link received)
          ∷ payment
          ∷ [],
    )
unfolding unlink_transfer_pair update_pair update_transfer_pair_leg update_legs count_legs str_eq
unlinks = refl

unlink_transfer_pair-list_eligible_example :
    All
      (λ r. is_other (bytes "t1") (bytes "t2") r ≡ true)
      (list_eligible_transfer_matching_transactions tables (bytes "home") noon (noon + 1) (
        unlinked_row unlink (linked_row link spent)
        ∷ unlinked_row unlink (linked_row link received)
        ∷ payment
        ∷ []))
unlink_transfer_pair-list_eligible_example =
    unlink_transfer_pair-list_eligible tables noon (noon + 1) no_faults unlink
      (linked_row link spent ∷ linked_row link received ∷ payment ∷ [])
      (unlinked_row unlink (linked_row link spent)
        ∷ unlinked_row unlink (linked_row link received)
        ∷ payment
        ∷ [])
      unlinks

abbrev members : List TenantMembership
members = record { tenant_id = bytes "home"; user_id = bytes "ann" } ∷ []

is_new_group : IsNewGroup link stored
is_new_group = (refl, (refl, (refl, tt)))

group_is_proper : is_proper link ≡ true
unfolding trim_space str_eq
group_is_proper = refl

home_trimmed : trim_space (bytes "home") ≡ bytes "home"
unfolding trim_space
home_trimmed = refl

first_trimmed : trim_space (bytes "t1") ≡ bytes "t1"
unfolding trim_space
first_trimmed = refl

ann_is_member : is_tenant_member (bytes "home") (trim_space (bytes "ann ")) members ≡ true
unfolding trim_space is_tenant_member str_eq
ann_is_member = refl

link_transfer_pair-get_transfer_partner_example :
    (p : TransactionModel) × (get_transfer_partner no_detail_faults members
        (record {
          actor_user_id = bytes "ann ";
          tenant_id = bytes "home";
          transaction_id = bytes "t1";
        })
        (linked_row link spent ∷ linked_row link received ∷ payment ∷ [])
      ≡ found p)
    × (p.id ≡ bytes "t2")
link_transfer_pair-get_transfer_partner_example =
    link_transfer_pair-get_transfer_partner link no_faults members (bytes "ann ") stored
      (linked_row link spent ∷ linked_row link received ∷ payment ∷ []) stored-ArePrimaryIds
      is_new_group group_is_proper home_trimmed first_trimmed ann_is_member links
