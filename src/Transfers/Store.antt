-- ===== src/Transfers/Store.antt =====
-- The link of a pair in finance/persistence/transfer_pair_store.go: the update of both legs in one database
-- transaction. A row update sees the columns as they were when it began; a failed transaction is rolled back.
pub mod Linked
pub mod Eligible
use sumweave.Base.{
  ℕ, suc, ◌-◌, ◌+◌, ◌*◌, Bool, true, false, Option, none, some, List, [], ◌∷◌, ◌&&◌, ◌||◌, not,
  ◌==◌, ltb, if◌then◌else◌, is_nil, keep,
}
use sumweave.Base.Text.{Str, str_eq, bytes}
use sumweave.Base.Int.{ℤ, pos, ◌==ℤ◌}
use sumweave.Transfers.Types.{Time, TransferMatchingTransaction}
use sumweave.Transfers.Rows.{TransactionModel}

pub data PairError : Type 0 where
  transaction_ids_must_differ transaction_not_found : PairError
  driver : Str → PairError

-- The driver's answers: to BEGIN, to the two updates and to COMMIT.
pub record Faults : Type 0 where
  pub begin_fault : Option Str
  pub first_fault : Option Str
  pub second_fault : Option Str
  pub commit_fault : Option Str

abbrev pub is_leg : Str → Str → TransactionModel → Bool
is_leg tenant_id transaction_id t = str_eq t.tenant_id tenant_id && str_eq t.id transaction_id

unfoldable pub update_legs :
    (TransactionModel → Bool)
    → (TransactionModel → TransactionModel)
    → List TransactionModel
    → List TransactionModel
update_legs p f [] = []
update_legs p f (t ∷ ts) = (if p t then f t else t) ∷ update_legs p f ts

-- `RowsAffected`
unfoldable pub count_legs : (TransactionModel → Bool) → List TransactionModel → ℕ
count_legs p [] = 0
count_legs p (t ∷ ts) = let n = count_legs p ts in if p t then suc n else n

unfoldable pub update_transfer_pair_leg :
    Option Str
    → Str
    → Str
    → (TransactionModel → TransactionModel)
    → List TransactionModel
    → Option PairError × List TransactionModel
unfolding update_legs count_legs
update_transfer_pair_leg (some e) tenant_id transaction_id updates ts = (some (driver e), ts)
update_transfer_pair_leg none tenant_id transaction_id updates ts =
    let p = is_leg tenant_id transaction_id in
    (if count_legs p ts == 1 then none else some transaction_not_found, update_legs p updates ts)

-- `db.Transaction(body)`
abbrev pub commit :
    Option Str
    → List TransactionModel
    → Option PairError × List TransactionModel
    → Option PairError × List TransactionModel
commit fault before (some e, after) = (some e, before)
commit (some e) before (none, after) = (some (driver e), before)
commit none before (none, after) = (none, after)

abbrev pub then_second :
    Faults
    → Str
    → Str
    → (TransactionModel → TransactionModel)
    → Option PairError × List TransactionModel
    → Option PairError × List TransactionModel
then_second faults tenant_id second updates (some e, ts) = (some e, ts)
then_second faults tenant_id second updates (none, ts) =
    update_transfer_pair_leg faults.second_fault tenant_id second updates ts

abbrev pub in_transaction :
    Option Str
    → Option Str
    → (List TransactionModel → Option PairError × List TransactionModel)
    → List TransactionModel
    → Option PairError × List TransactionModel
in_transaction (some e) fault body ts = (some (driver e), ts)
in_transaction none fault body ts = commit fault ts (body ts)

unfoldable pub update_pair :
    Faults
    → Str
    → Str
    → Str
    → (TransactionModel → TransactionModel)
    → List TransactionModel
    → Option PairError × List TransactionModel
update_pair faults tenant_id first second updates ts =
    if str_eq first second
    then (some transaction_ids_must_differ, ts)
    else in_transaction faults.begin_fault faults.commit_fault
        (λ before.
          then_second faults tenant_id second updates
            (update_transfer_pair_leg faults.first_fault tenant_id first updates before))
        ts

pub record TransferPairLinkParams : Type 0 where
  pub tenant_id : Str
  pub first_transaction_id : Str
  pub second_transaction_id : Str
  pub transfer_group_id : Str
  pub transfer_matched_at : Time
  pub updated_at : Time

pub record TransferPairUnlinkParams : Type 0 where
  pub tenant_id : Str
  pub first_transaction_id : Str
  pub second_transaction_id : Str
  pub updated_at : Time

abbrev pub linked_row : TransferPairLinkParams → TransactionModel → TransactionModel
linked_row params t = record t {
  kind = bytes "transfer";
  transfer_group_id = some params.transfer_group_id;
  transfer_matched_at = some params.transfer_matched_at;
  updated_at = params.updated_at;
}

abbrev pub unlinked_row : TransferPairUnlinkParams → TransactionModel → TransactionModel
unlinked_row params t = record t {
  kind = bytes "regular";
  transfer_group_id = none;
  transfer_matched_at = none;
  transfer_matching_excluded = true;
  updated_at = params.updated_at;
}

unfoldable pub link_transfer_pair :
    Faults
    → TransferPairLinkParams
    → List TransactionModel
    → Option PairError × List TransactionModel
unfolding update_pair
link_transfer_pair faults params ts =
    update_pair faults params.tenant_id params.first_transaction_id params.second_transaction_id
      (linked_row params) ts

unfoldable pub unlink_transfer_pair :
    Faults
    → TransferPairUnlinkParams
    → List TransactionModel
    → Option PairError × List TransactionModel
unfolding update_pair
unlink_transfer_pair faults params ts =
    update_pair faults params.tenant_id params.first_transaction_id params.second_transaction_id
      (unlinked_row params) ts
