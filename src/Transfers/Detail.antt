-- ===== src/Transfers/Detail.antt =====
-- The partner of a linked transaction, and the candidates for linking by hand:
-- finance/transfer_detail_service.go, finance/access_guard.go and
-- finance/persistence/transfer_candidate_store.go. A transaction is its row; its tags are left out. A fault
-- is what a query fails with.
pub mod Groups
pub mod Ordered
pub mod Partners
use sumweave.Base.Sorting.{drop}
use sumweave.Base.{
  sort_by, ℕ, zero, suc, ◌-◌, Bool, true, false, Option, none, some, List, [], ◌∷◌, ◌&&◌, ◌||◌, not,
  ◌==◌, ltb, leb, if◌then◌else◌, keep, take,
}
use sumweave.Base.Text.{Str, str_eq, bytes, trim_space, is_empty}
use sumweave.Base.Int.{ℤ, pos, pos_part, ltb_ℤ, leb_ℤ}
use sumweave.Transfers.Types.{Time, str_lt}
use sumweave.Transfers.Rows.{TransactionModel}

pub record TenantMembership : Type 0 where
  pub tenant_id : Str
  pub user_id : Str

pub record DetailParams : Type 0 where
  pub actor_user_id : Str
  pub tenant_id : Str
  pub transaction_id : Str

pub record CandidateQuery : Type 0 where
  pub effective_from : Time
  pub effective_before : Time
  pub limit : ℤ
  pub offset : ℤ

pub record DetailFaults : Type 0 where
  pub member_fault : Option Str
  pub get_fault : Option Str
  pub list_fault : Option Str

pub data DetailError : Type 0 where
  access_denied transaction_missing partner_not_found invalid_partner invalid_candidate_query :
      DetailError
  query_failed : Str → DetailError

pub data Found (A : Type 0) : Type 0 where
  found : A → Found A
  refused : DetailError → Found A

-- `SELECT COUNT(*) ... > 0`
unfoldable pub is_tenant_member : Str → Str → List TenantMembership → Bool
is_tenant_member tenant_id user_id [] = false
is_tenant_member tenant_id user_id (m ∷ members) =
    str_eq m.tenant_id tenant_id && str_eq m.user_id user_id
    || is_tenant_member tenant_id user_id members

-- `requireTenantMember`: the error, if there is one.
abbrev pub require_tenant_member :
    Option Str → List TenantMembership → Str → Str → Option DetailError
require_tenant_member (some e) members tenant_id user_id = some (query_failed e)
require_tenant_member none members tenant_id user_id =
    if is_tenant_member tenant_id user_id members then none else some access_denied

-- `GetTransaction`
unfoldable pub row_of : Str → List TransactionModel → Option TransactionModel
row_of id [] = none
row_of id (t ∷ ts) = if str_eq t.id id then some t else row_of id ts

abbrev pub of_tenant : Str → Option TransactionModel → Found TransactionModel
of_tenant tenant_id none = refused transaction_missing
of_tenant tenant_id (some t) =
    if str_eq t.tenant_id tenant_id then found t else refused transaction_missing

abbrev pub get_unless : Option Str → Str → Option TransactionModel → Found TransactionModel
get_unless (some e) tenant_id row = refused (query_failed e)
get_unless none tenant_id row = of_tenant tenant_id row

abbrev pub if_allowed : {A : Type 0} → Option DetailError → Found A → Found A
if_allowed (some e) next = refused e
if_allowed none next = next

unfoldable pub require_tenant_transaction :
    DetailFaults
    → List TenantMembership
    → DetailParams
    → List TransactionModel
    → Found TransactionModel
unfolding row_of is_tenant_member
require_tenant_transaction faults members params ts =
    if_allowed
      (require_tenant_member faults.member_fault members (trim_space params.tenant_id)
        (trim_space params.actor_user_id))
      (get_unless faults.get_fault (trim_space params.tenant_id)
        (row_of (trim_space (trim_space params.transaction_id)) ts))

abbrev pub non_blank : Str → Option Str
non_blank s = if is_empty s then none else some s

abbrev pub group_of : Bool → Option Str → Option Time → Option Str
group_of true (some group) (some at) = if at == 0 then none else non_blank (trim_space group)
group_of is_transfer group at = none

abbrev pub matched_transfer_group_id : TransactionModel → Option Str
matched_transfer_group_id t =
    group_of (str_eq t.kind (bytes "transfer")) t.transfer_group_id t.transfer_matched_at

abbrev pub equals_column : Option Str → Str → Bool
equals_column none value = false
equals_column (some column) value = str_eq column value

abbrev pub in_group : Str → Str → TransactionModel → Bool
in_group tenant_id group t = str_eq t.tenant_id tenant_id && equals_column t.transfer_group_id group

abbrev pub id_before : TransactionModel → TransactionModel → Bool
id_before t u = str_lt t.id u.id

unfoldable pub list_transfer_group_transactions :
    Str → Str → List TransactionModel → List TransactionModel
unfolding sort_by str_lt
list_transfer_group_transactions tenant_id group ts =
    sort_by id_before (keep (in_group (trim_space tenant_id) (trim_space group)) ts)

abbrev pub equals_group : Option Str → Str → Bool
equals_group none group = false
equals_group (some g) group = str_eq g group

-- The partners are the others of the group.
abbrev pub sole_partner : Str → List TransactionModel → Found TransactionModel
sole_partner group [] = refused partner_not_found
sole_partner group (p ∷ []) =
    if equals_group (matched_transfer_group_id p) group then found p else refused invalid_partner
sole_partner group (p ∷ q ∷ rest) = refused invalid_partner

abbrev pub list_unless : Option Str → Str → Str → List TransactionModel → Found TransactionModel
list_unless (some e) source_id group items = refused (query_failed e)
list_unless none source_id group items =
    sole_partner group (keep (λ t. not (str_eq t.id source_id)) items)

abbrev pub partner_in :
    DetailFaults → List TransactionModel → TransactionModel → Option Str → Found TransactionModel
partner_in faults ts source none = refused partner_not_found
partner_in faults ts source (some group) =
    list_unless faults.list_fault source.id group
      (list_transfer_group_transactions source.tenant_id group ts)

abbrev pub partner_of_source :
    DetailFaults → List TransactionModel → Found TransactionModel → Found TransactionModel
partner_of_source faults ts (refused e) = refused e
partner_of_source faults ts (found source) =
    partner_in faults ts source (matched_transfer_group_id source)

unfoldable pub get_transfer_partner :
    DetailFaults
    → List TenantMembership
    → DetailParams
    → List TransactionModel
    → Found TransactionModel
unfolding require_tenant_transaction list_transfer_group_transactions
get_transfer_partner faults members params ts =
    partner_of_source faults ts (require_tenant_transaction faults members params ts)

abbrev pub transfer_candidate_limit_maximum : ℤ
transfer_candidate_limit_maximum = pos 200

abbrev pub is_valid_candidate_query : CandidateQuery → Bool
is_valid_candidate_query q =
    not (q.effective_from == 0)
    && not (q.effective_before == 0)
    && ltb q.effective_from q.effective_before
    && (leb_ℤ (pos 1) q.limit
        && leb_ℤ q.limit transfer_candidate_limit_maximum
        && leb_ℤ (pos 0) q.offset)

abbrev pub is_hidden : Option Time → Bool
is_hidden none = false
is_hidden (some at) = true

abbrev pub is_listed : Str → Str → Str → CandidateQuery → TransactionModel → Bool
is_listed tenant_id source_id account_id q t =
    str_eq t.tenant_id tenant_id
    && not (str_eq t.id source_id)
    && not (str_eq t.account_id account_id)
    && not (is_hidden t.hidden_at)
    && leb q.effective_from t.effective_at
    && ltb t.effective_at q.effective_before

-- `ORDER BY effective_at DESC, created_at DESC, id DESC`
abbrev pub later_first : TransactionModel → TransactionModel → Bool
later_first t u =
    if t.effective_at == u.effective_at
    then (if t.created_at == u.created_at then str_lt u.id t.id else ltb u.created_at t.created_at)
    else ltb u.effective_at t.effective_at

unfoldable pub list_candidates :
    Str → Str → Str → CandidateQuery → List TransactionModel → List TransactionModel
unfolding sort_by str_lt
list_candidates tenant_id source_id account_id q ts = take (pos_part q.limit) (
    drop (pos_part q.offset) (
      sort_by later_first (
        keep (is_listed (trim_space tenant_id) (trim_space source_id) (trim_space account_id) q)
          ts)))

abbrev pub candidates_of_source :
    DetailFaults
    → CandidateQuery
    → List TransactionModel
    → Found TransactionModel
    → Found (List TransactionModel)
candidates_of_source faults q ts (refused e) = refused e
candidates_of_source faults q ts (found source) = elim faults.list_fault [
  | some e ↦ refused (query_failed e)
  | none ↦ found (list_candidates source.tenant_id source.id source.account_id q ts)
]

unfoldable pub list_transfer_candidates :
    DetailFaults
    → List TenantMembership
    → DetailParams
    → CandidateQuery
    → List TransactionModel
    → Found (List TransactionModel)
unfolding require_tenant_transaction list_candidates
list_transfer_candidates faults members params q ts =
    if is_valid_candidate_query q
    then candidates_of_source faults q ts (require_tenant_transaction faults members params ts)
    else refused invalid_candidate_query
