-- ===== src/Transfers/Rows.antt =====
-- The rows of finance/persistence/models.go that the matching of transfers reads and writes, in the columns that
-- it uses.
use sumweave.Base.{Bool, Option, List}
use sumweave.Base.Text.{Str}
use sumweave.Base.Int.{ℤ}
use sumweave.Transfers.Types.{Time}

pub record TransactionModel : Type 0 where
  pub id : Str
  pub tenant_id : Str
  pub account_id : Str
  pub source : Str
  pub status : Str
  pub kind : Str
  pub amount_minor : ℤ
  pub currency : Str
  pub description : Str
  pub effective_at : Time
  pub category_id : Option Str
  pub transfer_group_id : Option Str
  pub transfer_matched_at : Option Time
  pub transfer_matching_excluded : Bool
  pub hidden_at : Option Time
  pub original_amount_minor : Option ℤ
  pub original_currency : Option Str
  pub original_description : Option Str
  pub original_effective_at : Option Time
  pub created_at : Time
  pub updated_at : Time

pub record AccountModel : Type 0 where
  pub id : Str
  pub tenant_id : Str
  pub hidden_at : Option Time

pub record BankConnectionModel : Type 0 where
  pub id : Str
  pub tenant_id : Str
  pub provider : Str
  pub connector_id : Str

pub record ProviderTransactionMatchModel : Type 0 where
  pub connection_id : Str
  pub transaction_id : Str

pub record ConnectionProviderAccountModel : Type 0 where
  pub connection_id : Str
  pub finance_account_id : Str
  pub iban : Str

pub record ProviderSnapshotModel : Type 0 where
  pub tenant_id : Str
  pub connection_id : Str
  pub finance_transaction_id : Str
  pub subject : Str
  pub kind : Str
  pub document_json : Str

-- The other tables that the load reads.
pub record Tables : Type 0 where
  pub accounts : List AccountModel
  pub connections : List BankConnectionModel
  pub matches : List ProviderTransactionMatchModel
  pub provider_accounts : List ConnectionProviderAccountModel
  pub snapshots : List ProviderSnapshotModel
