-- ===== src/Reports/Types.antt =====
-- The data of finance/reporting.go and the records of finance/domain that it reads. A rate is opaque: the code
-- keeps it as a floating-point number.
use sumweave.Base.{ℕ, Bool, List}
use sumweave.Base.Text.{Str}
use sumweave.Base.Int.{ℤ, ◌+ℤ◌, ◌-ℤ◌, wrap_int64}
use sumweave.Base.Dict.{Dict}
use sumweave.Sync.Types.{Time}

-- The sum and the difference of two int64.
unfoldable pub add_int64 : ℤ → ℤ → ℤ
add_int64 a b = wrap_int64 (a +ℤ b)

unfoldable pub sub_int64 : ℤ → ℤ → ℤ
sub_int64 a b = wrap_int64 (a -ℤ b)

pub data CategoryKind : Type 0 where
  expense_category income_category : CategoryKind

pub record Category : Type 0 where
  pub id : Str
  pub name : Str
  pub kind : CategoryKind

pub record DashboardPeriod : Type 0 where
  pub start_date : Time
  pub end_date : Time

pub record DashboardMoneySummary : Type 0 where
  pub display_currency : Str
  pub income_minor : ℤ
  pub expense_minor : ℤ
  pub net_minor : ℤ
  pub transaction_count : ℕ
  pub complete : Bool

pub record DashboardCategoryBreakdown : Type 0 where
  pub category_id : Str
  pub category_name : Str
  pub kind : CategoryKind
  pub income_minor : ℤ
  pub expense_minor : ℤ
  pub transaction_count : ℕ

pub record DashboardCurrencyTotal : Type 0 where
  pub currency : Str
  pub income_minor : ℤ
  pub expense_minor : ℤ
  pub net_minor : ℤ

pub data DashboardMissingFxSource : Type 0 where
  of_transaction of_balance : DashboardMissingFxSource

pub record DashboardMissingFxDiagnostic : Type 0 where
  pub source : DashboardMissingFxSource
  pub transaction_id : Str
  pub account_id : Str
  pub base_currency : Str
  pub quote_currency : Str
  pub rate_date : Time
  pub provider : Str

pub record DashboardFxCoverage : Type 0 where
  pub provider : Str
  pub base_currency : Str
  pub quote_currency : Str
  pub affected_transaction_count : ℕ
  pub affected_account_count : ℕ

pub data DashboardAlert : Type 0 where
  missing_fx_rates pending_transactions : ℕ → DashboardAlert

pub record FxRate (Rate : Type 0) : Type 0 where
  pub provider : Str
  pub base_currency : Str
  pub quote_currency : Str
  pub rate : Rate

-- What the dashboard is computed from.
pub record DashboardData (Rate : Type 0) : Type 0 where
  pub display_currency : Str
  pub period : DashboardPeriod
  pub categories : List Category
  pub latest : Dict (FxRate Rate)

-- What the loop over the transactions writes to.
pub record DashboardState : Type 0 where
  pub settled : DashboardMoneySummary
  pub pending : DashboardMoneySummary
  pub breakdowns : Dict DashboardCategoryBreakdown
  pub native_totals : Dict DashboardCurrencyTotal
  pub missing : List DashboardMissingFxDiagnostic

pub record DashboardComputation : Type 0 where
  pub settled : DashboardMoneySummary
  pub pending : DashboardMoneySummary
  pub category_breakdowns : List DashboardCategoryBreakdown
  pub missing : List DashboardMissingFxDiagnostic
  pub native_settled_totals : List DashboardCurrencyTotal
