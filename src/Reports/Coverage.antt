-- ===== src/Reports/Coverage.antt =====
-- The balances of the accounts, the coverage of the missing rates and the alerts: finance/reporting.go and
-- `buildDashboardAccountBalances` of finance/service_reporting.go.
pub mod Affected
use sumweave.Base.{
  ℕ, suc, ◌+◌, Bool, true, false, Option, none, some, List, [], ◌∷◌, ◌++◌, ◌&&◌, ◌||◌, not, ◌==◌,
  ltb, if◌then◌else◌, is_nil, length, sort_by,
}
use sumweave.Base.Text.{Str, str_eq}
use sumweave.Base.Int.{ℤ, pos, ◌==ℤ◌}
use sumweave.Base.Dict.{Dict, lookup, insert}
use sumweave.Transfers.Types.{str_lt}
use sumweave.Reports.Types.{
  DashboardPeriod, DashboardMissingFxDiagnostic, DashboardMissingFxSource, of_transaction,
  of_balance, DashboardFxCoverage, DashboardAlert, missing_fx_rates, pending_transactions, FxRate,
  DashboardData,
}
use sumweave.Reports.Dashboard.{pair_key, values}

pub record Account : Type 0 where
  pub id : Str
  pub name : Str
  pub currency : Str

pub record AccountBalance : Type 0 where
  pub account_id : Str
  pub booked_balance_minor : ℤ
  pub pending_balance_minor : ℤ

pub record DashboardAccountBalance : Type 0 where
  pub account_id : Str
  pub account_name : Str
  pub currency : Str
  pub native_booked_minor : ℤ
  pub native_pending_minor : ℤ
  pub display_booked_minor : Option ℤ
  pub display_pending_minor : Option ℤ
  pub missing_fx : Bool

-- The last balance of the account, or zero.
abbrev pub no_balance : Str → AccountBalance
no_balance account_id = record {
  account_id = account_id;
  booked_balance_minor = pos 0;
  pending_balance_minor = pos 0;
}

unfoldable pub last_balance : Str → AccountBalance → List AccountBalance → AccountBalance
last_balance account_id before [] = before
last_balance account_id before (b ∷ bs) =
    last_balance account_id (if str_eq b.account_id account_id then b else before) bs

module _ {Rate : Type 0} (rounded : ℤ → Rate → ℤ) (provider : Str) (d : DashboardData Rate) where
  abbrev convert_by_rate : Option (FxRate Rate) → ℤ → Option ℤ
  convert_by_rate none amount = none
  convert_by_rate (some r) amount = some (rounded amount r.rate)

  abbrev pub convert_balance_amount : ℤ → Str → Option ℤ
  convert_balance_amount amount base_currency =
      if amount ==ℤ pos 0
      then some (pos 0)
      else if str_eq base_currency d.display_currency
      then some amount
      else convert_by_rate (lookup (pair_key provider base_currency d.display_currency) d.latest)
          amount

  abbrev lacks_display : Option ℤ → ℤ → Bool
  lacks_display shown amount = is_nil shown && not (amount ==ℤ pos 0)

  abbrev pub account_balance_of : Account → AccountBalance → DashboardAccountBalance
  account_balance_of account b = record {
    account_id = account.id;
    account_name = account.name;
    currency = account.currency;
    native_booked_minor = b.booked_balance_minor;
    native_pending_minor = b.pending_balance_minor;
    display_booked_minor = convert_balance_amount b.booked_balance_minor account.currency;
    display_pending_minor = convert_balance_amount b.pending_balance_minor account.currency;
    missing_fx =
        lacks_display (convert_balance_amount b.booked_balance_minor account.currency)
          b.booked_balance_minor
        || lacks_display (convert_balance_amount b.pending_balance_minor account.currency)
            b.pending_balance_minor;
  }

  abbrev pub missing_for_balance : Account → DashboardMissingFxDiagnostic
  missing_for_balance account = record {
    source = of_balance;
    transaction_id = [];
    account_id = account.id;
    base_currency = account.currency;
    quote_currency = d.display_currency;
    rate_date = d.period.end_date;
    provider = provider;
  }

  abbrev pub with_missing :
      Account
      → DashboardAccountBalance
      → List DashboardAccountBalance × List DashboardMissingFxDiagnostic
      → List DashboardAccountBalance × List DashboardMissingFxDiagnostic
  with_missing account b (bs, missing) =
      (b ∷ bs, if b.missing_fx then missing_for_balance account ∷ missing else missing)

  unfoldable pub build_dashboard_account_balances :
      List AccountBalance
      → List Account
      → List DashboardAccountBalance × List DashboardMissingFxDiagnostic
  unfolding last_balance lookup
  build_dashboard_account_balances balances [] = ([], [])
  build_dashboard_account_balances balances (account ∷ accounts) =
      with_missing account
        (account_balance_of account (last_balance account.id (no_balance account.id) balances))
        (build_dashboard_account_balances balances accounts)

abbrev pub coverage_or_new :
    DashboardMissingFxDiagnostic → Option DashboardFxCoverage → DashboardFxCoverage
coverage_or_new item none = record {
  provider = item.provider;
  base_currency = item.base_currency;
  quote_currency = item.quote_currency;
  affected_transaction_count = 0;
  affected_account_count = 0;
}
coverage_or_new item (some c) = c

abbrev pub affected : DashboardMissingFxSource → DashboardFxCoverage → DashboardFxCoverage
affected of_transaction c = record c {
  affected_transaction_count = c.affected_transaction_count + 1;
}
affected of_balance c = record c { affected_account_count = c.affected_account_count + 1 }

unfoldable pub coverage_by_pair :
    List DashboardMissingFxDiagnostic → Dict DashboardFxCoverage → Dict DashboardFxCoverage
unfolding lookup insert
coverage_by_pair [] coverage = coverage
coverage_by_pair (item ∷ missing) coverage =
    let key = pair_key item.provider item.base_currency item.quote_currency in
    coverage_by_pair missing
      (insert key (affected item.source (coverage_or_new item (lookup key coverage))) coverage)

abbrev pub coverage_before : DashboardFxCoverage → DashboardFxCoverage → Bool
coverage_before a b =
    if str_eq a.provider b.provider
    then (if str_eq a.base_currency b.base_currency
        then str_lt a.quote_currency b.quote_currency
        else str_lt a.base_currency b.base_currency)
    else str_lt a.provider b.provider

unfoldable pub build_dashboard_fx_coverage :
    List DashboardMissingFxDiagnostic → List DashboardFxCoverage
unfolding coverage_by_pair values sort_by str_lt
build_dashboard_fx_coverage missing = sort_by coverage_before (values (coverage_by_pair missing []))

abbrev pub pending_alert : ℕ → List DashboardAlert
pending_alert count = if ltb 0 count then pending_transactions count ∷ [] else []

abbrev pub build_dashboard_alerts : List DashboardFxCoverage → ℕ → List DashboardAlert
build_dashboard_alerts [] pending_count = pending_alert pending_count
build_dashboard_alerts (c ∷ coverage) pending_count =
    missing_fx_rates (suc (length coverage)) ∷ pending_alert pending_count
