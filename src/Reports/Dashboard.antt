-- ===== src/Reports/Dashboard.antt =====
-- `computeDashboard` of finance/service_reporting.go with its helpers in finance/reporting.go. Rounding the
-- product of an amount and a rate, `int64(math.Round(float64(amount) * rate))`, is a parameter.
mod Contributions
mod Breakdowns
use sumweave.Base.{
  ◌+◌, Bool, true, false, Option, none, some, List, [], ◌∷◌, ◌++◌, ◌&&◌, ◌||◌, not, ◌==◌, ltb,
  if◌then◌else◌, is_nil, sort_by,
}
use sumweave.Base.Text.{Str, str_eq, bytes}
use sumweave.Base.Int.{ℤ, pos, ltb_ℤ, ◌==ℤ◌}
use sumweave.Base.Dict.{Dict, lookup, insert}
use sumweave.Transfers.Types.{str_lt}
use sumweave.Sync.Types.{
  Time, Transaction, TransactionStatus, pending, booked, TransactionKind, expense, income, regular,
  refund, transfer, reconciliation, opening_balance,
}
use sumweave.Reports.Types.{
  Category, CategoryKind, expense_category, income_category, DashboardComputation, DashboardPeriod,
  DashboardMoneySummary, DashboardCategoryBreakdown, DashboardCurrencyTotal,
  DashboardMissingFxDiagnostic, of_transaction, FxRate, DashboardData, DashboardState, add_int64,
  sub_int64,
}
unfoldable pub use Contributions.*
unfoldable pub use Breakdowns.*

module _ {Rate : Type 0} (rounded : ℤ → Rate → ℤ) (provider : Str) where
  abbrev convert_by : Option (FxRate Rate) → ℤ × ℤ → Option (ℤ × ℤ)
  convert_by none (i, e) = none
  convert_by (some r) (i, e) = some (rounded i r.rate, rounded e r.rate)

  abbrev pub convert_transaction_contribution :
      DashboardData Rate → Transaction → ℤ × ℤ → Option (ℤ × ℤ)
  convert_transaction_contribution d t amounts =
      if str_eq t.currency d.display_currency
      then some amounts
      else convert_by (lookup (pair_key provider t.currency d.display_currency) d.latest) amounts

  abbrev pub missing_for : DashboardData Rate → Transaction → DashboardMissingFxDiagnostic
  missing_for d t = record {
    source = of_transaction;
    transaction_id = t.id;
    account_id = t.account_id;
    base_currency = t.currency;
    quote_currency = d.display_currency;
    rate_date = t.effective_at;
    provider = provider;
  }

  -- What follows the conversion, by the status of the transaction.
  abbrev pub add_converted :
      DashboardData Rate
      → Transaction
      → DashboardState
      → TransactionStatus
      → Option (ℤ × ℤ)
      → DashboardState
  add_converted d t s booked none = record s {
    missing = s.missing ++ (missing_for d t ∷ []);
    settled = mark_incomplete s.settled;
  }
  add_converted d t s pending none = record s {
    missing = s.missing ++ (missing_for d t ∷ []);
    pending = mark_incomplete s.pending;
  }
  add_converted d t s booked (some (i, e)) = record s {
    settled = apply_dashboard_contribution s.settled i e;
    breakdowns = add_dashboard_category_contribution s.breakdowns d.categories t.category_id i e;
  }
  add_converted d t s pending (some (i, e)) = record s {
    pending = apply_dashboard_contribution s.pending i e;
  }

  abbrev pub with_native : Transaction → ℤ → ℤ → DashboardState → DashboardState
  with_native t i e s =
      if is_booked t.status
      then record s { native_totals = add_native_total s.native_totals t.currency i e }
      else s

  abbrev pub add_contribution :
      DashboardData Rate → Transaction → DashboardState → Option (ℤ × ℤ) → DashboardState
  add_contribution d t s none = s
  add_contribution d t s (some (i, e)) =
      add_converted d t (with_native t i e s) t.status (convert_transaction_contribution d t (i, e))

  unfoldable pub process_dashboard_transaction :
      DashboardData Rate → DashboardState → Transaction → DashboardState
  unfolding lookup insert category_of
  process_dashboard_transaction d s t =
      if not (is_nil t.hidden_at) || not (transaction_in_period t d.period)
      then s
      else add_contribution d t s (reporting_contribution t)

  unfoldable pub process_all :
      DashboardData Rate → DashboardState → List Transaction → DashboardState
  unfolding process_dashboard_transaction
  process_all d s [] = s
  process_all d s (t ∷ ts) = process_all d (process_dashboard_transaction d s t) ts

  abbrev pub new_summary : DashboardData Rate → DashboardMoneySummary
  new_summary d = record {
    display_currency = d.display_currency;
    income_minor = pos 0;
    expense_minor = pos 0;
    net_minor = pos 0;
    transaction_count = 0;
    complete = true;
  }

  abbrev pub new_state : DashboardData Rate → DashboardState
  new_state d = record {
    settled = new_summary d;
    pending = new_summary d;
    breakdowns = [];
    native_totals = [];
    missing = [];
  }

  abbrev pub with_net : DashboardMoneySummary → DashboardMoneySummary
  with_net s = record s { net_minor = sub_int64 s.income_minor s.expense_minor }

  unfoldable pub compute_dashboard : DashboardData Rate → List Transaction → DashboardComputation
  unfolding process_all values sort_by str_lt
  compute_dashboard d ts =
      let s = process_all d (new_state d) ts in
      record {
        settled = with_net s.settled;
        pending = with_net s.pending;
        category_breakdowns = sort_by breakdown_before (values s.breakdowns);
        missing = s.missing;
        native_settled_totals = sort_by total_before (values s.native_totals);
      }
