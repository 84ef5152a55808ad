-- ===== src/Reports/Dashboard/Breakdowns.antt =====
-- The key of a rate, and the summary with its breakdown by category, of finance/reporting.go.
use sumweave.Base.{
  ◌+◌, Bool, true, false, Option, none, some, List, [], ◌∷◌, ◌++◌, if◌then◌else◌, is_nil,
}
use sumweave.Base.Text.{Str, str_eq, bytes}
use sumweave.Base.Int.{ℤ, pos}
use sumweave.Base.Dict.{Dict, lookup, insert}
use sumweave.Transfers.Types.{str_lt}
use sumweave.Reports.Types.{
  Category, CategoryKind, expense_category, income_category, DashboardMoneySummary,
  DashboardCategoryBreakdown, DashboardCurrencyTotal, FxRate, add_int64,
}

-- "provider|base|quote"
abbrev pub pair_key : Str → Str → Str → Str
pair_key provider base quote = provider ++ (bytes "|" ++ (base ++ (bytes "|" ++ quote)))

-- `newFXRateLookup`: the last rate of each pair.
unfoldable pub new_fx_rate_lookup :
    {Rate : Type 0} → List (FxRate Rate) → Dict (FxRate Rate) → Dict (FxRate Rate)
unfolding insert
new_fx_rate_lookup [] latest = latest
new_fx_rate_lookup (r ∷ rates) latest =
    new_fx_rate_lookup rates
      (insert (pair_key r.provider r.base_currency r.quote_currency) r latest)

abbrev pub apply_dashboard_contribution : DashboardMoneySummary → ℤ → ℤ → DashboardMoneySummary
apply_dashboard_contribution s i e = record s {
  income_minor = add_int64 s.income_minor i;
  expense_minor = add_int64 s.expense_minor e;
  transaction_count = s.transaction_count + 1;
}

unfoldable pub category_of : Str → List Category → Option Category
category_of id [] = none
category_of id (c ∷ cs) =
    let later = category_of id cs in
    if is_nil later then (if str_eq c.id id then some c else none) else later

abbrev pub breakdown_or_new :
    Category → Option DashboardCategoryBreakdown → DashboardCategoryBreakdown
breakdown_or_new c none = record {
  category_id = c.id;
  category_name = c.name;
  kind = c.kind;
  income_minor = pos 0;
  expense_minor = pos 0;
  transaction_count = 0;
}
breakdown_or_new c (some b) = b

abbrev pub added_breakdown : ℤ → ℤ → DashboardCategoryBreakdown → DashboardCategoryBreakdown
added_breakdown i e b = record b {
  income_minor = add_int64 b.income_minor i;
  expense_minor = add_int64 b.expense_minor e;
  transaction_count = b.transaction_count + 1;
}

abbrev pub add_to_category :
    Option Category → Dict DashboardCategoryBreakdown → ℤ → ℤ → Dict DashboardCategoryBreakdown
add_to_category none breakdowns i e = breakdowns
add_to_category (some c) breakdowns i e =
    insert c.id (added_breakdown i e (breakdown_or_new c (lookup c.id breakdowns))) breakdowns

abbrev pub add_dashboard_category_contribution :
    Dict DashboardCategoryBreakdown
    → List Category
    → Option Str
    → ℤ
    → ℤ
    → Dict DashboardCategoryBreakdown
add_dashboard_category_contribution breakdowns categories none i e = breakdowns
add_dashboard_category_contribution breakdowns categories (some id) i e =
    add_to_category (category_of id categories) breakdowns i e

abbrev pub mark_incomplete : DashboardMoneySummary → DashboardMoneySummary
mark_incomplete s = record s { complete = false }

-- The values of a map.
unfoldable pub values {ℓ} : {V : Type ℓ} → Dict V → List V
values [] = []
values ((k, v) ∷ d) = v ∷ values d

abbrev pub kind_before : CategoryKind → CategoryKind → Bool → Bool
kind_before income_category expense_category names = true
kind_before expense_category income_category names = false
kind_before income_category income_category names = names
kind_before expense_category expense_category names = names

-- The orders of `sortCategoryBreakdowns` and `sortCurrencyTotals`.
abbrev pub breakdown_before : DashboardCategoryBreakdown → DashboardCategoryBreakdown → Bool
breakdown_before a b = kind_before a.kind b.kind (str_lt a.category_name b.category_name)

abbrev pub total_before : DashboardCurrencyTotal → DashboardCurrencyTotal → Bool
total_before a b = str_lt a.currency b.currency
