-- ===== src/Reports/Dashboard/Contributions.antt =====
-- What a transaction contributes to the totals: its income and expense, and the total of its currency.
use sumweave.Base.{
  Bool, true, false, Option, none, some, ◌&&◌, not, ◌==◌, ltb, if◌then◌else◌, is_nil,
}
use sumweave.Base.Text.{Str}
use sumweave.Base.Int.{ℤ, pos, ltb_ℤ, ◌==ℤ◌}
use sumweave.Base.Dict.{Dict, lookup, insert}
use sumweave.Sync.Types.{
  Time, Transaction, TransactionStatus, pending, booked, TransactionKind, expense, income, regular,
  refund, transfer, reconciliation, opening_balance,
}
use sumweave.Reports.Types.{DashboardPeriod, DashboardCurrencyTotal, add_int64, sub_int64}

abbrev pub is_booked : TransactionStatus → Bool
is_booked booked = true
is_booked pending = false

abbrev matched_at : Option Time → Bool
matched_at none = false
matched_at (some at) = not (at == 0)

-- `bookedMatchedTransfer` of finance/service_ledger_contract.go, for a transfer.
abbrev pub booked_matched_transfer : Transaction → Bool
booked_matched_transfer t =
    is_nil t.hidden_at
    && is_booked t.status
    && matched_at t.transfer_matched_at
    && not (t.amount_minor ==ℤ pos 0)

-- Income and expense by the sign of the amount.
abbrev pub by_sign : ℤ → ℤ × ℤ
by_sign amount =
    if ltb_ℤ (pos 0) amount
    then (amount, pos 0)
    else if ltb_ℤ amount (pos 0)
    then (pos 0, sub_int64 (pos 0) amount)
    else (pos 0, pos 0)

abbrev pub contribution_of : TransactionKind → Transaction → Option (ℤ × ℤ)
contribution_of transfer t =
    if booked_matched_transfer t then none else some (by_sign t.amount_minor)
contribution_of refund t = some (pos 0, sub_int64 (pos 0) t.amount_minor)
contribution_of expense t = some (by_sign t.amount_minor)
contribution_of income t = some (by_sign t.amount_minor)
contribution_of regular t = some (by_sign t.amount_minor)
contribution_of reconciliation t = none
contribution_of opening_balance t = none

-- Income and expense, or nothing where the transaction is not included.
abbrev pub reporting_contribution : Transaction → Option (ℤ × ℤ)
reporting_contribution t = if is_nil t.hidden_at then contribution_of t.kind t else none

abbrev pub transaction_in_period : Transaction → DashboardPeriod → Bool
transaction_in_period t period =
    not (ltb t.effective_at period.start_date) && ltb t.effective_at period.end_date

abbrev pub total_or_new : Str → Option DashboardCurrencyTotal → DashboardCurrencyTotal
total_or_new currency none = record {
  currency = currency;
  income_minor = pos 0;
  expense_minor = pos 0;
  net_minor = pos 0;
}
total_or_new currency (some total) = total

abbrev pub added_total : ℤ → ℤ → DashboardCurrencyTotal → DashboardCurrencyTotal
added_total i e total = record {
  currency = total.currency;
  income_minor = add_int64 total.income_minor i;
  expense_minor = add_int64 total.expense_minor e;
  net_minor = sub_int64 (add_int64 total.income_minor i) (add_int64 total.expense_minor e);
}

abbrev pub add_native_total :
    Dict DashboardCurrencyTotal → Str → ℤ → ℤ → Dict DashboardCurrencyTotal
add_native_total totals currency i e =
    insert currency (added_total i e (total_or_new currency (lookup currency totals))) totals
