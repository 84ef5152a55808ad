-- ===== src/Reports/Totals.antt =====
-- The totals in each currency, against the transactions that they are of.
use sumweave.Base.{
  ◌≡◌, refl, ap, ◌∙◌, inl, inr, Bool, true, false, Option, none, some, List, [], ◌∷◌, ◌&&◌, arith,
  if◌then◌else◌, is_nil, Bool-cases,
}
use sumweave.Base.Text.{Str, str_eq, str_eq_iff}
use sumweave.Base.Int.{ℤ, pos}
use sumweave.Base.Dict.{Dict, lookup, lookup-insert}
use sumweave.Sync.Types.{Transaction, TransactionStatus, pending, booked}
use sumweave.Reports.Types.{
  DashboardPeriod, DashboardCurrencyTotal, DashboardData, DashboardState, add_int64, sub_int64,
}
use sumweave.Reports.Dashboard.{
  is_booked, contribution_of, reporting_contribution, transaction_in_period, total_or_new,
  added_total, add_native_total, convert_transaction_contribution, add_converted, with_native,
  add_contribution, process_dashboard_transaction, process_all, new_state,
}

-- What a transaction brings to the totals: its contribution, if it is booked, visible and in the period.
abbrev pub native_contribution : DashboardPeriod → Transaction → Option (ℤ × ℤ)
native_contribution period t =
    if is_nil t.hidden_at && transaction_in_period t period && is_booked t.status
    then reporting_contribution t
    else none

abbrev cons_if : Option (ℤ × ℤ) → List (ℤ × ℤ) → List (ℤ × ℤ)
cons_if none xs = xs
cons_if (some x) xs = x ∷ xs

-- The contributions in a currency, in order.
unfoldable pub contributions_in : Str → DashboardPeriod → List Transaction → List (ℤ × ℤ)
contributions_in currency period [] = []
contributions_in currency period (t ∷ ts) =
    let rest = contributions_in currency period ts in
    if str_eq t.currency currency then cons_if (native_contribution period t) rest else rest

unfoldable pub sum_incomes : ℤ → List (ℤ × ℤ) → ℤ
sum_incomes acc [] = acc
sum_incomes acc ((i, e) ∷ xs) = sum_incomes (add_int64 acc i) xs

unfoldable pub sum_expenses : ℤ → List (ℤ × ℤ) → ℤ
sum_expenses acc [] = acc
sum_expenses acc ((i, e) ∷ xs) = sum_expenses (add_int64 acc e) xs

-- A total and what is added to it.
abbrev grown_total : DashboardCurrencyTotal → List (ℤ × ℤ) → DashboardCurrencyTotal
grown_total total xs = record {
  currency = total.currency;
  income_minor = sum_incomes total.income_minor xs;
  expense_minor = sum_expenses total.expense_minor xs;
  net_minor = sub_int64 (sum_incomes total.income_minor xs) (sum_expenses total.expense_minor xs);
}

abbrev continued :
    Str → Option DashboardCurrencyTotal → List (ℤ × ℤ) → Option DashboardCurrencyTotal
continued currency before [] = before
continued currency before (x ∷ xs) = some (grown_total (total_or_new currency before) (x ∷ xs))

continued_one :
    (currency : Str) (before : Option DashboardCurrencyTotal) (i e : ℤ) (xs : List (ℤ × ℤ))
    → continued currency (some (added_total i e (total_or_new currency before))) xs
      ≡ continued currency before ((i, e) ∷ xs)
unfolding sum_incomes sum_expenses
continued_one currency before i e [] = refl
continued_one currency before i e (x ∷ xs) = refl

-- The entry of a currency.
abbrev pub total_of : Str → List (ℤ × ℤ) → Option DashboardCurrencyTotal
total_of currency [] = none
total_of currency (x ∷ xs) = some (record {
  currency = currency;
  income_minor = sum_incomes (pos 0) (x ∷ xs);
  expense_minor = sum_expenses (pos 0) (x ∷ xs);
  net_minor = sub_int64 (sum_incomes (pos 0) (x ∷ xs)) (sum_expenses (pos 0) (x ∷ xs));
})

module _ {Rate : Type 0} (rounded : ℤ → Rate → ℤ) (provider : Str) where
  abbrev after_native :
      Transaction → Option (ℤ × ℤ) → Dict DashboardCurrencyTotal → Dict DashboardCurrencyTotal
  after_native t none totals = totals
  after_native t (some (i, e)) totals = add_native_total totals t.currency i e

  converted_native :
      (d : DashboardData Rate) (t : Transaction) (s : DashboardState) (status : TransactionStatus)
      (amounts : Option (ℤ × ℤ))
      → (add_converted rounded provider d t s status amounts).native_totals ≡ s.native_totals
  converted_native d t s booked none = refl
  converted_native d t s pending none = refl
  converted_native d t s booked (some (i, e)) = refl
  converted_native d t s pending (some (i, e)) = refl

  contribution_native :
      (d : DashboardData Rate) (t : Transaction) (s : DashboardState) (c : Option (ℤ × ℤ))
      → (add_contribution rounded provider d t s c).native_totals
        ≡ after_native t (if is_booked t.status then c else none) s.native_totals
  contribution_native d t s none = ground arith
  contribution_native d t s (some (i, e)) =
      converted_native d t (with_native rounded provider t i e s) t.status
        (convert_transaction_contribution rounded provider d t (i, e))
      ∙ by_status (is_booked t.status)
    where
      by_status :
          (b : Bool)
          → (if b
              then record s { native_totals = add_native_total s.native_totals t.currency i e }
              else s).native_totals
            ≡ after_native t (if b then some (i, e) else none) s.native_totals
      by_status true = refl
      by_status false = refl

  process_native :
      (d : DashboardData Rate) (t : Transaction) (s : DashboardState)
      → (process_dashboard_transaction rounded provider d s t).native_totals
        ≡ after_native t (native_contribution d.period t) s.native_totals
  unfolding process_dashboard_transaction
  process_native d t s = elim (Bool-cases (is_nil t.hidden_at)) [
    | inr hidden ↦ rw hidden refl
    | inl visible ↦ elim (Bool-cases (transaction_in_period t d.period)) [
      | inr outside ↦ rw (visible, outside) refl
      | inl within ↦ rw (visible, within) (contribution_native d t s (contribution_of t.kind t))
    ]
  ]

  step :
      (currency : Str) (t : Transaction) (totals : Dict DashboardCurrencyTotal) (c : Option (ℤ × ℤ))
      (rest : List (ℤ × ℤ))
      → continued currency (lookup currency (after_native t c totals)) rest
        ≡ continued currency
            (lookup currency totals)
            (if str_eq t.currency currency then cons_if c rest else rest)
  step currency t totals none rest = ground arith
  step currency t totals (some (i, e)) rest =
      ap (λ o. continued currency o rest)
        (lookup-insert t.currency currency
          (added_total i e (total_or_new t.currency (lookup t.currency totals))) totals)
      ∙ elim (Bool-cases (str_eq t.currency currency)) [
        | inr other ↦ rw other refl
        | inl same ↦
            let is = (str_eq_iff t.currency currency).0 same in
            rw same (
              ap
                (λ (k : Str).
                  continued currency (some (added_total i e (total_or_new k (lookup k totals))))
                    rest)
                is
              ∙ continued_one currency (lookup currency totals) i e rest)
      ]

  process_all_native :
      (d : DashboardData Rate) (currency : Str) (ts : List Transaction) (s : DashboardState)
      → lookup currency (process_all rounded provider d s ts).native_totals
        ≡ continued currency
            (lookup currency s.native_totals)
            (contributions_in currency d.period ts)
  unfolding process_all contributions_in
  process_all_native d currency [] s = refl
  process_all_native d currency (t ∷ ts) s =
      process_all_native d currency ts (process_dashboard_transaction rounded provider d s t)
      ∙ ap
          (λ (totals : Dict DashboardCurrencyTotal).
            continued currency (lookup currency totals) (contributions_in currency d.period ts))
          (process_native d t s)
      ∙ step currency t s.native_totals (native_contribution d.period t)
          (contributions_in currency d.period ts)

  from_nothing :
      (currency : Str) (xs : List (ℤ × ℤ)) → continued currency none xs ≡ total_of currency xs
  from_nothing currency [] = refl
  from_nothing currency (x ∷ xs) = refl

  -- The totals that the dashboard collects have an entry for a currency exactly when a booked and visible
  -- transaction of the period contributes in it; the entry is the int64 sums of the incomes and of the
  -- expenses that these transactions contribute, and their difference. Rates have no part in it.
  pub process_all_totals :
      (d : DashboardData Rate) (ts : List Transaction) (currency : Str)
      → lookup currency
          (process_all rounded provider d (new_state rounded provider d) ts).native_totals
        ≡ total_of currency (contributions_in currency d.period ts)
  unfolding lookup
  process_all_totals d ts currency =
      process_all_native d currency ts (new_state rounded provider d)
      ∙ from_nothing currency (contributions_in currency d.period ts)
