-- ===== src/Reports/Coverage/Affected.antt =====
-- The coverage of the missing rates, against the transactions and balances that it is of.
use sumweave.Base.{
  ℕ, ◌+◌, ◌≡◌, refl, ap, ◌∙◌, Bool, true, false, Option, none, some, List, [], ◌∷◌, arith, length,
  keep, insert_by, sort_by,
}
use sumweave.Base.Text.{Str}
use sumweave.Base.Dict.{Dict, lookup, insert}
use sumweave.Reports.Types.{
  DashboardMissingFxDiagnostic, of_transaction, of_balance, DashboardFxCoverage,
}
use sumweave.Reports.Dashboard.{pair_key, values}
use sumweave.Reports.Coverage.{
  coverage_or_new, affected, coverage_by_pair, coverage_before, build_dashboard_fx_coverage,
}

abbrev pub is_of_transaction : DashboardMissingFxDiagnostic → Bool
is_of_transaction item = elim item.source [ of_transaction ↦ true | of_balance ↦ false ]

abbrev pub is_of_balance : DashboardMissingFxDiagnostic → Bool
is_of_balance item = elim item.source [ of_transaction ↦ false | of_balance ↦ true ]

-- The sum of a count over the coverage.
module _ (count : DashboardFxCoverage → ℕ) where
  unfoldable pub sum_of : List DashboardFxCoverage → ℕ
  sum_of [] = 0
  sum_of (c ∷ cs) = count c + sum_of cs

  abbrev count_in : Option DashboardFxCoverage → ℕ
  count_in none = 0
  count_in (some c) = count c

  sum_of-insert :
      (key : Str) (c : DashboardFxCoverage) (coverage : Dict DashboardFxCoverage)
      → sum_of (values (insert key c coverage)) + count_in (lookup key coverage)
        ≡ sum_of (values coverage) + count c
  unfolding sum_of values insert lookup
  sum_of-insert key c [] = omega arith
  sum_of-insert key c ((k, b) ∷ coverage) = ground (arith, sum_of-insert key c coverage)

  sum_of-insert_by :
      (before : DashboardFxCoverage → DashboardFxCoverage → Bool) (c : DashboardFxCoverage)
      (cs : List DashboardFxCoverage)
      → sum_of (insert_by before c cs) ≡ count c + sum_of cs
  unfolding sum_of insert_by
  sum_of-insert_by before c [] = refl
  sum_of-insert_by before c (b ∷ cs) = ground (arith, sum_of-insert_by before c cs)

  sum_of-sort_by :
      (before : DashboardFxCoverage → DashboardFxCoverage → Bool) (cs : List DashboardFxCoverage)
      → sum_of (sort_by before cs) ≡ sum_of cs
  unfolding sum_of sort_by
  sum_of-sort_by before [] = refl
  sum_of-sort_by before (c ∷ cs) =
      sum_of-insert_by before c (sort_by before cs)
      ∙ ap (λ n. count c + n) (sum_of-sort_by before cs)

transactions_by_pair :
    (missing : List DashboardMissingFxDiagnostic) (coverage : Dict DashboardFxCoverage)
    → sum_of (λ c. c.affected_transaction_count) (values (coverage_by_pair missing coverage))
      ≡ sum_of (λ c. c.affected_transaction_count) (values coverage)
        + length (keep is_of_transaction missing)
unfolding coverage_by_pair
transactions_by_pair [] coverage = omega arith
transactions_by_pair (item ∷ missing) coverage =
    let key = pair_key item.provider item.base_currency item.quote_currency in
    let c = affected item.source (coverage_or_new item (lookup key coverage)) in
    ground (
      arith,
      sum_of-insert (λ (c : DashboardFxCoverage). c.affected_transaction_count) key c coverage,
      transactions_by_pair missing (insert key c coverage),
    )

accounts_by_pair :
    (missing : List DashboardMissingFxDiagnostic) (coverage : Dict DashboardFxCoverage)
    → sum_of (λ c. c.affected_account_count) (values (coverage_by_pair missing coverage))
      ≡ sum_of (λ c. c.affected_account_count) (values coverage)
        + length (keep is_of_balance missing)
unfolding coverage_by_pair
accounts_by_pair [] coverage = omega arith
accounts_by_pair (item ∷ missing) coverage =
    let key = pair_key item.provider item.base_currency item.quote_currency in
    let c = affected item.source (coverage_or_new item (lookup key coverage)) in
    ground (
      arith,
      sum_of-insert (λ (c : DashboardFxCoverage). c.affected_account_count) key c coverage,
      accounts_by_pair missing (insert key c coverage),
    )

-- Over the coverage, the affected transactions sum up to the diagnostics of transactions, and the affected
-- accounts to those of balances.
pub build_dashboard_fx_coverage_counts :
    (missing : List DashboardMissingFxDiagnostic)
    → (sum_of (λ c. c.affected_transaction_count) (build_dashboard_fx_coverage missing)
        ≡ length (keep is_of_transaction missing))
      × (sum_of (λ c. c.affected_account_count) (build_dashboard_fx_coverage missing)
          ≡ length (keep is_of_balance missing))
unfolding build_dashboard_fx_coverage sum_of values
build_dashboard_fx_coverage_counts missing = (
  sum_of-sort_by (λ (c : DashboardFxCoverage). c.affected_transaction_count) coverage_before
        (values (coverage_by_pair missing []))
      ∙ transactions_by_pair missing []
      ∙ omega arith,
  sum_of-sort_by (λ (c : DashboardFxCoverage). c.affected_account_count) coverage_before
        (values (coverage_by_pair missing []))
      ∙ accounts_by_pair missing []
      ∙ omega arith,
)
