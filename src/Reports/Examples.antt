-- ===== src/Reports/Examples.antt =====
-- The theorems on the dashboard at concrete inputs: a payment in the display currency and one without a rate.
use sumweave.Base.{ℕ, ◌≡◌, ◌&&◌, not, false, none, List, [], ◌∷◌, length, keep}
use sumweave.Base.Text.{Str, bytes}
use sumweave.Base.Int.{ℤ, negsuc}
use sumweave.Base.Dict.{lookup}
use sumweave.Sync.Types.{Transaction, manual, booked, expense}
use sumweave.Reports.Types.{DashboardData}
use sumweave.Reports.Dashboard.{is_booked, process_all, new_state, compute_dashboard}
use sumweave.Reports.Totals.{contributions_in, total_of, process_all_totals}
use sumweave.Reports.Counts.{none_of, is_shown, lacks_rate, missing_of, compute_dashboard_counts}

abbrev unrounded : ℤ → ℕ → ℤ
unrounded amount rate = amount

abbrev source_of_rates : Str
source_of_rates = bytes "frankfurter"

abbrev month : DashboardData ℕ
month = record {
  display_currency = bytes "EUR";
  period = record { start_date = 100; end_date = 200 };
  categories = [];
  latest = [];
}

abbrev groceries : Transaction
groceries = record {
  id = bytes "t1";
  tenant_id = bytes "home";
  account_id = bytes "a1";
  source = manual;
  status = booked;
  kind = expense;
  amount_minor = negsuc 499;
  currency = bytes "EUR";
  description = [];
  effective_at = 150;
  category_id = none;
  tag_ids = [];
  transfer_group_id = none;
  transfer_matched_at = none;
  transfer_matching_excluded = false;
  hidden_at = none;
  created_at = 150;
  updated_at = 150;
  provider_original = none;
}

abbrev souvenirs : Transaction
souvenirs = record groceries { id = bytes "t2"; currency = bytes "USD" }

abbrev both_payments : List Transaction
both_payments = groceries ∷ souvenirs ∷ []

process_all_totals_example :
    lookup
      (bytes "USD")
      (process_all unrounded source_of_rates month
        (new_state unrounded source_of_rates month)
        both_payments).native_totals
    ≡ total_of (bytes "USD") (contributions_in (bytes "USD") month.period both_payments)
process_all_totals_example =
    process_all_totals unrounded source_of_rates month both_payments (bytes "USD")

compute_dashboard_counts_example :
    ((compute_dashboard unrounded source_of_rates month both_payments).settled.transaction_count
      ≡ length (
          keep
            (λ t. is_shown unrounded source_of_rates month t && is_booked t.status)
            both_payments))
    × ((compute_dashboard unrounded source_of_rates month both_payments).pending.transaction_count
        ≡ length (
            keep
              (λ t. is_shown unrounded source_of_rates month t && not (is_booked t.status))
              both_payments))
    × ((compute_dashboard unrounded source_of_rates month both_payments).settled.complete
        ≡ none_of (
            keep
              (λ t. lacks_rate unrounded source_of_rates month t && is_booked t.status)
              both_payments))
    × ((compute_dashboard unrounded source_of_rates month both_payments).pending.complete
        ≡ none_of (
            keep
              (λ t. lacks_rate unrounded source_of_rates month t && not (is_booked t.status))
              both_payments))
    × ((compute_dashboard unrounded source_of_rates month both_payments).missing
        ≡ missing_of unrounded source_of_rates month both_payments)
compute_dashboard_counts_example =
    compute_dashboard_counts unrounded source_of_rates month both_payments
