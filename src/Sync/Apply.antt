-- ===== src/Sync/Apply.antt =====
-- What a plan writes: `ApplyPlanner` and `MergePolicy` of finance/internal/providers/apply.go.
pub mod Merging
use sumweave.Base.{Bool, true, false, Option, none, some, List, [], ◌∷◌, ◌==◌, if◌then◌else◌}
use sumweave.Base.Text.{Str, str_eq}
use sumweave.Base.Int.{ℤ, ◌==ℤ◌}
use sumweave.Sync.Types.{
  Time, Transaction, TransactionOriginal, TransactionObservation, SyncStats, SyncIssue,
}
use sumweave.Sync.Diff.{Action, ActionType, create, update, DiffPlan}

pub record TransactionWrite : Type 0 where
  pub action : Action
  pub merged_transaction : Option Transaction

pub record ApplyPlan : Type 0 where
  pub transaction_writes : List TransactionWrite
  pub stats : SyncStats
  pub issues : List SyncIssue

abbrev pub should_refresh_amount : ℤ → Option TransactionOriginal → Bool
should_refresh_amount current none = false
should_refresh_amount current (some o) = current ==ℤ o.amount_minor

abbrev pub should_refresh_currency : Str → Option TransactionOriginal → Bool
should_refresh_currency current none = false
should_refresh_currency current (some o) = str_eq current o.currency

abbrev pub should_refresh_description : Str → Option TransactionOriginal → Bool
should_refresh_description current none = false
should_refresh_description current (some o) = str_eq current o.description

abbrev pub same_time : Time → Option Time → Bool
same_time current none = false
same_time current (some t) = current == t

abbrev pub should_refresh_time : Time → Option TransactionOriginal → Bool
should_refresh_time current none = false
should_refresh_time current (some o) = same_time current o.effective_at

unfoldable pub build_provider_original : TransactionObservation → TransactionOriginal
build_provider_original o = elim o.provider_original [
  | some original ↦ original
  | none ↦ record {
    amount_minor = o.amount_minor;
    currency = o.currency;
    description = o.description;
    effective_at = some o.effective_at;
  }
]

unfoldable pub merge_transaction : Transaction → TransactionObservation → Transaction
merge_transaction existing o =
    let previous = existing.provider_original in
    record existing {
      status = o.status;
      amount_minor =
          if should_refresh_amount existing.amount_minor previous
          then o.amount_minor
          else existing.amount_minor;
      currency =
          if should_refresh_currency existing.currency previous
          then o.currency
          else existing.currency;
      description =
          if should_refresh_description existing.description previous
          then o.description
          else existing.description;
      effective_at =
          if should_refresh_time existing.effective_at previous
          then o.effective_at
          else existing.effective_at;
      provider_original = some (build_provider_original o);
    }

merged : ActionType → TransactionObservation → Option Transaction → Option Transaction
merged create o existing = none
merged update o none = none
merged update o (some t) = some (merge_transaction t o)

write_of : Action → TransactionWrite
write_of a = record {
  action = a;
  merged_transaction = merged a.type a.observation a.existing_transaction;
}

writes : List Action → List TransactionWrite
writes [] = []
writes (a ∷ rest) = write_of a ∷ writes rest

-- `ApplyPlanner.Plan`
unfoldable pub plan_apply : DiffPlan → ApplyPlan
unfolding writes write_of merged
plan_apply diff = record {
  transaction_writes = writes diff.transaction_actions;
  stats = diff.stats;
  issues = diff.issues;
}
