-- ===== src/Jobs/Recovery.antt =====
-- The recovery of running jobs whose worker has gone: `RecoverStaleRunning` of
-- apps/sumweave/internal/jobs/store.go.
use sumweave.Base.{◌+◌, Bool, none, some, List, [], ◌∷◌, ◌&&◌, ◌==◌, leb, if◌then◌else◌, keep}
use sumweave.Base.Text.{bytes, str_eq}
use sumweave.Base.Int.{ℤ, pos, pos_part, leb_ℤ}
use sumweave.Jobs.Types.{Job, Time, running, queued, failed}
use sumweave.Jobs.Table.{JobModel, Table, status_eq, time_ptr_eq, update_where}
use sumweave.Jobs.Store.{
  Fault, Result, ok, err, driver, zero_timestamp, stale_age_not_positive, renew_running,
}

requeued : Time → JobModel → JobModel
requeued now m = record m {
  status = queued;
  updated_at = now;
  queued_at = now;
  started_at = none;
  worker_id = [];
  error_code = bytes "stale_running_requeued";
  error_summary = bytes "stale running job requeued";
  error_details = bytes "startup recovery requeued a stale running job";
}

exhausted : Time → JobModel → JobModel
exhausted now m = record m {
  status = failed;
  updated_at = now;
  completed_at = some now;
  error_code = bytes "stale_running_attempts_exhausted";
  error_summary = bytes "stale running job attempts exhausted";
  error_details = bytes "startup recovery marked job failed after attempts were exhausted";
}

-- The row is still the one that the scan has seen.
abbrev pub unchanged_since : JobModel → JobModel → Bool
unchanged_since seen m =
    str_eq m.id seen.id
    && status_eq m.status running
    && str_eq m.worker_id seen.worker_id
    && time_ptr_eq m.started_at seen.started_at
    && m.updated_at == seen.updated_at

unfoldable pub recovered_row : JobModel → Time → ℤ → JobModel → JobModel
unfolding requeued exhausted
recovered_row seen now max_attempts m =
    if leb_ℤ max_attempts (pos seen.attempt_count) then exhausted now m else requeued now m

unfoldable pub recover_stale_running_model :
    Fault → JobModel → Time → ℤ → Table → Result (Unit {0}) × Table
recover_stale_running_model (some e) seen now max_attempts t = (err (driver e), t)
recover_stale_running_model none seen now max_attempts t =
    (ok tt, update_where (unchanged_since seen) (recovered_row seen now max_attempts) t)

-- The loop over the scanned rows stops at the first failure. Each row's statement has its own fault.
unfoldable pub recover_each :
    (JobModel → Fault) → List JobModel → Time → ℤ → Table → Result (Unit {0}) × Table
unfolding recover_stale_running_model
recover_each faults [] now max_attempts t = (ok tt, t)
recover_each faults (m ∷ seen) now max_attempts t =
    let (r, t') = recover_stale_running_model (faults m) m now max_attempts t in
    let rest = recover_each faults seen now max_attempts t' in
    elim r [ err e ↦ (err e, t') | ok u ↦ rest ]

-- `updated_at <= now - age`, with the age moved to the other side.
abbrev pub is_stale : Time → ℤ → JobModel → Bool
is_stale now age m = status_eq m.status running && leb (m.updated_at + pos_part age) now

unfoldable pub recover_stale_running :
    Fault → (JobModel → Fault) → Time → ℤ → ℤ → Table → Result (Unit {0}) × Table
unfolding recover_each
recover_stale_running scan faults now age max_attempts t =
    if now == 0
    then (err zero_timestamp, t)
    else if leb_ℤ age (pos 0)
    then (err stale_age_not_positive, t)
    else elim scan [
      | some e ↦ (err (driver e), t)
      | none ↦ recover_each faults (keep (is_stale now age) t) now max_attempts t
    ]

-- `renewRunningClaims` of worker.go: an error is only logged, and the next claim is renewed.
unfoldable pub renew_running_claims : (Job → Fault) → List Job → Time → Table → Table
renew_running_claims faults [] now t = t
renew_running_claims faults (claim ∷ claims) now t =
    renew_running_claims faults claims now (renew_running (faults claim) claim now t).1
