-- ===== src/Jobs/Worker/Deliveries.antt =====
-- What becomes of a delivered message.
use sumweave.Base.{inl, inr, ◌≡◌, ◌≢◌, ◌∙◌, ◌⊎◌, none, some, [], arith}
use sumweave.Base.Text.{Str, trim_space}
use sumweave.Jobs.Types.{Time, queued, running, succeeded, failed, JobMetadata}
use sumweave.Jobs.Table.{JobModel, Table, find_row}
use sumweave.Jobs.Store.{renewed_row}
use sumweave.Jobs.Worker.{
  Beginning, not_executed, running_job_delivery, begin_observed, begin_materialized,
}
use sumweave.Jobs.Worker.Begins.{
  RunsSmoothly, begin_present, job_status_of, status-cases, first_claim,
}

-- A message that is delivered again while its job runs, or after its job has ended, is not executed
-- and leaves the table as it is; it is an error, which keeps the message, exactly while the job
-- runs.
pub begin_observed_duplicate :
    (w : Str) (b : Beginning) (j : Str) (metadata : JobMetadata) (t : Table) (m : JobModel)
    → RunsSmoothly b metadata
    → find_row (trim_space j) t ≡ some m
    → m.status ≢ queued
    → (m.status ≡ running)
        × (begin_observed w b j t ≡ (not_executed (some (running_job_delivery m.id)), t))
      ⊎ ((m.status ≡ succeeded) ⊎ (m.status ≡ failed))
        × (begin_observed w b j t ≡ (not_executed none, t))
begin_observed_duplicate w b j metadata t m h found busy =
    let e = begin_present w b j metadata t m h found in
    elim (status-cases m.status) [
      | inl is_queued ↦ absurd (busy is_queued)
      | inr (inl is_running) ↦
          inl (is_running, e ∙ unfold begin_materialized in ground (arith, job_status_of m))
      | inr (inr ended) ↦
          inr (ended, e ∙ unfold begin_materialized in ground (arith, job_status_of m))
    ]

-- A job that has succeeded at its first attempt, by a worker, without an error.
abbrev pub IsDone : Str → Time → JobModel → Type 0
IsDone w at r =
    (r.status ≡ succeeded)
    × (r.attempt_count ≡ 1)
    × (r.worker_id ≡ trim_space w)
    × (r.completed_at ≡ some at)
    × (r.error_code ≡ [])
    × (r.error_summary ≡ [])
    × (r.error_details ≡ [])

-- The row when the handler ends: the claim of the delivery, renewed or not.
abbrev pub renewed_claim : Str → Beginning → Str → JobMetadata → Time → JobModel
renewed_claim w b j metadata at = renewed_row at (first_claim w b j metadata)
