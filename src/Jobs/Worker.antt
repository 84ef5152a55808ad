-- ===== src/Jobs/Worker.antt =====
-- The delivery of one message by apps/sumweave/internal/jobs/worker.go. `process_observed` is split
-- where the handler runs, since other processes may write to the table meanwhile: `begin_observed`
-- ends with the claim, and `end_observed` writes what the execution came to.
pub mod Tracker
pub mod Retry
pub mod Begins
pub mod Deliveries
pub mod Exhaustion
use sumweave.Base.{ℕ, Bool, true, false, Option, none, some, List, [], ◌∷◌, ◌==◌, if◌then◌else◌}
use sumweave.Base.Text.{Str}
use sumweave.Base.Int.{ℤ, pos}
use sumweave.Jobs.Types.{
  Time, JobStatus, queued, running, succeeded, failed, JobMetadata, JobError, Job,
  canonicalize_requester,
}
use sumweave.Jobs.Table.{Table, status_eq}
use sumweave.Jobs.Failures.{
  BusinessFailure, job_error_from_execution, job_error_from_business_failure,
}
use sumweave.Jobs.Store.{
  Fault, Result, ok, err, StoreError, job_not_queued, TerminalJobState,
  new_succeeded_terminal_job_state, new_failed_terminal_job_state, materialize_queued, claim_queued,
  requeue_running, finalize_retry_exhausted,
}
use sumweave.Jobs.Worker.Retry.{
  Attempt, Outcome, worker_persist_terminal_state, worker_finalize_retry_exhausted,
}

-- The job that a message is first seen as.
unfoldable pub observed_job : Str → JobMetadata → Time → Job
unfolding canonicalize_requester
observed_job message_id metadata now = record {
  id = message_id;
  job_type = metadata.job_type;
  status = queued;
  requester = canonicalize_requester metadata.requester;
  error = none;
  created_at = now;
  updated_at = now;
  queued_at = now;
  started_at = none;
  completed_at = none;
  worker_id = [];
  attempt_count = 0;
  last_attempt_at = none;
  schedule_id = metadata.schedule_id;
  scheduled_at = metadata.scheduled_at;
  scheduled_next_run_at = metadata.scheduled_next_run_at;
}

-- What the surroundings give while a delivery begins: the handler's reading of the payload (`none`
-- if that fails), what the driver reports for each statement, and the clock at each reading.
pub record Beginning : Type 0 where
  pub metadata : Option JobMetadata
  pub insert_fault : Fault
  pub insert_read_fault : Fault
  pub claim_fault : Fault
  pub claim_read_fault : Fault
  pub now : Time
  pub claim_now : Time

-- `not_executed` carries what the delivery returns: nil, or an error.
pub data DeliveryError : Type 0 where
  metadata_error : DeliveryError
  running_job_delivery : Str → DeliveryError
  materialize_failed claim_failed : StoreError → DeliveryError

pub data Begun : Type 0 where
  not_executed : Option DeliveryError → Begun
  executing : Job → Begun

claim_result : Result Job → Begun
claim_result (ok claimed) = executing claimed
claim_result (err job_not_queued) = not_executed none
claim_result (err e) = not_executed (some (claim_failed e))

begin_claim : Str → Beginning → Job → Table → Begun × Table
unfolding claim_result
begin_claim worker_id b job t =
    let (r, t') = claim_queued b.claim_fault b.claim_read_fault job.id worker_id b.claim_now t in
    (claim_result r, t')

unfoldable pub begin_materialized : Str → Beginning → Result Job → Table → Begun × Table
unfolding begin_claim
begin_materialized worker_id b (err e) t = (not_executed (some (materialize_failed e)), t)
begin_materialized worker_id b (ok job) t =
    if status_eq job.status running
    then (not_executed (some (running_job_delivery job.id)), t)
    else if status_eq job.status queued
    then begin_claim worker_id b job t
    else (not_executed none, t)

unfoldable pub begin_observed : Str → Beginning → Str → Table → Begun × Table
begin_observed worker_id b message_id t = elim b.metadata [
  | none ↦ (not_executed (some metadata_error), t)
  | some metadata ↦
      let (r, t') =
        materialize_queued b.insert_fault b.insert_read_fault
          (observed_job message_id metadata b.now) t in
      begin_materialized worker_id b r t'
]

-- What the handler's `execute` comes to: nil, a business failure, another error, or a panic.
pub data Execution : Type 0 where
  completed : Execution
  business_failure : BusinessFailure → Execution
  transient_error : Str → Execution
  panicked : Execution

-- What `processObserved` gives back to the router. `retry` is `exhaustedRetryError`, with what its
-- `finalize` needs.
pub data Delivered : Type 0 where
  terminal : Outcome → Delivered
  requeue_failed : StoreError → Delivered
  retry : Str → Time → Str → Delivered
  re_panicked : Delivered
  requeue_panicked : StoreError → Delivered

-- The instants that are read, what the driver reports for the requeue, and the attempts at
-- persisting the terminal state.
pub record Ending : Type 0 where
  pub now : Time
  pub requeue_fault : Fault
  pub attempts : List Attempt

after_panic : Result (Unit {0}) → Delivered
after_panic (ok u) = re_panicked
after_panic (err e) = requeue_panicked e

after_requeue : Job → Time → Str → Result (Unit {0}) → Delivered
after_requeue claimed queued_at error (ok u) = retry claimed.id queued_at error
after_requeue claimed queued_at error (err e) = requeue_failed e

unfoldable pub end_observed : Str → Ending → Job → Execution → Table → Delivered × Table
unfolding after_panic after_requeue
end_observed worker_id e claimed completed t =
    let (r, t') =
      worker_persist_terminal_state e.attempts claimed
        (new_succeeded_terminal_job_state worker_id e.now) t in
    (terminal r, t')
end_observed worker_id e claimed (business_failure f) t =
    let state =
      new_failed_terminal_job_state worker_id (some (job_error_from_business_failure f)) e.now in
    let (r, t') = worker_persist_terminal_state e.attempts claimed state t in (terminal r, t')
end_observed worker_id e claimed (transient_error error) t =
    let (r, t') = requeue_running e.requeue_fault claimed e.now t in
    (after_requeue claimed e.now error r, t')
end_observed worker_id e claimed panicked t =
    let (r, t') = requeue_running e.requeue_fault claimed e.now t in (after_panic r, t')

-- `OnRetriesExhausted`, when the router gives up on a message.
unfoldable pub on_retries_exhausted :
    Str → List Attempt → Time → Str → Time → Str → Table → Outcome × Table
on_retries_exhausted worker_id attempts now job_id queued_at error t =
    worker_finalize_retry_exhausted attempts job_id queued_at
      (new_failed_terminal_job_state worker_id (some (job_error_from_execution error)) now) t
