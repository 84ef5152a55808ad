-- ===== src/Jobs/Store.antt =====
-- The operations of apps/sumweave/internal/jobs/store.go over the table of jobs.
-- A `Fault` is what the driver reports for one statement: nothing, or an error with which the
-- statement has no effect.
pub mod Rows
pub mod Claims
pub mod Fencing
pub mod Scope
use sumweave.Base.{◌+◌, Bool, Option, none, some, [], ◌&&◌, ◌==◌, if◌then◌else◌}
use sumweave.Base.Text.{Str, is_empty, trim_space, str_eq}
use sumweave.Jobs.Types.{
  Time, JobStatus, queued, running, succeeded, failed, JobError, Job, GetParams, ScopeError,
  validate_read_scope, in_list, truncate_bounded, max_error_code_length, max_error_summary_length,
  max_error_details_length,
}
use sumweave.Jobs.Table.{
  JobModel, Table, status_eq, time_ptr_eq, find_row, find_where, update_where, count_where,
  insert_row,
}

abbrev pub Fault : Type 0
Fault = Option Str

-- The errors that the store returns; `driver` keeps the driver's own text.
pub data StoreError : Type 0 where
  job_not_found job_not_queued job_claim_lost zero_timestamp stale_age_not_positive : StoreError
  scope : ScopeError → StoreError
  driver : Str → StoreError

pub data Result (A : Type 0) : Type 0 where
  ok : A → Result A
  err : StoreError → Result A

-- `terminalJobState`
pub record TerminalJobState : Type 0 where
  pub status : JobStatus
  pub worker_id : Str
  pub job_error : Option JobError
  pub completed_at : Time

abbrev pub new_succeeded_terminal_job_state : Str → Time → TerminalJobState
new_succeeded_terminal_job_state w at = record {
  status = succeeded;
  worker_id = w;
  job_error = none;
  completed_at = at;
}

abbrev pub new_failed_terminal_job_state : Str → Option JobError → Time → TerminalJobState
new_failed_terminal_job_state w e at = record {
  status = failed;
  worker_id = w;
  job_error = e;
  completed_at = at;
}

abbrev pub error_code_of : Option JobError → Str
error_code_of none = []
error_code_of (some e) = truncate_bounded e.code max_error_code_length

abbrev pub error_summary_of : Option JobError → Str
error_summary_of none = []
error_summary_of (some e) = truncate_bounded e.summary max_error_summary_length

abbrev pub error_details_of : Option JobError → Str
error_details_of none = []
error_details_of (some e) = truncate_bounded e.details max_error_details_length

unfoldable pub new_job_model : Job → JobModel
new_job_model job = record {
  id = trim_space job.id;
  job_type = job.job_type;
  status = job.status;
  requester_user_id = trim_space job.requester.user_id;
  requester_source = trim_space job.requester.source;
  error_code = error_code_of job.error;
  error_summary = error_summary_of job.error;
  error_details = error_details_of job.error;
  created_at = job.created_at;
  updated_at = job.updated_at;
  queued_at = job.queued_at;
  started_at = job.started_at;
  completed_at = job.completed_at;
  worker_id = trim_space job.worker_id;
  attempt_count = job.attempt_count;
  last_attempt_at = job.last_attempt_at;
  schedule_id = trim_space job.schedule_id;
  scheduled_at = job.scheduled_at;
  scheduled_next_run_at = job.scheduled_next_run_at;
}

error_of : Str → Str → Str → Option JobError
error_of code summary details =
    if is_empty code && is_empty summary && is_empty details
    then none
    else some (record { code = code; summary = summary; details = details })

unfoldable pub job_from_model : JobModel → Job
unfolding error_of
job_from_model m = record {
  id = m.id;
  job_type = m.job_type;
  status = m.status;
  requester = record { user_id = m.requester_user_id; source = m.requester_source };
  error = error_of m.error_code m.error_summary m.error_details;
  created_at = m.created_at;
  updated_at = m.updated_at;
  queued_at = m.queued_at;
  started_at = m.started_at;
  completed_at = m.completed_at;
  worker_id = m.worker_id;
  attempt_count = m.attempt_count;
  last_attempt_at = m.last_attempt_at;
  schedule_id = m.schedule_id;
  scheduled_at = m.scheduled_at;
  scheduled_next_run_at = m.scheduled_next_run_at;
}

pub found : Option JobModel → Result Job
found none = err job_not_found
found (some m) = ok (job_from_model m)

unfoldable pub get : Fault → Str → Table → Result Job
unfolding found
get (some e) job_id t = err (driver e)
get none job_id t = found (find_row (trim_space job_id) t)

-- The row that the requester may see.
abbrev pub visible : GetParams → JobModel → Bool
visible params m =
    str_eq m.id (trim_space params.job_id)
    && str_eq m.requester_user_id (trim_space params.requester_user_id)
    && in_list m.requester_source params.allowed_sources

unfoldable pub get_for_requester : Fault → GetParams → Table → Result Job
unfolding found
get_for_requester fault params t =
    elim (validate_read_scope params.requester_user_id params.allowed_sources) [
      | some e ↦ err (scope e)
      | none ↦ elim fault [ some e ↦ err (driver e) | none ↦ found (find_where (visible params) t) ]
    ]

unfoldable pub materialize_queued : Fault → Fault → Job → Table → Result Job × Table
unfolding get
materialize_queued (some e) read job t = (err (driver e), t)
materialize_queued none read job t =
    let t' = insert_row (new_job_model job) t in (get read job.id t', t')

-- An update whose `RowsAffected` must not be 0.
unfoldable pub update_one :
    Fault
    → StoreError
    → (JobModel → Bool)
    → (JobModel → JobModel)
    → Table
    → Result (Unit {0}) × Table
update_one (some e) missed p f t = (err (driver e), t)
update_one none missed p f t =
    if count_where p t == 0 then (err missed, t) else (ok tt, update_where p f t)

abbrev pub is_queued : JobModel → Bool
is_queued m = status_eq m.status queued

abbrev pub claimed_row : Str → Time → JobModel → JobModel
claimed_row worker_id at m = record m {
  status = running;
  worker_id = trim_space worker_id;
  attempt_count = m.attempt_count + 1;
  last_attempt_at = some at;
  started_at = some at;
  updated_at = at;
}

unfoldable pub claim_queued : Fault → Fault → Str → Str → Time → Table → Result Job × Table
unfolding get
claim_queued fault read job_id worker_id claimed_at t =
    if claimed_at == 0
    then (err zero_timestamp, t)
    else let (r, t') =
        update_one fault job_not_queued (λ m. str_eq m.id (trim_space job_id) && is_queued m)
          (claimed_row worker_id claimed_at) t in
      (elim r [ err e ↦ err e | ok u ↦ get read job_id t' ], t')

-- The token by which a worker owns a running row: its own name and the instant of its claim.
abbrev pub holds_claim : Job → JobModel → Bool
holds_claim claim m =
    status_eq m.status running
    && str_eq m.worker_id (trim_space claim.worker_id)
    && time_ptr_eq m.started_at claim.started_at

abbrev pub terminal_row : TerminalJobState → JobModel → JobModel
terminal_row state m = record m {
  status = state.status;
  worker_id = trim_space state.worker_id;
  error_code = error_code_of state.job_error;
  error_summary = error_summary_of state.job_error;
  error_details = error_details_of state.job_error;
  completed_at = some state.completed_at;
  updated_at = state.completed_at;
}

unfoldable pub persist_terminal_state :
    Fault → Job → TerminalJobState → Table → Result (Unit {0}) × Table
persist_terminal_state fault claim state t =
    update_one fault job_claim_lost (λ m. str_eq m.id (trim_space claim.id) && holds_claim claim m)
      (terminal_row state) t

abbrev pub is_queued_at : Time → JobModel → Bool
is_queued_at at m = is_queued m && m.queued_at == at

unfoldable pub finalize_retry_exhausted :
    Fault → Str → Time → TerminalJobState → Table → Result (Unit {0}) × Table
finalize_retry_exhausted fault job_id queued_at state t =
    update_one fault job_claim_lost
      (λ m. str_eq m.id (trim_space job_id) && is_queued_at queued_at m) (terminal_row state) t

abbrev pub requeued_row : Time → JobModel → JobModel
requeued_row at m = record m {
  status = queued;
  worker_id = [];
  started_at = none;
  queued_at = at;
  updated_at = at;
}

unfoldable pub requeue_running : Fault → Job → Time → Table → Result (Unit {0}) × Table
requeue_running fault claim queued_at t =
    if queued_at == 0
    then (err zero_timestamp, t)
    else update_one fault job_claim_lost
        (λ m. str_eq m.id (trim_space claim.id) && holds_claim claim m) (requeued_row queued_at) t

abbrev pub renewed_row : Time → JobModel → JobModel
renewed_row at m = record m { updated_at = at }

unfoldable pub renew_running : Fault → Job → Time → Table → Result (Unit {0}) × Table
renew_running fault claim renewed_at t =
    if renewed_at == 0
    then (err zero_timestamp, t)
    else update_one fault job_claim_lost
        (λ m. str_eq m.id (trim_space claim.id) && holds_claim claim m) (renewed_row renewed_at) t
