-- ===== src/Jobs/Examples.antt =====
-- The theorems on background jobs at concrete inputs: a job that workers `a` and `b` compete for.
mod Workers
mod Recovered
mod Exhausted
mod Listed
use sumweave.Base.{
  ℕ, ◌≡◌, ◌≢◌, ◌≤◌, ◌+◌, ◌*◌, ◌<◌, refl, subst, some_injective, ◌⊎◌, inl, inr, Bool, true, false,
  Option, none, some, List, [], ◌∷◌, ◌++◌, ◌&&◌, ◌||◌, arith, is_nil, length,
}
use sumweave.Base.Text.{Str, bytes, str_eq, trim_space, is_empty}
use sumweave.Base.Int.{ℤ, pos, ◌≤ℤ◌, pos_part}
use sumweave.Base.Dict.{lookup}
use sumweave.Jobs.Types.{
  JobStatus, queued, running, succeeded, failed, Job, JobMetadata, JobError, Requester, ListParams,
  GetParams, WorkerConfig, normalize_worker_config, normalize_list_params, in_list,
  intersect_requester_sources, no_sources, truncate_bounded, validate_read_scope,
}
use sumweave.Jobs.Types.Bounds.{
  truncate_bounded_bound, normalize_worker_config_positive, normalize_list_params_limit,
  intersect_requester_sources_lem,
}
use sumweave.Jobs.Table.{
  JobModel, Table, HasUniqueIds, find_row, find_where, count_where, update_where, insert_row,
}
use sumweave.Jobs.Store.{
  ok, err, job_not_queued, job_claim_lost, TerminalJobState, new_succeeded_terminal_job_state,
  claim_queued, persist_terminal_state, requeue_running, renew_running, job_from_model,
  get_for_requester, update_one, holds_claim, materialize_queued, new_job_model,
}
use sumweave.Jobs.Worker.{observed_job}
use sumweave.Jobs.Store.Claims.{claim_queued_exclusive}
use sumweave.Jobs.Store.Fencing.{
  Holds, IsLapsed, lost_claim_writes, claim_ends_once, requeue_hands_over,
}
use sumweave.Jobs.Store.Scope.{get_for_requester_scoped}
use sumweave.Jobs.Lifecycle.{
  StoreOp, claim, fail, requeue, recover, materialize, run, apply, Moved, RowSteps,
}
use sumweave.Jobs.Lifecycle.Moves.{run-Moved}
use sumweave.Jobs.Lifecycle.Invariants.{run_terminal, run-attempt_count, claims}
use sumweave.Jobs.Lifecycle.Fresh.{Columns, run-Columns}

abbrev job_1 : Str
job_1 = bytes "job-1"

abbrev worker_a : Str
worker_a = bytes "a"

abbrev worker_b : Str
worker_b = bytes "b"

abbrev metadata : JobMetadata
metadata = record {
  job_type = bytes "sync";
  requester = record { user_id = bytes "user-1"; source = bytes "web" };
  schedule_id = [];
  scheduled_at = none;
  scheduled_next_run_at = none;
}

abbrev queued_row : JobModel
queued_row = record {
  id = job_1;
  job_type = bytes "sync";
  status = queued;
  requester_user_id = bytes "user-1";
  requester_source = bytes "web";
  error_code = [];
  error_summary = [];
  error_details = [];
  created_at = 10;
  updated_at = 10;
  queued_at = 10;
  started_at = none;
  completed_at = none;
  worker_id = [];
  attempt_count = 0;
  last_attempt_at = none;
  schedule_id = [];
  scheduled_at = none;
  scheduled_next_run_at = none;
}

abbrev running_row : JobModel
running_row = record queued_row {
  status = running;
  worker_id = worker_a;
  attempt_count = 1;
  last_attempt_at = some 20;
  started_at = some 20;
  updated_at = 20;
}

abbrev done : TerminalJobState
done = new_succeeded_terminal_job_state worker_a 30

abbrev done_row : JobModel
done_row = record running_row { status = succeeded; completed_at = some 30; updated_at = 30 }

abbrev queued_table : Table
queued_table = queued_row ∷ []

abbrev running_table : Table
running_table = running_row ∷ []

abbrev done_table : Table
done_table = done_row ∷ []

abbrev claim_a : Job
claim_a = job_from_model running_row

-- The claim of worker `b` after worker `a` has given the job back at 40.
abbrev claim_b : Job
claim_b = job_from_model (record running_row {
  worker_id = worker_b;
  attempt_count = 2;
  last_attempt_at = some 50;
  started_at = some 50;
  queued_at = 40;
  updated_at = 50;
})

abbrev writes_of_both : List StoreOp
writes_of_both =
    claim none none job_1 worker_b 50
    ∷ fail none claim_a worker_a none 60
    ∷ requeue none claim_a 70
    ∷ recover none (λ m. none) 100 (pos 10) (pos 3)
    ∷ []

unique_queued : HasUniqueIds queued_table
unfolding find_row
unique_queued = (refl, tt)

unique_running : HasUniqueIds running_table
unfolding find_row
unique_running = (refl, tt)

found_queued : find_row job_1 queued_table ≡ some queued_row
unfolding find_row str_eq
found_queued = refl

found_running : find_row job_1 running_table ≡ some running_row
unfolding find_row str_eq
found_running = refl

found_done : find_row job_1 done_table ≡ some done_row
unfolding find_row str_eq
found_done = refl

a_claims : (claim_queued none none job_1 worker_a 20 queued_table).0 ≡ ok claim_a
unfolding claim_queued update_one count_where str_eq trim_space find_row update_where
a_claims = refl

run_terminal_example : find_row job_1 (run writes_of_both done_table) ≡ some done_row
run_terminal_example = run_terminal writes_of_both done_table job_1 done_row found_done (inl refl)

claim_queued_exclusive_example :
    let t' = (claim_queued none none job_1 worker_a 20 queued_table).1 in
    claim_queued none none job_1 worker_b 21 t' ≡ (err job_not_queued, t')
claim_queued_exclusive_example =
    claim_queued_exclusive job_1 worker_a worker_b 20 21 queued_table claim_a unique_queued a_claims
      (omega arith)

run-Moved_example : Moved job_1 running_row (run writes_of_both running_table)
run-Moved_example = run-Moved writes_of_both running_table job_1 running_row found_running

claim_ends_once_example :
    let t' = (claim_queued none none job_1 worker_a 20 queued_table).1 in
    let end = persist_terminal_state none claim_a done t' in
    (end.0 ≡ ok tt)
    × (persist_terminal_state none claim_a done end.1 ≡ (err job_claim_lost, end.1))
    × (requeue_running none claim_a 40 end.1 ≡ (err job_claim_lost, end.1))
    × (renew_running none claim_a 40 end.1 ≡ (err job_claim_lost, end.1))
claim_ends_once_example =
    claim_ends_once job_1 worker_a 20 queued_table claim_a done done 40 unique_queued a_claims
      (λ e. cc) (omega arith)

claim_b-IsLapsed : IsLapsed claim_b running_table
unfolding find_row str_eq trim_space job_from_model
claim_b-IsLapsed m found_row =
    subst (λ k. holds_claim claim_b k ≡ false) (some_injective running_row m found_row) refl

lost_claim_writes_example :
    (persist_terminal_state none claim_b done running_table ≡ (err job_claim_lost, running_table))
    × (requeue_running none claim_b 60 running_table ≡ (err job_claim_lost, running_table))
    × (renew_running none claim_b 70 running_table ≡ (err job_claim_lost, running_table))
lost_claim_writes_example =
    lost_claim_writes claim_b done 60 70 running_table unique_running claim_b-IsLapsed (omega arith)
      (omega arith)

a-Holds : Holds claim_a running_row running_table
unfolding find_row str_eq trim_space job_from_model
a-Holds = (refl, refl)

b_claims :
    (claim_queued none none claim_a.id worker_b 50
      (requeue_running none claim_a 40 running_table).1).0
    ≡ ok claim_b
unfolding claim_queued requeue_running update_one count_where str_eq trim_space find_row
    update_where job_from_model
b_claims = refl

a_elsewhere : claim_a.started_at ≢ some 50
unfolding job_from_model
a_elsewhere = λ e. ground arith

requeue_hands_over_example :
    let back = requeue_running none claim_a 40 running_table in
    let taken = claim_queued none none claim_a.id worker_b 50 back.1 in
    (back.0 ≡ ok tt)
    × (persist_terminal_state none claim_a done taken.1 ≡ (err job_claim_lost, taken.1))
requeue_hands_over_example =
    requeue_hands_over claim_a claim_b 40 50 worker_b running_table running_row done unique_running
      a-Holds (omega arith) a_elsewhere b_claims

run-attempt_count_example :
    (m' : JobModel) × (s : RowSteps running_row m') × (find_row job_1
        (run writes_of_both running_table)
      ≡ some m')
    × (m'.attempt_count ≡ running_row.attempt_count + claims s)
run-attempt_count_example =
    run-attempt_count writes_of_both running_table job_1 running_row found_running

abbrev first_writes : List StoreOp
first_writes = materialize none none job_1 metadata 10 ∷ claim none none job_1 worker_a 20 ∷ []

found_claimed : find_row job_1 (run first_writes []) ≡ some running_row
unfolding run find_row claim_queued update_one count_where materialize_queued insert_row str_eq
    new_job_model trim_space observed_job update_where
found_claimed = refl

run-Columns_example : Columns running running_row
run-Columns_example = run-Columns first_writes job_1 running_row found_claimed
