-- ===== src/Jobs/Examples/Workers.antt =====
-- The theorems on deliveries, settings and readers at concrete inputs.
use sumweave.Base.{◌≡◌, refl, ◌⊎◌, true, false, none, some, List, [], ◌∷◌, arith}
use sumweave.Base.Text.{bytes, str_eq, trim_space, is_empty}
use sumweave.Jobs.Types.{running, succeeded, failed, GetParams, in_list, validate_read_scope}
use sumweave.Jobs.Table.{JobModel, Table, find_row, find_where}
use sumweave.Jobs.Store.{ok, job_from_model, get_for_requester, terminal_row}
use sumweave.Jobs.Store.Scope.{get_for_requester_scoped}
use sumweave.Jobs.Worker.{Beginning, Ending, begin_observed, not_executed, running_job_delivery}
use sumweave.Jobs.Worker.Retry.{Attempt, persisted, worker_persist_terminal_state}
use sumweave.Jobs.Worker.Retry.Rounds.{AllFail, persist_terminal_ends}
use sumweave.Jobs.Worker.Begins.{RunsSmoothly}
use sumweave.Jobs.Worker.Deliveries.{begin_observed_duplicate}
use sumweave.Jobs.Worker.Tracker.{RunOnceTracker, active_of}
use sumweave.Jobs.Worker.Tracker.Counts.{
  delivery_starts, delivery_ends, retry_starts, Event, track, under_way, active_of-track,
}
use sumweave.Jobs.Examples.{
  job_1, worker_b, metadata, running_row, running_table, unique_running, a-Holds, claim_a, done,
  queued_row,
}

abbrev beginning : Beginning
beginning = record {
  metadata = some metadata;
  insert_fault = none;
  insert_read_fault = none;
  claim_fault = none;
  claim_read_fault = none;
  now = 10;
  claim_now = 20;
}

abbrev pub failing : Attempt
failing = record { fault = some (bytes "connection lost"); ended = false; ended_waiting = false }

abbrev pub working : Attempt
working = record { fault = none; ended = false; ended_waiting = false }

abbrev pub ending : Ending
ending = record { now = 30; requeue_fault = none; attempts = failing ∷ working ∷ [] }

smooth : RunsSmoothly beginning metadata
smooth = (refl, refl, refl, refl, refl)

pub failing_only : AllFail (failing ∷ [])
failing_only = (refl, refl, refl, tt)

trimmed_running : find_row (trim_space job_1) running_table ≡ some running_row
unfolding find_row str_eq trim_space
trimmed_running = refl

begin_observed_duplicate_example :
    (running ≡ running)
      × (begin_observed worker_b beginning job_1 running_table
          ≡ (not_executed (some (running_job_delivery job_1)), running_table))
    ⊎ ((running ≡ succeeded) ⊎ (running ≡ failed))
      × (begin_observed worker_b beginning job_1 running_table ≡ (not_executed none, running_table))
begin_observed_duplicate_example =
    begin_observed_duplicate worker_b beginning job_1 metadata running_table running_row smooth
      trimmed_running (λ e. cc)

-- While the handler runs, the claim is renewed at 25 and another message is recorded.
abbrev renewed_row_1 : JobModel
renewed_row_1 = record running_row { updated_at = 25 }

abbrev job_2_row : JobModel
job_2_row = record queued_row { id = bytes "job-2" }

abbrev meanwhile : Table
meanwhile = job_2_row ∷ renewed_row_1 ∷ []

persist_terminal_ends_example :
    let (outcome, t') =
      worker_persist_terminal_state (failing ∷ working ∷ []) claim_a done running_table in
    (outcome ≡ persisted)
    × (find_row (trim_space claim_a.id) t' ≡ some (terminal_row done running_row))
persist_terminal_ends_example =
    persist_terminal_ends (failing ∷ []) working [] claim_a done running_table running_row
      failing_only refl (omega arith) unique_running a-Holds

abbrev reader : GetParams
reader = record {
  job_id = job_1;
  requester_user_id = bytes " user-1";
  allowed_sources = bytes "cli" ∷ bytes "web" ∷ [];
}

reads : get_for_requester none reader running_table ≡ ok claim_a
unfolding get_for_requester validate_read_scope trim_space find_where str_eq in_list
reads = refl

get_for_requester_scoped_example :
    (is_empty (trim_space reader.requester_user_id) ≡ false)
    × (m : JobModel) × (claim_a ≡ job_from_model m)
    × (m.id ≡ trim_space reader.job_id)
    × (m.requester_user_id ≡ trim_space reader.requester_user_id)
    × (in_list m.requester_source reader.allowed_sources ≡ true)
get_for_requester_scoped_example = get_for_requester_scoped none reader running_table claim_a reads

abbrev events : List Event
events =
    delivery_starts job_1
    ∷ delivery_starts worker_b
    ∷ delivery_starts job_1
    ∷ delivery_ends worker_b
    ∷ retry_starts job_1
    ∷ delivery_ends job_1
    ∷ []

abbrev no_deliveries : RunOnceTracker
no_deliveries = record { active = []; pending_retries = [] }

active_of-track_example :
    active_of job_1 (track events no_deliveries)
    ≡ under_way job_1 events (active_of job_1 no_deliveries)
active_of-track_example = active_of-track job_1 events no_deliveries
