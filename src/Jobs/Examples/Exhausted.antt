-- ===== src/Jobs/Examples/Exhausted.antt =====
-- The theorem on a job that is given up at a concrete delivery.
use sumweave.Base.{◌≡◌, refl, some, [], ◌∷◌, arith}
use sumweave.Base.Text.{bytes, trim_space}
use sumweave.Jobs.Failures.{job_error_from_execution}
use sumweave.Jobs.Table.{find_row}
use sumweave.Jobs.Store.{new_failed_terminal_job_state, requeued_row, terminal_row}
use sumweave.Jobs.Worker.{end_observed, transient_error, retry, on_retries_exhausted}
use sumweave.Jobs.Worker.Retry.{persisted}
use sumweave.Jobs.Worker.Exhaustion.{transient_then_exhausted}
use sumweave.Jobs.Examples.{worker_a, running_row, running_table, unique_running, a-Holds, claim_a}
use sumweave.Jobs.Examples.Workers.{ending, failing, working, failing_only}

transient_then_exhausted_example :
    let back =
      end_observed worker_a ending claim_a (transient_error (bytes "timeout")) running_table in
    let end =
      on_retries_exhausted worker_a
        (failing ∷ working ∷ [])
        60
        claim_a.id
        30
        (bytes "timeout")
        back.1 in
    (back.0 ≡ retry claim_a.id 30 (bytes "timeout"))
    × (end.0 ≡ persisted)
    × (find_row (trim_space claim_a.id) end.1
        ≡ some (
            terminal_row
              (new_failed_terminal_job_state worker_a
                (some (job_error_from_execution (bytes "timeout")))
                60)
              (requeued_row 30 running_row)))
transient_then_exhausted_example =
    transient_then_exhausted worker_a ending claim_a (bytes "timeout") 60 running_table running_row
      (failing ∷ []) working [] unique_running a-Holds refl (omega arith) failing_only refl
      (omega arith)
