-- ===== src/Jobs/Worker/Exhaustion.antt =====
-- A job whose handler fails until the router gives up.
use sumweave.Base.{◌≡◌, ◌≢◌, true, refl, none, some, List, ◌∷◌, ◌++◌, arith}
use sumweave.Base.Text.{Str, trim_space}
use sumweave.Jobs.Types.{Time, Job}
use sumweave.Jobs.Table.{JobModel, Table, find_row, HasUniqueIds}
use sumweave.Jobs.Failures.{job_error_from_execution}
use sumweave.Jobs.Store.{
  ok, job_claim_lost, TerminalJobState, new_failed_terminal_job_state, requeue_running,
  requeued_row, terminal_row, finalize_retry_exhausted, is_queued_at, update_one,
}
use sumweave.Jobs.Store.Rows.{update_one_hit}
use sumweave.Jobs.Store.Fencing.{Holds, requeue_running_held, requeue_running-HasUniqueIds}
use sumweave.Jobs.Worker.{Ending, end_observed, transient_error, retry, on_retries_exhausted}
use sumweave.Jobs.Worker.Retry.{Attempt, persisted, persist_terminal}
use sumweave.Jobs.Worker.Retry.Rounds.{AllFail, HandsOn, persist_from_ends}

finalize_retry_exhausted-HandsOn :
    (id : Str) (at : Time) (state : TerminalJobState)
    → HandsOn (λ f. finalize_retry_exhausted f id at state)
unfolding finalize_retry_exhausted update_one
finalize_retry_exhausted-HandsOn id at state = λ e t. refl

finalize_hit :
    (id : Str) (at : Time) (state : TerminalJobState) (t : Table) (m : JobModel)
    → HasUniqueIds t
    → find_row (trim_space id) t ≡ some m
    → is_queued_at at m ≡ true
    → ((finalize_retry_exhausted none id at state t).0 ≡ ok tt)
      × (find_row (trim_space id) (finalize_retry_exhausted none id at state t).1
          ≡ some (terminal_row state m))
unfolding finalize_retry_exhausted
finalize_hit id at state t m u h q =
    update_one_hit job_claim_lost (is_queued_at at) (terminal_row state) t (trim_space id) m u
      (λ k. refl) h q

requeued_at : (at : Time) (m : JobModel) → is_queued_at at (requeued_row at m) ≡ true
requeued_at at m = ground arith

-- A worker whose handler fails for a passing reason gives its job back, and when the router then gives
-- up before anyone claims the job again, the job ends as failed with the error of the execution, as
-- soon as one write reaches the database.
pub transient_then_exhausted :
    (w : Str) (e : Ending) (claim : Job) (error : Str) (now : Time) (t : Table) (m : JobModel)
    (fails : List Attempt) (a : Attempt) (rest : List Attempt)
    → HasUniqueIds t
    → Holds claim m t
    → e.requeue_fault ≡ none
    → e.now ≢ 0
    → AllFail fails
    → a.fault ≡ none
    → now ≢ 0
    → let back = end_observed w e claim (transient_error error) t in
      let end = on_retries_exhausted w (fails ++ (a ∷ rest)) now claim.id e.now error back.1 in
      (back.0 ≡ retry claim.id e.now error)
      × (end.0 ≡ persisted)
      × (find_row (trim_space claim.id) end.1
          ≡ some (
              terminal_row
                (new_failed_terminal_job_state w (some (job_error_from_execution error)) now)
                (requeued_row e.now m)))
unfolding end_observed on_retries_exhausted persist_terminal
transient_then_exhausted w e claim error now t m fails a rest u held no_fault nz all works nz' =
    let (given, row) = requeue_running_held claim e.now t m u held nz in
    let u' = requeue_running-HasUniqueIds claim e.now t u in
    let state = new_failed_terminal_job_state w (some (job_error_from_execution error)) now in
    let t' = (requeue_running none claim e.now t).1 in
    let (done, final) =
      finalize_hit claim.id e.now state t' (requeued_row e.now m) u' row (requeued_at e.now m) in
    let loop =
      persist_from_ends (λ f. finalize_retry_exhausted f claim.id e.now state)
        (finalize_retry_exhausted-HandsOn claim.id e.now state) 100 fails a rest t' all works
        done in
    ground (arith, given, loop, final)
