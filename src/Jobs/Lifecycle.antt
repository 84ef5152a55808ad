-- ===== src/Jobs/Lifecycle.antt =====
-- The state machine that a row of the jobs table goes through, whatever the order in which workers
-- and recovery write to it.
pub mod Moves
pub mod Invariants
pub mod Fresh
pub mod Stale
use sumweave.Base.{
  ℕ, ◌+◌, ◌≡◌, ◌≢◌, refl, ◌⊎◌, inl, inr, Bool, true, false, Option, none, some, List, [], ◌∷◌, ◌&&◌,
  ◌==◌, leb, if◌then◌else◌, arith, keep, Bool-cases, Option-cases,
}
use sumweave.Base.Text.{Str, str_eq, str_eq_iff, trim_space}
use sumweave.Base.Int.{ℤ, pos, leb_ℤ}
use sumweave.Jobs.Types.{
  Time, JobStatus, queued, running, succeeded, failed, Job, JobMetadata, JobError,
}
use sumweave.Jobs.Table.{
  JobModel, Table, find_row, update_where, insert_row, find_row-update_where, find_row-insert_row,
}
use sumweave.Jobs.Store.{
  Fault, Result, ok, err, TerminalJobState, new_succeeded_terminal_job_state,
  new_failed_terminal_job_state, materialize_queued, new_job_model, claim_queued, claimed_row,
  is_queued, persist_terminal_state, holds_claim, terminal_row, finalize_retry_exhausted,
  is_queued_at, requeue_running, requeued_row, renew_running, renewed_row, job_not_queued,
  job_claim_lost, StoreError, update_one, driver,
}
use sumweave.Jobs.Store.Rows.{update_one-row}
use sumweave.Jobs.Recovery.{
  recover_stale_running, recover_each, recover_stale_running_model, recovered_row, unchanged_since,
  is_stale,
}
use sumweave.Jobs.Worker.{observed_job}

-- A write to the table, as the worker makes it.
pub data StoreOp : Type 0 where
  materialize : Fault → Fault → Str → JobMetadata → Time → StoreOp
  claim : Fault → Fault → Str → Str → Time → StoreOp
  succeed : Fault → Job → Str → Time → StoreOp
  fail : Fault → Job → Str → Option JobError → Time → StoreOp
  exhaust : Fault → Str → Time → Str → Option JobError → Time → StoreOp
  requeue : Fault → Job → Time → StoreOp
  renew : Fault → Job → Time → StoreOp
  recover : Fault → (JobModel → Fault) → Time → ℤ → ℤ → StoreOp

unfoldable pub apply : StoreOp → Table → Table
apply (materialize f g id metadata now) t =
    (materialize_queued f g (observed_job id metadata now) t).1
apply (claim f g id w at) t = (claim_queued f g id w at t).1
apply (succeed f c w at) t =
    (persist_terminal_state f c (new_succeeded_terminal_job_state w at) t).1
apply (fail f c w e at) t = (persist_terminal_state f c (new_failed_terminal_job_state w e at) t).1
apply (exhaust f id q w e at) t =
    (finalize_retry_exhausted f id q (new_failed_terminal_job_state w e at) t).1
apply (requeue f c at) t = (requeue_running f c at t).1
apply (renew f c at) t = (renew_running f c at t).1
apply (recover f faults now age limit) t = (recover_stale_running f faults now age limit t).1

unfoldable pub run : List StoreOp → Table → Table
unfolding apply
run [] t = t
run (op ∷ ops) t = run ops (apply op t)

-- The diagram: what one statement may do to a row.
pub data RowStep (m m' : JobModel) : Type 0 where
  claimed : (w : Str) (at : Time) → m.status ≡ queued → m' ≡ claimed_row w at m → RowStep m m'
  finished :
      (state : TerminalJobState)
      → m.status ≡ running
      → (state.status ≡ succeeded) × (state.job_error ≡ none) ⊎ (state.status ≡ failed)
      → m' ≡ terminal_row state m
      → RowStep m m'
  gave_up :
      (state : TerminalJobState)
      → m.status ≡ queued
      → state.status ≡ failed
      → m' ≡ terminal_row state m
      → RowStep m m'
  given_back : (at : Time) → m.status ≡ running → m' ≡ requeued_row at m → RowStep m m'
  renewed : (at : Time) → m.status ≡ running → m' ≡ renewed_row at m → RowStep m m'
  recovered :
      (seen : JobModel) (now : Time) (limit : ℤ)
      → m.status ≡ running
      → m' ≡ recovered_row seen now limit m
      → RowStep m m'

pub data RowSteps (m : JobModel) : JobModel → Type 0 where
  here : RowSteps m m
  next : {k l : JobModel} → RowSteps m k → RowStep k l → RowSteps m l

-- The row of `id` has moved along the diagram from `m`.
pub record Moved (id : Str) (m : JobModel) (t : Table) : Type 0 where
  pub row : JobModel
  pub now_found : find_row id t ≡ some row
  pub steps : RowSteps m row

pub stays : (id : Str) (m : JobModel) (t : Table) → find_row id t ≡ some m → Moved id m t
stays id m t h = record { row = m; now_found = h; steps = here }

pub steps_once :
    (id : Str) (m m' : JobModel) (t : Table) → find_row id t ≡ some m' → RowStep m m' → Moved id m t
steps_once id m m' t h s = record { row = m'; now_found = h; steps = next here s }

pub RowSteps-trans : {k l m : JobModel} → RowSteps k l → RowSteps l m → RowSteps k m
RowSteps-trans r here = r
RowSteps-trans r (next s st) = next (RowSteps-trans r s) st
