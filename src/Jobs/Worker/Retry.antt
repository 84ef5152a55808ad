-- ===== src/Jobs/Worker/Retry.antt =====
-- The loop of `persistTerminal` in apps/sumweave/internal/jobs/worker.go, which repeats a terminal
-- write until it succeeds, the claim is lost or the context ends.
pub mod Rounds
use sumweave.Base.{
  ℕ, ◌*◌, ◌≤◌, Bool, true, false, Option, none, some, List, [], ◌∷◌, ◌==◌, ltb, if◌then◌else◌,
}
use sumweave.Base.Text.{Str}
use sumweave.Jobs.Types.{Time, Job}
use sumweave.Jobs.Table.{Table}
use sumweave.Jobs.Store.{
  Fault, Result, ok, err, StoreError, job_claim_lost, TerminalJobState, persist_terminal_state,
  finalize_retry_exhausted,
}

-- One round: what the driver reports, whether the context has ended after a failure, and whether it
-- ends during the wait before the next round.
pub record Attempt : Type 0 where
  pub fault : Fault
  pub ended : Bool
  pub ended_waiting : Bool

-- `waiting` is a loop that has used up the rounds that are given, with its next retry interval.
pub data Outcome : Type 0 where
  persisted claim_lost zero_completed_at : Outcome
  cancelled : Outcome
  waiting : ℕ → Outcome

-- Milliseconds.
abbrev pub terminal_persistence_retry_interval : ℕ
terminal_persistence_retry_interval = 100

abbrev pub terminal_persistence_recovery_interval : ℕ
terminal_persistence_recovery_interval = 1000

unfoldable pub next_retry_interval : ℕ → ℕ
next_retry_interval interval =
    if ltb interval terminal_persistence_recovery_interval
    then if ltb terminal_persistence_recovery_interval (interval * 2)
      then terminal_persistence_recovery_interval
      else interval * 2
    else interval

abbrev pub is_lost : StoreError → Bool
is_lost job_claim_lost = true
is_lost e = false

-- The write that is repeated.
abbrev pub TerminalWrite : Type 0
TerminalWrite = Fault → Table → Result (Unit {0}) × Table

unfoldable pub persist_from : ℕ → List Attempt → TerminalWrite → Table → Outcome × Table
unfolding next_retry_interval
persist_from interval [] persist t = (waiting interval, t)
persist_from interval (a ∷ rest) persist t =
    let (r, t') = persist a.fault t in
    let again = persist_from (next_retry_interval interval) rest persist t' in
    elim r [
      | ok u ↦ (persisted, t')
      | err e ↦
          if is_lost e
          then (claim_lost, t')
          else if a.ended
          then (cancelled, t')
          else if a.ended_waiting
          then (cancelled, t')
          else again
    ]

unfoldable pub persist_terminal :
    List Attempt → TerminalJobState → TerminalWrite → Table → Outcome × Table
unfolding persist_from
persist_terminal attempts state persist t =
    if state.completed_at == 0
    then (zero_completed_at, t)
    else persist_from terminal_persistence_retry_interval attempts persist t

-- `Worker.persistTerminalState`
abbrev pub worker_persist_terminal_state :
    List Attempt → Job → TerminalJobState → Table → Outcome × Table
worker_persist_terminal_state attempts claim state t =
    persist_terminal attempts state (λ fault. persist_terminal_state fault claim state) t

-- `Worker.finalizeRetryExhausted`
abbrev pub worker_finalize_retry_exhausted :
    List Attempt → Str → Time → TerminalJobState → Table → Outcome × Table
worker_finalize_retry_exhausted attempts job_id queued_at state t =
    persist_terminal attempts state (λ fault. finalize_retry_exhausted fault job_id queued_at state)
      t
