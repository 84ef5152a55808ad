-- ===== src/Jobs/Lifecycle/Fresh.antt =====
-- Which writes create a row of the jobs table, and the columns that they set.
use sumweave.Base.{
  is_nil, ◌≤◌, ◌≡◌, refl, sym, subst, ◌∙◌, ◌⊎◌, inl, inr, Bool, true, false, none, some,
  some_injective, List, [], ◌∷◌, ◌&&◌, ◌==◌, if◌then◌else◌, arith, keep, Option-cases, Bool-cases,
}
use sumweave.Base.Text.{Str, str_eq, trim_space}
use sumweave.Base.Int.{ℤ, pos, leb_ℤ}
use sumweave.Jobs.Types.{JobStatus, queued, running, succeeded, failed, Time, Job, JobMetadata}
use sumweave.Jobs.Table.{
  JobModel, Table, find_row, update_where, find_row-update_where, find_row-insert_row,
}
use sumweave.Jobs.Store.{
  Fault, StoreError, update_one, materialize_queued, new_job_model, claim_queued, claimed_row,
  is_queued, persist_terminal_state, holds_claim, terminal_row, finalize_retry_exhausted,
  is_queued_at, requeue_running, requeued_row, renew_running, renewed_row, job_not_queued,
  job_claim_lost, TerminalJobState, new_succeeded_terminal_job_state, new_failed_terminal_job_state,
}
use sumweave.Jobs.Recovery.{
  recover_stale_running, recover_each, recover_stale_running_model, recovered_row, unchanged_since,
  is_stale,
}
use sumweave.Jobs.Worker.{observed_job}
use sumweave.Jobs.Lifecycle.{
  StoreOp, materialize, claim, succeed, fail, exhaust, requeue, renew, recover, apply, run,
}
use sumweave.Jobs.Lifecycle.Moves.{
  apply-Moved, recover_each_on, recover_each_stop, recover_each_done, recovered_row-id,
}
use sumweave.Jobs.Lifecycle.Invariants.{IsConsistent, RowSteps-IsConsistent}

abbrev Absent : Str → Table → Type 0
Absent id t = find_row id t ≡ none

update_where-Absent :
    (p : JobModel → Bool) (f : JobModel → JobModel) (t : Table) (id : Str)
    → ((k : JobModel) → (f k).id ≡ k.id)
    → Absent id t
    → Absent id (update_where p f t)
update_where-Absent p f t id same h = ground (arith, find_row-update_where p f id t same)

update_one-Absent :
    (fault : Fault) (missed : StoreError) (p : JobModel → Bool) (f : JobModel → JobModel)
    (t : Table) (id : Str)
    → ((k : JobModel) → (f k).id ≡ k.id)
    → Absent id t
    → Absent id (update_one fault missed p f t).1
unfolding update_one
update_one-Absent (some e) missed p f t id same h = h
update_one-Absent none missed p f t id same h = ground (arith, update_where-Absent p f t id same h)

unless-Absent :
    {A : Type 0} (b : Bool) (id : Str) (x y : A × Table)
    → Absent id x.1
    → Absent id y.1
    → Absent id (if b then x else y).1
unless-Absent true id x y l r = l
unless-Absent false id x y l r = r

recover_model-Absent :
    (f : Fault) (seen : JobModel) (now : Time) (limit : ℤ) (t : Table) (id : Str)
    → Absent id t
    → Absent id (recover_stale_running_model f seen now limit t).1
unfolding recover_stale_running_model
recover_model-Absent (some e) seen now limit t id h = h
recover_model-Absent none seen now limit t id h =
    update_where-Absent (unchanged_since seen) (recovered_row seen now limit) t id
      (recovered_row-id seen now limit) h

recover_each-Absent :
    (faults : JobModel → Fault) (seen : List JobModel) (now : Time) (limit : ℤ) (t : Table)
    (id : Str)
    → Absent id t
    → Absent id (recover_each faults seen now limit t).1
recover_each-Absent faults [] now limit t id h = rw (recover_each_done faults now limit t) h
recover_each-Absent faults (k ∷ seen) now limit t id h = elim (Option-cases (faults k)) [
  | inl e ↦ rw (recover_each_on faults k seen now limit t e) (
      recover_each-Absent faults seen now limit (recover_stale_running_model none k now limit t).1
        id (recover_model-Absent none k now limit t id h))
  | inr (x, e) ↦ rw (recover_each_stop faults k seen now limit t x e) h
]

recover-Absent :
    (f : Fault) (faults : JobModel → Fault) (now : Time) (age limit : ℤ) (t : Table) (id : Str)
    → Absent id t
    → Absent id (recover_stale_running f faults now age limit t).1
unfolding recover_stale_running
recover-Absent (some e) faults now age limit t id h =
    unless-Absent (now == 0) id _ _ h (unless-Absent (leb_ℤ age (pos 0)) id _ _ h h)
recover-Absent none faults now age limit t id h = unless-Absent (now == 0) id _ _ h (
    unless-Absent (leb_ℤ age (pos 0)) id _ _ h
      (recover_each-Absent faults (keep (is_stale now age) t) now limit t id h))

persist-Absent :
    (f : Fault) (c : Job) (state : TerminalJobState) (t : Table) (id : Str)
    → Absent id t
    → Absent id (persist_terminal_state f c state t).1
unfolding persist_terminal_state
persist-Absent f c state t id h =
    update_one-Absent f job_claim_lost (λ k. str_eq k.id (trim_space c.id) && holds_claim c k)
      (terminal_row state) t id (λ k. refl) h

-- A row that was not there is still not there, or it is the row of a message just delivered.
Appears : Str → Table → Type 0
Appears id t =
    (j : Str) × (metadata : JobMetadata) × (now : Time) × (find_row id t
      ≡ some (new_job_model (observed_job j metadata now)))

apply-Absent :
    (op : StoreOp) (t : Table) (id : Str)
    → Absent id t
    → Absent id (apply op t) ⊎ Appears id (apply op t)
unfolding apply Appears materialize_queued claim_queued finalize_retry_exhausted requeue_running
    renew_running
apply-Absent (materialize none g j metadata now) t id h =
    let fresh = new_job_model (observed_job j metadata now) in
    let row = find_row-insert_row fresh id t in
    elim (Bool-cases (str_eq fresh.id id)) [
      | inl this ↦ inr (j, metadata, now, ground (arith, row))
      | inr other ↦ inl (ground (arith, row))
    ]
apply-Absent (materialize (some e) g j metadata now) t id h = inl h
apply-Absent (claim f g j w at) t id h = inl (
    unless-Absent (at == 0) id _ _ h (
      update_one-Absent f job_not_queued (λ k. str_eq k.id (trim_space j) && is_queued k)
        (claimed_row w at) t id (λ k. refl) h))
apply-Absent (succeed f c w at) t id h =
    inl (persist-Absent f c (new_succeeded_terminal_job_state w at) t id h)
apply-Absent (fail f c w e at) t id h =
    inl (persist-Absent f c (new_failed_terminal_job_state w e at) t id h)
apply-Absent (exhaust f j q w e at) t id h = inl (
    update_one-Absent f job_claim_lost (λ k. str_eq k.id (trim_space j) && is_queued_at q k)
      (terminal_row (new_failed_terminal_job_state w e at)) t id (λ k. refl) h)
apply-Absent (requeue f c at) t id h = inl (
    unless-Absent (at == 0) id _ _ h (
      update_one-Absent f job_claim_lost (λ k. str_eq k.id (trim_space c.id) && holds_claim c k)
        (requeued_row at) t id (λ k. refl) h))
apply-Absent (renew f c at) t id h = inl (
    unless-Absent (at == 0) id _ _ h (
      update_one-Absent f job_claim_lost (λ k. str_eq k.id (trim_space c.id) && holds_claim c k)
        (renewed_row at) t id (λ k. refl) h))
apply-Absent (recover f faults now age limit) t id h =
    inl (recover-Absent f faults now age limit t id h)

fresh-IsConsistent :
    (j : Str) (metadata : JobMetadata) (now : Time)
    → IsConsistent (new_job_model (observed_job j metadata now))
unfolding new_job_model observed_job trim_space
fresh-IsConsistent j metadata now = ground arith

Appears-IsConsistent :
    (id : Str) (t : Table) (m : JobModel) → find_row id t ≡ some m → Appears id t → IsConsistent m
unfolding Appears
Appears-IsConsistent id t m h (j, metadata, now, e) =
    subst IsConsistent (some_injective _ _ (sym e ∙ h)) (fresh-IsConsistent j metadata now)

abbrev RowsConsistent : Table → Type 0
RowsConsistent t = (id : Str) (m : JobModel) → find_row id t ≡ some m → IsConsistent m

apply-RowsConsistent : (op : StoreOp) (t : Table) → RowsConsistent t → RowsConsistent (apply op t)
apply-RowsConsistent op t c id m h = elim (Option-cases (find_row id t)) [
  | inl absent ↦ elim (apply-Absent op t id absent) [
    | inl still ↦ cc
    | inr there ↦ Appears-IsConsistent id (apply op t) m h there
  ]
  | inr (k, e) ↦
      let moved = apply-Moved op t id k e in
      subst IsConsistent (some_injective _ _ (sym moved.now_found ∙ h))
        (RowSteps-IsConsistent (c id k e) moved.steps)
]

run-RowsConsistent :
    (ops : List StoreOp) (t : Table) → RowsConsistent t → RowsConsistent (run ops t)
unfolding run
run-RowsConsistent [] t c = c
run-RowsConsistent (op ∷ ops) t c =
    run-RowsConsistent ops (apply op t) (apply-RowsConsistent op t c)

run-IsConsistent :
    (ops : List StoreOp) (id : Str) (m : JobModel)
    → find_row id (run ops []) ≡ some m
    → IsConsistent m
unfolding find_row
run-IsConsistent ops id m h = run-RowsConsistent ops [] (λ j k e. cc) id m h

-- What the columns of a row say under each status.
abbrev pub Columns : JobStatus → JobModel → Type 0
Columns queued m = (m.started_at ≡ none) × (m.worker_id ≡ []) × (m.completed_at ≡ none)
Columns running m =
    (is_nil m.started_at ≡ false)
    × (m.last_attempt_at ≡ m.started_at)
    × (m.completed_at ≡ none)
    × (1 ≤ m.attempt_count)
Columns succeeded m =
    (is_nil m.started_at ≡ false)
    × (is_nil m.completed_at ≡ false)
    × (m.error_code ≡ [])
    × (m.error_summary ≡ [])
    × (m.error_details ≡ [])
Columns failed m = is_nil m.completed_at ≡ false

IsConsistent-Columns : (s : JobStatus) (m : JobModel) → m.status ≡ s → IsConsistent m → Columns s m
IsConsistent-Columns queued m e c = c.queued_free e
IsConsistent-Columns running m e c = c.running_claimed e
IsConsistent-Columns succeeded m e c = c.succeeded_clean e
IsConsistent-Columns failed m e c = c.failed_completed e

-- From an empty table, after any writes of workers and recovery in any order, driver failures
-- included, the columns of each row fit its status: a queued job is free of a worker, a running one
-- has been claimed and not completed, one that succeeded bears no error, and one that succeeded or
-- failed has the instant of its completion.
pub run-Columns :
    (ops : List StoreOp) (id : Str) (m : JobModel)
    → find_row id (run ops []) ≡ some m
    → Columns m.status m
run-Columns ops id m h = IsConsistent-Columns m.status m refl (run-IsConsistent ops id m h)
