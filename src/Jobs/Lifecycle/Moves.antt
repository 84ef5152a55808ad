-- ===== src/Jobs/Lifecycle/Moves.antt =====
-- How the writes of Jobs/Store.antt and Jobs/Recovery.antt move a row along the diagram.
use sumweave.Base.{
  ◌≡◌, refl, ◌⊎◌, inl, inr, Bool, true, false, none, some, List, [], ◌∷◌, ◌&&◌, ◌==◌, if◌then◌else◌,
  arith, keep, Bool-cases, Option-cases,
}
use sumweave.Base.Text.{Str, str_eq, trim_space}
use sumweave.Base.Int.{ℤ, pos, leb_ℤ}
use sumweave.Jobs.Types.{Time, queued, running, succeeded, failed, Job}
use sumweave.Jobs.Table.{
  JobModel, Table, find_row, insert_row, find_row-update_where, find_row-insert_row,
}
use sumweave.Jobs.Store.{
  Fault, ok, err, TerminalJobState, new_succeeded_terminal_job_state, new_failed_terminal_job_state,
  materialize_queued, new_job_model, claim_queued, claimed_row, is_queued, persist_terminal_state,
  holds_claim, terminal_row, finalize_retry_exhausted, is_queued_at, requeue_running, requeued_row,
  renew_running, renewed_row, job_not_queued, job_claim_lost, StoreError, update_one, driver,
}
use sumweave.Jobs.Store.Rows.{update_one-row}
use sumweave.Jobs.Recovery.{
  recover_stale_running, recover_each, recover_stale_running_model, recovered_row, unchanged_since,
  is_stale,
}
use sumweave.Jobs.Worker.{observed_job}
use sumweave.Jobs.Lifecycle.{
  StoreOp, materialize, claim, succeed, fail, exhaust, requeue, renew, recover, apply, run, RowStep,
  claimed, finished, gave_up, given_back, renewed, recovered, Moved, stays, steps_once,
  RowSteps-trans,
}

materialize-Moved :
    (f g : Fault) (job : Job) (t : Table) (id : Str) (m : JobModel)
    → find_row id t ≡ some m
    → Moved id m (materialize_queued f g job t).1
unfolding materialize_queued
materialize-Moved (some e) g job t id m h = stays id m t h
materialize-Moved none g job t id m h =
    stays id m (insert_row (new_job_model job) t)
      (ground (arith, find_row-insert_row (new_job_model job) id t))

update_one-Moved :
    (fault : Fault) (missed : StoreError) (p : JobModel → Bool) (f : JobModel → JobModel)
    (t : Table) (id : Str) (m : JobModel)
    → find_row id t ≡ some m
    → ((k : JobModel) → (f k).id ≡ k.id)
    → (p m ≡ true → RowStep m (f m))
    → Moved id m (update_one fault missed p f t).1
update_one-Moved fault missed p f t id m h same st =
    elim (update_one-row fault missed p f t id m same h) [
      | inl kept ↦ stays id m (update_one fault missed p f t).1 kept
      | inr (hit, changed) ↦
          steps_once id m (f m) (update_one fault missed p f t).1 changed (st hit)
    ]

unless-Moved :
    {A : Type 0} (b : Bool) (id : Str) (m : JobModel) (x y : A × Table)
    → Moved id m x.1
    → Moved id m y.1
    → Moved id m (if b then x else y).1
unless-Moved true id m x y l r = l
unless-Moved false id m x y l r = r

-- What each statement's test says of the row that it changes.
queued_of : (id : Str) (m : JobModel) → (str_eq m.id id && is_queued m) ≡ true → m.status ≡ queued
queued_of id m h = ground arith

queued_at_of :
    (id : Str) (q : Time) (m : JobModel)
    → (str_eq m.id id && is_queued_at q m) ≡ true
    → m.status ≡ queued
queued_at_of id q m h = ground arith

running_of :
    (id : Str) (c : Job) (m : JobModel)
    → (str_eq m.id id && holds_claim c m) ≡ true
    → m.status ≡ running
running_of id c m h = ground arith

running_since : (seen m : JobModel) → unchanged_since seen m ≡ true → m.status ≡ running
running_since seen m h = ground arith

claim-Moved :
    (f g : Fault) (j w : Str) (at : Time) (t : Table) (id : Str) (m : JobModel)
    → find_row id t ≡ some m
    → Moved id m (claim_queued f g j w at t).1
unfolding claim_queued
claim-Moved f g j w at t id m h = unless-Moved (at == 0) id m _ _ (stays id m t h) (
    update_one-Moved f job_not_queued (λ k. str_eq k.id (trim_space j) && is_queued k)
      (claimed_row w at) t id m h (λ k. refl)
      (λ hit. claimed w at (queued_of (trim_space j) m hit) refl))

persist-Moved :
    (f : Fault) (c : Job) (state : TerminalJobState) (t : Table) (id : Str) (m : JobModel)
    → find_row id t ≡ some m
    → (state.status ≡ succeeded) × (state.job_error ≡ none) ⊎ (state.status ≡ failed)
    → Moved id m (persist_terminal_state f c state t).1
unfolding persist_terminal_state
persist-Moved f c state t id m h final =
    update_one-Moved f job_claim_lost (λ k. str_eq k.id (trim_space c.id) && holds_claim c k)
      (terminal_row state) t id m h (λ k. refl)
      (λ hit. finished state (running_of (trim_space c.id) c m hit) final refl)

finalize-Moved :
    (f : Fault) (j : Str) (q : Time) (state : TerminalJobState) (t : Table) (id : Str)
    (m : JobModel)
    → find_row id t ≡ some m
    → state.status ≡ failed
    → Moved id m (finalize_retry_exhausted f j q state t).1
unfolding finalize_retry_exhausted
finalize-Moved f j q state t id m h final =
    update_one-Moved f job_claim_lost (λ k. str_eq k.id (trim_space j) && is_queued_at q k)
      (terminal_row state) t id m h (λ k. refl)
      (λ hit. gave_up state (queued_at_of (trim_space j) q m hit) final refl)

requeue-Moved :
    (f : Fault) (c : Job) (at : Time) (t : Table) (id : Str) (m : JobModel)
    → find_row id t ≡ some m
    → Moved id m (requeue_running f c at t).1
unfolding requeue_running
requeue-Moved f c at t id m h = unless-Moved (at == 0) id m _ _ (stays id m t h) (
    update_one-Moved f job_claim_lost (λ k. str_eq k.id (trim_space c.id) && holds_claim c k)
      (requeued_row at) t id m h (λ k. refl)
      (λ hit. given_back at (running_of (trim_space c.id) c m hit) refl))

renew-Moved :
    (f : Fault) (c : Job) (at : Time) (t : Table) (id : Str) (m : JobModel)
    → find_row id t ≡ some m
    → Moved id m (renew_running f c at t).1
unfolding renew_running
renew-Moved f c at t id m h = unless-Moved (at == 0) id m _ _ (stays id m t h) (
    update_one-Moved f job_claim_lost (λ k. str_eq k.id (trim_space c.id) && holds_claim c k)
      (renewed_row at) t id m h (λ k. refl)
      (λ hit. renewed at (running_of (trim_space c.id) c m hit) refl))

pub recovered_row-id :
    (seen : JobModel) (now : Time) (limit : ℤ) (m : JobModel)
    → (recovered_row seen now limit m).id ≡ m.id
unfolding recovered_row
recovered_row-id seen now limit m = ground arith

recover_model-Moved :
    (f : Fault) (seen : JobModel) (now : Time) (limit : ℤ) (t : Table) (id : Str) (m : JobModel)
    → find_row id t ≡ some m
    → Moved id m (recover_stale_running_model f seen now limit t).1
unfolding recover_stale_running_model
recover_model-Moved (some e) seen now limit t id m h = stays id m t h
recover_model-Moved none seen now limit t id m h =
    let row =
      find_row-update_where (unchanged_since seen) (recovered_row seen now limit) id t
        (recovered_row-id seen now limit) in
    elim (Bool-cases (unchanged_since seen m)) [
      | inl hit ↦
          steps_once id m (recovered_row seen now limit m) _ (ground (arith, row))
            (recovered seen now limit (running_since seen m hit) refl)
      | inr miss ↦ stays id m _ (ground (arith, row))
    ]

pub recover_each_on :
    (faults : JobModel → Fault) (k : JobModel) (seen : List JobModel) (now : Time) (limit : ℤ)
    (t : Table)
    → faults k ≡ none
    → recover_each faults (k ∷ seen) now limit t
      ≡ recover_each faults seen now limit (recover_stale_running_model none k now limit t).1
unfolding recover_each
recover_each_on faults k seen now limit t e = ground arith

pub recover_each_stop :
    (faults : JobModel → Fault) (k : JobModel) (seen : List JobModel) (now : Time) (limit : ℤ)
    (t : Table) (e : Str)
    → faults k ≡ some e
    → recover_each faults (k ∷ seen) now limit t ≡ (err (driver e), t)
unfolding recover_each
recover_each_stop faults k seen now limit t x e = ground arith

pub recover_each_done :
    (faults : JobModel → Fault) (now : Time) (limit : ℤ) (t : Table)
    → recover_each faults [] now limit t ≡ (ok tt, t)
unfolding recover_each
recover_each_done faults now limit t = refl

recover_each-Moved :
    (faults : JobModel → Fault) (seen : List JobModel) (now : Time) (limit : ℤ) (t : Table)
    (id : Str) (m : JobModel)
    → find_row id t ≡ some m
    → Moved id m (recover_each faults seen now limit t).1
recover_each-Moved faults [] now limit t id m h =
    rw (recover_each_done faults now limit t) (stays id m t h)
recover_each-Moved faults (k ∷ seen) now limit t id m h = elim (Option-cases (faults k)) [
  | inl e ↦
      let first = recover_model-Moved none k now limit t id m h in
      let rest =
        recover_each-Moved faults seen now limit (recover_stale_running_model none k now limit t).1
          id first.row first.now_found in
      rw (recover_each_on faults k seen now limit t e) (record {
        row = rest.row;
        now_found = rest.now_found;
        steps = RowSteps-trans first.steps rest.steps;
      })
  | inr (x, e) ↦ rw (recover_each_stop faults k seen now limit t x e) (stays id m t h)
]

recover-Moved :
    (f : Fault) (faults : JobModel → Fault) (now : Time) (age limit : ℤ) (t : Table) (id : Str)
    (m : JobModel)
    → find_row id t ≡ some m
    → Moved id m (recover_stale_running f faults now age limit t).1
unfolding recover_stale_running
recover-Moved (some e) faults now age limit t id m h =
    unless-Moved (now == 0) id m _ _ (stays id m t h)
      (unless-Moved (leb_ℤ age (pos 0)) id m _ _ (stays id m t h) (stays id m t h))
recover-Moved none faults now age limit t id m h =
    unless-Moved (now == 0) id m _ _ (stays id m t h) (
      unless-Moved (leb_ℤ age (pos 0)) id m _ _ (stays id m t h)
        (recover_each-Moved faults (keep (is_stale now age) t) now limit t id m h))

pub apply-Moved :
    (op : StoreOp) (t : Table) (id : Str) (m : JobModel)
    → find_row id t ≡ some m
    → Moved id m (apply op t)
unfolding apply
apply-Moved (materialize f g j metadata now) t id m h =
    materialize-Moved f g (observed_job j metadata now) t id m h
apply-Moved (claim f g j w at) t id m h = claim-Moved f g j w at t id m h
apply-Moved (succeed f c w at) t id m h =
    persist-Moved f c (new_succeeded_terminal_job_state w at) t id m h (inl (refl, refl))
apply-Moved (fail f c w e at) t id m h =
    persist-Moved f c (new_failed_terminal_job_state w e at) t id m h (inr refl)
apply-Moved (exhaust f j q w e at) t id m h =
    finalize-Moved f j q (new_failed_terminal_job_state w e at) t id m h refl
apply-Moved (requeue f c at) t id m h = requeue-Moved f c at t id m h
apply-Moved (renew f c at) t id m h = renew-Moved f c at t id m h
apply-Moved (recover f faults now age limit) t id m h =
    recover-Moved f faults now age limit t id m h

-- Whatever writes reach the table, in any order, a row of it is never lost, and it moves only along
-- the diagram.
pub run-Moved :
    (ops : List StoreOp) (t : Table) (id : Str) (m : JobModel)
    → find_row id t ≡ some m
    → Moved id m (run ops t)
unfolding run
run-Moved [] t id m h = stays id m t h
run-Moved (op ∷ ops) t id m h =
    let first = apply-Moved op t id m h in
    let rest = run-Moved ops (apply op t) id first.row first.now_found in
    record {
      row = rest.row;
      now_found = rest.now_found;
      steps = RowSteps-trans first.steps rest.steps;
    }
