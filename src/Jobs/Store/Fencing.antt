-- ===== src/Jobs/Store/Fencing.antt =====
-- The writes of a worker that holds a claim, and of one that has lost it.
use sumweave.Base.{◌≡◌, ◌≢◌, refl, ap, ◌∙◌, true, false, none, some, ◌&&◌, arith}
use sumweave.Base.Text.{Str, str_eq, trim_space, trim_space_idem}
use sumweave.Jobs.Types.{Time, Job, running}
use sumweave.Jobs.Table.{JobModel, Table, find_row, HasUniqueIds, find_row_key}
use sumweave.Jobs.Store.{
  ok, err, job_claim_lost, TerminalJobState, claim_queued, claimed_row, holds_claim,
  persist_terminal_state, terminal_row, requeue_running, requeued_row, renew_running, renewed_row,
}
use sumweave.Jobs.Store.Rows.{update_one_hit, update_one_miss, update_one-HasUniqueIds}
use sumweave.Jobs.Store.Claims.{
  claim_queued-IsClaimed, claim_queued-HasUniqueIds, claimed_row-holds_claim, claim_id,
}

-- The claim is the one that the table records.
abbrev pub Holds : Job → JobModel → Table → Type 0
Holds claim m t = (find_row (trim_space claim.id) t ≡ some m) × (holds_claim claim m ≡ true)

abbrev pub IsLapsed : Job → Table → Type 0
IsLapsed claim t =
    (m : JobModel) → find_row (trim_space claim.id) t ≡ some m → holds_claim claim m ≡ false

-- Every write of a worker whose claim is not the recorded one is refused and changes nothing.
pub lost_claim_writes :
    (claim : Job) (state : TerminalJobState) (at at' : Time) (t : Table)
    → HasUniqueIds t
    → IsLapsed claim t
    → at ≢ 0
    → at' ≢ 0
    → (persist_terminal_state none claim state t ≡ (err job_claim_lost, t))
      × (requeue_running none claim at t ≡ (err job_claim_lost, t))
      × (renew_running none claim at' t ≡ (err job_claim_lost, t))
unfolding persist_terminal_state requeue_running renew_running
lost_claim_writes claim state at at' t u lost nz nz' =
    let id = trim_space claim.id in
    (
      update_one_miss job_claim_lost (holds_claim claim) (terminal_row state) t id u lost,
      ground
          (arith, update_one_miss job_claim_lost (holds_claim claim) (requeued_row at) t id u lost),
      ground
          (arith, update_one_miss job_claim_lost (holds_claim claim) (renewed_row at') t id u lost),
    )

-- A worker that holds its claim ends the job: the row takes the terminal state.
pub persist_terminal_state_held :
    (claim : Job) (state : TerminalJobState) (t : Table) (m : JobModel)
    → HasUniqueIds t
    → Holds claim m t
    → ((persist_terminal_state none claim state t).0 ≡ ok tt)
      × (find_row (trim_space claim.id) (persist_terminal_state none claim state t).1
          ≡ some (terminal_row state m))
unfolding persist_terminal_state
persist_terminal_state_held claim state t m u h =
    update_one_hit job_claim_lost (holds_claim claim) (terminal_row state) t (trim_space claim.id) m
      u (λ k. refl) h.0 h.1

pub persist_terminal_state-HasUniqueIds :
    (claim : Job) (state : TerminalJobState) (t : Table)
    → HasUniqueIds t
    → HasUniqueIds (persist_terminal_state none claim state t).1
unfolding persist_terminal_state
persist_terminal_state-HasUniqueIds claim state t u =
    update_one-HasUniqueIds none job_claim_lost
      (λ m. str_eq m.id (trim_space claim.id) && holds_claim claim m) (terminal_row state) t
      (λ k. refl) u

-- The claim that `ClaimQueued` answers is the recorded one.
pub claim_queued-Holds :
    (id w : Str) (at : Time) (t : Table) (claim : Job)
    → HasUniqueIds t
    → (claim_queued none none id w at t).0 ≡ ok claim
    → (m : JobModel) × (Holds claim m (claim_queued none none id w at t).1)
claim_queued-Holds id w at t claim u e =
    let c = claim_queued-IsClaimed id w at t claim u e in
    let same : claim.id ≡ trim_space id =
      ap (λ j. j.id) c.answer
      ∙ claim_id w at c.row
      ∙ find_row_key (trim_space id) t c.row c.was_found in
    (
      claimed_row w at c.row,
      (
        ap (λ k. find_row k (claim_queued none none id w at t).1)
              (ap trim_space same ∙ trim_space_idem id)
            ∙ c.now_claimed,
        ap (λ j. holds_claim j (claimed_row w at c.row)) c.answer
            ∙ claimed_row-holds_claim w at c.row,
      ),
    )

-- A worker that claims a job and is not interrupted ends it, with the state that it reports, and
-- can write to it no more: a second end, a requeue and a renewal are refused and change nothing.
pub claim_ends_once :
    (id w : Str) (at : Time) (t : Table) (claim : Job) (state again : TerminalJobState) (now : Time)
    → HasUniqueIds t
    → (claim_queued none none id w at t).0 ≡ ok claim
    → state.status ≢ running
    → now ≢ 0
    → let t' = (claim_queued none none id w at t).1 in
      let done = persist_terminal_state none claim state t' in
      (done.0 ≡ ok tt)
      × (persist_terminal_state none claim again done.1 ≡ (err job_claim_lost, done.1))
      × (requeue_running none claim now done.1 ≡ (err job_claim_lost, done.1))
      × (renew_running none claim now done.1 ≡ (err job_claim_lost, done.1))
claim_ends_once id w at t claim state again now u e ended nz =
    let t' = (claim_queued none none id w at t).1 in
    let (m, held) = claim_queued-Holds id w at t claim u e in
    let u' = claim_queued-HasUniqueIds id w at t u in
    let (answer, row) = persist_terminal_state_held claim state t' m u' held in
    let refused =
      lost_claim_writes claim again now now (persist_terminal_state none claim state t').1
        (persist_terminal_state-HasUniqueIds claim state t' u') (λ k h. ground arith) nz nz in
    (answer, refused.0, refused.1, refused.2)

pub requeue_running_held :
    (claim : Job) (at : Time) (t : Table) (m : JobModel)
    → HasUniqueIds t
    → Holds claim m t
    → at ≢ 0
    → ((requeue_running none claim at t).0 ≡ ok tt)
      × (find_row (trim_space claim.id) (requeue_running none claim at t).1
          ≡ some (requeued_row at m))
unfolding requeue_running
requeue_running_held claim at t m u h nz =
    let hit =
      update_one_hit job_claim_lost (holds_claim claim) (requeued_row at) t (trim_space claim.id) m
        u (λ k. refl) h.0 h.1 in
    ground (arith, hit)

pub requeue_running-HasUniqueIds :
    (claim : Job) (at : Time) (t : Table)
    → HasUniqueIds t
    → HasUniqueIds (requeue_running none claim at t).1
unfolding requeue_running
requeue_running-HasUniqueIds claim at t u =
    let kept =
      update_one-HasUniqueIds none job_claim_lost
        (λ m. str_eq m.id (trim_space claim.id) && holds_claim claim m) (requeued_row at) t
        (λ k. refl) u in
    ground (arith, kept)

-- A worker that gives its job back loses it: once another worker has claimed the job, at another
-- instant, the terminal state that the first one writes under its old claim is refused and changes
-- nothing.
pub requeue_hands_over :
    (claim next : Job) (at at' : Time) (w : Str) (t : Table) (m : JobModel)
    (state : TerminalJobState)
    → HasUniqueIds t
    → Holds claim m t
    → at ≢ 0
    → claim.started_at ≢ some at'
    → (claim_queued none none claim.id w at' (requeue_running none claim at t).1).0 ≡ ok next
    → let back = requeue_running none claim at t in
      let taken = claim_queued none none claim.id w at' back.1 in
      (back.0 ≡ ok tt)
      × (persist_terminal_state none claim state taken.1 ≡ (err job_claim_lost, taken.1))
requeue_hands_over claim next at at' w t m state u h nz other e =
    let back = requeue_running none claim at t in
    let u' = requeue_running-HasUniqueIds claim at t u in
    (
      (requeue_running_held claim at t m u h nz).0,
      let c = claim_queued-IsClaimed claim.id w at' back.1 next u' e in
          (lost_claim_writes claim state at at (claim_queued none none claim.id w at' back.1).1
            (claim_queued-HasUniqueIds claim.id w at' back.1 u')
            (λ k g. ground (arith, c.now_claimed)) nz nz).0,
    )
