-- ===== src/Jobs/Lifecycle/Invariants.antt =====
-- What holds of a row at any time, by induction on the diagram.
use sumweave.Base.{ℕ, ◌+◌, ◌≡◌, ◌≤◌, refl, ap, ◌∙◌, ◌⊎◌, false, none, some, List, [], arith, is_nil}
use sumweave.Base.Text.{Str}
use sumweave.Jobs.Types.{queued, running, succeeded, failed}
use sumweave.Jobs.Table.{JobModel, Table, find_row}
use sumweave.Jobs.Recovery.{recovered_row}
use sumweave.Jobs.Lifecycle.{
  StoreOp, run, RowStep, claimed, finished, gave_up, given_back, renewed, recovered, RowSteps, here,
  next,
}
use sumweave.Jobs.Lifecycle.Moves.{run-Moved}

abbrev pub IsTerminal : JobModel → Type 0
IsTerminal m = (m.status ≡ succeeded) ⊎ (m.status ≡ failed)

-- What the columns of a row say, by its status.
pub record IsConsistent (m : JobModel) : Type 0 where
  pub queued_free :
      m.status ≡ queued → (m.started_at ≡ none) × (m.worker_id ≡ []) × (m.completed_at ≡ none)
  pub running_claimed :
      m.status ≡ running
      → (is_nil m.started_at ≡ false)
        × (m.last_attempt_at ≡ m.started_at)
        × (m.completed_at ≡ none)
        × (1 ≤ m.attempt_count)
  pub succeeded_clean :
      m.status ≡ succeeded
      → (is_nil m.started_at ≡ false)
        × (is_nil m.completed_at ≡ false)
        × (m.error_code ≡ [])
        × (m.error_summary ≡ [])
        × (m.error_details ≡ [])
  pub failed_completed : m.status ≡ failed → is_nil m.completed_at ≡ false

-- Every step of the diagram keeps the columns consistent.
pub RowStep-IsConsistent : {m m' : JobModel} → RowStep m m' → IsConsistent m → IsConsistent m'
unfolding recovered_row
RowStep-IsConsistent (claimed w at q e) c = rw e (ground arith)
RowStep-IsConsistent (finished state q final e) c = rw e (ground arith)
RowStep-IsConsistent (gave_up state q final e) c = rw e (ground arith)
RowStep-IsConsistent (given_back at q e) c = rw e (ground arith)
RowStep-IsConsistent (renewed at q e) c = rw e (ground arith)
RowStep-IsConsistent (recovered seen now limit q e) c = rw e (ground arith)

pub RowSteps-IsConsistent : {m m' : JobModel} → IsConsistent m → RowSteps m m' → IsConsistent m'
RowSteps-IsConsistent c here = c
RowSteps-IsConsistent c (next s st) = RowStep-IsConsistent st (RowSteps-IsConsistent c s)

no_step_from_terminal : {m m' : JobModel} → RowStep m m' → IsTerminal m → ⊥
no_step_from_terminal (claimed w at q e) h = ground arith
no_step_from_terminal (finished state q final e) h = ground arith
no_step_from_terminal (gave_up state q final e) h = ground arith
no_step_from_terminal (given_back at q e) h = ground arith
no_step_from_terminal (renewed at q e) h = ground arith
no_step_from_terminal (recovered seen now limit q e) h = ground arith

RowSteps-terminal : {m m' : JobModel} → IsTerminal m → RowSteps m m' → m' ≡ m
RowSteps-terminal h here = refl
RowSteps-terminal h (next s st) =
    let same = RowSteps-terminal h s in absurd (no_step_from_terminal st (rw same h))

-- A job that has succeeded or failed is never written to again: whatever writes follow, of whichever
-- workers and in whichever order, its row stays as it is in every column.
pub run_terminal :
    (ops : List StoreOp) (t : Table) (id : Str) (m : JobModel)
    → find_row id t ≡ some m
    → IsTerminal m
    → find_row id (run ops t) ≡ some m
run_terminal ops t id m h final =
    let moved = run-Moved ops t id m h in
    moved.now_found ∙ ap some (RowSteps-terminal final moved.steps)

-- How often the row has been claimed on its way.
pub claims : {m m' : JobModel} → RowSteps m m' → ℕ
claims here = 0
claims (next s (claimed w at q e)) = claims s + 1
claims (next s (finished state q final e)) = claims s
claims (next s (gave_up state q final e)) = claims s
claims (next s (given_back at q e)) = claims s
claims (next s (renewed at q e)) = claims s
claims (next s (recovered seen now limit q e)) = claims s

RowSteps-attempt_count :
    {m m' : JobModel} (s : RowSteps m m') → m'.attempt_count ≡ m.attempt_count + claims s
unfolding claims recovered_row
RowSteps-attempt_count here = omega arith
RowSteps-attempt_count (next s (claimed w at q e)) = rw e (omega (arith, RowSteps-attempt_count s))
RowSteps-attempt_count (next s (finished state q final e)) = rw e (RowSteps-attempt_count s)
RowSteps-attempt_count (next s (gave_up state q final e)) = rw e (RowSteps-attempt_count s)
RowSteps-attempt_count (next s (given_back at q e)) = rw e (RowSteps-attempt_count s)
RowSteps-attempt_count (next s (renewed at q e)) = rw e (RowSteps-attempt_count s)
RowSteps-attempt_count (next s (recovered seen now limit q e)) =
    rw e (ground (arith, RowSteps-attempt_count s))

-- The attempt count of a row grows by exactly the number of claims on its way: no other write, and
-- no recovery, touches it.
pub run-attempt_count :
    (ops : List StoreOp) (t : Table) (id : Str) (m : JobModel)
    → find_row id t ≡ some m
    → (m' : JobModel) × (s : RowSteps m m') × (find_row id (run ops t) ≡ some m')
      × (m'.attempt_count ≡ m.attempt_count + claims s)
run-attempt_count ops t id m h =
    let moved = run-Moved ops t id m h in
    (moved.row, moved.steps, moved.now_found, RowSteps-attempt_count moved.steps)
