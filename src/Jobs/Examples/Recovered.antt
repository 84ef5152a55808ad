-- ===== src/Jobs/Examples/Recovered.antt =====
-- The theorems on recovery at a concrete table.
use sumweave.Base.{◌≡◌, refl, some, none, arith}
use sumweave.Base.Int.{pos, ◌≤ℤ◌}
use sumweave.Jobs.Table.{JobModel, find_row}
use sumweave.Jobs.Recovery.{recover_stale_running}
use sumweave.Jobs.Lifecycle.Stale.{IsTakenBack, recover_spares_fresh, recover_takes_stale}
use sumweave.Jobs.Examples.{job_1, running_row, running_table, found_running, unique_running}

recover_spares_fresh_example :
    find_row job_1 (recover_stale_running none (λ k. none) 25 (pos 10) (pos 3) running_table).1
    ≡ some running_row
recover_spares_fresh_example =
    recover_spares_fresh none (λ k. none) 25 (pos 10) (pos 3) running_table job_1 running_row
      found_running (omega arith)

one_le_10 : pos 1 ≤ℤ pos 10
one_le_10 = ground arith

recover_takes_stale_example :
    (r : JobModel) × (find_row job_1
        (recover_stale_running none (λ k. none) 100 (pos 10) (pos 3) running_table).1
      ≡ some r)
    × IsTakenBack 100 (pos 3) running_row r
recover_takes_stale_example =
    recover_takes_stale (λ k. none) 100 (pos 10) (pos 3) running_table job_1 running_row (λ k. refl)
      unique_running found_running refl refl (omega arith) one_le_10 (omega arith)
