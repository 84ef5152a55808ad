-- ===== src/Jobs/Worker/Tracker.antt =====
-- `runOnceTracker` and the timing of apps/sumweave/internal/jobs/worker.go.
pub mod Counts
use sumweave.Base.{
  ℕ, ◌+◌, ◌-◌, Bool, true, false, Option, none, some, List, [], ◌∷◌, ◌&&◌, leb, if◌then◌else◌, ◌/◌,
}
use sumweave.Base.Text.{Str}
use sumweave.Base.Dict.{Dict, lookup, insert, erase}
use sumweave.Base.Int.{ℤ, pos, negsuc, pos_part, ltb_ℤ}
use sumweave.Jobs.Types.{WorkerConfig}

pub record RunOnceTracker : Type 0 where
  pub active : Dict ℕ
  pub pending_retries : Dict (Unit {0})

abbrev pub count_of : Option ℕ → ℕ
count_of none = 0
count_of (some n) = n

-- `t.active[id]`
abbrev pub active_of : Str → RunOnceTracker → ℕ
active_of id t = count_of (lookup id t.active)

unfoldable pub start_delivery : Str → RunOnceTracker → RunOnceTracker
start_delivery id t = record {
  active = insert id (active_of id t + 1) t.active;
  pending_retries = erase id t.pending_retries;
}

unfoldable pub finish_delivery : Str → RunOnceTracker → RunOnceTracker
finish_delivery id t =
    if leb (active_of id t) 1
    then record t { active = erase id t.active }
    else record t { active = insert id (active_of id t - 1) t.active }

unfoldable pub start_retry : Str → RunOnceTracker → RunOnceTracker
start_retry id t = record t { pending_retries = insert id tt t.pending_retries }

unfoldable pub finish_retry : Str → RunOnceTracker → RunOnceTracker
finish_retry id t = record t { pending_retries = erase id t.pending_retries }

abbrev empty_dict {ℓ} : {V : Type ℓ} → Dict V → Bool
empty_dict [] = true
empty_dict (e ∷ d) = false

unfoldable pub is_idle : RunOnceTracker → Bool
is_idle t = empty_dict t.active && empty_dict t.pending_retries

-- Go's integer division rounds towards 0.
half : ℤ → ℤ
half (pos n) = pos (n / 2)
half (negsuc n) = if leb n 0 then pos 0 else negsuc ((n + 1) / 2 - 1)

unfoldable pub recovery_interval : WorkerConfig → ℤ
unfolding half
recovery_interval config =
    let renewal = half config.stale_running_age in
    if ltb_ℤ (pos 0) renewal && ltb_ℤ renewal config.poll_interval
    then renewal
    else config.poll_interval
