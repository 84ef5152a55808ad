-- ===== src/Jobs/Worker/Tracker/Counts.antt =====
-- The counts of the tracker of `RunOnce`, and the timing of the periodic recovery.
use sumweave.Base.{
  ◌⊎◌, ℕ, ◌+◌, ◌-◌, ◌*◌, ◌≤◌, ◌≡◌, refl, ap, ◌∙◌, List, [], ◌∷◌, if◌then◌else◌, arith,
}
use sumweave.Base.Text.{Str, str_eq, str_eq_iff}
use sumweave.Base.Dict.{lookup-insert, lookup-erase}
use sumweave.Base.Int.{pos, pos_part, ◌≤ℤ◌}
use sumweave.Jobs.Types.{WorkerConfig}
use sumweave.Jobs.Worker.Tracker.{
  RunOnceTracker, active_of, start_delivery, finish_delivery, start_retry, finish_retry,
  recovery_interval, half,
}

-- What the router tells the tracker of.
pub data Event : Type 0 where
  delivery_starts delivery_ends retry_starts retry_ends : Str → Event

unfoldable pub track : List Event → RunOnceTracker → RunOnceTracker
track [] t = t
track (delivery_starts id ∷ es) t = track es (start_delivery id t)
track (delivery_ends id ∷ es) t = track es (finish_delivery id t)
track (retry_starts id ∷ es) t = track es (start_retry id t)
track (retry_ends id ∷ es) t = track es (finish_retry id t)

-- The deliveries of one message that are under way after the events, from `n` before them.
unfoldable pub under_way : Str → List Event → ℕ → ℕ
under_way id [] n = n
under_way id (delivery_starts j ∷ es) n = under_way id es (if str_eq j id then n + 1 else n)
under_way id (delivery_ends j ∷ es) n = under_way id es (if str_eq j id then n - 1 else n)
under_way id (retry_starts j ∷ es) n = under_way id es n
under_way id (retry_ends j ∷ es) n = under_way id es n

active_of-start_delivery :
    (id j : Str) (t : RunOnceTracker)
    → active_of id (start_delivery j t)
      ≡ (if str_eq j id then active_of id t + 1 else active_of id t)
unfolding start_delivery
active_of-start_delivery id j t =
    ground (arith, lookup-insert j id (active_of j t + 1) t.active, str_eq_iff j id)

active_of-finish_delivery :
    (id j : Str) (t : RunOnceTracker)
    → active_of id (finish_delivery j t)
      ≡ (if str_eq j id then active_of id t - 1 else active_of id t)
unfolding finish_delivery
active_of-finish_delivery id j t = ground (
  arith,
  lookup-insert j id (active_of j t - 1) t.active,
  lookup-erase j id t.active,
  str_eq_iff j id,
)

active_of-retry :
    (id j : Str) (t : RunOnceTracker)
    → (active_of id (start_retry j t) ≡ active_of id t)
      × (active_of id (finish_retry j t) ≡ active_of id t)
unfolding start_retry finish_retry
active_of-retry id j t = (refl, refl)

-- After any events, in any order, the tracker's count for a message is the number of its deliveries
-- that have started and not ended; messages do not disturb one another.
pub active_of-track :
    (id : Str) (es : List Event) (t : RunOnceTracker)
    → active_of id (track es t) ≡ under_way id es (active_of id t)
unfolding under_way track
active_of-track id [] t = refl
active_of-track id (delivery_starts j ∷ es) t =
    active_of-track id es (start_delivery j t)
    ∙ ap (under_way id es) (active_of-start_delivery id j t)
active_of-track id (delivery_ends j ∷ es) t =
    active_of-track id es (finish_delivery j t)
    ∙ ap (under_way id es) (active_of-finish_delivery id j t)
active_of-track id (retry_starts j ∷ es) t =
    active_of-track id es (start_retry j t) ∙ ap (under_way id es) (active_of-retry id j t).0
active_of-track id (retry_ends j ∷ es) t =
    active_of-track id es (finish_retry j t) ∙ ap (under_way id es) (active_of-retry id j t).1

-- With a positive poll interval the recovery of stale jobs, and with it the renewal of a worker's
-- own claims, runs at a positive interval, at most the poll interval; and at most half the age at
-- which a claim becomes stale, where that age is 2 microseconds or more.
pub recovery_interval_bounds :
    (config : WorkerConfig)
    → pos 1 ≤ℤ config.poll_interval
    → let interval = recovery_interval config in
      (pos 1 ≤ℤ interval)
      × (interval ≤ℤ config.poll_interval)
      × ((pos_part interval * 2 ≤ pos_part config.stale_running_age)
          ⊎ (config.stale_running_age ≤ℤ pos 1))
unfolding recovery_interval half
recovery_interval_bounds config p = ground arith
