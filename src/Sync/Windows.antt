-- ===== src/Sync/Windows.antt =====
-- Which windows a synchronisation asks for: target_window_policy.go and window_chunk_policy.go of
-- finance/internal/providers. The calendar is that of Go's `time` package in the location of the
-- instants, and the locations come from the time zone database, so it is a parameter.
pub mod Chunks
pub mod Targets
use sumweave.Base.{
  ℕ, zero, suc, ◌+◌, ◌-◌, ◌<◌, ◌≤◌, Bool, true, false, Option, none, some, List, [], ◌∷◌, ◌==◌, ltb,
  if◌then◌else◌,
}
use sumweave.Sync.Types.{Time, Window, SyncState}

-- `AddDate` as the policies call it, and what its documentation promises: later days are later, and
-- earlier days and years are not later.
pub record Calendar : Type 0 where
  pub days_after : ℕ → Time → Time
  pub days_before : ℕ → Time → Time
  pub years_before : ℕ → Time → Time
  pub later : (n : ℕ) (t : Time) → 0 < n → t < days_after n t
  pub not_later_days : (n : ℕ) (t : Time) → days_before n t ≤ t
  pub not_later_years : (n : ℕ) (t : Time) → years_before n t ≤ t

abbrev pub initial_backfill_years : ℕ
initial_backfill_years = 3

abbrev pub recent_refresh_days : ℕ
recent_refresh_days = 30

abbrev pub provider_sync_window_chunk_days : ℕ
provider_sync_window_chunk_days = 30

-- `ErrInvalidProviderSyncStateWindow` and its kin, and the three reasons.
pub data Invalid : Type 0 where
  state_window target_window requested_window : Invalid

pub data Reason : Type 0 where
  start_is_zero end_is_zero end_not_after_start : Reason

pub data Checked (A : Type 0) : Type 0 where
  valid : A → Checked A
  invalid : Invalid → Reason → Checked A

unfoldable pub validate_sync_window : Window → Option Reason
validate_sync_window w =
    if w.start == 0
    then some start_is_zero
    else if w.end == 0
    then some end_is_zero
    else if ltb w.start w.end
    then none
    else some end_not_after_start

-- The state and the explicit bounds are pointers.
pub record TargetWindowRequest : Type 0 where
  pub now : Time
  pub state : Option SyncState
  pub window_start : Option Time
  pub window_end : Option Time

abbrev pub or_else : Option Time → Time → Time
or_else none t = t
or_else (some s) t = s

-- Where the last run got to: the end of its window if it succeeded, else its start.
abbrev pub checkpoint : SyncState → Time
checkpoint state = elim state.succeeded_at [
  | none ↦ state.window.start
  | some at ↦ state.window.end
]

module _ (calendar : Calendar) where
  open calendar use {days_after, days_before, years_before}

  from_state : Time → SyncState → Time
  from_state target_end state =
      let recent_start = days_before recent_refresh_days target_end in
      if ltb (checkpoint state) recent_start then checkpoint state else recent_start

  unfoldable pub determine_start : Time → Option SyncState → Checked Time
  unfolding from_state
  determine_start target_end none = valid (years_before initial_backfill_years target_end)
  determine_start target_end (some state) = elim (validate_sync_window state.window) [
    | some why ↦ invalid state_window why
    | none ↦ valid (from_state target_end state)
  ]

  unfoldable pub checked_target : Time → Checked Time → Checked Window
  checked_target target_end (invalid kind why) = invalid kind why
  checked_target target_end (valid start) =
      elim (validate_sync_window (record { start = start; end = target_end })) [
        | some why ↦ invalid target_window why
        | none ↦ valid (record { start = start; end = target_end })
      ]

  unfoldable pub determine : TargetWindowRequest → Checked Window
  determine request =
      let target_end = or_else request.window_end request.now in
      checked_target target_end (elim request.window_start [
        | some start ↦ valid start
        | none ↦ determine_start target_end request.state
      ])

  chunk_end : Time → Time → Time
  chunk_end start end =
      let next = days_after provider_sync_window_chunk_days start in
      if ltb end next then end else next

  -- The loop of `Split`, on fuel: `none` would mean that it runs on.
  split_from : ℕ → Time → Time → Option (List Window)
  unfolding chunk_end
  split_from zero start end = if ltb start end then none else some []
  split_from (suc fuel) start end =
      let next = chunk_end start end in
      let rest = split_from fuel next end in
      let chunks : Option (List Window) = elim rest [
        | none ↦ none
        | some ws ↦ some (record { start = start; end = next } ∷ ws)
      ] in
      if ltb start end then chunks else some []

  -- The fuel is the length of the window; a calendar's day takes at least one unit of time.
  unfoldable pub split : Window → Checked (Option (List Window))
  unfolding split_from
  split target = elim (validate_sync_window target) [
    | some why ↦ invalid target_window why
    | none ↦ valid (split_from (target.end - target.start) target.start target.end)
  ]
