-- ===== src/Sync/Windows/Targets.antt =====
-- The target window of a synchronisation: what the policy promises of it.
use sumweave.Base.{◌<◌, ◌≤◌, ◌≡◌, sym, ◌∙◌, ◌⊎◌, inl, inr, none, some, arith, Option-cases}
use sumweave.Sync.Types.{Time, Window, SyncState}
use sumweave.Sync.Windows.{
  Calendar, Checked, valid, invalid, validate_sync_window, TargetWindowRequest, or_else, determine,
  determine_start, checked_target,
}

module _ (calendar : Calendar) where
  open calendar use {days_before, years_before}

  checked_target_valid :
      (end : Time) (start : Checked Time) (w : Window)
      → checked_target calendar end start ≡ valid w
      → (start ≡ valid w.start) × (w.end ≡ end) × (0 < w.start) × (w.start < w.end)
  unfolding checked_target validate_sync_window
  checked_target_valid end (valid start) w h = ground arith
  checked_target_valid end (invalid kind why) w h = cc

  determine_explicit :
      (request : TargetWindowRequest) (s : Time)
      → request.window_start ≡ some s
      → determine calendar request
        ≡ checked_target calendar (or_else request.window_end request.now) (valid s)
  unfolding determine
  determine_explicit request s e = rw e

  determine_auto :
      (request : TargetWindowRequest)
      → request.window_start ≡ none
      → determine calendar request
        ≡ checked_target calendar
            (or_else request.window_end request.now)
            (determine_start calendar (or_else request.window_end request.now) request.state)
  unfolding determine
  determine_auto request e = rw e

  -- Every window that the policy gives holds some time, after Go's zero time; it ends where it was
  -- asked to end, or now, and begins where it was asked to begin, if it was.
  pub determine_bounds :
      (request : TargetWindowRequest) (w : Window)
      → determine calendar request ≡ valid w
      → (0 < w.start)
        × (w.start < w.end)
        × (w.end ≡ or_else request.window_end request.now)
        × ((request.window_start ≡ none) ⊎ (request.window_start ≡ some w.start))
  determine_bounds request w h = elim (Option-cases request.window_start) [
    | inl auto ↦
        let f =
          checked_target_valid (or_else request.window_end request.now)
            (determine_start calendar (or_else request.window_end request.now) request.state) w
            (sym (determine_auto request auto) ∙ h) in
        (f.2, f.3, f.1, inl auto)
    | inr (s, e) ↦
        let f =
          checked_target_valid (or_else request.window_end request.now) (valid s) w
            (sym (determine_explicit request s e) ∙ h) in
        (f.2, f.3, f.1, inr (ground arith))
  ]

  -- A window that begins at a point up to which all is synchronised, or earlier to refresh the last 30 days.
  abbrev pub ResumesFrom : Time → Window → Type 0
  ResumesFrom point w =
      (w.start ≤ point)
      × (w.start ≤ days_before 30 w.end)
      × ((w.start ≡ point) ⊎ (w.start ≡ days_before 30 w.end))

  -- Without an explicit start, a window that follows a recorded state leaves no gap after it: when the
  -- state's window succeeded, it begins no later than where that window ended, and when it did not, no
  -- later than where that window began, so that it is fetched again. In both cases it begins no later than
  -- 30 days before its own end, and at one of the two points; and the state's window passes validation.
  pub determine_no_gap :
      (request : TargetWindowRequest) (state : SyncState) (w : Window)
      → request.window_start ≡ none
      → request.state ≡ some state
      → determine calendar request ≡ valid w
      → (validate_sync_window state.window ≡ none)
        × ((state.succeeded_at ≡ none) × ResumesFrom state.window.start w
            ⊎ ((at : Time) × (state.succeeded_at ≡ some at)) × ResumesFrom state.window.end w)
  unfolding determine_start
  determine_no_gap request state w auto known h =
      let f =
        checked_target_valid (or_else request.window_end request.now)
          (determine_start calendar (or_else request.window_end request.now) request.state) w
          (sym (determine_auto request auto) ∙ h) in
      (
        ground (arith, f),
        elim (Option-cases state.succeeded_at) [
          | inl failed ↦ inl (failed, ground (arith, f, failed))
          | inr (at, done) ↦ inr ((at, done), ground (arith, f, done))
        ],
      )
