-- ===== src/Sync/Windows/Chunks.antt =====
-- The chunks of a target window: the loop of window_chunk_policy.go.
use sumweave.Base.{
  ℕ, zero, suc, ◌+◌, ◌-◌, ◌<◌, ◌≤◌, ◌≡◌, ◌≢◌, refl, ◌⊎◌, inl, inr, none, some, List, [], ◌∷◌, ltb,
  arith, Bool-cases,
}
use sumweave.Sync.Types.{Time, Window}
use sumweave.Sync.Windows.{Calendar, valid, validate_sync_window, chunk_end, split_from, split}

module _ (calendar : Calendar) where
  open calendar use {days_after, later}

  -- The windows follow one another without gap or overlap from the start to the end; each holds
  -- some time, and is 30 days long unless it is cut at the end.
  abbrev pub Tiles : Time → Time → List Window → Type 0
  Tiles start end [] = start ≡ end
  Tiles start end (w ∷ ws) =
      (w.start ≡ start)
      × (w.start < w.end)
      × (w.end ≤ days_after 30 w.start)
      × ((w.end ≡ days_after 30 w.start) ⊎ (w.end ≡ end))
      × Tiles w.end end ws

  chunk_end_bounds :
      (start end : Time)
      → start < end
      → (start < chunk_end calendar start end)
        × (chunk_end calendar start end ≤ end)
        × (chunk_end calendar start end ≤ days_after 30 start)
        × ((chunk_end calendar start end ≡ days_after 30 start)
            ⊎ (chunk_end calendar start end ≡ end))
  unfolding chunk_end
  chunk_end_bounds start end h = ground (arith, later 30 start)

  split_from_more :
      (fuel : ℕ) (start end : Time) (ws : List Window)
      → start < end
      → split_from calendar fuel (chunk_end calendar start end) end ≡ some ws
      → split_from calendar (suc fuel) start end
        ≡ some (record { start = start; end = chunk_end calendar start end } ∷ ws)
  unfolding split_from
  split_from_more fuel start end ws h e = ground arith

  split_from_done :
      (fuel : ℕ) (start end : Time) → end ≤ start → split_from calendar fuel start end ≡ some []
  unfolding split_from
  split_from_done zero start end h = ground arith
  split_from_done (suc fuel) start end h = ground arith

  split_from-Tiles :
      (fuel : ℕ) (start end : Time)
      → start ≤ end
      → end ≤ start + fuel
      → (ws : List Window) × (split_from calendar fuel start end ≡ some ws) × Tiles start end ws
  split_from-Tiles zero start end l h = ([], split_from_done 0 start end (omega arith), omega arith)
  split_from-Tiles (suc fuel) start end l h = elim (Bool-cases (ltb start end)) [
    | inl more ↦
        let b = chunk_end_bounds start end (ground arith) in
        let (ws, e, tiles) =
          split_from-Tiles fuel (chunk_end calendar start end) end b.1 (omega arith) in
        (
          record { start = start; end = chunk_end calendar start end } ∷ ws,
          split_from_more fuel start end ws (ground arith) e,
          (refl, b.0, b.2, b.3, tiles),
        )
    | inr done ↦ ([], split_from_done (suc fuel) start end (ground arith), ground arith)
  ]

  Tiles-ne-nil : (start end : Time) (ws : List Window) → start < end → Tiles start end ws → ws ≢ []
  Tiles-ne-nil start end [] l t = absurd (omega arith)
  Tiles-ne-nil start end (w ∷ ws) l t = λ e. cc

  validate_sync_window_order : (w : Window) → validate_sync_window w ≡ none → w.start < w.end
  unfolding validate_sync_window
  validate_sync_window_order w h = ground arith

  -- A window that passes validation is split, and the loop ends: into chunks that tile it, oldest
  -- first, without gap or overlap, each of them 30 days long but for one that the end cuts short.
  pub split-Tiles :
      (target : Window)
      → validate_sync_window target ≡ none
      → (ws : List Window) × (split calendar target ≡ valid (some ws))
        × (ws ≢ [])
        × Tiles target.start target.end ws
  unfolding split
  split-Tiles target h =
      let order = validate_sync_window_order target h in
      let (ws, e, tiles) =
        split_from-Tiles (target.end - target.start) target.start target.end (omega arith)
          (omega arith) in
      (ws, ground arith, Tiles-ne-nil target.start target.end ws order tiles, tiles)
