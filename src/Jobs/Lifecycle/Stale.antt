-- ===== src/Jobs/Lifecycle/Stale.antt =====
-- Which rows the recovery takes back: `RecoverStaleRunning` of apps/sumweave/internal/jobs/store.go.
use sumweave.Base.{
  ◌⊎◌, suc, ◌+◌, ◌<◌, ◌≤◌, ◌≡◌, ◌≢◌, refl, sym, ap, subst, ◌∙◌, inl, inr, Bool, true, false, none,
  some, List, [], ◌∷◌, arith, is_nil, keep, All, All-keep, Bool-cases, Option-cases,
}
use sumweave.Base.Text.{bytes, Str, str_eq, str_eq_iff, str_eq_refl}
use sumweave.Base.Int.{ℤ, pos, pos_part, ◌≤ℤ◌, leb_ℤ}
use sumweave.Jobs.Types.{Time, queued, running, failed}
use sumweave.Jobs.Table.{
  JobModel, Table, HasUniqueIds, find_row, find_row_key, find_row-update_where,
}
use sumweave.Jobs.Store.{Fault}
use sumweave.Jobs.Recovery.{
  recover_stale_running, recover_each, recover_stale_running_model, recovered_row, unchanged_since,
  is_stale,
}
use sumweave.Jobs.Lifecycle.Moves.{
  recover_each_on, recover_each_stop, recover_each_done, recovered_row-id,
}

-- A row that differs from the one that was seen is left as it is.
model_misses :
    (k m : JobModel) (now : Time) (limit : ℤ) (t : Table) (id : Str)
    → find_row id t ≡ some m
    → unchanged_since k m ≡ false
    → find_row id (recover_stale_running_model none k now limit t).1 ≡ some m
unfolding recover_stale_running_model
model_misses k m now limit t id h miss = ground (
  arith,
  find_row-update_where (unchanged_since k) (recovered_row k now limit) id t
      (recovered_row-id k now limit),
)

Misses : JobModel → List JobModel → Type 0
Misses m seen = All (λ k. unchanged_since k m ≡ false) seen

each_untouched :
    (faults : JobModel → Fault) (seen : List JobModel) (now : Time) (limit : ℤ) (t : Table)
    (id : Str) (m : JobModel)
    → find_row id t ≡ some m
    → Misses m seen
    → find_row id (recover_each faults seen now limit t).1 ≡ some m
unfolding Misses
each_untouched faults [] now limit t id m h miss = rw (recover_each_done faults now limit t) h
each_untouched faults (k ∷ seen) now limit t id m h miss = elim (Option-cases (faults k)) [
  | inl e ↦ rw (recover_each_on faults k seen now limit t e) (
      each_untouched faults seen now limit (recover_stale_running_model none k now limit t).1 id m
        (model_misses k m now limit t id h miss.0) miss.1)
  | inr (x, e) ↦ rw (recover_each_stop faults k seen now limit t x e) h
]

fresh-Misses :
    (m : JobModel) (now : Time) (age : ℤ) (seen : List JobModel)
    → now < m.updated_at + pos_part age
    → All (λ k. is_stale now age k ≡ true) seen
    → Misses m seen
unfolding Misses
fresh-Misses m now age [] fresh stale = tt
fresh-Misses m now age (k ∷ seen) fresh stale =
    (ground (arith, stale.0), fresh-Misses m now age seen fresh stale.1)

-- A row that was written to within the stale age, as the renewal of a claim does, is never taken from
-- its worker by the recovery, whatever else the recovery does and wherever it fails.
pub recover_spares_fresh :
    (scan : Fault) (faults : JobModel → Fault) (now : Time) (age limit : ℤ) (t : Table) (id : Str)
    (m : JobModel)
    → find_row id t ≡ some m
    → now < m.updated_at + pos_part age
    → find_row id (recover_stale_running scan faults now age limit t).1 ≡ some m
unfolding recover_stale_running
recover_spares_fresh (some e) faults now age limit t id m h fresh = ground arith
recover_spares_fresh none faults now age limit t id m h fresh =
    let each =
      each_untouched faults (keep (is_stale now age) t) now limit t id m h (
        fresh-Misses m now age (keep (is_stale now age) t) fresh (All-keep (is_stale now age) t)) in
    ground (arith, each)

keep-absent :
    (p : JobModel → Bool) (id : Str) (t : Table)
    → find_row id t ≡ none
    → find_row id (keep p t) ≡ none
unfolding find_row
keep-absent p id [] h = refl
keep-absent p id (k ∷ t) h = ground (arith, keep-absent p id t)

keep-HasUniqueIds : (p : JobModel → Bool) (t : Table) → HasUniqueIds t → HasUniqueIds (keep p t)
keep-HasUniqueIds p [] u = tt
keep-HasUniqueIds p (k ∷ t) u = elim (Bool-cases (p k)) [
  | inl h ↦ rw h (keep-absent p k.id t u.0, keep-HasUniqueIds p t u.1)
  | inr h ↦ rw h (keep-HasUniqueIds p t u.1)
]

keep-present :
    (p : JobModel → Bool) (id : Str) (t : Table) (m : JobModel)
    → find_row id t ≡ some m
    → p m ≡ true
    → find_row id (keep p t) ≡ some m
unfolding find_row
keep-present p id [] m h q = cc
keep-present p id (k ∷ t) m h q = elim (Bool-cases (str_eq k.id id)) [
  | inl e ↦ ground (arith, h, q)
  | inr n ↦ ground (arith, keep-present p id t m)
]

-- Rows with another key are not the one that was seen.
other_key :
    (k m : JobModel) (id : Str) → m.id ≡ id → str_eq k.id id ≡ false → unchanged_since k m ≡ false
other_key k m id e n = ground (arith, str_eq_iff m.id k.id, str_eq_iff k.id id)

absent-Misses :
    (m : JobModel) (id : Str) (seen : List JobModel)
    → m.id ≡ id
    → find_row id seen ≡ none
    → Misses m seen
unfolding Misses find_row
absent-Misses m id [] e h = tt
absent-Misses m id (k ∷ seen) e h =
    (other_key k m id e (ground arith), absent-Misses m id seen e (ground arith))

model_hits :
    (m : JobModel) (now : Time) (limit : ℤ) (t : Table) (id : Str)
    → find_row id t ≡ some m
    → unchanged_since m m ≡ true
    → find_row id (recover_stale_running_model none m now limit t).1
      ≡ some (recovered_row m now limit m)
unfolding recover_stale_running_model
model_hits m now limit t id h hit = ground (
  arith,
  find_row-update_where (unchanged_since m) (recovered_row m now limit) id t
      (recovered_row-id m now limit),
)

each_hits :
    (faults : JobModel → Fault) (seen : List JobModel) (now : Time) (limit : ℤ) (t : Table)
    (id : Str) (m : JobModel)
    → ((k : JobModel) → faults k ≡ none)
    → HasUniqueIds seen
    → find_row id seen ≡ some m
    → find_row id t ≡ some m
    → unchanged_since m m ≡ true
    → find_row id (recover_each faults seen now limit t).1 ≡ some (recovered_row m now limit m)
unfolding find_row
each_hits faults [] now limit t id m works u s h hit = cc
each_hits faults (k ∷ seen) now limit t id m works u s h hit =
    rw (recover_each_on faults k seen now limit t (works k)) (elim (Bool-cases (str_eq k.id id)) [
      | inl e ↦
          let same : k ≡ m = ground (arith, s) in
          let key = recovered_row-id m now limit m ∙ find_row_key id t m h in
          let gone = ap (λ j. find_row j seen) (sym ((str_eq_iff k.id id).0 e)) ∙ u.0 in
          each_untouched faults seen now limit (recover_stale_running_model none k now limit t).1 id
            (recovered_row m now limit m)
            (subst
              (λ x.
                find_row id (recover_stale_running_model none x now limit t).1
                ≡ some (recovered_row m now limit m))
              (sym same) (model_hits m now limit t id h hit))
            (absent-Misses (recovered_row m now limit m) id seen key gone)
      | inr n ↦
          each_hits faults seen now limit (recover_stale_running_model none k now limit t).1 id m
            works u.1 (ground (arith, s))
            (model_misses k m now limit t id h (other_key k m id (find_row_key id t m h) n)) hit
    ])

unchanged_since_self :
    (m : JobModel) → m.status ≡ running → is_nil m.started_at ≡ false → unchanged_since m m ≡ true
unchanged_since_self m r s =
    ground (arith, str_eq_refl m.id, str_eq_refl m.worker_id, Option-cases m.started_at)

-- A row that is free for the next worker.
abbrev pub IsQueuedAgain : Time → JobModel → Type 0
IsQueuedAgain now r =
    (r.status ≡ queued) × (r.queued_at ≡ now) × (r.started_at ≡ none) × (r.worker_id ≡ [])

-- A row that is given up.
abbrev pub IsGivenUp : Time → JobModel → Type 0
IsGivenUp now r =
    (r.status ≡ failed)
    × (r.completed_at ≡ some now)
    × (r.error_code ≡ bytes "stale_running_attempts_exhausted")

-- What becomes of a stale row under a limit of attempts.
abbrev pub IsTakenBack : Time → ℤ → JobModel → JobModel → Type 0
IsTakenBack now limit m r =
    (r.id ≡ m.id)
    × (r.attempt_count ≡ m.attempt_count)
    × (r.updated_at ≡ now)
    × ((pos (suc m.attempt_count) ≤ℤ limit) × IsQueuedAgain now r
        ⊎ (limit ≤ℤ pos m.attempt_count) × IsGivenUp now r)

recovered_row-IsTakenBack :
    (m : JobModel) (now : Time) (limit : ℤ) → IsTakenBack now limit m (recovered_row m now limit m)
unfolding recovered_row
recovered_row-IsTakenBack m now limit = elim (Bool-cases (leb_ℤ limit (pos m.attempt_count))) [
  | inl reached ↦ rw reached (refl, refl, refl, inr (ground (arith, reached), (refl, refl, refl)))
  | inr below ↦ rw below (refl, refl, refl, inl (ground (arith, below), (refl, refl, refl, refl)))
]

-- The recovery takes back every stale row of a table with a primary key, if the driver reports no failure, the
-- stale age is positive and the clock does not show Go's zero time: a running row that was
-- claimed, and not written to within the stale age, is queued again without a worker while its attempts are
-- below the limit, and failed with the code of exhausted attempts once they have reached it. Its attempts
-- stay counted.
pub recover_takes_stale :
    (faults : JobModel → Fault) (now : Time) (age limit : ℤ) (t : Table) (id : Str) (m : JobModel)
    → ((k : JobModel) → faults k ≡ none)
    → HasUniqueIds t
    → find_row id t ≡ some m
    → m.status ≡ running
    → is_nil m.started_at ≡ false
    → now ≢ 0
    → pos 1 ≤ℤ age
    → m.updated_at + pos_part age ≤ now
    → (r : JobModel) × (find_row id (recover_stale_running none faults now age limit t).1 ≡ some r)
      × IsTakenBack now limit m r
unfolding recover_stale_running
recover_takes_stale faults now age limit t id m works u h r s nz positive old =
    let each =
      each_hits faults (keep (is_stale now age) t) now limit t id m works
        (keep-HasUniqueIds (is_stale now age) t u)
        (keep-present (is_stale now age) id t m h (ground arith)) h (unchanged_since_self m r s) in
    (recovered_row m now limit m, ground (arith, each), recovered_row-IsTakenBack m now limit)
