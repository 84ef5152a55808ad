-- ===== src/Jobs/Worker/Retry/Rounds.antt =====
-- The rounds of the retry loop of `persistTerminal`.
use sumweave.Base.{ℕ, ◌≡◌, ◌≢◌, refl, false, none, some, List, [], ◌∷◌, ◌++◌, arith, is_nil, ◌∙◌}
use sumweave.Base.Text.{Str, trim_space}
use sumweave.Jobs.Types.{Job}
use sumweave.Jobs.Table.{JobModel, Table, find_row, HasUniqueIds}
use sumweave.Jobs.Store.{
  Fault, ok, err, driver, TerminalJobState, persist_terminal_state, terminal_row, update_one,
}
use sumweave.Jobs.Store.Fencing.{Holds, persist_terminal_state_held}
use sumweave.Jobs.Worker.Retry.{
  Attempt, TerminalWrite, persisted, next_retry_interval, persist_from, persist_terminal,
  worker_persist_terminal_state,
}

-- The attempts that fail and leave the context alive.
abbrev pub AllFail : List Attempt → Type 0
AllFail [] = Unit
AllFail (a ∷ rest) =
    (is_nil a.fault ≡ false) × (a.ended ≡ false) × (a.ended_waiting ≡ false) × AllFail rest

-- A write that hands on what the driver reports, and changes nothing then.
abbrev pub HandsOn : TerminalWrite → Type 0
HandsOn write = (e : Str) (t : Table) → write (some e) t ≡ (err (driver e), t)

module _ (write : TerminalWrite) (on : HandsOn write) where
  driver_failure :
      (f : Fault) (t : Table) → is_nil f ≡ false → (e : Str) × (write f t ≡ (err (driver e), t))
  driver_failure none t h = cc
  driver_failure (some e) t h = (e, on e t)

  persist_from_first :
      (k : ℕ) (a : Attempt) (rest : List Attempt) (t : Table)
      → a.fault ≡ none
      → (write none t).0 ≡ ok tt
      → persist_from k (a ∷ rest) write t ≡ (persisted, (write none t).1)
  unfolding persist_from
  persist_from_first k a rest t e done = ground arith

  persist_from_again :
      (k : ℕ) (a : Attempt) (rest : List Attempt) (t : Table)
      → is_nil a.fault ≡ false
      → a.ended ≡ false
      → a.ended_waiting ≡ false
      → persist_from k (a ∷ rest) write t ≡ persist_from (next_retry_interval k) rest write t
  unfolding persist_from
  persist_from_again k a rest t f e w = ground (arith, (driver_failure a.fault t f).1)

  pub persist_from_ends :
      (k : ℕ) (fails : List Attempt) (a : Attempt) (rest : List Attempt) (t : Table)
      → AllFail fails
      → a.fault ≡ none
      → (write none t).0 ≡ ok tt
      → persist_from k (fails ++ (a ∷ rest)) write t ≡ (persisted, (write none t).1)
  persist_from_ends k [] a rest t all e done = persist_from_first k a rest t e done
  persist_from_ends k (x ∷ fails) a rest t (f, n, w, all) e done =
      persist_from_again k x (fails ++ (a ∷ rest)) t f n w
      ∙ persist_from_ends (next_retry_interval k) fails a rest t all e done

persist_terminal_state-HandsOn :
    (claim : Job) (state : TerminalJobState) → HandsOn (λ f. persist_terminal_state f claim state)
unfolding persist_terminal_state update_one
persist_terminal_state-HandsOn claim state = λ e t. refl

-- However often the driver fails before, while the context lives and the worker holds its claim, the
-- first attempt that reaches the database ends the job: the row takes the terminal state.
pub persist_terminal_ends :
    (fails : List Attempt) (a : Attempt) (rest : List Attempt) (claim : Job)
    (state : TerminalJobState) (t : Table) (m : JobModel)
    → AllFail fails
    → a.fault ≡ none
    → state.completed_at ≢ 0
    → HasUniqueIds t
    → Holds claim m t
    → let (outcome, t') = worker_persist_terminal_state (fails ++ (a ∷ rest)) claim state t in
      (outcome ≡ persisted) × (find_row (trim_space claim.id) t' ≡ some (terminal_row state m))
unfolding persist_terminal
persist_terminal_ends fails a rest claim state t m all e nz u held =
    let (done, row) = persist_terminal_state_held claim state t m u held in
    let run =
      persist_from_ends (λ f. persist_terminal_state f claim state)
        (persist_terminal_state-HandsOn claim state) 100 fails a rest t all e done in
    ground (arith, run, row)
