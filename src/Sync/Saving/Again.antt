-- ===== src/Sync/Saving/Again.antt =====
-- A synchronisation that creates a transaction, and the next load of it.
use sumweave.Base.{
  ℕ, suc, ◌≡◌, refl, sym, ap, ◌∙◌, subst, inl, inr, false, true, Option, none, some, List, [], ◌∷◌,
  ◌++◌, All, keep,
}
use sumweave.Base.Text.{Str}
use sumweave.Base.Sorting.{All-kept}
use sumweave.Sync.Types.{
  ConnectionRef, Window, Transaction, TransactionMatch, TransactionObservation, WindowSnapshot,
}
use sumweave.Sync.Diff.{Action, MatchStrategy, provider_id, update_action, plan_transaction_action}
use sumweave.Sync.Apply.{TransactionWrite}
use sumweave.Sync.Executor.{Identity, identity_of, in_identities, is_incomplete}
use sumweave.Sync.Orchestrator.{Call, returns}
use sumweave.Sync.Loading.{
  SyncTables, LoadFaults, load_existing_window, loaded_window, unless_failed, queries,
  identities_kept, identity_rows,
}
use sumweave.Sync.Loading.Identified.{IsKnown, plan_known}
use sumweave.Sync.Saving.{
  SaveContext, SaveState, saved, created_transaction, match_identity, existing_snapshot_match,
  only_of, match_of_existing, save_rows, save_transaction_writes, resolve_provider_account,
}
use sumweave.Sync.Saving.Rows.{IsRow}
use sumweave.Sync.Saving.Rounds.{
  IsUnknown, IsAfter, Round, rest_saved, Unused, IsDrawn, IsOther, build-IsDrawn, created_in_lem,
  create_write, saved_injective,
}
use sumweave.Sync.Saving.Created.{save_rows-IsUnknown, save_rows-IsAfter, created_rows}

module _ (P : TransactionMatch → Type 0) where
  abbrev IfSome : Option TransactionMatch → Type 0
  IfSome none = Unit
  IfSome (some m) = P m

  only_of-All : (ms : List TransactionMatch) → All P ms → IfSome (only_of ms)
  only_of-All [] h = tt
  only_of-All (m ∷ []) h = h.0
  only_of-All (m ∷ k ∷ ms) h = tt

  match_of_existing-All :
      (a : Action) (ms : List TransactionMatch) (r : Option Transaction)
      → All P ms
      → IfSome (match_of_existing a ms r)
  match_of_existing-All a ms none h = tt
  match_of_existing-All a ms (some t) h = only_of-All (keep _ ms) (All-kept P _ ms h)

  existing-All :
      (a : Action) (ms : List TransactionMatch) → All P ms → IfSome (existing_snapshot_match a ms)
  unfolding existing_snapshot_match
  existing-All a ms h = match_of_existing-All a ms a.existing_transaction h

module _ (c : SaveContext) (injective : (n k : ℕ) → c.new_id n ≡ c.new_id k → n ≡ k)
    (loaded : All (λ m. Unused c 0 m.id) c.snapshot_matches) (o : TransactionObservation) where
  match_identity-IsDrawn :
      (n : ℕ) (r : Option TransactionMatch)
      → IfSome (λ m. Unused c 0 m.id) r
      → IsDrawn c n (match_identity c r n).2 (match_identity c r n).0
  match_identity-IsDrawn n none h = inr (refl, refl)
  match_identity-IsDrawn n (some m) h = inl (h, refl)

  existing_snapshot_match-IsDrawn :
      (w : TransactionWrite) (n : ℕ)
      → let r = existing_snapshot_match w.action c.snapshot_matches in
        IsDrawn c n (match_identity c r n).2 (match_identity c r n).0
  existing_snapshot_match-IsDrawn w n =
      match_identity-IsDrawn n (existing_snapshot_match w.action c.snapshot_matches)
        (existing-All (λ m. Unused c 0 m.id) w.action c.snapshot_matches loaded)

  IsUnknown-Round :
      (w : TransactionWrite) (st st' : SaveState)
      → IsOther c o w
      → IsUnknown c o st
      → Round c w st st'
      → IsUnknown c o st'
  IsUnknown-Round w st st' other before (t, n, built, e) = subst (IsUnknown c o) e (
      save_rows-IsUnknown c injective o w.action.observation st t n
        (match_identity c (existing_snapshot_match w.action c.snapshot_matches) n) other.0 before
        (build-IsDrawn c w.action.observation st.drawn n w.merged_transaction t other.1 built)
        (existing_snapshot_match-IsDrawn w n))

  IsAfter-Round :
      (u : Transaction) (w : TransactionWrite) (st st' : SaveState)
      → IsOther c o w
      → IsAfter c o u st
      → Round c w st st'
      → IsAfter c o u st'
  IsAfter-Round u w st st' other after (t, n, built, e) = subst (IsAfter c o u) e (
      save_rows-IsAfter c injective o w.action.observation u st t n
        (match_identity c (existing_snapshot_match w.action c.snapshot_matches) n) other.0 after
        (build-IsDrawn c w.action.observation st.drawn n w.merged_transaction t other.1 built)
        (existing_snapshot_match-IsDrawn w n))

  Round-created_transaction :
      (s : MatchStrategy) (st st' : SaveState)
      → o.connection.connection_id ≡ c.connection.connection_id
      → IsUnknown c o st
      → Round c (create_write s o) st st'
      → (a : Str) × IsAfter c o (created_transaction c o (c.new_id st.drawn) a) st'
  unfolding existing_snapshot_match
  Round-created_transaction s st st' same before (t, n, built, e) =
      let (b, is_created, next) =
        created_in_lem c o st.drawn n (resolve_provider_account c.accounts o.provider_account_id) t
          built in
      let u = created_transaction c o (c.new_id st.drawn) b.finance_account_id in
      (
        b.finance_account_id,
        subst (IsAfter c o u)
            (ap (λ j. save_rows c o u (c.new_id j, c.now, suc j) st) (sym next)
              ∙ ap (λ x. save_rows c o x (c.new_id n, c.now, suc n) st) (sym is_created)
              ∙ e)
            (created_rows c injective o st b.finance_account_id same before),
      )

  IsAfter-save_transaction_writes :
      (u : Transaction) (k : ℕ) (ws : List TransactionWrite) (st st' : SaveState)
      → All (IsOther c o) ws
      → IsAfter c o u st
      → save_transaction_writes c k ws st ≡ saved st'
      → IsAfter c o u st'
  unfolding save_transaction_writes
  IsAfter-save_transaction_writes u k [] st st' others after h =
      subst (IsAfter c o u) (saved_injective st st' h) after
  IsAfter-save_transaction_writes u k (w ∷ ws) st st' others after h =
      let (next, went, rest) = rest_saved c k w ws st st' h in
      IsAfter-save_transaction_writes u (suc k) ws next st' others.1
        (IsAfter-Round u w st next others.0 after went) rest

  all_writes :
      (s : MatchStrategy) (k : ℕ) (before after : List TransactionWrite) (st st' : SaveState)
      → o.connection.connection_id ≡ c.connection.connection_id
      → All (IsOther c o) before
      → All (IsOther c o) after
      → IsUnknown c o st
      → save_transaction_writes c k (before ++ create_write s o ∷ after) st ≡ saved st'
      → (n : ℕ) × (a : Str) × IsAfter c o (created_transaction c o (c.new_id n) a) st'
  all_writes s k [] after st st' same first last unknown h =
      let (next, went, rest) = rest_saved c k (create_write s o) after st st' h in
      let (a, is_after) = Round-created_transaction s st next same unknown went in
      (
        st.drawn,
        a,
        IsAfter-save_transaction_writes (created_transaction c o (c.new_id st.drawn) a) (suc k)
            after next st' last is_after rest,
      )
  all_writes s k (w ∷ before) after st st' same first last unknown h =
      let (next, went, rest) = rest_saved c k w (before ++ create_write s o ∷ after) st st' h in
      all_writes s (suc k) before after next st' same first.1 last
        (IsUnknown-Round w st next first.0 unknown went) rest

returns_injective : {A : Type 0} (a b : A) → Path (Call A) (returns a) (returns b) → a ≡ b
returns_injective a b h = cc

unless_failed_lem :
    {A : Type 0} (qs : List (Str × Option Str)) (a b : A) → unless_failed qs a ≡ returns b → a ≡ b
unless_failed_lem [] a b h = returns_injective a b h
unless_failed_lem ((p, some e) ∷ qs) a b h = cc
unless_failed_lem ((p, none) ∷ qs) a b h = unless_failed_lem qs a b h

loaded_lem :
    (faults : LoadFaults) (ref : ConnectionRef) (window : Window) (ids : List Identity)
    (tables : SyncTables) (snapshot : WindowSnapshot)
    → load_existing_window faults ref window ids tables ≡ returns snapshot
    → loaded_window ref window ids tables ≡ snapshot
unfolding load_existing_window
loaded_lem faults ref window ids tables snapshot h =
    unless_failed_lem
      (queries faults (identities_kept [] ids) (identity_rows ref.connection_id ids tables)
        (loaded_window ref window ids tables))
      (loaded_window ref window ids tables) snapshot h

IsAfter-IsKnown :
    (c : SaveContext) (injective : (n k : ℕ) → c.new_id n ≡ c.new_id k → n ≡ k)
    (o : TransactionObservation) (a id : Str) (st : SaveState)
    → IsAfter c o (created_transaction c o id a) st
    → IsKnown o st.tables (created_transaction c o id a)
IsAfter-IsKnown c injective o a id st after =
    let t = created_transaction c o id a in
    let is_row = subst (λ i. IsRow i t st.tables.transactions) (sym after.named) after.is_row in
    record {
      match = after.match;
      sole = after.sole;
      row = is_row.row;
      only = is_row.only;
      of_provider = refl;
    }

-- A transaction that a synchronisation creates is updated by the next: once all writes of a window are saved, of
-- which only one is of the observation's identifier and creates its transaction, a load of any window that asks
-- for its identity plans the same observation as an update of that transaction. Before, nothing was known of the
-- observation; the generator draws an identifier once, and none that stands in a row, a loaded match or a write.
pub plan_created_again :
    (c : SaveContext) (o : TransactionObservation) (s : MatchStrategy)
    (before after : List TransactionWrite) (st st' : SaveState) (faults : LoadFaults)
    (ref : ConnectionRef) (window : Window) (ids : List Identity) (snapshot : WindowSnapshot)
    → (injective : (n k : ℕ) → c.new_id n ≡ c.new_id k → n ≡ k)
    → All (λ m. Unused c 0 m.id) c.snapshot_matches
    → All (IsOther c o) before
    → All (IsOther c o) after
    → IsUnknown c o st
    → o.connection.connection_id ≡ c.connection.connection_id
    → ref.connection_id ≡ o.connection.connection_id
    → is_incomplete (identity_of o) ≡ false
    → in_identities (identity_of o) ids ≡ true
    → save_transaction_writes c 0 (before ++ create_write s o ∷ after) st ≡ saved st'
    → load_existing_window faults ref window ids st'.tables ≡ returns snapshot
    → (n : ℕ) × (a : Str) × (plan_transaction_action snapshot o
        ≡ update_action provider_id o (created_transaction c o (c.new_id n) a))
plan_created_again c o s before after st st' faults ref window ids snapshot injective loaded first
      last unknown same asked_same complete asked h load =
    let (n, a, is_after) =
      all_writes c injective loaded o s 0 before after st st' same first last unknown h in
    let t = created_transaction c o (c.new_id n) a in
    let known = IsAfter-IsKnown c injective o a (c.new_id n) st' is_after in
    (
      n,
      a,
      ap (λ x. plan_transaction_action x o)
            (sym (loaded_lem faults ref window ids st'.tables snapshot load))
          ∙ plan_known o st'.tables t known ref window ids asked_same asked complete,
    )
