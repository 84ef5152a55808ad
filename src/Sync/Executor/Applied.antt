-- ===== src/Sync/Executor/Applied.antt =====
-- What the execution of a window that succeeds has written.
use sumweave.Base.{refl, ◌≡◌, sym, subst, ◌∙◌, ap, none, arith, Option-cases, inl, inr}
use sumweave.Base.Text.{Str}
use sumweave.Base.Dict.{Dict}
use sumweave.Sync.Types.{SyncBatch, SyncStats, WindowSnapshot}
use sumweave.Sync.Windows.{validate_sync_window}
use sumweave.Sync.Diff.{plan_diff}
use sumweave.Sync.Apply.{ApplyPlan, plan_apply}
use sumweave.Sync.Orchestrator.{Call, returns, fails, WindowSyncRequest, WindowSyncResult}
use sumweave.Sync.Executor.{
  Connector, WindowPorts, Executed, executed, refused, resolve, success_state, owned, after_apply,
  apply_window, after_load_window, after_fetch, with_connector, execute_window,
}
use sumweave.Sync.Executor.Calls.{IsSuccess, success_state-IsSuccess, Fetches, Loads, Applied}

module _ (Secret World : Type 0) (ports : WindowPorts World) where
  open ports use {load_existing_window, apply_sync, new_run_id, clock}

  executed_injective :
      (a b : WindowSyncResult) (v w : World)
      → Path (Executed WindowSyncResult × World) (executed a, v) (executed b, w)
      → (a ≡ b) × (v ≡ w)
  executed_injective a b v w e = (ground arith, ap (λ p. p.1) e)

  after_apply_executed :
      (run_id : Str) (batch : SyncBatch) (plan : ApplyPlan) (call : Call SyncStats) (world : World)
      (r : WindowSyncResult) (later : World)
      → after_apply Secret World ports run_id batch plan (call, world) ≡ (executed r, later)
      → (run_id ≡ r.run_id)
        × (batch ≡ r.batch)
        × (r.issues ≡ plan.issues)
        × Path (Call SyncStats × World) (call, world) (returns r.stats, later)
  unfolding after_apply
  after_apply_executed run_id batch plan (fails e) world r later h = cc
  after_apply_executed run_id batch plan (returns stats) world r later h =
      let (made, there) =
        executed_injective
          (record { run_id = run_id; batch = batch; stats = stats; issues = plan.issues }) r world
          later h in
      (
        ap (λ x. x.run_id) made,
        ap (λ x. x.batch) made,
        ap (λ x. x.issues) (sym made),
        ap (λ x. (returns x.stats, world)) made ∙ ap (λ v. (returns r.stats, v)) there,
      )

  -- The calls up to the load, which the rest of the execution starts from.
  record Loaded (registry : Dict (Connector Secret World)) (request : WindowSyncRequest Secret)
      (world : World) (fetched : SyncBatch) (snapshot : WindowSnapshot) (loaded_at : World)
      : Type 0 where
    connector : Connector Secret World
    resolved : resolve Secret World request.connection.connector_id registry ≡ executed connector
    fetched_at : World
    fetches : Fetches Secret World ports connector request world (returns fetched) fetched_at
    loads : Loads Secret World ports request fetched fetched_at (returns snapshot) loaded_at

  apply_window-Applied :
      (registry : Dict (Connector Secret World)) (request : WindowSyncRequest Secret)
      (world : World) (fetched : SyncBatch) (snapshot : WindowSnapshot) (loaded_at : World)
      (r : WindowSyncResult) (later : World)
      → Loaded registry request world fetched snapshot loaded_at
      → apply_window Secret World ports request
          (owned Secret World request fetched)
          snapshot
          loaded_at
        ≡ (executed r, later)
      → Applied Secret World ports registry request world r later
  unfolding apply_window plan_apply
  apply_window-Applied registry request world fetched snapshot loaded_at r later l h =
      let batch = owned Secret World request fetched in
      let named = new_run_id loaded_at in
      let timed = clock named.1 in
      let diff = plan_diff batch snapshot in
      let state = success_state Secret World request named.0 timed.0 in
      let call = apply_sync diff (plan_apply diff) state timed.1 in
      let (run, same, issues, wrote) =
        after_apply_executed named.0 batch (plan_apply diff) call.0 call.1 r later h in
      record {
        connector = l.connector;
        resolved = l.resolved;
        fetched = fetched;
        fetched_at = l.fetched_at;
        fetches = l.fetches;
        snapshot = snapshot;
        loaded_at = loaded_at;
        loads = l.loads;
        completed_at = timed.0;
        before = timed.1;
        names_run = run;
        reads_clock = refl;
        of_batch = sym same;
        state = state;
        is_success =
            subst (λ j. IsSuccess request j timed.0 state) run
              (success_state-IsSuccess Secret World request named.0 timed.0);
        wrote =
            subst
              (λ b.
                Path (Call SyncStats × World)
                  (apply_sync (plan_diff b snapshot) (plan_apply (plan_diff b snapshot)) state
                    timed.1)
                  (returns r.stats, later))
              same wrote;
        issues_kept = issues ∙ ap (λ b. (plan_diff b snapshot).issues) same;
      }

  after_load-Applied :
      (registry : Dict (Connector Secret World)) (request : WindowSyncRequest Secret)
      (world : World) (connector : Connector Secret World) (fetched : SyncBatch)
      (fetched_at : World) (call : Call WindowSnapshot) (loaded_at : World) (r : WindowSyncResult)
      (later : World)
      → resolve Secret World request.connection.connector_id registry ≡ executed connector
      → Fetches Secret World ports connector request world (returns fetched) fetched_at
      → Loads Secret World ports request fetched fetched_at call loaded_at
      → after_load_window Secret World ports request
          (owned Secret World request fetched)
          (call, loaded_at)
        ≡ (executed r, later)
      → Applied Secret World ports registry request world r later
  unfolding after_load_window
  after_load-Applied registry request world c fetched fetched_at (fails e) loaded_at r later
        resolved fetches loads h =
      cc
  after_load-Applied registry request world c fetched fetched_at (returns snapshot) loaded_at r
        later resolved fetches loads h =
      apply_window-Applied registry request world fetched snapshot loaded_at r later
        (record {
          connector = c;
          resolved = resolved;
          fetched_at = fetched_at;
          fetches = fetches;
          loads = loads;
        })
        h

  after_fetch-Applied :
      (registry : Dict (Connector Secret World)) (request : WindowSyncRequest Secret)
      (world : World) (connector : Connector Secret World) (call : Call SyncBatch)
      (fetched_at : World) (r : WindowSyncResult) (later : World)
      → resolve Secret World request.connection.connector_id registry ≡ executed connector
      → Fetches Secret World ports connector request world call fetched_at
      → after_fetch Secret World ports request (call, fetched_at) ≡ (executed r, later)
      → Applied Secret World ports registry request world r later
  unfolding after_fetch
  after_fetch-Applied registry request world c (fails e) fetched_at r later resolved fetches h = cc
  after_fetch-Applied registry request world c (returns fetched) fetched_at r later resolved fetches
        h =
      after_load-Applied registry request world c fetched fetched_at _ _ r later resolved fetches
        refl h

  with_connector-Applied :
      (registry : Dict (Connector Secret World)) (request : WindowSyncRequest Secret)
      (c : Executed (Connector Secret World)) (world : World) (r : WindowSyncResult) (later : World)
      → resolve Secret World request.connection.connector_id registry ≡ c
      → with_connector Secret World ports request c world ≡ (executed r, later)
      → Applied Secret World ports registry request world r later
  unfolding with_connector
  with_connector-Applied registry request (refused e) world r later resolved h = cc
  with_connector-Applied registry request (executed connector) world r later resolved h =
      after_fetch-Applied registry request world connector _ _ r later resolved refl h

execute_window_valid :
    (Secret World : Type 0) (ports : WindowPorts World) (registry : Dict (Connector Secret World))
    (request : WindowSyncRequest Secret) (world : World)
    → validate_sync_window request.requested_window ≡ none
    → execute_window Secret World ports registry request world
      ≡ with_connector Secret World ports request
          (resolve Secret World request.connection.connector_id registry)
          world
unfolding execute_window
execute_window_valid Secret World ports registry request world passes =
    simp (execute_window, passes)

-- The execution of a window succeeds only for a window that passes validation, and then it has made these
-- calls in this order: the connector of the request's identifier fetched a batch for the
-- requested connection and window; the store loaded that window with the identities of the fetched
-- transactions; the run was given an identifier and the clock was read; and the last call wrote the difference between the fetched batch, taken as one of that
-- connection and window, and the loaded snapshot, together with a state of success for that window and job.
-- The result carries that batch, the statistics that the write answered and the issues of the plan.
pub execute_window-Applied :
    (Secret World : Type 0) (ports : WindowPorts World) (registry : Dict (Connector Secret World))
    (request : WindowSyncRequest Secret) (world : World) (r : WindowSyncResult) (later : World)
    → execute_window Secret World ports registry request world ≡ (executed r, later)
    → (validate_sync_window request.requested_window ≡ none)
      × Applied Secret World ports registry request world r later
unfolding execute_window
execute_window-Applied Secret World ports registry request world r later h =
    elim (Option-cases (validate_sync_window request.requested_window)) [
      | inl passes ↦ (
        passes,
        with_connector-Applied Secret World ports registry request
            (resolve Secret World request.connection.connector_id registry) world r later refl
            (sym (execute_window_valid Secret World ports registry request world passes) ∙ h),
      )
      | inr (why, invalid) ↦ cc
    ]
