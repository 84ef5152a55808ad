-- ===== src/Sync/Executor.antt =====
-- The synchronisation of one window: `WindowSyncExecutor` of
-- finance/internal/providers/window_sync_executor.go, with the connectors of registry.go, the
-- snapshot window of snapshot_window_policy.go and the identities of window_sync_store.go. The
-- connectors, the store, the clock and the generator of run identifiers act on a world.
pub mod Identities
pub mod Calls
pub mod Applied
use sumweave.Base.{
  ℕ, Bool, true, false, Option, none, some, List, [], ◌∷◌, ◌&&◌, ◌||◌, not, if◌then◌else◌, is_nil,
}
use sumweave.Base.Text.{Str, str_eq, is_empty}
use sumweave.Base.Dict.{Dict, lookup, insert}
use sumweave.Sync.Types.{
  Time, ConnectionRef, Window, SyncState, SyncStats, SyncBatch, TransactionObservation,
  WindowSnapshot, zero_stats,
}
use sumweave.Sync.Windows.{Reason, validate_sync_window}
use sumweave.Sync.Diff.{DiffPlan, plan_diff}
use sumweave.Sync.Apply.{ApplyPlan, plan_apply}
use sumweave.Sync.Orchestrator.{Call, returns, fails, WindowSyncRequest, WindowSyncResult}

pub record Identity : Type 0 where
  pub provider_account_id : Str
  pub provider_transaction_id : Str

abbrev pub identity_eq : Identity → Identity → Bool
identity_eq i j =
    str_eq i.provider_account_id j.provider_account_id
    && str_eq i.provider_transaction_id j.provider_transaction_id

unfoldable pub in_identities : Identity → List Identity → Bool
in_identities i [] = false
in_identities i (j ∷ js) = identity_eq j i || in_identities i js

abbrev pub identity_of : TransactionObservation → Identity
identity_of o = record {
  provider_account_id = o.provider_account_id;
  provider_transaction_id = o.provider_transaction_id;
}

abbrev pub is_incomplete : Identity → Bool
is_incomplete i = is_empty i.provider_account_id || is_empty i.provider_transaction_id

unfoldable pub identities_from : List Identity → List TransactionObservation → List Identity
identities_from seen [] = []
identities_from seen (o ∷ os) =
    let i = identity_of o in
    let skipped = identities_from seen os in
    let taken = i ∷ identities_from (i ∷ seen) os in
    if is_incomplete i then skipped else if in_identities i seen then skipped else taken

unfoldable pub provider_transaction_identities : List TransactionObservation → List Identity
provider_transaction_identities os = identities_from [] os

pub record FetchRequest (Secret : Type 0) : Type 0 where
  pub connection : ConnectionRef
  pub secret : Secret
  pub requested_window : Window
  pub sync_state : Option SyncState

pub record Connector (Secret World : Type 0) : Type 0 where
  pub connector_id : Str
  pub fetch : FetchRequest Secret → World → Call SyncBatch × World

pub record WindowPorts (World : Type 0) : Type 0 where
  pub load_existing_window :
      ConnectionRef → Window → List Identity → World → Call WindowSnapshot × World
  pub apply_sync : DiffPlan → ApplyPlan → SyncState → World → Call SyncStats × World
  pub new_run_id : World → Str × World
  pub clock : World → Time × World

pub data ExecuteFailure : Type 0 where
  invalid_requested_window : Reason → ExecuteFailure
  connector_id_required : ExecuteFailure
  connector_not_configured : Str → ExecuteFailure
  fetch_sync_batch load_existing_snapshot apply_failed : Str → ExecuteFailure

pub data Executed (A : Type 0) : Type 0 where
  executed : A → Executed A
  refused : ExecuteFailure → Executed A

module _ (Secret World : Type 0) where
  -- The registry keeps the first connector of each identifier; a nil connector is left out by the
  -- caller's list.
  add_connector :
      Dict (Connector Secret World) → Connector Secret World → Dict (Connector Secret World)
  add_connector registry c =
      if is_empty c.connector_id
      then registry
      else if is_nil (lookup c.connector_id registry)
      then insert c.connector_id c registry
      else registry

  add_connectors :
      Dict (Connector Secret World) → List (Connector Secret World) → Dict (Connector Secret World)
  unfolding add_connector
  add_connectors registry [] = registry
  add_connectors registry (c ∷ cs) = add_connectors (add_connector registry c) cs

  unfoldable pub new_static_connector_registry :
      List (Connector Secret World) → Dict (Connector Secret World)
  unfolding add_connectors
  new_static_connector_registry connectors = add_connectors [] connectors

  unfoldable pub resolve : Str → Dict (Connector Secret World) → Executed (Connector Secret World)
  resolve connector_id registry =
      if is_empty connector_id
      then refused connector_id_required
      else elim (lookup connector_id registry) [
        | none ↦ refused (connector_not_configured connector_id)
        | some c ↦ executed c
      ]

  -- `RequestedWindowSnapshotPolicy.Determine`
  abbrev pub snapshot_window : Window → Window
  snapshot_window requested = requested

  abbrev pub base_state : WindowSyncRequest Secret → SyncState
  base_state request = elim request.sync_state [
    | some state ↦ state
    | none ↦ record {
      connection = request.connection;
      attempted_at = none;
      succeeded_at = none;
      window = request.requested_window;
      run_id = [];
      job_id = request.job_id;
      error_summary = [];
      aggregate_stats = zero_stats;
    }
  ]

  abbrev pub success_state : WindowSyncRequest Secret → Str → Time → SyncState
  success_state request run_id completed_at = record (base_state request) {
    connection = request.connection;
    window = request.requested_window;
    job_id = request.job_id;
    run_id = run_id;
    succeeded_at = some completed_at;
  }

  -- The batch is of the connection and the window that were asked for, whatever the connector says.
  abbrev pub owned : WindowSyncRequest Secret → SyncBatch → SyncBatch
  owned request batch = record batch {
    connection = request.connection;
    requested_window = request.requested_window;
  }

  module _ (ports : WindowPorts World) where
    open ports use {load_existing_window, apply_sync, new_run_id, clock}

    unfoldable pub after_apply :
        Str → SyncBatch → ApplyPlan → Call SyncStats × World → Executed WindowSyncResult × World
    after_apply run_id batch plan (fails e, world) = (refused (apply_failed e), world)
    after_apply run_id batch plan (returns stats, world) = (
      executed (record { run_id = run_id; batch = batch; stats = stats; issues = plan.issues }),
      world,
    )

    unfoldable pub apply_window :
        WindowSyncRequest Secret
        → SyncBatch
        → WindowSnapshot
        → World
        → Executed WindowSyncResult × World
    apply_window request batch snapshot world =
        let diff = plan_diff batch snapshot in
        let plan = plan_apply diff in
        let (run_id, named) = new_run_id world in
        let (completed_at, timed) = clock named in
        after_apply run_id batch plan
          (apply_sync diff plan (success_state request run_id completed_at) timed)

    unfoldable pub after_load_window :
        WindowSyncRequest Secret
        → SyncBatch
        → Call WindowSnapshot × World
        → Executed WindowSyncResult × World
    after_load_window request batch (fails e, world) = (refused (load_existing_snapshot e), world)
    after_load_window request batch (returns snapshot, world) =
        apply_window request batch snapshot world

    unfoldable pub after_fetch :
        WindowSyncRequest Secret → Call SyncBatch × World → Executed WindowSyncResult × World
    after_fetch request (fails e, world) = (refused (fetch_sync_batch e), world)
    after_fetch request (returns fetched, world) =
        let batch = owned request fetched in
        after_load_window request batch (
          load_existing_window request.connection (snapshot_window request.requested_window)
            (provider_transaction_identities batch.transactions) world)

    unfoldable pub with_connector :
        WindowSyncRequest Secret
        → Executed (Connector Secret World)
        → World
        → Executed WindowSyncResult × World
    with_connector request (refused e) world = (refused e, world)
    with_connector request (executed connector) world = after_fetch request (
        connector.fetch
          (record {
            connection = request.connection;
            secret = request.secret;
            requested_window = request.requested_window;
            sync_state = request.sync_state;
          })
          world)

    unfoldable pub execute_window :
        Dict (Connector Secret World)
        → WindowSyncRequest Secret
        → World
        → Executed WindowSyncResult × World
    execute_window registry request world = elim (validate_sync_window request.requested_window) [
      | some why ↦ (refused (invalid_requested_window why), world)
      | none ↦ with_connector request (resolve request.connection.connector_id registry) world
    ]
