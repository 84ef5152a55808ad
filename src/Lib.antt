-- ===== src/Lib.antt =====
-- The background jobs and the bank synchronisation of Sumweave.
--
-- Sumweave keeps the finances of its tenants. Work that must not be lost runs as durable background
-- jobs (apps/sumweave/internal/jobs): a message is delivered to a worker, which records it as a row of
-- the table `jobs`, claims the row, runs the handler and writes how it ended. A worker may die at any
-- point, several processes share the table, and a periodic recovery takes stale rows back. One such
-- job synchronises a bank connection (finance/internal/providers): it plans a target window, splits it
-- into chunks, fetches each chunk, compares it with what is stored, and writes the difference. Another
-- (finance/service_transfer_matching.go) pairs the two legs of a transfer between a tenant's accounts: it
-- loads the eligible transactions, finds for each the counterparts in other accounts within 72 hours,
-- and links those that are each other's only counterpart. The dashboard of a tenant
-- (finance/service_reporting.go) adds up what its transactions contribute in a period.
--
-- Files and code:
--
-- - Base.antt and its children: Go strings as bytes with `strings.TrimSpace`, maps as association
--   lists, integers, and the lemmas on them that the parts share.
-- - Jobs/Types.antt: apps/sumweave/internal/jobs/types.go, the data and its pure helpers;
--   Jobs/Failures.antt: jobErrorFromExecution and jobErrorFromBusinessFailure of the same file.
-- - Jobs/Table.antt: the rows of store.go (jobModel) and the SQL statements on them;
--   Jobs/Store.antt: Get, GetForRequester, MaterializeQueued, ClaimQueued, persistTerminalState,
--   FinalizeRetryExhausted, RequeueRunning and RenewRunning; Jobs/Recovery.antt: RecoverStaleRunning.
--   Its children are on rows, on claims, on what a lost claim may do, and on what a requester may read.
-- - Jobs/Listing.antt: List of store.go with encodeCursor and decodeCursor; its children are on the cursor
--   and on pages that follow each other, with Base/Sorting.antt on sorted lists.
-- - Jobs/Worker.antt: processObserved and executeClaimedObserved of worker.go; Jobs/Worker/Retry.antt:
--   persistTerminal; Jobs/Worker/Tracker.antt: runOnceTracker and recoveryInterval. Its other children
--   are on whole deliveries and on jobs that are given up.
-- - Jobs/Lifecycle.antt: all writes as one type of operations, runs of them in any order, and the
--   diagram of a row's states; its children are on the moves of a row, on invariants, and on the
--   recovery.
-- - Sync/Types.antt: the records of finance/domain; Sync/Windows.antt: target_window_policy.go and
--   window_chunk_policy.go; Sync/Diff.antt: diff.go; Sync/Apply.antt: apply.go;
--   Sync/Orchestrator.antt: sync_orchestrator.go; Sync/Executor.antt: Execute of
--   window_sync_executor.go, with registry.go, snapshot_window_policy.go and the identities of
--   window_sync_store.go; Sync/Loading.antt: LoadExistingWindow of that file with the queries of
--   finance/persistence/provider_window_sync_persistence.go; Sync/Saving.antt: the writes of
--   transactions and matches of ApplySync, whose children are on rows, on single writes, on what is
--   known of a created transaction after all writes, and on the load that follows.
-- - Transfers/Types.antt: the data of finance/service_transfer_matching.go; Transfers/Index.antt:
--   transferMatchingIndex; Transfers/Fx.antt: fxConversionMatches of finance/fx_evidence.go;
--   Transfers/Candidates.antt: transferMatchingCandidates with its four searches;
--   Transfers/Decide.antt: evaluateTransferMatchingStart and decideTransferMatchingPairs;
--   finance/persistence/transfer_pair_store.go: the rows of models.go in Transfers/Rows.antt,
--   ListEligibleTransferMatchingTransactions in Transfers/Loading.antt, the link and the unlink of a
--   pair in Transfers/Store.antt;
--   Transfers/Service.antt: Match with its load and its save; Transfers/Detail.antt:
--   finance/transfer_detail_service.go with access_guard.go and persistence/transfer_candidate_store.go.
-- - Transfers/Evidence.antt with its children: extractFXEvidence, and the Monobank and PKO evidence of
--   finance/internal/monobank and finance/internal/pko (transfer_matching_evidence.go).
-- - Reports/Types.antt, Reports/Dashboard.antt and Reports/Coverage.antt: finance/reporting.go and the
--   computation of the dashboard in finance/service_reporting.go.
-- - Jobs/Examples.antt, Sync/Examples.antt, Transfers/Examples.antt and Reports/Examples.antt, with their
--   children: concrete runs.
--
-- How the code is modelled. A string is its bytes. An instant is a number counted from Go's zero time,
-- in microseconds for jobs and nanoseconds for synchronisation, so that IsZero is a test for 0. A nil
-- pointer is `none`. A statement of the store is atomic; the driver's failure of it is an argument, and
-- a failed statement has no effect. The processes that share the table are a list of writes in any
-- order, in which a recovery, its scan and its update of each row together, is one step. A delivery is
-- split where the handler runs, since others may write meanwhile. What the
-- orchestrator and the executor call (journal, store, connector, clock) is a record of functions on a
-- world, and `AddDate` is a calendar with the laws that its documentation promises. The secret of a
-- connection is only passed on. In the matching a map is the list of its entries, an amount is an
-- integer within int64, the currency library and what the JSON decoder makes of a document are
-- parameters, and the clock, the new identifiers, the driver's faults and the answers of `ctx.Err()`
-- are functions of the step. In the list of jobs base64 and the printing and parsing of a time are
-- parameters, with the law that each is read back as it was written, and the database compares texts by
-- their bytes.
--
-- Bounds and fuel. The loop that splits a window runs on fuel, the length of the window, which is
-- enough since each chunk takes at least one unit of time. The loop that persists a terminal state runs
-- over a list of attempts, one for each round. All other loops are structural, those of the matching on
-- its lists of transactions and pairs, and those of the parsers on the text that is left.
--
-- Not modelled: migrations, the message router and its goroutines, the claim of accounts, the documents
-- and the event of a persisted window, the connections, the loads of the dashboard and the cash flow,
-- the refresh of exchange rates, the submission of a matching, the ledger, the shell of the application
-- (HTTP, configuration, wiring, clients), the agent runtime and the tools. Connectors and databases are
-- remote services.
pub mod Base
pub mod Jobs
pub mod Sync
pub mod Transfers
pub mod Reports
