-- ===== src/Sync/Orchestrator/Sums.antt =====
-- The sums that a synchronisation reports over its windows.
use sumweave.Base.{◌≡◌, refl, sym, ap, ◌∙◌, List, [], ◌∷◌, ◌++◌, append-nil, append_assoc}
use sumweave.Sync.Types.{SyncStats, SyncIssue, zero_stats, merge_stats}
use sumweave.Sync.Orchestrator.{WindowSyncResult, SyncOrchestrationResult}

-- The sum of the windows' statistics, and all their issues.
unfoldable pub total : List WindowSyncResult → SyncStats → SyncStats
total [] stats = stats
total (r ∷ rs) stats = total rs (merge_stats stats r.stats)

unfoldable pub all_issues : List WindowSyncResult → List SyncIssue
all_issues [] = []
all_issues (r ∷ rs) = r.issues ++ all_issues rs

pub total-snoc :
    (rs : List WindowSyncResult) (r : WindowSyncResult) (s : SyncStats)
    → total (rs ++ r ∷ []) s ≡ merge_stats (total rs s) r.stats
unfolding total
total-snoc [] r s = refl
total-snoc (q ∷ rs) r s = total-snoc rs r (merge_stats s q.stats)

pub all_issues-snoc :
    (rs : List WindowSyncResult) (r : WindowSyncResult)
    → all_issues (rs ++ r ∷ []) ≡ all_issues rs ++ r.issues
unfolding all_issues
all_issues-snoc [] r = append-nil r.issues
all_issues-snoc (q ∷ rs) r =
    ap (λ is. q.issues ++ is) (all_issues-snoc rs r)
    ∙ sym (append_assoc q.issues (all_issues rs) r.issues)

-- A result whose sums are those of its windows.
abbrev pub IsSummed : SyncOrchestrationResult → Type 0
IsSummed result =
    (result.stats ≡ total result.window_results zero_stats)
    × (result.issues ≡ all_issues result.window_results)
