-- ===== src/Sync/Diff/Plans.antt =====
-- The plan for a whole batch.
use sumweave.Base.{
  ℕ, suc, ◌+◌, subst, ◌≤◌, ◌≡◌, refl, ap, ◌∙◌, false, Option, none, some, List, [], ◌∷◌, ◌++◌,
  arith, length, length-append, if◌then◌else◌, sym, is_nil, not, append-nil,
}
use sumweave.Sync.Types.{
  TransactionObservation, WindowSnapshot, SyncBatch, SyncStats, SyncIssue, TransactionMatch,
}
use sumweave.Sync.Diff.{
  Action, update, DiffPlan, plan_transaction_action, plan_strong, plan_fingerprint, plan_weak,
  matching_fingerprints, strong_matches, count_action, doubtful, append_issue, add_action,
  plan_from, empty_plan, plan_diff,
}

-- What every decision is like: it is about its observation, and an issue is reported exactly for a
-- transaction that is created in doubt.
abbrev pub Sound : TransactionObservation → Action × Option SyncIssue → Type 0
Sound o r =
    (r.0.observation ≡ o)
    × (is_nil r.1 ≡ not (doubtful r.0.match_strategy))
    × (r.0.type ≡ update → doubtful r.0.match_strategy ≡ false)

plan_weak-Sound : (s : WindowSnapshot) (o : TransactionObservation) → Sound o (plan_weak s o)
unfolding plan_weak
plan_weak-Sound s o = ground arith

plan_fingerprint-Sound :
    (s : WindowSnapshot) (o : TransactionObservation) (ms : List TransactionMatch)
    → Sound o (plan_fingerprint s o ms)
unfolding plan_fingerprint
plan_fingerprint-Sound s o [] = plan_weak-Sound s o
plan_fingerprint-Sound s o (m ∷ []) = ground (arith, plan_weak-Sound s o)
plan_fingerprint-Sound s o (m ∷ k ∷ ms) = ground arith

plan_strong-Sound :
    (s : WindowSnapshot) (o : TransactionObservation) (ms : List TransactionMatch)
    → Sound o (plan_strong s o ms)
unfolding plan_strong
plan_strong-Sound s o [] = plan_fingerprint-Sound s o _
plan_strong-Sound s o (m ∷ []) =
    ground (arith, plan_fingerprint-Sound s o (matching_fingerprints s.matches o))
plan_strong-Sound s o (m ∷ k ∷ ms) = ground arith

pub plan_transaction_action-Sound :
    (s : WindowSnapshot) (o : TransactionObservation) → Sound o (plan_transaction_action s o)
unfolding plan_transaction_action
plan_transaction_action-Sound s o = plan_strong-Sound s o (strong_matches s o)

pub observations : List Action → List TransactionObservation
observations [] = []
observations (a ∷ as') = a.observation ∷ observations as'

observations-snoc :
    (l : List Action) (a : Action)
    → observations (l ++ (a ∷ [])) ≡ observations l ++ (a.observation ∷ [])
unfolding observations
observations-snoc [] a = refl
observations-snoc (b ∷ l) a = ap (λ r. b.observation ∷ r) (observations-snoc l a)

snoc-append :
    {A : Type 0} (xs : List A) (x : A) (ys : List A) → (xs ++ (x ∷ [])) ++ ys ≡ xs ++ (x ∷ ys)
snoc-append [] x ys = refl
snoc-append (z ∷ xs) x ys = ap (λ r. z ∷ r) (snoc-append xs x ys)

plan_from-observations :
    (s : WindowSnapshot) (os : List TransactionObservation) (plan : DiffPlan)
    → observations (plan_from s os plan).transaction_actions
      ≡ observations plan.transaction_actions ++ os
unfolding plan_from
plan_from-observations s [] plan = sym (append-nil _)
plan_from-observations s (o ∷ os) plan =
    let found = plan_transaction_action s o in
    plan_from-observations s os (add_action found plan)
    ∙ ap (λ l. l ++ os)
        (observations-snoc plan.transaction_actions found.0
          ∙ ap (λ x. observations plan.transaction_actions ++ (x ∷ []))
              (plan_transaction_action-Sound s o).0)
    ∙ snoc-append (observations plan.transaction_actions) o os

-- The counts agree with one another and with the issues.
abbrev pub Balanced : DiffPlan → ℕ → Type 0
Balanced plan n =
    (plan.stats.created_transactions + plan.stats.updated_transactions ≡ n)
    × (plan.stats.ambiguous_created_transactions ≡ length plan.issues)
    × (plan.stats.ambiguous_created_transactions ≤ plan.stats.created_transactions)

length-append_issue :
    (found : Option SyncIssue) (issues : List SyncIssue)
    → length (append_issue found issues) ≡ length issues + (if is_nil found then 0 else 1)
length-append_issue none issues = omega arith
length-append_issue (some i) issues = omega (arith, length-append issues (i ∷ []))

add_action-Balanced :
    (s : WindowSnapshot) (o : TransactionObservation) (plan : DiffPlan) (n : ℕ)
    → Balanced plan n
    → Balanced (add_action (plan_transaction_action s o) plan) (n + 1)
unfolding count_action
add_action-Balanced s o plan n h =
    let r = plan_transaction_action s o in
    ground (arith, plan_transaction_action-Sound s o, length-append_issue r.1 plan.issues)

regroup : (n k : ℕ) → n + 1 + k ≡ n + suc k
regroup n k = omega arith

plan_from-Balanced :
    (s : WindowSnapshot) (os : List TransactionObservation) (plan : DiffPlan) (n : ℕ)
    → Balanced plan n
    → Balanced (plan_from s os plan) (n + length os)
unfolding plan_from
plan_from-Balanced s [] plan n h = ground arith
plan_from-Balanced s (o ∷ os) plan n h =
    let ih =
      plan_from-Balanced s os (add_action (plan_transaction_action s o) plan) (n + 1)
        (add_action-Balanced s o plan n h) in
    subst (λ k. Balanced (plan_from s os (add_action (plan_transaction_action s o) plan)) k)
      (regroup n (length os)) ih

count_action-observed :
    (a : Action) (stats : SyncStats)
    → (count_action a stats).observed_transactions ≡ stats.observed_transactions
unfolding count_action
count_action-observed a stats = ground arith

plan_from-observed :
    (s : WindowSnapshot) (os : List TransactionObservation) (plan : DiffPlan)
    → (plan_from s os plan).stats.observed_transactions ≡ plan.stats.observed_transactions
unfolding plan_from
plan_from-observed s [] plan = refl
plan_from-observed s (o ∷ os) plan =
    plan_from-observed s os (add_action (plan_transaction_action s o) plan)
    ∙ count_action-observed (plan_transaction_action s o).0 plan.stats

plan_diff_lem :
    (batch : SyncBatch) (s : WindowSnapshot)
    → plan_diff batch s ≡ plan_from s batch.transactions (empty_plan batch s)
unfolding plan_diff
plan_diff_lem batch s = refl

observations-plan_diff :
    (batch : SyncBatch) (s : WindowSnapshot)
    → observations (plan_diff batch s).transaction_actions ≡ batch.transactions
unfolding observations
observations-plan_diff batch s =
    ap (λ p. observations p.transaction_actions) (plan_diff_lem batch s)
    ∙ plan_from-observations s batch.transactions (empty_plan batch s)

-- Every observation of the batch is planned, once and in the order of the batch. The counts agree:
-- created and updated transactions make up the observed ones, and one issue is reported for each
-- transaction that is created in doubt, of which there are no more than created ones.
pub plan_diff_complete :
    (batch : SyncBatch) (s : WindowSnapshot)
    → let plan = plan_diff batch s in
      (observations plan.transaction_actions ≡ batch.transactions)
      × (plan.stats.created_transactions + plan.stats.updated_transactions
          ≡ plan.stats.observed_transactions)
      × (plan.stats.ambiguous_created_transactions ≡ length plan.issues)
      × (plan.stats.ambiguous_created_transactions ≤ plan.stats.created_transactions)
plan_diff_complete batch s =
    let start = empty_plan batch s in
    let balanced = plan_from-Balanced s batch.transactions start 0 (omega arith) in
    let kept = plan_from-observed s batch.transactions start in
    (
      observations-plan_diff batch s,
      ground (arith, plan_diff_lem batch s, balanced, kept),
      ground (arith, plan_diff_lem batch s, balanced),
      ground (arith, plan_diff_lem batch s, balanced),
    )
