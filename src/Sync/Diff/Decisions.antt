-- ===== src/Sync/Diff/Decisions.antt =====
-- What a decision of the planner rests on.
use sumweave.Base.{◌≡◌, ◌⊎◌, some, [], ◌∷◌}
use sumweave.Sync.Types.{Transaction, TransactionObservation, TransactionMatch, WindowSnapshot}
use sumweave.Sync.Diff.{
  Action, provider_id, fingerprint, matching_fingerprints, snapshot_transaction,
  identified_transaction, plan_strong, strong_matches, update_action,
}
use sumweave.Sync.Diff.Matching.{SameTransaction, SameFingerprint}

-- The transaction is the one of its identifier among those of the window, or among those of the identities.
abbrev pub IsLoaded : WindowSnapshot → Transaction → Type 0
IsLoaded s t =
    (snapshot_transaction s.transactions t.id ≡ some t)
    ⊎ (snapshot_transaction s.identity_transactions t.id ≡ some t)

-- An update of the observation: a loaded transaction that a match names, where the match is the only one of
-- its kind that speaks of the observation.
pub record Evidence (s : WindowSnapshot) (o : TransactionObservation) (a : Action) : Type 0 where
  pub transaction : Transaction
  pub match : TransactionMatch
  pub names : a.existing_transaction ≡ some transaction
  pub named : transaction.id ≡ match.transaction_id
  pub loaded : IsLoaded s transaction
  pub speaks :
      (a.match_strategy ≡ provider_id) × SameTransaction o match × (strong_matches s o ≡ match ∷ [])
      ⊎ (a.match_strategy ≡ fingerprint)
        × SameFingerprint o match
        × (matching_fingerprints s.matches o ≡ match ∷ [])

pub strong_found :
    (s : WindowSnapshot) (o : TransactionObservation) (m : TransactionMatch) (t : Transaction)
    → identified_transaction s m.transaction_id ≡ some t
    → plan_strong s o (m ∷ []) ≡ update_action provider_id o t
unfolding plan_strong
strong_found s o m t e = rw (e, plan_strong)
