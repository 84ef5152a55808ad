-- ===== src/Sync/Diff/Matching.antt =====
-- The matches that the planner finds for an observation.
use sumweave.Base.{
  ◌≡◌, ◌≢◌, inl, inr, true, false, some, List, [], ◌∷◌, arith, keep, All, All-append, All-keep,
  Bool-cases,
}
use sumweave.Base.Text.{Str, str_eq_iff, is_empty}
use sumweave.Sync.Types.{Transaction, TransactionObservation, TransactionMatch, WindowSnapshot}
use sumweave.Sync.Diff.{
  has_provider_id, has_fingerprint, matching_provider_ids, matching_fingerprints,
  append_unique_matches, append_unseen, seen_id, snapshot_transaction, strong_matches,
}

-- The match speaks of the observation: the same connection and provider account, and the same
-- non-empty provider transaction identifier.
abbrev pub SameTransaction : TransactionObservation → TransactionMatch → Type 0
SameTransaction o m =
    (m.connection_id ≡ o.connection.connection_id)
    × (m.provider_account_id ≡ o.provider_account_id)
    × (m.provider_transaction_id ≡ o.provider_transaction_id)
    × (o.provider_transaction_id ≢ [])

abbrev pub SameFingerprint : TransactionObservation → TransactionMatch → Type 0
SameFingerprint o m =
    (m.connection_id ≡ o.connection.connection_id)
    × (m.provider_account_id ≡ o.provider_account_id)
    × (m.fingerprint ≡ o.fingerprint)
    × (o.fingerprint ≢ [])

has_provider_id-SameTransaction :
    (o : TransactionObservation) (m : TransactionMatch)
    → is_empty o.provider_transaction_id ≡ false
    → has_provider_id o m ≡ true
    → SameTransaction o m
has_provider_id-SameTransaction o m e h = ground (
  arith,
  str_eq_iff m.connection_id o.connection.connection_id,
  str_eq_iff m.provider_account_id o.provider_account_id,
  str_eq_iff m.provider_transaction_id o.provider_transaction_id,
)

has_fingerprint-SameFingerprint :
    (o : TransactionObservation) (m : TransactionMatch)
    → is_empty o.fingerprint ≡ false
    → has_fingerprint o m ≡ true
    → SameFingerprint o m
has_fingerprint-SameFingerprint o m e h = ground (
  arith,
  str_eq_iff m.connection_id o.connection.connection_id,
  str_eq_iff m.provider_account_id o.provider_account_id,
  str_eq_iff m.fingerprint o.fingerprint,
)

All-map :
    {P Q : TransactionMatch → Type 0} (ms : List TransactionMatch)
    → ((m : TransactionMatch) → P m → Q m)
    → All P ms
    → All Q ms
All-map [] f h = tt
All-map (m ∷ ms) f h = (f m h.0, All-map ms f h.1)

matching_provider_ids-All :
    (ms : List TransactionMatch) (o : TransactionObservation)
    → All (SameTransaction o) (matching_provider_ids ms o)
unfolding matching_provider_ids
matching_provider_ids-All ms o = elim (Bool-cases (is_empty o.provider_transaction_id)) [
  | inl e ↦ rw e tt
  | inr e ↦ rw e (
      All-map (keep (has_provider_id o) ms) (λ m. has_provider_id-SameTransaction o m e)
        (All-keep (has_provider_id o) ms))
]

pub matching_fingerprints-All :
    (ms : List TransactionMatch) (o : TransactionObservation)
    → All (SameFingerprint o) (matching_fingerprints ms o)
unfolding matching_fingerprints
matching_fingerprints-All ms o = elim (Bool-cases (is_empty o.fingerprint)) [
  | inl e ↦ rw e tt
  | inr e ↦ rw e (
      All-map (keep (has_fingerprint o) ms) (λ m. has_fingerprint-SameFingerprint o m e)
        (All-keep (has_fingerprint o) ms))
]

append_unseen-All :
    (P : TransactionMatch → Type 0) (seen : List Str) (ms : List TransactionMatch)
    → All P ms
    → All P (append_unseen seen ms)
unfolding append_unseen
append_unseen-All P seen [] h = tt
append_unseen-All P seen (m ∷ ms) h = elim (Bool-cases (seen_id m.id seen)) [
  | inl e ↦ rw e (append_unseen-All P seen ms h.1)
  | inr e ↦ rw e (h.0, append_unseen-All P (m.id ∷ seen) ms h.1)
]

pub strong_matches-All :
    (s : WindowSnapshot) (o : TransactionObservation) → All (SameTransaction o) (strong_matches s o)
unfolding append_unique_matches
strong_matches-All s o =
    All-append (SameTransaction o) (matching_provider_ids s.matches o) _
      (matching_provider_ids-All s.matches o)
      (append_unseen-All (SameTransaction o) _ _ (matching_provider_ids-All s.identity_matches o))

pub snapshot_transaction-id :
    (ts : List Transaction) (id : Str) (t : Transaction)
    → snapshot_transaction ts id ≡ some t
    → t.id ≡ id
unfolding snapshot_transaction
snapshot_transaction-id [] id t h = cc
snapshot_transaction-id (x ∷ ts) id t h =
    ground (arith, str_eq_iff x.id id, snapshot_transaction-id ts id t)
