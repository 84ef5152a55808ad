-- ===== src/Transfers/Examples/Decisions.antt =====
-- The theorems on the decision of pairs at three transactions.
use sumweave.Base.{◌+◌, ◌≤◌, ◌≡◌, [], ◌∷◌, All, length, take, keep}
use sumweave.Transfers.Index.{transfer_matching_index}
use sumweave.Transfers.Candidates.{transfer_matching_candidates}
use sumweave.Transfers.Candidates.Reference.{counterparts, transfer_matching_candidates_lem}
use sumweave.Transfers.Decide.Pairs.{AreDisjoint}
use sumweave.Transfers.Decide.Accepted.{
  IsMatch, decide_transfer_matching_pairs-AreDisjoint, decide_transfer_matching_pairs-IsMatch,
}
use sumweave.Transfers.Decide.Paired.{in_pairs, is_mutual}
use sumweave.Transfers.Decide.Settled.{in_pairs-decide_transfer_matching_pairs}
use sumweave.Transfers.Decide.Counts.{is_alone, decide_transfer_matching_pairs-counts}
use sumweave.Transfers.Examples.Data.{
  libraries, noon, spent, indexed_transaction, three, pair, one_unmatched, never,
  three-HasUniqueIds, decided,
}

transfer_matching_candidates_lem_example :
    transfer_matching_candidates libraries.currencies
      (indexed_transaction spent)
      (transfer_matching_index three noon (noon + 1))
    ≡ take 2 (counterparts libraries.currencies (indexed_transaction spent) three)
transfer_matching_candidates_lem_example =
    transfer_matching_candidates_lem libraries.currencies (indexed_transaction spent) three noon
      (noon + 1)

decide_transfer_matching_pairs-AreDisjoint_example : AreDisjoint (pair ∷ [])
decide_transfer_matching_pairs-AreDisjoint_example =
    decide_transfer_matching_pairs-AreDisjoint libraries.currencies three noon (noon + 1) never
      (pair ∷ []) one_unmatched three-HasUniqueIds decided

decide_transfer_matching_pairs-IsMatch_example :
    All (IsMatch libraries.currencies three) (pair ∷ [])
decide_transfer_matching_pairs-IsMatch_example =
    decide_transfer_matching_pairs-IsMatch libraries.currencies three noon (noon + 1) never
      (pair ∷ []) one_unmatched three-HasUniqueIds decided

in_pairs-decide_transfer_matching_pairs_example :
    All
      (λ t.
        in_pairs t.transaction.id (pair ∷ [])
        ≡ is_mutual libraries.currencies three t.transaction.id)
      (transfer_matching_index three noon (noon + 1)).starting
in_pairs-decide_transfer_matching_pairs_example =
    in_pairs-decide_transfer_matching_pairs libraries.currencies three noon (noon + 1) never
      (pair ∷ []) one_unmatched three-HasUniqueIds decided

decide_transfer_matching_pairs-counts_example :
    (one_unmatched.unmatched
      ≡ length (
          keep
            (is_alone libraries.currencies three)
            (transfer_matching_index three noon (noon + 1)).starting))
    × (one_unmatched.unmatched + one_unmatched.ambiguous + length (pair ∷ [])
        ≤ length (transfer_matching_index three noon (noon + 1)).starting)
    × (one_unmatched.matched_pairs ≡ 0)
    × (one_unmatched.skipped ≡ 0)
decide_transfer_matching_pairs-counts_example =
    decide_transfer_matching_pairs-counts libraries.currencies three noon (noon + 1) never
      (pair ∷ []) one_unmatched decided
