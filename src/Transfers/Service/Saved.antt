-- ===== src/Transfers/Service/Saved.antt =====
-- What the save counts, and which rows it may change.
use sumweave.Base.{
  ℕ, suc, ◌+◌, ◌≤◌, ◌≡◌, refl, subst, ◌⊎◌, inl, inr, false, Option, none, some, List, [], ◌∷◌,
  arith, length, Option-cases, is_nil,
}
use sumweave.Base.Text.{Str}
use sumweave.Transfers.Types.{TransferMatchingPair, TransferMatchingAttemptCounts}
use sumweave.Transfers.Rows.{TransactionModel}
use sumweave.Transfers.Store.{
  PairError, transaction_ids_must_differ, transaction_not_found, driver, link_transfer_pair,
}
use sumweave.Transfers.Service.{
  Outside, Attempt, link_params, ended, SaveStep, go_on, stop, saved, save_from,
  save_transfer_matching_pairs,
}

-- What is counted: one for each of `steps` pairs, and nothing among the starts.
abbrev Counted : ℕ → TransferMatchingAttemptCounts → TransferMatchingAttemptCounts → Type 0
Counted steps before after =
    (after.matched_pairs + after.skipped ≡ before.matched_pairs + before.skipped + steps)
    × (after.unmatched ≡ before.unmatched)
    × (after.ambiguous ≡ before.ambiguous)

abbrev AfterStep : TransferMatchingAttemptCounts → SaveStep → Type 0
AfterStep counts (go_on more ts) = Counted 1 counts more
AfterStep counts (stop e ts) = Unit

saved-AfterStep :
    (counts : TransferMatchingAttemptCounts) (r : Option PairError × List TransactionModel)
    → AfterStep counts (saved counts r)
saved-AfterStep counts (none, ts) = (omega arith, refl, refl)
saved-AfterStep counts (some transaction_not_found, ts) = (omega arith, refl, refl)
saved-AfterStep counts (some transaction_ids_must_differ, ts) = tt
saved-AfterStep counts (some (driver e), ts) = tt

SaveStep-cases :
    (s : SaveStep)
    → ((c : TransferMatchingAttemptCounts) × (ts : List TransactionModel) × (s ≡ go_on c ts))
      ⊎ ((e : PairError) × (ts : List TransactionModel) × (s ≡ stop e ts))
SaveStep-cases (go_on c ts) = inl (c, ts, refl)
SaveStep-cases (stop e ts) = inr (e, ts, refl)

-- A loop that ends has counted each pair; one that stops has counted those before it.
abbrev EndsCounted : ℕ → TransferMatchingAttemptCounts → Attempt → Type 0
EndsCounted pairs before a =
    (done : ℕ) × (done ≤ pairs)
    × Counted done before a.counts
    × ((done ≡ pairs) ⊎ (is_nil a.error ≡ false))

one_step :
    (n : ℕ) (counts more : TransferMatchingAttemptCounts) (a : Attempt)
    → Counted 1 counts more
    → EndsCounted n more a
    → EndsCounted (suc n) counts a
one_step n counts more a one (done, le, all, how) = (
  suc done,
  omega (arith, le),
  (omega (arith, one.0, all.0), cc (one.1, all.1), cc (one.2, all.2)),
  (elim how [ inl e ↦ inl (omega (arith, e)) | inr e ↦ inr e ]),
)

ended_counted :
    (e : Option Str) (counts : TransferMatchingAttemptCounts) (ts : List TransactionModel)
    → EndsCounted 0 counts (ended e counts ts)
ended_counted none counts ts = (0, omega arith, (omega arith, refl, refl), inl refl)
ended_counted (some e) counts ts = (0, omega arith, (omega arith, refl, refl), inr refl)

save_from-EndsCounted :
    (o : Outside) (tenant_id : Str) (checks n : ℕ) (pairs : List TransferMatchingPair)
    (counts : TransferMatchingAttemptCounts) (ts : List TransactionModel)
    → EndsCounted (length pairs) counts (save_from o tenant_id checks n pairs counts ts)
unfolding save_from
save_from-EndsCounted o tenant_id checks n [] counts ts =
    ended_counted (o.ctx_err (checks + n)) counts ts
save_from-EndsCounted o tenant_id checks n (pair ∷ pairs) counts ts =
    elim (Option-cases (o.ctx_err (checks + n))) [
      | inr (e, cancel) ↦
          rw (cancel, save_from) (0, omega arith, (omega arith, refl, refl), inr refl)
      | inl go ↦
          let r = link_transfer_pair (o.faults n) (link_params o tenant_id n pair) ts in
          elim (SaveStep-cases (saved counts r)) [
            | inr (e, after, halt) ↦
                rw (go, save_from)
                  (rw (halt, save_from) (0, omega arith, (omega arith, refl, refl), inr refl))
            | inl (more, after, next) ↦
                rw (go, save_from)
                  (rw (next, save_from)
                    (one_step (length pairs) counts more
                      (save_from o tenant_id checks (suc n) pairs more after)
                      (subst (AfterStep counts) next (saved-AfterStep counts r))
                      (save_from-EndsCounted o tenant_id checks (suc n) pairs more after)))
          ]
    ]

-- The save counts each pair that it has come to once, as matched or as skipped, and leaves the counts of
-- unmatched and ambiguous starts; unless it returns an error it has come to every pair.
pub save_transfer_matching_pairs-counts :
    (o : Outside) (tenant_id : Str) (checks : ℕ) (pairs : List TransferMatchingPair)
    (counts : TransferMatchingAttemptCounts) (ts : List TransactionModel)
    → (done : ℕ) × (done ≤ length pairs)
      × (((save_transfer_matching_pairs o tenant_id checks pairs counts ts).counts.matched_pairs
              + (save_transfer_matching_pairs o tenant_id checks pairs counts ts).counts.skipped
            ≡ counts.matched_pairs + counts.skipped + done)
          × ((save_transfer_matching_pairs o tenant_id checks pairs counts ts).counts.unmatched
              ≡ counts.unmatched)
          × ((save_transfer_matching_pairs o tenant_id checks pairs counts ts).counts.ambiguous
              ≡ counts.ambiguous))
      × ((done ≡ length pairs)
          ⊎ (is_nil (save_transfer_matching_pairs o tenant_id checks pairs counts ts).error
              ≡ false))
unfolding save_transfer_matching_pairs
save_transfer_matching_pairs-counts o tenant_id checks pairs counts ts =
    save_from-EndsCounted o tenant_id checks 0 pairs counts ts
