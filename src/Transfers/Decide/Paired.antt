-- ===== src/Transfers/Decide/Paired.antt =====
-- Which transactions stand in a pair, and whose only counterpart has them as its own.
use sumweave.Base.{
  insert_by, sort_by, ◌≡◌, refl, subst, inl, inr, Bool, true, false, Option, none, some, List, [],
  ◌∷◌, ◌||◌, arith, All, Bool-cases,
}
use sumweave.Base.Text.{Str, str_eq, str_eq_iff, str_eq_refl}
use sumweave.Transfers.Types.{IndexedTransaction, TransferMatchingPair}
use sumweave.Transfers.Fx.{Currencies}
use sumweave.Transfers.Decide.{accept, pair_before, sort_pairs}
use sumweave.Transfers.Decide.Accepted.{only_counterpart, IsMatch}

abbrev pub in_pair : Str → TransferMatchingPair → Bool
in_pair i p = str_eq p.first.id i || str_eq p.second.id i

-- Whether the transaction of the identifier stands in a pair.
unfoldable pub in_pairs : Str → List TransferMatchingPair → Bool
in_pairs i [] = false
in_pairs i (p ∷ ps) = str_eq p.first.id i || str_eq p.second.id i || in_pairs i ps

pub in_pairs-accept :
    (i : Str) (p : TransferMatchingPair) (ps : List TransferMatchingPair)
    → in_pairs i (accept p ps) ≡ (in_pair i p || in_pairs i ps)
unfolding in_pairs accept
in_pairs-accept i p [] = ground arith
in_pairs-accept i p (q ∷ qs) = ground (
  arith,
  in_pairs-accept i p qs,
  str_eq_iff q.first.id p.first.id,
  str_eq_iff q.second.id p.second.id,
)

in_pairs-insert_by :
    (i : Str) (p : TransferMatchingPair) (ps : List TransferMatchingPair)
    → in_pairs i (insert_by pair_before p ps) ≡ (in_pair i p || in_pairs i ps)
unfolding in_pairs insert_by
in_pairs-insert_by i p [] = ground arith
in_pairs-insert_by i p (q ∷ qs) = ground (arith, in_pairs-insert_by i p qs)

pub in_pairs-sort_pairs :
    (i : Str) (ps : List TransferMatchingPair) → in_pairs i (sort_pairs ps) ≡ in_pairs i ps
unfolding in_pairs sort_by
in_pairs-sort_pairs i [] = refl
in_pairs-sort_pairs i (p ∷ ps) =
    ground (arith, in_pairs-insert_by i p (sort_pairs ps), in_pairs-sort_pairs i ps)

abbrev pub returns_to : Str → Option Str → Bool
returns_to i none = false
returns_to i (some j) = str_eq j i

module _ (currencies : Currencies) (ts : List IndexedTransaction) where
  abbrev pub partner_returns : Str → Option Str → Bool
  partner_returns i none = false
  partner_returns i (some j) = returns_to i (only_counterpart currencies ts j)

  -- Whether a transaction is the only counterpart of its only counterpart.
  abbrev pub is_mutual : Str → Bool
  is_mutual i = partner_returns i (only_counterpart currencies ts i)

  -- A transaction of a planned pair is.
  pub in_pairs-is_mutual :
      (i : Str) (ps : List TransferMatchingPair)
      → All (IsMatch currencies ts) ps
      → in_pairs i ps ≡ true
      → is_mutual i ≡ true
  unfolding in_pairs
  in_pairs-is_mutual i [] all h = cc
  in_pairs-is_mutual i (p ∷ ps) all h = elim (Bool-cases (str_eq p.first.id i)) [
    | inl first ↦
        let e = (str_eq_iff p.first.id i).0 first in
        subst (λ j. is_mutual j ≡ true) e
          (rw (all.0.0.first_partner, all.0.0.second_partner) (str_eq_refl p.first.id))
    | inr other ↦ elim (Bool-cases (str_eq p.second.id i)) [
      | inl second ↦
          let e = (str_eq_iff p.second.id i).0 second in
          subst (λ j. is_mutual j ≡ true) e
            (rw (all.0.0.second_partner, all.0.0.first_partner) (str_eq_refl p.second.id))
      | inr neither ↦ in_pairs-is_mutual i ps all.1 (ground (arith, h, other, neither))
    ]
  ]
