-- ===== src/Transfers/Decide/Pairs.antt =====
-- Pairs by their identifiers: the map of accepted pairs and the sorting of its values.
use sumweave.Base.Text.Order.{str_lt_total}
use sumweave.Base.Sorting.{insert_by-All, sort_by-All}
use sumweave.Base.{
  insert_by, sort_by, ◌≡◌, sym, ap, ◌∙◌, inl, inr, Bool, true, false, Option, some, List, [], ◌∷◌,
  ◌||◌, arith, All, Bool-cases, some_injective,
}
use sumweave.Base.Text.{Str, str_eq, str_eq_iff}
use sumweave.Transfers.Types.{TransferMatchingPair, str_lt}
use sumweave.Transfers.Decide.{same_key, accept, pair_before, sort_pairs}

-- Whether two pairs have a transaction in common.
abbrev pub shares : TransferMatchingPair → TransferMatchingPair → Bool
shares p q =
    str_eq p.first.id q.first.id
    || str_eq p.first.id q.second.id
    || str_eq p.second.id q.first.id
    || str_eq p.second.id q.second.id

-- No transaction stands in two pairs of the list.
abbrev pub AreDisjoint : List TransferMatchingPair → Type 0
AreDisjoint [] = Unit
AreDisjoint (p ∷ ps) = All (λ q. shares p q ≡ false) ps × AreDisjoint ps

shares_sym : (p q : TransferMatchingPair) → shares p q ≡ false → shares q p ≡ false
shares_sym p q h = ground (
  arith,
  str_eq_iff p.first.id q.first.id,
  str_eq_iff q.first.id p.first.id,
  str_eq_iff p.first.id q.second.id,
  str_eq_iff q.second.id p.first.id,
  str_eq_iff p.second.id q.first.id,
  str_eq_iff q.first.id p.second.id,
  str_eq_iff p.second.id q.second.id,
  str_eq_iff q.second.id p.second.id,
)

module _ {κ} (P : TransferMatchingPair → Type κ) where
  pub accept-All :
      (p : TransferMatchingPair) (ps : List TransferMatchingPair)
      → P p
      → All P ps
      → All P (accept p ps)
  unfolding accept
  accept-All p [] h all = (h, tt)
  accept-All p (q ∷ qs) h all = elim (Bool-cases (same_key q p)) [
    | inl again ↦ rw again (h, all.1)
    | inr other ↦ rw other (all.0, accept-All p qs h all.1)
  ]

insert_by-AreDisjoint :
    (p : TransferMatchingPair) (ps : List TransferMatchingPair)
    → All (λ q. shares p q ≡ false) ps
    → AreDisjoint ps
    → AreDisjoint (insert_by pair_before p ps)
unfolding insert_by
insert_by-AreDisjoint p [] h d = (tt, tt)
insert_by-AreDisjoint p (q ∷ qs) h d = elim (Bool-cases (pair_before q p)) [
  | inl later ↦ rw later (
    insert_by-All (λ r. shares q r ≡ false) pair_before p qs (shares_sym p q h.0) d.0,
    insert_by-AreDisjoint p qs h.1 d.1,
  )
  | inr here ↦ rw here (h, d)
]

pub sort_pairs-AreDisjoint :
    (ps : List TransferMatchingPair) → AreDisjoint ps → AreDisjoint (sort_pairs ps)
unfolding sort_by
sort_pairs-AreDisjoint [] d = tt
sort_pairs-AreDisjoint (p ∷ ps) d =
    insert_by-AreDisjoint p (sort_pairs ps)
      (sort_by-All (λ q. shares p q ≡ false) pair_before ps d.0) (sort_pairs-AreDisjoint ps d.1)

-- The identifiers of a pair are each other's partners, and in order.
pub record IsPartnered (partner : Str → Option Str) (p : TransferMatchingPair) : Type 0 where
  pub first_partner : partner p.first.id ≡ some p.second.id
  pub second_partner : partner p.second.id ≡ some p.first.id
  pub in_order : str_lt p.second.id p.first.id ≡ false
  pub differ : str_eq p.first.id p.second.id ≡ false

module _ (partner : Str → Option Str) where
  same_partner : (a b c d : Str) → partner a ≡ some c → partner b ≡ some d → a ≡ b → c ≡ d
  same_partner a b c d h k e = some_injective c d (sym h ∙ ap partner e ∙ k)

  crossed :
      (p q : TransferMatchingPair)
      → IsPartnered partner p
      → IsPartnered partner q
      → str_eq p.first.id q.second.id ≡ false
  crossed p q h k = elim (Bool-cases (str_eq p.first.id q.second.id)) [
    | inr e ↦ e
    | inl e ↦
        let first = (str_eq_iff p.first.id q.second.id).0 e in
        let second =
          same_partner p.first.id q.second.id p.second.id q.first.id h.first_partner
            k.second_partner first in
        let same =
          str_lt_total q.first.id q.second.id (cc (h.in_order, first, second)) k.in_order in
        ground (arith, str_eq_iff q.first.id q.second.id, k.differ, same)
  ]

  -- Two partnered pairs are one key or share nothing.
  apart :
      (p q : TransferMatchingPair)
      → IsPartnered partner p
      → IsPartnered partner q
      → same_key p q ≡ false
      → shares p q ≡ false
  apart p q h k other =
      let a = crossed p q h k in
      let b = crossed q p k h in
      let c =
        same_partner p.first.id q.first.id p.second.id q.second.id h.first_partner
          k.first_partner in
      let d =
        same_partner p.second.id q.second.id p.first.id q.first.id h.second_partner
          k.second_partner in
      ground (
        arith,
        str_eq_iff p.first.id q.first.id,
        str_eq_iff p.second.id q.second.id,
        str_eq_iff q.first.id p.second.id,
        str_eq_iff p.second.id q.first.id,
        a,
        b,
        c,
        d,
        other,
      )

  apart_by_key :
      (p q r : TransferMatchingPair) → same_key q p ≡ true → shares q r ≡ false → shares p r ≡ false
  apart_by_key p q r h k =
      ground (arith, str_eq_iff q.first.id p.first.id, str_eq_iff q.second.id p.second.id)

  replaced :
      (p q : TransferMatchingPair) (rs : List TransferMatchingPair)
      → same_key q p ≡ true
      → All (λ r. shares q r ≡ false) rs
      → All (λ r. shares p r ≡ false) rs
  replaced p q [] h all = tt
  replaced p q (r ∷ rs) h all = (apart_by_key p q r h all.0, replaced p q rs h all.1)

  pub accept-AreDisjoint :
      (p : TransferMatchingPair) (ps : List TransferMatchingPair)
      → IsPartnered partner p
      → All (IsPartnered partner) ps
      → AreDisjoint ps
      → AreDisjoint (accept p ps)
  unfolding accept
  accept-AreDisjoint p [] h all d = (tt, tt)
  accept-AreDisjoint p (q ∷ qs) h all d = elim (Bool-cases (same_key q p)) [
    | inl again ↦ rw again (replaced p q qs again d.0, d.1)
    | inr other ↦ rw other (
      accept-All (λ r. shares q r ≡ false) p qs (apart q p all.0 h other) d.0,
      accept-AreDisjoint p qs h all.1 d.1,
    )
  ]
