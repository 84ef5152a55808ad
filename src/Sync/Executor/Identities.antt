-- ===== src/Sync/Executor/Identities.antt =====
-- The identities under which the store is asked for transactions outside the window.
use sumweave.Base.{
  ◌≡◌, Bool, true, false, List, [], ◌∷◌, ◌&&◌, ◌||◌, not, arith, Bool-cases, inl, inr,
}
use sumweave.Base.Text.{str_eq_iff, str_eq_refl}
use sumweave.Sync.Types.{TransactionObservation}
use sumweave.Sync.Executor.{
  Identity, identity_eq, in_identities, identity_of, is_incomplete, identities_from,
  provider_transaction_identities,
}

-- That some observation has the identity.
unfoldable pub observed_as : Identity → List TransactionObservation → Bool
observed_as i [] = false
observed_as i (o ∷ os) = identity_eq (identity_of o) i || observed_as i os

pub identity_eq_refl : (i : Identity) → identity_eq i i ≡ true
identity_eq_refl i =
    ground (arith, str_eq_refl i.provider_account_id, str_eq_refl i.provider_transaction_id)

pub same_identity : (i j : Identity) → identity_eq i j ≡ true → i ≡ j
same_identity i j h = ground (
  arith,
  str_eq_iff i.provider_account_id j.provider_account_id,
  str_eq_iff i.provider_transaction_id j.provider_transaction_id,
)

in_identities_from :
    (i : Identity) (seen : List Identity) (os : List TransactionObservation)
    → in_identities i (identities_from seen os)
      ≡ (not (is_incomplete i) && not (in_identities i seen) && observed_as i os)
unfolding identities_from in_identities observed_as
in_identities_from i seen [] = ground arith
in_identities_from i seen (o ∷ os) = ground (
  arith,
  in_identities_from i seen os,
  in_identities_from i (identity_of o ∷ seen) os,
  same_identity (identity_of o) i,
  identity_eq_refl i,
)

-- No identity stands in the list twice.
abbrev pub AreDistinct : List Identity → Type 0
AreDistinct [] = Unit
AreDistinct (i ∷ is) = (in_identities i is ≡ false) × AreDistinct is

not_again :
    (i : Identity) (seen : List Identity) (os : List TransactionObservation)
    → in_identities i (identities_from (i ∷ seen) os) ≡ false
unfolding in_identities
not_again i seen os = ground (arith, in_identities_from i (i ∷ seen) os, identity_eq_refl i)

identities_from-AreDistinct :
    (seen : List Identity) (os : List TransactionObservation)
    → AreDistinct (identities_from seen os)
unfolding identities_from
identities_from-AreDistinct seen [] = tt
identities_from-AreDistinct seen (o ∷ os) =
    let i = identity_of o in
    elim (Bool-cases (is_incomplete i)) [
      | inl skip ↦ rw skip (identities_from-AreDistinct seen os)
      | inr complete ↦ elim (Bool-cases (in_identities i seen)) [
        | inl again ↦ rw (complete, again) (identities_from-AreDistinct seen os)
        | inr first ↦
            rw (complete, first) (not_again i seen os, identities_from-AreDistinct (i ∷ seen) os)
      ]
    ]

-- The store is asked for exactly the identities that are complete and occur in the batch, each once.
pub provider_transaction_identities_lem :
    (os : List TransactionObservation) (i : Identity)
    → (in_identities i (provider_transaction_identities os)
        ≡ (not (is_incomplete i) && observed_as i os))
      × AreDistinct (provider_transaction_identities os)
unfolding provider_transaction_identities in_identities
provider_transaction_identities_lem os i =
    (ground (arith, in_identities_from i [] os), identities_from-AreDistinct [] os)
