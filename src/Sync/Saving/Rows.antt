-- ===== src/Sync/Saving/Rows.antt =====
-- What a save does to the rows under its identifier and under others.
use sumweave.Base.{
  ◌≡◌, ◌≢◌, refl, ◌∙◌, inl, inr, true, false, some, List, [], ◌∷◌, arith, All, keep, Bool-cases,
}
use sumweave.Base.Text.{Str, str_eq, str_eq_iff, str_eq_refl}
use sumweave.Base.Sole.{kept-All}
use sumweave.Sync.Types.{Transaction, TransactionMatch, TransactionObservation}
use sumweave.Sync.Diff.{has_provider_id, snapshot_transaction}
use sumweave.Sync.Saving.{save_transaction, save_provider_transaction_match}

save_match_other :
    (o : TransactionObservation) (m : TransactionMatch) (rows : List TransactionMatch)
    → str_eq m.provider_transaction_id o.provider_transaction_id ≡ false
    → All (λ r. has_provider_id o r ≡ true → r.id ≢ m.id) rows
    → keep (has_provider_id o) (save_provider_transaction_match m rows)
      ≡ keep (has_provider_id o) rows
unfolding save_provider_transaction_match
save_match_other o m [] other apart = ground arith
save_match_other o m (r ∷ rows) other apart = elim (Bool-cases (str_eq r.id m.id)) [
  | inl hit ↦
      let same = (str_eq_iff r.id m.id).0 hit in
      elim (Bool-cases (has_provider_id o r)) [
        | inl h ↦ elim (apart.0 h same) [ ]
        | inr h ↦ rw hit (ground (arith, other, h))
      ]
  | inr miss ↦ rw miss (ground (arith, save_match_other o m rows other apart.1))
]

-- A match of another transaction leaves the rows of an observation as they are, unless it is saved
-- under the identifier of one.
pub keep-save_match_other :
    (o : TransactionObservation) (m : TransactionMatch) (rows : List TransactionMatch)
    → str_eq m.provider_transaction_id o.provider_transaction_id ≡ false
    → All (λ r. r.id ≢ m.id) (keep (has_provider_id o) rows)
    → keep (has_provider_id o) (save_provider_transaction_match m rows)
      ≡ keep (has_provider_id o) rows
keep-save_match_other o m rows other apart =
    save_match_other o m rows other (kept-All (λ r. r.id ≢ m.id) (has_provider_id o) rows apart)

pub keep-save_match_new :
    (o : TransactionObservation) (m : TransactionMatch) (rows : List TransactionMatch)
    → has_provider_id o m ≡ true
    → All (λ r. r.id ≢ m.id) rows
    → keep (has_provider_id o) rows ≡ []
    → keep (has_provider_id o) (save_provider_transaction_match m rows) ≡ m ∷ []
unfolding save_provider_transaction_match
keep-save_match_new o m [] speaks apart none_yet = rw speaks refl
keep-save_match_new o m (r ∷ rows) speaks apart none_yet = elim (Bool-cases (str_eq r.id m.id)) [
  | inl hit ↦ elim (apart.0 ((str_eq_iff r.id m.id).0 hit)) [ ]
  | inr miss ↦ rw miss (ground (arith, none_yet, keep-save_match_new o m rows speaks apart.1))
]

-- The row under an identifier, and that there is no other.
pub record IsRow (id : Str) (t : Transaction) (rows : List Transaction) : Type 0 where
  pub row : snapshot_transaction rows id ≡ some t
  pub only : All (λ u. u.id ≡ id → u ≡ t) rows

str_neq : (s t : Str) → s ≢ t → str_eq s t ≡ false
str_neq s t apart = elim (Bool-cases (str_eq s t)) [
  | inl hit ↦ elim (apart ((str_eq_iff s t).0 hit)) [ ]
  | inr miss ↦ miss
]

pub save_transaction-new :
    (t : Transaction) (rows : List Transaction)
    → All (λ r. r.id ≢ t.id) rows
    → IsRow t.id (record t { tag_ids = [] }) (save_transaction t rows)
unfolding save_transaction snapshot_transaction
save_transaction-new t [] apart = record {
  row = rw (str_eq_refl t.id) refl;
  only = ((λ e. refl), tt);
}
save_transaction-new t (r ∷ rows) apart =
    let miss = str_neq r.id t.id apart.0 in
    let rest = save_transaction-new t rows apart.1 in
    rw miss (record { row = rw miss rest.row; only = ((λ e. elim (apart.0 e) [ ]), rest.only) })

row_other :
    (u : Transaction) (id : Str) (rows : List Transaction)
    → u.id ≢ id
    → snapshot_transaction (save_transaction u rows) id ≡ snapshot_transaction rows id
unfolding save_transaction snapshot_transaction
row_other u id [] other = rw (str_neq u.id id other) refl
row_other u id (r ∷ rows) other =
    let miss = str_neq u.id id other in
    ground (arith, miss, row_other u id rows other, str_eq_iff r.id u.id, str_eq_iff u.id id)

only_other :
    (t u : Transaction) (id : Str) (rows : List Transaction)
    → u.id ≢ id
    → All (λ v. v.id ≡ id → v ≡ t) rows
    → All (λ v. v.id ≡ id → v ≡ t) (save_transaction u rows)
unfolding save_transaction
only_other t u id [] other all = ((λ e. elim (other e) [ ]), tt)
only_other t u id (r ∷ rows) other all = elim (Bool-cases (str_eq r.id u.id)) [
  | inl hit ↦ rw hit ((λ e. elim (other e) [ ]), all.1)
  | inr miss ↦ rw miss (all.0, only_other t u id rows other all.1)
]

pub save_transaction_other :
    (t u : Transaction) (id : Str) (rows : List Transaction)
    → u.id ≢ id
    → IsRow id t rows
    → IsRow id t (save_transaction u rows)
save_transaction_other t u id rows other is_row = record {
  row = row_other u id rows other ∙ is_row.row;
  only = only_other t u id rows other is_row.only;
}

-- What holds of the identifiers of the rows and of a row that is saved.
module _ (Q : Str → Type 0) where
  pub save_transaction-All :
      (t : Transaction) (rows : List Transaction)
      → Q t.id
      → All (λ r. Q r.id) rows
      → All (λ r. Q r.id) (save_transaction t rows)
  unfolding save_transaction
  save_transaction-All t [] q all = (q, tt)
  save_transaction-All t (r ∷ rows) q all = elim (Bool-cases (str_eq r.id t.id)) [
    | inl hit ↦ rw hit (q, all.1)
    | inr miss ↦ rw miss (all.0, save_transaction-All t rows q all.1)
  ]

  pub save_match-All :
      (m : TransactionMatch) (rows : List TransactionMatch)
      → Q m.id
      → All (λ r. Q r.id) rows
      → All (λ r. Q r.id) (save_provider_transaction_match m rows)
  unfolding save_provider_transaction_match
  save_match-All m [] q all = (q, tt)
  save_match-All m (r ∷ rows) q all = elim (Bool-cases (str_eq r.id m.id)) [
    | inl hit ↦ rw hit (q, all.1)
    | inr miss ↦ rw miss (all.0, save_match-All m rows q all.1)
  ]
