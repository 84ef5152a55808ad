-- ===== src/Sync/Loading/Items.antt =====
-- The rows that the query by identities shows, and the match that an append leaves alone.
use sumweave.Base.{
  ◌≡◌, refl, ap, ◌∙◌, subst, inl, inr, Bool, true, false, Option, none, some, List, [], ◌∷◌, ◌&&◌,
  map, not, arith, All, keep, Bool-cases, if◌then◌else◌, some_injective,
}
use sumweave.Base.Text.{Str, str_eq, str_eq_refl}
use sumweave.Sync.Types.{Transaction, TransactionMatch}
use sumweave.Sync.Diff.{snapshot_transaction, seen_id, append_unique_matches}
use sumweave.Sync.Executor.{Identity, in_identities, is_incomplete}
use sumweave.Sync.Executor.Identities.{same_identity, identity_eq_refl}
use sumweave.Sync.Loading.{
  SyncTables, provider_transaction, provider_row, item_before, identity_items, identities_kept,
}

pub in_identities_kept :
    (i : Identity) (seen is : List Identity)
    → in_identities i (identities_kept seen is)
      ≡ (not (is_incomplete i) && not (in_identities i seen) && in_identities i is)
unfolding identities_kept in_identities
in_identities_kept i seen [] = ground arith
in_identities_kept i seen (j ∷ is) = ground (
  arith,
  in_identities_kept i seen is,
  in_identities_kept i (j ∷ seen) is,
  same_identity j i,
  identity_eq_refl i,
)

abbrev pub rows_of : List (Transaction × TransactionMatch) → List TransactionMatch
rows_of items = map (λ i. i.1) items

abbrev pub transactions_of : List (Transaction × TransactionMatch) → List Transaction
transactions_of items = map (λ i. i.0) items

abbrev pub is_present : Option Transaction → Bool
is_present none = false
is_present (some t) = true

abbrev pub has_row : SyncTables → TransactionMatch → Bool
has_row tables m = is_present (provider_transaction tables m.transaction_id)

pub rows-item_before :
    (r : Option Transaction) (m : TransactionMatch) (items : List (Transaction × TransactionMatch))
    → rows_of (item_before r m items) ≡ (if is_present r then m ∷ rows_of items else rows_of items)
rows-item_before none m items = refl
rows-item_before (some t) m items = refl

pub rows-identity_items :
    (tables : SyncTables) (ms : List TransactionMatch)
    → rows_of (identity_items tables ms) ≡ keep (has_row tables) ms
unfolding identity_items
rows-identity_items tables [] = refl
rows-identity_items tables (m ∷ ms) =
    rows-item_before (provider_transaction tables m.transaction_id) m (identity_items tables ms)
    ∙ ap (λ rs. if has_row tables m then m ∷ rs else rs) (rows-identity_items tables ms)

pub provider_row-some :
    (r : Option Transaction) (u : Transaction) → provider_row r ≡ some u → r ≡ some u
provider_row-some none u h = cc
provider_row-some (some v) u h = ground arith

pub snapshot_transaction-All :
    (P : Transaction → Type 0) (ts : List Transaction) (id : Str) (u : Transaction)
    → All P ts
    → snapshot_transaction ts id ≡ some u
    → P u
unfolding snapshot_transaction
snapshot_transaction-All P [] id u all h = cc
snapshot_transaction-All P (v ∷ ts) id u all h = elim (Bool-cases (str_eq v.id id)) [
  | inl same ↦ subst P (some_injective v u (rw same at h)) all.0
  | inr other ↦ snapshot_transaction-All P ts id u all.1 (rw other at h)
]

pub append_unique_sole :
    (m : TransactionMatch) (p : TransactionMatch → Bool)
    → append_unique_matches (keep p (m ∷ [])) (m ∷ []) ≡ m ∷ []
unfolding append_unique_matches seen_id
append_unique_sole m p = elim (Bool-cases (p m)) [
  | inl shown ↦ rw shown (rw (str_eq_refl m.id) refl)
  | inr hidden ↦ rw hidden refl
]
