-- ===== src/Sync/Apply/Merging.antt =====
-- The merge of an observation into a stored transaction.
use sumweave.Base.{◌⊎◌, ◌≡◌, ◌≢◌, some, arith}
use sumweave.Base.Text.{str_eq_iff}
use sumweave.Base.Int.{eq_of_parts}
use sumweave.Sync.Types.{Transaction, TransactionOriginal, TransactionObservation}
use sumweave.Sync.Apply.{merge_transaction}

-- What the user has changed since the provider's last report stays as the user left it, field by
-- field; what the user has not touched takes the provider's new value. The status is always the
-- provider's.
pub merge_transaction_edits :
    (t : Transaction) (o : TransactionObservation) (original : TransactionOriginal)
    → t.provider_original ≡ some original
    → let m = merge_transaction t o in
      ((t.amount_minor ≡ original.amount_minor) × (m.amount_minor ≡ o.amount_minor)
        ⊎ (t.amount_minor ≢ original.amount_minor) × (m.amount_minor ≡ t.amount_minor))
      × ((t.currency ≡ original.currency) × (m.currency ≡ o.currency)
          ⊎ (t.currency ≢ original.currency) × (m.currency ≡ t.currency))
      × ((t.description ≡ original.description) × (m.description ≡ o.description)
          ⊎ (t.description ≢ original.description) × (m.description ≡ t.description))
      × ((original.effective_at ≡ some t.effective_at) × (m.effective_at ≡ o.effective_at)
          ⊎ (original.effective_at ≢ some t.effective_at) × (m.effective_at ≡ t.effective_at))
      × (m.status ≡ o.status)
unfolding merge_transaction
merge_transaction_edits t o original e = ground (
  arith,
  str_eq_iff t.currency original.currency,
  str_eq_iff t.description original.description,
  eq_of_parts t.amount_minor original.amount_minor,
)
