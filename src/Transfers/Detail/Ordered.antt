-- ===== src/Transfers/Detail/Ordered.antt =====
-- Rows that pass two filters.
use sumweave.Base.{◌≡◌, refl, Bool, List, [], ◌∷◌, arith, ◌&&◌, keep, length, All}
use sumweave.Transfers.Rows.{TransactionModel}
use sumweave.Transfers.Store.{count_legs}

pub length-keep-keep :
    (p q r : TransactionModel → Bool) (ts : List TransactionModel)
    → All (λ t. (q t && p t) ≡ r t) ts
    → length (keep p (keep q ts)) ≡ count_legs r ts
unfolding count_legs
length-keep-keep p q r [] all = refl
length-keep-keep p q r (t ∷ ts) all = ground (arith, all.0, length-keep-keep p q r ts all.1)
