-- ===== src/Transfers/Candidates/Searches.antt =====
-- Each of the searches against a walk over all transactions.
use sumweave.Base.{
  ◌≡◌, refl, ap, ◌∙◌, Bool, true, false, Option, none, some, List, [], ◌∷◌, ◌&&◌, ◌||◌, not, ltb,
  if◌then◌else◌, arith, keep,
}
use sumweave.Base.Text.{str_eq_iff, str_eq_refl}
use sumweave.Base.Int.{◌==ℤ◌, eq_of_parts}
use sumweave.Transfers.Types.{Time, IndexedTransaction, min_int64, negate}
use sumweave.Transfers.Index.{
  amount_key_eq, fx_key_eq, monobank_key_eq, pko_key_eq, amount_key_for, monobank_key_for,
  pko_key_for, bucket, index_by, sort_buckets, sort_transactions, transfer_matching_index,
}
use sumweave.Transfers.Index.Buckets.{
  has_key, IsKeyTest, bucket-index_by, bucket-sort_buckets, sort_transactions-IsByTime, IsByTime,
}
use sumweave.Transfers.Candidates.{
  window_start, window_end, search_from, scan, same_id, accepts_same_currency, accepts_monobank,
  accepts_pko, monobank_counterpart_key, transfer_matching_same_currency_candidates,
  transfer_matching_monobank_candidates, transfer_matching_pko_candidates,
}
use sumweave.Transfers.Candidates.Search.{first_two, scan-search_from, scan_whole}

amount_test : IsKeyTest amount_key_eq
amount_test = record {
  reflexive = λ a. ground (arith, str_eq_refl a.currency);
  sound = λ a b h. ground (arith, str_eq_iff a.currency b.currency, eq_of_parts a.amount b.amount);
}

pub fx_test : IsKeyTest fx_key_eq
fx_test = record {
  reflexive = λ a. ground (
    arith,
    str_eq_refl a.connection_id,
    str_eq_refl a.namespace,
    str_eq_refl a.reference,
    str_eq_refl a.base_currency,
    str_eq_refl a.quote_currency,
    str_eq_refl a.rate_coefficient,
  );
  sound = λ a b h. ground (
    arith,
    str_eq_iff a.connection_id b.connection_id,
    str_eq_iff a.namespace b.namespace,
    str_eq_iff a.reference b.reference,
    str_eq_iff a.base_currency b.base_currency,
    str_eq_iff a.quote_currency b.quote_currency,
    str_eq_iff a.rate_coefficient b.rate_coefficient,
  );
}

monobank_test : IsKeyTest monobank_key_eq
monobank_test = record {
  reflexive = λ a. ground (arith, str_eq_refl a.connection_id, str_eq_refl a.currency);
  sound = λ a b h. ground (
    arith,
    str_eq_iff a.connection_id b.connection_id,
    str_eq_iff a.currency b.currency,
    eq_of_parts a.amount b.amount,
  );
}

pko_test : IsKeyTest pko_key_eq
pko_test = record {
  reflexive = λ a. ground (
    arith,
    str_eq_refl a.connection_id,
    str_eq_refl a.source_iban,
    str_eq_refl a.destination_iban,
  );
  sound = λ a b h. ground (
    arith,
    str_eq_iff a.connection_id b.connection_id,
    str_eq_iff a.source_iban b.source_iban,
    str_eq_iff a.destination_iban b.destination_iban,
  );
}

-- The transactions under a key, in the order of time.
unfoldable pub under_key :
    {K : Type 0}
    → (K → K → Bool)
    → (IndexedTransaction → Option K)
    → K
    → List IndexedTransaction
    → List IndexedTransaction
under_key key_eq key_for k ts = sort_transactions (keep (has_key key_eq key_for k) ts)

under_key-IsByTime :
    {K : Type 0} (key_eq : K → K → Bool) (key_for : IndexedTransaction → Option K) (k : K)
    (ts : List IndexedTransaction)
    → IsByTime (under_key key_eq key_for k ts)
unfolding under_key
under_key-IsByTime key_eq key_for k ts =
    sort_transactions-IsByTime (keep (has_key key_eq key_for k) ts)

bucket-under_key :
    {K : Type 0} (key_eq : K → K → Bool) (test : IsKeyTest key_eq)
    (key_for : IndexedTransaction → Option K) (k : K) (ts : List IndexedTransaction)
    → bucket key_eq k (sort_buckets (index_by key_eq key_for ts [])) ≡ under_key key_eq key_for k ts
unfolding under_key bucket
bucket-under_key key_eq test key_for k ts =
    bucket-sort_buckets key_eq k (index_by key_eq key_for ts [])
    ∙ ap sort_transactions (bucket-index_by key_eq test key_for k ts [])

-- The reference: each search over all transactions.
unfoldable pub same_currency_reference :
    IndexedTransaction → List IndexedTransaction → List IndexedTransaction
same_currency_reference t ts =
    if t.transaction.amount_minor ==ℤ min_int64
    then []
    else first_two (accepts_same_currency t) t (
        under_key amount_key_eq amount_key_for
          (record { currency = t.transaction.currency; amount = negate t.transaction.amount_minor })
          ts)

unfoldable pub monobank_reference :
    IndexedTransaction → List IndexedTransaction → List IndexedTransaction
monobank_reference t ts = elim (monobank_counterpart_key t) [
  | none ↦ []
  | some k ↦ first_two (accepts_monobank t) t (under_key monobank_key_eq monobank_key_for k ts)
]

unfoldable pub pko_reference :
    IndexedTransaction → List IndexedTransaction → List IndexedTransaction
pko_reference t ts = elim (pko_key_for t) [
  | none ↦ []
  | some k ↦ first_two (accepts_pko t) t (under_key pko_key_eq pko_key_for k ts)
]

-- One search of an index is the reference's search.
module _ {K : Type 0} (key_eq : K → K → Bool) (test : IsKeyTest key_eq)
    (key_for : IndexedTransaction → Option K) (accepts : IndexedTransaction → Bool)
    (t : IndexedTransaction) (ts : List IndexedTransaction) where
  searched :
      (k : K)
      → scan (window_end t) accepts 0 (
          search_from
            (window_start t)
            (bucket key_eq k (sort_buckets (index_by key_eq key_for ts []))))
        ≡ first_two accepts t (under_key key_eq key_for k ts)
  searched k =
      ap (λ b. scan (window_end t) accepts 0 (search_from (window_start t) b))
        (bucket-under_key key_eq test key_for k ts)
      ∙ scan-search_from accepts t (under_key key_eq key_for k ts)
          (under_key-IsByTime key_eq key_for k ts)

  walked :
      (k : K)
      → scan
          (window_end t)
          (λ c. not (ltb c.transaction.effective_at (window_start t)) && accepts c)
          0
          (bucket key_eq k (sort_buckets (index_by key_eq key_for ts [])))
        ≡ first_two accepts t (under_key key_eq key_for k ts)
  walked k =
      ap
        (scan (window_end t)
          (λ c. not (ltb c.transaction.effective_at (window_start t)) && accepts c) 0)
        (bucket-under_key key_eq test key_for k ts)
      ∙ scan_whole accepts t (under_key key_eq key_for k ts)
          (under_key-IsByTime key_eq key_for k ts)

  searched_if :
      (k : Option K)
      → Path
          (List IndexedTransaction)
          (elim k [
            | none ↦ []
            | some j ↦ scan (window_end t) accepts 0 (
                search_from
                  (window_start t)
                  (bucket key_eq j (sort_buckets (index_by key_eq key_for ts []))))
          ])
          (elim k [ none ↦ [] | some j ↦ first_two accepts t (under_key key_eq key_for j ts) ])
  searched_if none = refl
  searched_if (some k) = searched k

  pub walked_if :
      (k : Option K)
      → Path
          (List IndexedTransaction)
          (elim k [
            | none ↦ []
            | some j ↦
                scan
                  (window_end t)
                  (λ c. not (ltb c.transaction.effective_at (window_start t)) && accepts c)
                  0
                  (bucket key_eq j (sort_buckets (index_by key_eq key_for ts [])))
          ])
          (elim k [ none ↦ [] | some j ↦ first_two accepts t (under_key key_eq key_for j ts) ])
  walked_if none = refl
  walked_if (some k) = walked k

pub same_currency_lem :
    (t : IndexedTransaction) (ts : List IndexedTransaction) (rs re : Time)
    → transfer_matching_same_currency_candidates t (transfer_matching_index ts rs re)
      ≡ same_currency_reference t ts
unfolding transfer_matching_same_currency_candidates same_currency_reference transfer_matching_index
same_currency_lem t ts rs re =
    ap (λ found. if t.transaction.amount_minor ==ℤ min_int64 then [] else found)
      (searched amount_key_eq amount_test amount_key_for (accepts_same_currency t) t ts
        (record { currency = t.transaction.currency; amount = negate t.transaction.amount_minor }))

pub monobank_lem :
    (t : IndexedTransaction) (ts : List IndexedTransaction) (rs re : Time)
    → transfer_matching_monobank_candidates t (transfer_matching_index ts rs re)
      ≡ monobank_reference t ts
unfolding transfer_matching_monobank_candidates monobank_reference transfer_matching_index
monobank_lem t ts rs re =
    searched_if monobank_key_eq monobank_test monobank_key_for (accepts_monobank t) t ts
      (monobank_counterpart_key t)

pub pko_lem :
    (t : IndexedTransaction) (ts : List IndexedTransaction) (rs re : Time)
    → transfer_matching_pko_candidates t (transfer_matching_index ts rs re) ≡ pko_reference t ts
unfolding transfer_matching_pko_candidates pko_reference transfer_matching_index
pko_lem t ts rs re =
    searched_if pko_key_eq pko_test pko_key_for (accepts_pko t) t ts (pko_key_for t)

pub same_id_sym : (a b : IndexedTransaction) → same_id a b ≡ same_id b a
same_id_sym a b = ground (
  arith,
  str_eq_iff a.transaction.id b.transaction.id,
  str_eq_iff b.transaction.id a.transaction.id,
)

-- That the identifier is among those of the list.
unfoldable pub in_ids : IndexedTransaction → List IndexedTransaction → Bool
in_ids c [] = false
in_ids c (x ∷ xs) = same_id x c || in_ids c xs

-- Those of a list whose identifiers are new, each once.
unfoldable pub unseen : List IndexedTransaction → List IndexedTransaction → List IndexedTransaction
unseen seen [] = []
unseen seen (c ∷ cs) =
    let skipped = unseen seen cs in
    let taken = c ∷ unseen (c ∷ seen) cs in elim (in_ids c seen) [ true ↦ skipped | false ↦ taken ]
