-- ===== src/Transfers/Index.antt =====
-- `transferMatchingIndex` of finance/service_transfer_matching.go: the transactions by the keys under
-- which their counterparts look for them, each bucket in the order of time. A map is the list of its
-- entries. Where two transactions are at one instant the identifier decides, which is a primary key,
-- so the order is that of `sort.Slice` whichever way it goes about it.
pub mod Buckets
use sumweave.Base.{
  sort_by, ℕ, Bool, true, false, Option, none, some, List, [], ◌∷◌, ◌++◌, ◌&&◌, not, ◌==◌, ltb, leb,
  if◌then◌else◌, map,
}
use sumweave.Base.Text.{Str, str_eq}
use sumweave.Base.Int.{ℤ, ◌==ℤ◌}
use sumweave.Transfers.Types.{
  Time, TransferMatchingTransaction, IndexedTransaction, FxEvidence, MonobankEvidence, PkoEvidence,
  str_lt,
}

pub record AmountKey : Type 0 where
  pub currency : Str
  pub amount : ℤ

pub record FxKey : Type 0 where
  pub connection_id : Str
  pub namespace : Str
  pub reference : Str
  pub base_currency : Str
  pub quote_currency : Str
  pub rate_coefficient : Str
  pub rate_scale : ℕ

pub record MonobankKey : Type 0 where
  pub connection_id : Str
  pub currency : Str
  pub amount : ℤ

pub record PkoKey : Type 0 where
  pub connection_id : Str
  pub source_iban : Str
  pub destination_iban : Str

abbrev pub amount_key_eq : AmountKey → AmountKey → Bool
amount_key_eq a b = str_eq a.currency b.currency && a.amount ==ℤ b.amount

abbrev pub fx_key_eq : FxKey → FxKey → Bool
fx_key_eq a b =
    str_eq a.connection_id b.connection_id
    && str_eq a.namespace b.namespace
    && str_eq a.reference b.reference
    && str_eq a.base_currency b.base_currency
    && str_eq a.quote_currency b.quote_currency
    && str_eq a.rate_coefficient b.rate_coefficient
    && a.rate_scale == b.rate_scale

abbrev pub monobank_key_eq : MonobankKey → MonobankKey → Bool
monobank_key_eq a b =
    str_eq a.connection_id b.connection_id && str_eq a.currency b.currency && a.amount ==ℤ b.amount

abbrev pub pko_key_eq : PkoKey → PkoKey → Bool
pko_key_eq a b =
    str_eq a.connection_id b.connection_id
    && str_eq a.source_iban b.source_iban
    && str_eq a.destination_iban b.destination_iban

abbrev pub amount_key_for : IndexedTransaction → Option AmountKey
amount_key_for t =
    some (record { currency = t.transaction.currency; amount = t.transaction.amount_minor })

abbrev fx_key_of : Option FxEvidence → Option Str → Option FxKey
fx_key_of (some e) (some connection) = some (record {
  connection_id = connection;
  namespace = e.namespace;
  reference = e.reference;
  base_currency = e.base_currency;
  quote_currency = e.quote_currency;
  rate_coefficient = e.rate_coefficient;
  rate_scale = e.rate_scale;
})
fx_key_of e connection = none

abbrev pub fx_key_for : IndexedTransaction → Option FxKey
fx_key_for t = fx_key_of t.evidence t.transaction.connection_id

abbrev monobank_key_of :
    TransferMatchingTransaction → Option MonobankEvidence → Option Str → Option MonobankKey
monobank_key_of t (some e) (some connection) =
    some (record { connection_id = connection; currency = t.currency; amount = t.amount_minor })
monobank_key_of t e connection = none

abbrev pub monobank_key_for : IndexedTransaction → Option MonobankKey
monobank_key_for t = monobank_key_of t.transaction t.monobank_evidence t.transaction.connection_id

abbrev pko_key_of : Option PkoEvidence → Option Str → Option PkoKey
pko_key_of (some e) (some connection) = some (record {
  connection_id = connection;
  source_iban = e.source_iban;
  destination_iban = e.destination_iban;
})
pko_key_of e connection = none

abbrev pub pko_key_for : IndexedTransaction → Option PkoKey
pko_key_for t = pko_key_of t.pko_evidence t.transaction.connection_id

-- `m[key] = append(m[key], value)` and `m[key]`, with the equality of the keys.
module _ {K : Type 0} (key_eq : K → K → Bool) where
  unfoldable pub append_to :
      K
      → IndexedTransaction
      → List (K × List IndexedTransaction)
      → List (K × List IndexedTransaction)
  append_to k t [] = (k, t ∷ []) ∷ []
  append_to k t ((j, ts) ∷ m) =
      if key_eq j k then (j, ts ++ (t ∷ [])) ∷ m else (j, ts) ∷ append_to k t m

  unfoldable pub bucket : K → List (K × List IndexedTransaction) → List IndexedTransaction
  bucket k [] = []
  bucket k ((j, ts) ∷ m) = if key_eq j k then ts else bucket k m

  add_to_bucket :
      Option K
      → IndexedTransaction
      → List (K × List IndexedTransaction)
      → List (K × List IndexedTransaction)
  unfolding append_to
  add_to_bucket none t m = m
  add_to_bucket (some k) t m = append_to k t m

  -- The loop of `transferMatchingIndex`, as far as one of its maps is concerned.
  unfoldable pub index_by :
      (IndexedTransaction → Option K)
      → List IndexedTransaction
      → List (K × List IndexedTransaction)
      → List (K × List IndexedTransaction)
  unfolding add_to_bucket
  index_by key_for [] m = m
  index_by key_for (t ∷ ts) m = index_by key_for ts (add_to_bucket (key_for t) t m)

-- The order of `sortTransferMatchingTransactions`.
abbrev pub sorts_before : IndexedTransaction → IndexedTransaction → Bool
sorts_before a b =
    if a.transaction.effective_at == b.transaction.effective_at
    then str_lt a.transaction.id b.transaction.id
    else ltb a.transaction.effective_at b.transaction.effective_at

abbrev pub sort_transactions : List IndexedTransaction → List IndexedTransaction
sort_transactions ts = sort_by sorts_before ts

unfoldable pub sort_buckets :
    {K : Type 0} → List (K × List IndexedTransaction) → List (K × List IndexedTransaction)
sort_buckets [] = []
sort_buckets ((k, ts) ∷ m) = (k, sort_transactions ts) ∷ sort_buckets m

pub record Indexes : Type 0 where
  pub by_amount : List (AmountKey × List IndexedTransaction)
  pub by_fx : List (FxKey × List IndexedTransaction)
  pub by_monobank : List (MonobankKey × List IndexedTransaction)
  pub by_pko : List (PkoKey × List IndexedTransaction)
  pub starting : List IndexedTransaction

abbrev pub starts_in : Time → Time → IndexedTransaction → Bool
starts_in range_start range_end t =
    not (ltb t.transaction.effective_at range_start) && ltb t.transaction.effective_at range_end

-- What is `starting` before it is sorted.
unfoldable pub starting_in : Time → Time → List IndexedTransaction → List IndexedTransaction
starting_in range_start range_end [] = []
starting_in range_start range_end (t ∷ ts) =
    let rest = starting_in range_start range_end ts in
    if starts_in range_start range_end t then t ∷ rest else rest

-- `transferMatchingIndex`, of the transactions with their evidence.
unfoldable pub transfer_matching_index : List IndexedTransaction → Time → Time → Indexes
unfolding sort_buckets
transfer_matching_index ts range_start range_end = record {
  by_amount = sort_buckets (index_by amount_key_eq amount_key_for ts []);
  by_fx = sort_buckets (index_by fx_key_eq fx_key_for ts []);
  by_monobank = sort_buckets (index_by monobank_key_eq monobank_key_for ts []);
  by_pko = sort_buckets (index_by pko_key_eq pko_key_for ts []);
  starting = sort_transactions (starting_in range_start range_end ts);
}
