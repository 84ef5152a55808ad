-- ===== src/Transfers/Index/Buckets.antt =====
-- What a bucket of the index holds, and its order.
use sumweave.Base.Sorting.{insert_by-All}
use sumweave.Base.{
  insert_by, sort_by, ◌≤◌, ◌≡◌, refl, sym, ap, ◌∙◌, inl, inr, Bool, true, false, Option, none, some,
  List, [], ◌∷◌, ◌++◌, append-nil, append_assoc, if◌then◌else◌, arith, keep, All, Bool-cases,
  Option-cases,
}
use sumweave.Transfers.Types.{IndexedTransaction}
use sumweave.Transfers.Index.{
  append_to, bucket, add_to_bucket, index_by, sorts_before, sort_transactions, sort_buckets,
}

-- Whether the transaction stands under the key.
module _ {K : Type 0} (key_eq : K → K → Bool) where
  abbrev has_key_of : K → Option K → Bool
  has_key_of k none = false
  has_key_of k (some j) = key_eq j k

  abbrev pub has_key : (IndexedTransaction → Option K) → K → IndexedTransaction → Bool
  has_key key_for k t = has_key_of k (key_for t)

-- A test of keys that holds of a key and itself, and goes both ways.
pub record IsKeyTest {K : Type 0} (key_eq : K → K → Bool) : Type 0 where
  pub reflexive : (a : K) → key_eq a a ≡ true
  pub sound : (a b : K) → key_eq a b ≡ true → a ≡ b

module _ {K : Type 0} (key_eq : K → K → Bool) (test : IsKeyTest key_eq) where
  open test use {reflexive, sound}

  bucket-append_to :
      (k j : K) (t : IndexedTransaction) (m : List (K × List IndexedTransaction))
      → bucket key_eq k (append_to key_eq j t m)
        ≡ (if key_eq j k then bucket key_eq k m ++ (t ∷ []) else bucket key_eq k m)
  unfolding append_to bucket
  bucket-append_to k j t [] = ground arith
  bucket-append_to k j t ((i, ts) ∷ m) =
      ground
        (arith, bucket-append_to k j t m, sound i j, sound i k, sound j k, reflexive k, reflexive j)

  grown :
      (k j : K) (t : IndexedTransaction) (m : List (K × List IndexedTransaction))
      (rest : List IndexedTransaction)
      → bucket key_eq k (append_to key_eq j t m) ++ rest
        ≡ bucket key_eq k m ++ (if key_eq j k then t ∷ rest else rest)
  grown k j t m rest = elim (Bool-cases (key_eq j k)) [
    | inl hit ↦
        ap (λ b. b ++ rest) (bucket-append_to k j t m)
        ∙ rw hit (append_assoc (bucket key_eq k m) (t ∷ []) rest)
    | inr miss ↦ ap (λ b. b ++ rest) (bucket-append_to k j t m) ∙ rw miss refl
  ]

  -- A bucket holds the transactions of the key, in the order in which they were loaded.
  pub bucket-index_by :
      (key_for : IndexedTransaction → Option K) (k : K) (ts : List IndexedTransaction)
      (m : List (K × List IndexedTransaction))
      → bucket key_eq k (index_by key_eq key_for ts m)
        ≡ bucket key_eq k m ++ keep (has_key key_eq key_for k) ts
  unfolding index_by add_to_bucket
  bucket-index_by key_for k [] m = sym (append-nil (bucket key_eq k m))
  bucket-index_by key_for k (t ∷ ts) m = elim (Option-cases (key_for t)) [
    | inl absent ↦ rw absent (bucket-index_by key_for k ts m)
    | inr (j, present) ↦ rw present (
        bucket-index_by key_for k ts (append_to key_eq j t m)
        ∙ grown k j t m (keep (has_key key_eq key_for k) ts))
  ]

pub bucket-sort_buckets :
    {K : Type 0} (key_eq : K → K → Bool) (k : K) (m : List (K × List IndexedTransaction))
    → bucket key_eq k (sort_buckets m) ≡ sort_transactions (bucket key_eq k m)
unfolding bucket sort_buckets sort_by
bucket-sort_buckets key_eq k [] = refl
bucket-sort_buckets key_eq k ((j, ts) ∷ m) = ground (arith, bucket-sort_buckets key_eq k m)

-- The order of time.
abbrev pub IsByTime : List IndexedTransaction → Type 0
IsByTime [] = Unit
IsByTime (a ∷ as') =
    All (λ b. a.transaction.effective_at ≤ b.transaction.effective_at) as' × IsByTime as'

All-after :
    (a b : IndexedTransaction) (bs : List IndexedTransaction)
    → a.transaction.effective_at ≤ b.transaction.effective_at
    → All (λ c. b.transaction.effective_at ≤ c.transaction.effective_at) bs
    → All (λ c. a.transaction.effective_at ≤ c.transaction.effective_at) bs
All-after a b [] h all = tt
All-after a b (c ∷ bs) h all = (omega (arith, h, all.0), All-after a b bs h all.1)

insert_by-IsByTime :
    (a : IndexedTransaction) (bs : List IndexedTransaction)
    → IsByTime bs
    → IsByTime (insert_by sorts_before a bs)
unfolding insert_by
insert_by-IsByTime a [] h = (tt, tt)
insert_by-IsByTime a (b ∷ bs) h = elim (Bool-cases (sorts_before b a)) [
  | inl later ↦ rw later (
    insert_by-All (λ c. b.transaction.effective_at ≤ c.transaction.effective_at) sorts_before a bs
        (ground arith) h.0,
    insert_by-IsByTime a bs h.1,
  )
  | inr first ↦ rw first ((ground arith, All-after a b bs (ground arith) h.0), h)
]

pub sort_transactions-IsByTime : (ts : List IndexedTransaction) → IsByTime (sort_transactions ts)
unfolding sort_by
sort_transactions-IsByTime [] = tt
sort_transactions-IsByTime (a ∷ ts) =
    insert_by-IsByTime a (sort_transactions ts) (sort_transactions-IsByTime ts)
