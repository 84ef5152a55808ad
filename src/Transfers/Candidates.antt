-- ===== src/Transfers/Candidates.antt =====
-- The counterparts of a transaction: `transferMatchingCandidates` and the four searches of
-- finance/service_transfer_matching.go. `sort.Search` finds the first place of the bucket at which
-- the time is not before the window's start, since a bucket is in the order of time.
pub mod Search
pub mod Searches
pub mod Reference
use sumweave.Base.{
  ℕ, suc, ◌+◌, ◌-◌, ◌<◌, Bool, true, false, Option, none, some, List, [], ◌∷◌, ◌++◌, ◌&&◌, ◌||◌,
  not, ◌==◌, ltb, leb, if◌then◌else◌, length,
}
use sumweave.Base.Text.{Str, str_eq}
use sumweave.Base.Int.{ℤ, ◌==ℤ◌}
use sumweave.Transfers.Types.{
  Time, TransferMatchingTransaction, IndexedTransaction, FxEvidence, MonobankEvidence, PkoEvidence,
  min_int64, negate, transfer_matching_window, transfer_matching_max_candidates,
}
use sumweave.Transfers.Fx.{Currencies, fx_conversion_matches}
use sumweave.Transfers.Index.{
  AmountKey, FxKey, MonobankKey, PkoKey, amount_key_eq, fx_key_eq, monobank_key_eq, pko_key_eq,
  fx_key_for, pko_key_for, bucket, Indexes,
}

abbrev pub window_start : IndexedTransaction → Time
window_start t = t.transaction.effective_at - transfer_matching_window

abbrev pub window_end : IndexedTransaction → Time
window_end t = t.transaction.effective_at + transfer_matching_window

-- What follows the place that `sort.Search` finds.
unfoldable pub search_from : Time → List IndexedTransaction → List IndexedTransaction
search_from start [] = []
search_from start (c ∷ cs) =
    let rest = search_from start cs in if ltb c.transaction.effective_at start then rest else c ∷ cs

-- The loop over the candidates: it breaks behind the window and at the second candidate that
-- passes. `n` candidates are there already.
unfoldable pub scan :
    Time → (IndexedTransaction → Bool) → ℕ → List IndexedTransaction → List IndexedTransaction
scan end accepts n [] = []
scan end accepts n (c ∷ cs) =
    let skipped = scan end accepts n cs in
    let taken = scan end accepts (n + 1) cs in
    if ltb end c.transaction.effective_at
    then []
    else if accepts c
    then if n + 1 == transfer_matching_max_candidates then c ∷ [] else c ∷ taken
    else skipped

abbrev pub same_id : IndexedTransaction → IndexedTransaction → Bool
same_id a b = str_eq a.transaction.id b.transaction.id

abbrev pub same_account : IndexedTransaction → IndexedTransaction → Bool
same_account a b = str_eq a.transaction.account_id b.transaction.account_id

abbrev pub accepts_same_currency : IndexedTransaction → IndexedTransaction → Bool
accepts_same_currency t c = not (same_account c t)

abbrev opposite_leg : ℤ → Str → Option MonobankEvidence → Bool
opposite_leg amount currency none = false
opposite_leg amount currency (some e) =
    str_eq e.operation_currency currency && e.operation_amount_minor ==ℤ negate amount

abbrev pub accepts_monobank : IndexedTransaction → IndexedTransaction → Bool
accepts_monobank t c =
    not (same_id c t)
    && not (same_account c t)
    && opposite_leg t.transaction.amount_minor t.transaction.currency c.monobank_evidence

abbrev other_direction : Option PkoEvidence → Option PkoEvidence → Bool
other_direction (some e) (some f) = not (str_eq e.direction f.direction)
other_direction e f = false

abbrev pub accepts_pko : IndexedTransaction → IndexedTransaction → Bool
accepts_pko t c =
    not (same_id c t)
    && not (same_account c t)
    && other_direction c.pko_evidence t.pko_evidence
    && not (str_eq c.transaction.currency t.transaction.currency)

unfoldable pub transfer_matching_same_currency_candidates :
    IndexedTransaction → Indexes → List IndexedTransaction
unfolding search_from scan
transfer_matching_same_currency_candidates t indexes =
    if t.transaction.amount_minor ==ℤ min_int64
    then []
    else scan (window_end t) (accepts_same_currency t) 0 (
        search_from (window_start t) (
          bucket amount_key_eq
            (record {
              currency = t.transaction.currency;
              amount = negate t.transaction.amount_minor;
            })
            indexes.by_amount))

abbrev counterpart_key :
    IndexedTransaction → Option MonobankEvidence → Option Str → Option MonobankKey
counterpart_key t (some e) (some connection) =
    if e.operation_amount_minor ==ℤ min_int64
    then none
    else if t.transaction.amount_minor ==ℤ min_int64
    then none
    else some (record {
      connection_id = connection;
      currency = e.operation_currency;
      amount = negate e.operation_amount_minor;
    })
counterpart_key t e connection = none

-- The key under which the other leg of a Monobank exchange stands.
abbrev pub monobank_counterpart_key : IndexedTransaction → Option MonobankKey
monobank_counterpart_key t = counterpart_key t t.monobank_evidence t.transaction.connection_id

unfoldable pub transfer_matching_monobank_candidates :
    IndexedTransaction → Indexes → List IndexedTransaction
unfolding search_from scan
transfer_matching_monobank_candidates t indexes = elim (monobank_counterpart_key t) [
  | none ↦ []
  | some key ↦
      scan (window_end t) (accepts_monobank t) 0
        (search_from (window_start t) (bucket monobank_key_eq key indexes.by_monobank))
]

unfoldable pub transfer_matching_pko_candidates :
    IndexedTransaction → Indexes → List IndexedTransaction
unfolding search_from scan
transfer_matching_pko_candidates t indexes = elim (pko_key_for t) [
  | none ↦ []
  | some key ↦
      scan (window_end t) (accepts_pko t) 0
        (search_from (window_start t) (bucket pko_key_eq key indexes.by_pko))
]

module _ (currencies : Currencies) where
  abbrev converts : IndexedTransaction → IndexedTransaction → Option FxEvidence → Bool
  converts t c none = false
  converts t c (some e) =
      fx_conversion_matches currencies e t.transaction.currency t.transaction.amount_minor
        c.transaction.currency c.transaction.amount_minor

  abbrev pub accepts_fx : IndexedTransaction → IndexedTransaction → Bool
  accepts_fx t c = not (same_account c t || same_id c t) && converts t c t.evidence

  -- This search walks over what is before the window.
  unfoldable pub transfer_matching_fx_candidates :
      IndexedTransaction → Indexes → List IndexedTransaction
  unfolding scan
  transfer_matching_fx_candidates t indexes = elim (fx_key_for t) [
    | none ↦ []
    | some key ↦
        scan (window_end t)
          (λ c. not (ltb c.transaction.effective_at (window_start t)) && accepts_fx t c) 0
          (bucket fx_key_eq key indexes.by_fx)
  ]

  -- `candidateIDs` are the identifiers of the candidates.
  unfoldable pub is_candidate : IndexedTransaction → List IndexedTransaction → Bool
  is_candidate c [] = false
  is_candidate c (x ∷ xs) = same_id x c || is_candidate c xs

  abbrev pub add_candidate :
      IndexedTransaction → IndexedTransaction → List IndexedTransaction → List IndexedTransaction
  add_candidate t c candidates =
      if same_id c t
      then candidates
      else if is_candidate c candidates
      then candidates
      else candidates ++ (c ∷ [])

  abbrev pub is_full : List IndexedTransaction → Bool
  is_full candidates = length candidates == transfer_matching_max_candidates

  -- `slices.ContainsFunc(found, addCandidate)`, with what it leaves in the candidates.
  unfoldable pub add_candidates :
      IndexedTransaction
      → List IndexedTransaction
      → List IndexedTransaction
      → List IndexedTransaction
  add_candidates t [] candidates = candidates
  add_candidates t (c ∷ cs) candidates =
      let more = add_candidate t c candidates in
      let rest = add_candidates t cs more in if is_full more then more else rest

  -- Each source is asked only while there are less than two candidates.
  abbrev pub add_source :
      IndexedTransaction
      → List IndexedTransaction
      → List IndexedTransaction
      → List IndexedTransaction
  add_source t found candidates =
      if is_full candidates then candidates else add_candidates t found candidates

  unfoldable pub transfer_matching_candidates :
      IndexedTransaction → Indexes → List IndexedTransaction
  unfolding add_candidates
  transfer_matching_candidates t indexes =
      add_source t (transfer_matching_pko_candidates t indexes) (
        add_source t (transfer_matching_monobank_candidates t indexes) (
          add_source t (transfer_matching_fx_candidates t indexes)
            (add_source t (transfer_matching_same_currency_candidates t indexes) [])))
