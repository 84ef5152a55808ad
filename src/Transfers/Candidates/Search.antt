-- ===== src/Transfers/Candidates/Search.antt =====
-- What one search finds in a bucket that is in the order of time.
use sumweave.Base.{
  ℕ, ◌≤◌, ◌<◌, ◌≡◌, refl, sym, ap, ◌∙◌, inl, inr, Bool, true, false, List, [], ◌∷◌, ◌&&◌, not, ltb,
  leb, arith, take, keep, All, Bool-cases,
}
use sumweave.Transfers.Types.{Time, IndexedTransaction}
use sumweave.Transfers.Index.Buckets.{IsByTime}
use sumweave.Base.Sorting.{All-kept}
use sumweave.Transfers.Candidates.{search_from, scan, window_start, window_end}

keep_none :
    (p : IndexedTransaction → Bool) (cs : List IndexedTransaction)
    → All (λ c. p c ≡ false) cs
    → keep p cs ≡ []
keep_none p [] all = refl
keep_none p (c ∷ cs) all = ground (arith, keep_none p cs)

abbrev until : Time → (IndexedTransaction → Bool) → IndexedTransaction → Bool
until end accepts c = leb c.transaction.effective_at end && accepts c

late :
    (end : Time) (accepts : IndexedTransaction → Bool) (c : IndexedTransaction)
    (cs : List IndexedTransaction)
    → end < c.transaction.effective_at
    → All (λ d. c.transaction.effective_at ≤ d.transaction.effective_at) cs
    → All (λ d. until end accepts d ≡ false) cs
late end accepts c [] h all = tt
late end accepts c (d ∷ cs) h all = (ground (arith, all.0), late end accepts c cs h all.1)

-- What is behind the window ends the loop, and holds no more candidates.
scan_late :
    (end : Time) (accepts : IndexedTransaction → Bool) (n : ℕ) (c : IndexedTransaction)
    (cs : List IndexedTransaction)
    → IsByTime (c ∷ cs)
    → ltb end c.transaction.effective_at ≡ true
    → (scan end accepts n (c ∷ cs) ≡ []) × (keep (until end accepts) (c ∷ cs) ≡ [])
unfolding scan
scan_late end accepts n c cs s h = (
  ground arith,
  keep_none (until end accepts) (c ∷ cs) (ground arith, late end accepts c cs (ground arith) s.0),
)

scan_second :
    (end : Time) (accepts : IndexedTransaction → Bool) (cs : List IndexedTransaction)
    → IsByTime cs
    → scan end accepts 1 cs ≡ take 1 (keep (until end accepts) cs)
unfolding scan
scan_second end accepts [] s = refl
scan_second end accepts (c ∷ cs) s = elim (Bool-cases (ltb end c.transaction.effective_at)) [
  | inl behind ↦ let (a, b) = scan_late end accepts 1 c cs s behind in a ∙ sym (ap (take 1) b)
  | inr within ↦ ground (arith, scan_second end accepts cs s.1)
]

-- The loop with its break takes the first two.
scan_first :
    (end : Time) (accepts : IndexedTransaction → Bool) (cs : List IndexedTransaction)
    → IsByTime cs
    → scan end accepts 0 cs ≡ take 2 (keep (until end accepts) cs)
unfolding scan
scan_first end accepts [] s = refl
scan_first end accepts (c ∷ cs) s = elim (Bool-cases (ltb end c.transaction.effective_at)) [
  | inl behind ↦ let (a, b) = scan_late end accepts 0 c cs s behind in a ∙ sym (ap (take 2) b)
  | inr within ↦ ground (arith, scan_first end accepts cs s.1, scan_second end accepts cs s.1)
]

abbrev from : Time → IndexedTransaction → Bool
from start c = leb start c.transaction.effective_at

early :
    (start : Time) (c : IndexedTransaction) (cs : List IndexedTransaction)
    → start ≤ c.transaction.effective_at
    → All (λ d. c.transaction.effective_at ≤ d.transaction.effective_at) cs
    → keep (from start) cs ≡ cs
early start c [] h all = refl
early start c (d ∷ cs) h all = ground (arith, early start c cs, all.0)

search_from-keep :
    (start : Time) (cs : List IndexedTransaction)
    → IsByTime cs
    → search_from start cs ≡ keep (from start) cs
unfolding search_from
search_from-keep start [] s = refl
search_from-keep start (c ∷ cs) s = elim (Bool-cases (ltb c.transaction.effective_at start)) [
  | inl before ↦ ground (arith, search_from-keep start cs s.1)
  | inr there ↦ ground (arith, early start c cs (ground arith) s.0)
]

keep-keep :
    (p q r : IndexedTransaction → Bool) (cs : List IndexedTransaction)
    → ((c : IndexedTransaction) → r c ≡ (q c && p c))
    → keep p (keep q cs) ≡ keep r cs
keep-keep p q r [] e = refl
keep-keep p q r (c ∷ cs) e = ground (arith, e c, keep-keep p q r cs e)

keep-IsByTime :
    (p : IndexedTransaction → Bool) (cs : List IndexedTransaction)
    → IsByTime cs
    → IsByTime (keep p cs)
keep-IsByTime p [] s = tt
keep-IsByTime p (c ∷ cs) s = elim (Bool-cases (p c)) [
  | inl h ↦ rw h (
    All-kept (λ d. c.transaction.effective_at ≤ d.transaction.effective_at) p cs s.0,
    keep-IsByTime p cs s.1,
  )
  | inr h ↦ rw h (keep-IsByTime p cs s.1)
]

same_keep :
    (p q : IndexedTransaction → Bool) (cs : List IndexedTransaction)
    → ((c : IndexedTransaction) → p c ≡ q c)
    → keep p cs ≡ keep q cs
same_keep p q [] e = refl
same_keep p q (c ∷ cs) e = ground (arith, e c, same_keep p q cs e)

-- What a search finds: the first two transactions of the bucket that lie in the window and are
-- accepted.
unfoldable pub first_two :
    (IndexedTransaction → Bool)
    → IndexedTransaction
    → List IndexedTransaction
    → List IndexedTransaction
first_two accepts t bucket = take 2 (
    keep (λ c. leb (window_start t) c.transaction.effective_at && until (window_end t) accepts c)
      bucket)

pub scan-search_from :
    (accepts : IndexedTransaction → Bool) (t : IndexedTransaction)
    (bucket : List IndexedTransaction)
    → IsByTime bucket
    → scan (window_end t) accepts 0 (search_from (window_start t) bucket)
      ≡ first_two accepts t bucket
unfolding first_two
scan-search_from accepts t bucket s =
    ap (scan (window_end t) accepts 0) (search_from-keep (window_start t) bucket s)
    ∙ scan_first (window_end t) accepts (keep (from (window_start t)) bucket)
        (keep-IsByTime (from (window_start t)) bucket s)
    ∙ ap (take 2)
        (keep-keep (until (window_end t) accepts) (from (window_start t)) _ bucket (λ c. refl))

-- The search by rate tests the window's start for each transaction.
pub scan_whole :
    (accepts : IndexedTransaction → Bool) (t : IndexedTransaction)
    (bucket : List IndexedTransaction)
    → IsByTime bucket
    → scan
        (window_end t)
        (λ c. not (ltb c.transaction.effective_at (window_start t)) && accepts c)
        0
        bucket
      ≡ first_two accepts t bucket
unfolding first_two
scan_whole accepts t bucket s =
    scan_first (window_end t)
      (λ c. not (ltb c.transaction.effective_at (window_start t)) && accepts c) bucket s
    ∙ ap (take 2) (same_keep _ _ bucket (λ c. ground arith))
