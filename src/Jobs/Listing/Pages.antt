-- ===== src/Jobs/Listing/Pages.antt =====
-- That the pages of the list follow on each other.
use sumweave.Base.{
  ℕ, ◌≡◌, refl, sym, ap, ◌∙◌, inl, inr, Bool, true, false, none, some, [], ◌∷◌, ◌&&◌, ◌||◌, arith,
  All, All-keep, All-take, keep, take, sort_by, Bool-cases,
}
use sumweave.Base.Text.{str_eq_iff, Str, str_eq}
use sumweave.Base.Text.Order.{str_lt_irrefl, str_lt_trans, str_lt_total}
use sumweave.Base.Sorting.{
  drop, last_of, IsStrictOrder, AreComparable, All-last_of, All-kept, sort_by-All, sort_by-IsSorted,
  keep-sort_by, keep_after,
}
use sumweave.Jobs.Types.{Time}
use sumweave.Jobs.Table.{JobModel, Table, HasUniqueIds, find_row}
use sumweave.Jobs.Listing.{is_past, newest_first}

pub past_on :
    (at : Time) (id : Str) (a b : JobModel)
    → is_past at id a ≡ true
    → newest_first a b ≡ true
    → is_past at id b ≡ true
past_on at id a b h k = ground (arith, str_lt_trans b.id a.id id)

newest_first-IsStrictOrder : IsStrictOrder newest_first
newest_first-IsStrictOrder = record {
  irreflexive = λ a. ground (arith, str_lt_irrefl a.id);
  transitive = λ a b c h k. past_on a.created_at a.id b c h k;
}

find_row-comparable :
    (m : JobModel) (t : Table)
    → find_row m.id t ≡ none
    → All (λ k. (newest_first m k || newest_first k m) ≡ true) t
unfolding find_row
find_row-comparable m [] h = tt
find_row-comparable m (k ∷ t) h =
    let other : str_eq k.id m.id ≡ false = ground arith in
    let rest : find_row m.id t ≡ none = ground arith in
    (
      ground (arith, other, str_lt_total k.id m.id, str_eq_iff k.id m.id),
      find_row-comparable m t rest,
    )

HasUniqueIds-AreComparable : (t : Table) → HasUniqueIds t → AreComparable newest_first t
HasUniqueIds-AreComparable [] u = tt
HasUniqueIds-AreComparable (m ∷ t) u =
    (find_row-comparable m t u.0, HasUniqueIds-AreComparable t u.1)

kept-AreComparable :
    (p : JobModel → Bool) (t : Table)
    → AreComparable newest_first t
    → AreComparable newest_first (keep p t)
kept-AreComparable p [] c = tt
kept-AreComparable p (m ∷ t) c = elim (Bool-cases (p m)) [
  | inl h ↦ rw h (
    All-kept (λ k. (newest_first m k || newest_first k m) ≡ true) p t c.0,
    kept-AreComparable p t c.1,
  )
  | inr h ↦ rw h (kept-AreComparable p t c.1)
]

pub keep-cong :
    (p q : JobModel → Bool) (t : Table) → ((m : JobModel) → p m ≡ q m) → keep p t ≡ keep q t
keep-cong p q [] same = refl
keep-cong p q (m ∷ t) same = ground (arith, same m, keep-cong p q t same)

keep-keep : (p q : JobModel → Bool) (t : Table) → keep q (keep p t) ≡ keep (λ m. p m && q m) t
keep-keep p q [] = refl
keep-keep p q (m ∷ t) = ground (arith, keep-keep p q t)

-- The rows past the last one of a page are the rows that the page leaves.
pub rows_past :
    (p c : JobModel → Bool) (n : ℕ) (t : Table) (l : JobModel)
    → HasUniqueIds t
    → ((a b : JobModel) → c a ≡ true → newest_first a b ≡ true → c b ≡ true)
    → last_of (take n (sort_by newest_first (keep (λ m. p m && c m) t))) ≡ some l
    → sort_by newest_first (keep (λ m. p m && newest_first l m) t)
      ≡ drop n (sort_by newest_first (keep (λ m. p m && c m) t))
rows_past p c n t l u onward e =
    let both : (JobModel → Bool) = λ m. p m && c m in
    let kept = kept-AreComparable both t (HasUniqueIds-AreComparable t u) in
    let sorted = sort_by newest_first (keep both t) in
    let holds : both l ≡ true =
      All-last_of (λ m. both m ≡ true) (take n sorted) l
        (All-take (λ m. both m ≡ true) n sorted
          (sort_by-All (λ m. both m ≡ true) newest_first (keep both t) (All-keep both t)))
        e in
    let admitted : c l ≡ true = ground (arith, holds) in
    let same : ((m : JobModel) → (p m && newest_first l m) ≡ (both m && newest_first l m)) =
      λ m. ground (arith, onward l m admitted) in
    ap (sort_by newest_first) (
      keep-cong (λ m. p m && newest_first l m) (λ m. both m && newest_first l m) t same
      ∙ sym (keep-keep both (newest_first l) t))
    ∙ sym (keep-sort_by newest_first newest_first-IsStrictOrder (newest_first l) (keep both t) kept)
    ∙ keep_after newest_first newest_first-IsStrictOrder n sorted l
        (sort_by-IsSorted newest_first newest_first-IsStrictOrder (keep both t) kept) e
