-- ===== src/Base/Sorting.antt =====
-- A list that is sorted by a strict order: what it keeps under a filter, and what comes after one of its elements.
use sumweave.Base.Lists.{All, All-take, keep, length, take, insert_by, sort_by}
use Prim.Native.Nat.{ℕ, zero, suc, ◌+◌}
use mathlib.Core.Path.{◌≡◌, refl, sym, ap, ◌∙◌, subst}
use mathlib.Core.Bool.{Bool, true, false, ◌||◌}
use mathlib.Core.Logic.{inl, inr}
use mathlib.Core.Option.{Option, none, some}
use mathlib.Core.List.{List, [], ◌∷◌, ◌++◌}
use native.Mathlib.Omega.{arith}
use sumweave.Base.Tests.{Bool-cases, if◌then◌else◌}

module _ {ℓ} {A : Type ℓ} where
  abbrev pub drop : ℕ → List A → List A
  drop zero xs = xs
  drop (suc n) [] = []
  drop (suc n) (x ∷ xs) = drop n xs

  abbrev pub last_of : List A → Option A
  last_of [] = none
  last_of (x ∷ []) = some x
  last_of (x ∷ y ∷ ys) = last_of (y ∷ ys)

  take_nil : (n : ℕ) → take {A = A} n [] ≡ []
  take_nil zero = refl
  take_nil (suc n) = refl

  pub take-drop : (n m : ℕ) (xs : List A) → take n xs ++ take m (drop n xs) ≡ take (n + m) xs
  take-drop zero m xs = let same : m ≡ 0 + m = omega arith in ap (λ k. take k xs) same
  take-drop (suc n) m [] = take_nil m ∙ sym (take_nil (suc n + m))
  take-drop (suc n) m (x ∷ xs) =
      let same : suc (n + m) ≡ suc n + m = omega arith in
      ap (λ ys. x ∷ ys) (take-drop n m xs) ∙ ap (λ k. take k (x ∷ xs)) same

pub record IsStrictOrder {ℓ} {A : Type ℓ} (before : A → A → Bool) : Type ℓ where
  pub irreflexive : (a : A) → before a a ≡ false
  pub transitive : (a b c : A) → before a b ≡ true → before b c ≡ true → before a c ≡ true

module _ {ℓ κ} {A : Type ℓ} (P : A → Type κ) where
  pub All-last_of : (xs : List A) (l : A) → All P xs → last_of xs ≡ some l → P l
  All-last_of [] l all e = cc
  All-last_of (x ∷ []) l all e = let same : x ≡ l = cc in subst P same all.0
  All-last_of (x ∷ y ∷ ys) l all e = All-last_of (y ∷ ys) l all.1 e

  pub All-kept : (p : A → Bool) (xs : List A) → All P xs → All P (keep p xs)
  All-kept p [] all = tt
  All-kept p (x ∷ xs) all = elim (Bool-cases (p x)) [
    | inl h ↦ rw h (all.0, All-kept p xs all.1)
    | inr h ↦ rw h (All-kept p xs all.1)
  ]

  module _ (before : A → A → Bool) where
    pub insert_by-All : (a : A) (bs : List A) → P a → All P bs → All P (insert_by before a bs)
    unfolding insert_by
    insert_by-All a [] p all = (p, tt)
    insert_by-All a (b ∷ bs) p all = elim (Bool-cases (before b a)) [
      | inl later ↦ rw later (all.0, insert_by-All a bs p all.1)
      | inr here ↦ rw here (p, all)
    ]

    pub sort_by-All : (xs : List A) → All P xs → All P (sort_by before xs)
    unfolding sort_by
    sort_by-All [] all = tt
    sort_by-All (a ∷ xs) all = insert_by-All a (sort_by before xs) all.0 (sort_by-All xs all.1)

-- Sorting leaves the number of elements that pass a test.
module _ {ℓ} {A : Type ℓ} (before : A → A → Bool) where
  length-keep-insert_by :
      (p : A → Bool) (a : A) (xs : List A)
      → length (keep p (insert_by before a xs)) ≡ length (keep p (a ∷ xs))
  unfolding insert_by
  length-keep-insert_by p a [] = refl
  length-keep-insert_by p a (x ∷ xs) = ground (arith, length-keep-insert_by p a xs)

  pub length-keep-sort_by :
      (p : A → Bool) (xs : List A) → length (keep p (sort_by before xs)) ≡ length (keep p xs)
  unfolding sort_by
  length-keep-sort_by p [] = refl
  length-keep-sort_by p (a ∷ xs) =
      length-keep-insert_by p a (sort_by before xs) ∙ ground (arith, length-keep-sort_by p xs)

  length-insert_by : (a : A) (xs : List A) → length (insert_by before a xs) ≡ suc (length xs)
  unfolding insert_by
  length-insert_by a [] = refl
  length-insert_by a (x ∷ xs) = ground (arith, length-insert_by a xs)

  pub length-sort_by : (xs : List A) → length (sort_by before xs) ≡ length xs
  unfolding sort_by
  length-sort_by [] = refl
  length-sort_by (a ∷ xs) = length-insert_by a (sort_by before xs) ∙ ap suc (length-sort_by xs)

module _ {ℓ} {A : Type ℓ} (before : A → A → Bool) where
  -- Every two elements are in the order one way or the other.
  abbrev pub AreComparable : List A → Type 0
  AreComparable [] = Unit
  AreComparable (x ∷ xs) = All (λ y. (before x y || before y x) ≡ true) xs × AreComparable xs

  abbrev pub IsSorted : List A → Type 0
  IsSorted [] = Unit
  IsSorted (x ∷ xs) = All (λ y. before x y ≡ true) xs × IsSorted xs

  module _ (order : IsStrictOrder before) where
    open order use {irreflexive, transitive}

    All-before :
        (a b : A) (xs : List A)
        → before a b ≡ true
        → All (λ y. before b y ≡ true) xs
        → All (λ y. before a y ≡ true) xs
    All-before a b [] h all = tt
    All-before a b (x ∷ xs) h all = (transitive a b x h all.0, All-before a b xs h all.1)

    insert_by-IsSorted :
        (a : A) (bs : List A)
        → All (λ y. (before a y || before y a) ≡ true) bs
        → IsSorted bs
        → IsSorted (insert_by before a bs)
    unfolding insert_by
    insert_by-IsSorted a [] c s = (tt, tt)
    insert_by-IsSorted a (b ∷ bs) c s = elim (Bool-cases (before b a)) [
      | inl later ↦ rw later (
        insert_by-All (λ y. before b y ≡ true) before a bs later s.0,
        insert_by-IsSorted a bs c.1 s.1,
      )
      | inr here ↦
          let first : before a b ≡ true = ground (arith, c.0) in
          rw here ((first, All-before a b bs first s.0), s)
    ]

    pub sort_by-IsSorted : (xs : List A) → AreComparable xs → IsSorted (sort_by before xs)
    unfolding sort_by
    sort_by-IsSorted [] c = tt
    sort_by-IsSorted (a ∷ xs) c =
        insert_by-IsSorted a (sort_by before xs)
          (sort_by-All (λ y. (before a y || before y a) ≡ true) before xs c.0)
          (sort_by-IsSorted xs c.1)

    -- An element goes in front where it is before all.
    insert_by_front :
        (a : A) (bs : List A) → All (λ y. before a y ≡ true) bs → insert_by before a bs ≡ a ∷ bs
    unfolding insert_by
    insert_by_front a [] all = refl
    insert_by_front a (b ∷ bs) all = elim (Bool-cases (before b a)) [
      | inl later ↦ let round = transitive a b a all.0 later in let never = irreflexive a in cc
      | inr here ↦ rw here refl
    ]

    keep-insert_by :
        (q : A → Bool) (a : A) (bs : List A)
        → All (λ y. (before a y || before y a) ≡ true) bs
        → IsSorted bs
        → keep q (insert_by before a bs)
          ≡ (if q a then insert_by before a (keep q bs) else keep q bs)
    unfolding insert_by
    keep-insert_by q a [] c s = refl
    keep-insert_by q a (b ∷ bs) c s = elim (Bool-cases (before b a)) [
      | inl later ↦ let rest = keep-insert_by q a bs c.1 s.1 in ground arith
      | inr here ↦
          let first : before a b ≡ true = ground (arith, c.0) in
          let front =
            insert_by_front a (keep q (b ∷ bs))
              (All-kept (λ y. before a y ≡ true) q (b ∷ bs) (first, All-before a b bs first s.0)) in
          rw here
            (elim (Bool-cases (q a)) [ inl in_it ↦ rw in_it (sym front) | inr out ↦ rw out refl ])
    ]

    -- A filter does not care about the order.
    pub keep-sort_by :
        (q : A → Bool) (xs : List A)
        → AreComparable xs
        → keep q (sort_by before xs) ≡ sort_by before (keep q xs)
    unfolding sort_by
    keep-sort_by q [] c = refl
    keep-sort_by q (a ∷ xs) c =
        keep-insert_by q a (sort_by before xs)
          (sort_by-All (λ y. (before a y || before y a) ≡ true) before xs c.0)
          (sort_by-IsSorted xs c.1)
        ∙ elim (Bool-cases (q a)) [
          | inl in_it ↦ rw in_it (ap (insert_by before a) (keep-sort_by q xs c.1))
          | inr out ↦ rw out (keep-sort_by q xs c.1)
        ]

    keep_later : (l : A) (xs : List A) → All (λ y. before l y ≡ true) xs → keep (before l) xs ≡ xs
    keep_later l [] all = refl
    keep_later l (x ∷ xs) all = rw all.0 (ap (λ ys. x ∷ ys) (keep_later l xs all.1))

    -- After the last of the first n come the others.
    pub keep_after :
        (n : ℕ) (xs : List A) (l : A)
        → IsSorted xs
        → last_of (take n xs) ≡ some l
        → keep (before l) xs ≡ drop n xs
    keep_after zero xs l s e = cc
    keep_after (suc n) [] l s e = cc
    keep_after (suc zero) (x ∷ xs) l s e =
        let same : x ≡ l = cc in
        subst (λ k. keep (before k) (x ∷ xs) ≡ xs) same (rw (irreflexive x) (keep_later x xs s.0))
    keep_after (suc (suc n)) (x ∷ []) l s e =
        let same : x ≡ l = cc in
        subst (λ k. keep (before k) (x ∷ []) ≡ []) same (rw (irreflexive x) refl)
    keep_after (suc (suc n)) (x ∷ y ∷ ys) l s e =
        let first =
          All-last_of (λ z. before x z ≡ true) (take (suc n) (y ∷ ys)) l
            (All-take (λ z. before x z ≡ true) (suc n) (y ∷ ys) s.0) e in
        elim (Bool-cases (before l x)) [
          | inl later ↦ let round = transitive x l x first later in let never = irreflexive x in cc
          | inr out ↦ rw out (keep_after (suc n) (y ∷ ys) l s.1 e)
        ]
