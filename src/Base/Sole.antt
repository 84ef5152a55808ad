-- ===== src/Base/Sole.antt =====
-- The only element of a list that passes a test, after a filter and a sort.
use mathlib.Core.Path.{◌≡◌, refl, sym, ap, ◌∙◌, subst}
use mathlib.Core.Bool.{Bool, true}
use mathlib.Core.Logic.{inl, inr}
use mathlib.Core.List.{List, [], ◌∷◌}
use native.Mathlib.Omega.{arith}
use sumweave.Base.Lists.{All, All-both, All-keep, All-map, keep, length, sort_by}
use sumweave.Base.Sorting.{All-kept, sort_by-All, length-keep-sort_by}
use sumweave.Base.Tests.{Bool-cases}

module _ {ℓ κ} {A : Type ℓ} (P : A → Type κ) where
  pub kept-All : (q : A → Bool) (xs : List A) → All P (keep q xs) → All (λ x. q x ≡ true → P x) xs
  kept-All q [] h = tt
  kept-All q (x ∷ xs) h = elim (Bool-cases (q x)) [
    | inl h1 ↦ let here = (rw h1 at h) in ((λ k. here.0), kept-All q xs here.1)
    | inr h1 ↦ let rest = (rw h1 at h) in ((λ k. cc), kept-All q xs rest)
  ]

module _ {ℓ} {A : Type ℓ} where
  pub keep-keep : (p q : A → Bool) (xs : List A) → keep q (keep p xs) ≡ keep p (keep q xs)
  keep-keep p q [] = refl
  keep-keep p q (x ∷ xs) = ground (arith, keep-keep p q xs)

  same_list :
      (m : A) (xs ys : List A)
      → All (λ x. x ≡ m) xs
      → All (λ x. x ≡ m) ys
      → length xs ≡ length ys
      → xs ≡ ys
  same_list m [] [] h k e = refl
  same_list m [] (y ∷ ys) h k e = ground arith
  same_list m (x ∷ xs) [] h k e = ground arith
  same_list m (x ∷ xs) (y ∷ ys) h k e =
      ap (λ z. z ∷ xs) (h.0 ∙ sym k.0)
      ∙ ap (λ zs. y ∷ zs) (same_list m xs ys h.1 k.1 (omega (arith, e)))

  -- Where one element passes a test, it passes it after a filter and a sort if it passes the filter.
  pub keep-sort_by_sole :
      (before : A → A → Bool) (p q : A → Bool) (xs : List A) (m : A)
      → keep q xs ≡ m ∷ []
      → keep q (sort_by before (keep p xs)) ≡ keep p (m ∷ [])
  keep-sort_by_sole before p q xs m e =
      let P : (A → Type ℓ) = λ x. q x ≡ true → x ≡ m in
      let sorted = sort_by before (keep p xs) in
      let all : All P xs =
        kept-All (λ x. x ≡ m) q xs (subst (All (λ x. x ≡ m)) (sym e) (refl, tt)) in
      let late : All P sorted = sort_by-All P before (keep p xs) (All-kept P p xs all) in
      same_list m (keep q sorted) (keep p (m ∷ []))
        (All-map (λ x. P x × (q x ≡ true)) (λ x. x ≡ m) (λ x h. h.0 h.1) (keep q sorted)
          (All-both P (λ x. q x ≡ true) (keep q sorted) (All-kept P q sorted late)
            (All-keep q sorted)))
        (All-kept (λ x. x ≡ m) p (m ∷ []) (refl, tt))
        (length-keep-sort_by before q (keep p xs) ∙ ap length (keep-keep p q xs ∙ ap (keep p) e))
