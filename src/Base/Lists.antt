-- ===== src/Base/Lists.antt =====
-- Lists measured by native numbers, under the library's names.
use Prim.Native.Nat.{ℕ, zero, suc, ◌+◌, min}
use mathlib.Core.Path.{◌≡◌}
use mathlib.Core.Bool.{Bool, true}
use mathlib.Core.Logic.{inl, inr}
use mathlib.Core.List.{List, [], ◌∷◌, ◌++◌}
use native.Mathlib.Omega.{arith}
use sumweave.Base.Tests.{Bool-cases, if◌then◌else◌}

module _ {ℓ} {A : Type ℓ} where
  abbrev pub length : List A → ℕ
  length [] = 0
  length (x ∷ xs) = suc (length xs)

  abbrev pub take : ℕ → List A → List A
  take zero xs = []
  take (suc n) [] = []
  take (suc n) (x ∷ xs) = x ∷ take n xs

  pub length-append : (xs ys : List A) → length (xs ++ ys) ≡ length xs + length ys
  length-append [] ys = omega arith
  length-append (x ∷ xs) ys = omega (arith, length-append xs ys)

  pub length-take : (n : ℕ) (xs : List A) → length (take n xs) ≡ min n (length xs)
  length-take zero xs = omega arith
  length-take (suc n) [] = omega arith
  length-take (suc n) (x ∷ xs) = omega (arith, length-take n xs)

-- What a loop with `continue` collects: the elements that pass a test, in their order.
module _ {ℓ} {A : Type ℓ} where
  abbrev pub keep : (A → Bool) → List A → List A
  keep p [] = []
  keep p (x ∷ xs) = let rest = keep p xs in if p x then x ∷ rest else rest

module _ {ℓ κ} {A : Type ℓ} (P : A → Type κ) where
  abbrev pub All : List A → Type κ
  All [] = Unit
  All (x ∷ xs) = P x × All xs

  pub All-append : (xs ys : List A) → All xs → All ys → All (xs ++ ys)
  All-append [] ys h k = k
  All-append (x ∷ xs) ys h k = (h.0, All-append xs ys h.1 k)

module _ {ℓ} {A : Type ℓ} where
  pub All-keep : (p : A → Bool) (xs : List A) → All (λ x. p x ≡ true) (keep p xs)
  All-keep p [] = tt
  All-keep p (x ∷ xs) = elim (Bool-cases (p x)) [
    | inl h ↦ rw h (h, All-keep p xs)
    | inr h ↦ rw h (All-keep p xs)
  ]

-- What holds of the elements of a list holds of a part of it.
module _ {ℓ κ} {A : Type ℓ} (P : A → Type κ) where
  pub All-take : (n : ℕ) (xs : List A) → All P xs → All P (take n xs)
  All-take zero xs h = tt
  All-take (suc n) [] h = tt
  All-take (suc n) (x ∷ xs) h = (h.0, All-take n xs h.1)

module _ {ℓ κ μ} {A : Type ℓ} (P : A → Type κ) (Q : A → Type μ) (f : (x : A) → P x → Q x) where
  pub All-map : (xs : List A) → All P xs → All Q xs
  All-map [] h = tt
  All-map (x ∷ xs) h = (f x h.0, All-map xs h.1)

module _ {ℓ κ μ} {A : Type ℓ} (P : A → Type κ) (Q : A → Type μ) where
  pub All-both : (xs : List A) → All P xs → All Q xs → All (λ x. P x × Q x) xs
  All-both [] h k = tt
  All-both (x ∷ xs) h k = ((h.0, k.0), All-both xs h.1 k.1)

-- `sort.Slice`, by insertion: elements that are equal in the order stay as they stand.
module _ {ℓ} {A : Type ℓ} (before : A → A → Bool) where
  unfoldable pub insert_by : A → List A → List A
  insert_by a [] = a ∷ []
  insert_by a (b ∷ bs) = let rest = insert_by a bs in if before b a then b ∷ rest else a ∷ b ∷ bs

  unfoldable pub sort_by : List A → List A
  unfolding insert_by
  sort_by [] = []
  sort_by (a ∷ as') = insert_by a (sort_by as')
