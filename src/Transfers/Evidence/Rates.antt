-- ===== src/Transfers/Evidence/Rates.antt =====
-- The value that `normalizeFXRate` keeps: the rate's digits over a power of ten.
use sumweave.Base.{
  ℕ, zero, suc, ◌+◌, ◌-◌, ◌*◌, ◌^◌, ◌≤◌, ◌≡◌, refl, sym, ap, ◌∙◌, inl, inr, true, false, some, [],
  ◌∷◌, ◌++◌, ◌==◌, arith, length, All, Bool-cases,
}
use mathlib.Core.List.{reverse, reverse-reverse, reverse-append}
use native.Mathlib.Numerals.{unary_clauses}
use sumweave.Base.Text.{Str, is_empty}
use sumweave.Transfers.Evidence.Fx.{
  is_digit, cut_at, contains_separator, trim_left_zeros, drop_zeros, normalize_fx_rate,
}

abbrev pub AreDigits : Str → Type 0
AreDigits s = All (λ b. is_digit b ≡ true) s

-- The number that digits write, behind others of the value `acc`.
unfoldable pub decimal : Str → ℕ → ℕ
decimal [] acc = acc
decimal (b ∷ s) acc = decimal s (acc * 10 + (b - b'0'))

-- The same, of digits that are read backwards.
backwards : Str → ℕ
backwards [] = 0
backwards (b ∷ s) = backwards s * 10 + (b - b'0')

decimal-append : (s t : Str) (acc : ℕ) → decimal (s ++ t) acc ≡ decimal t (decimal s acc)
unfolding decimal
decimal-append [] t acc = refl
decimal-append (b ∷ s) t acc = decimal-append s t (acc * 10 + (b - b'0'))

decimal-reverse : (s : Str) → decimal (reverse s) 0 ≡ backwards s
unfolding decimal backwards
decimal-reverse [] = refl
decimal-reverse (b ∷ s) =
    ap (λ t. decimal t 0) (reverse-append (b ∷ []) s)
    ∙ decimal-append (reverse s) (b ∷ []) 0
    ∙ ap (λ n. n * 10 + (b - b'0')) (decimal-reverse s)

decimal-trim_left_zeros : (s : Str) → decimal (trim_left_zeros s) 0 ≡ decimal s 0
unfolding decimal trim_left_zeros
decimal-trim_left_zeros [] = refl
decimal-trim_left_zeros (b ∷ s) = elim (Bool-cases (b == b'0')) [
  | inr other ↦ rw other refl
  | inl zero_digit ↦ rw zero_digit (decimal-trim_left_zeros s ∙ ap (decimal s) (ground arith))
]

pow_ten : (n : ℕ) → 10 ^ suc n ≡ 10 ^ n * 10
pow_ten n = simp unary_clauses (omega arith)

-- The trailing zeros that are dropped are those that the scale loses.
backwards-drop_zeros :
    (scale : ℕ) (s : Str)
    → backwards s * 10 ^ (drop_zeros scale s).1 ≡ backwards (drop_zeros scale s).0 * 10 ^ scale
unfolding drop_zeros backwards
backwards-drop_zeros zero s = refl
backwards-drop_zeros (suc scale) [] = omega arith
backwards-drop_zeros (suc scale) (b ∷ s) = elim (Bool-cases (b == b'0')) [
  | inr other ↦ rw other refl
  | inl zero_digit ↦
      let ih = backwards-drop_zeros scale s in
      let p = 10 ^ (drop_zeros scale s).1 in
      rw zero_digit (
        ap (λ n. n * p) (ground arith)
        ∙ grow (backwards s) p
        ∙ ap (λ n. n * 10) ih
        ∙ shift (backwards (drop_zeros scale s).0) (10 ^ scale)
        ∙ ap (λ n. backwards (drop_zeros scale s).0 * n) (sym (pow_ten scale)))
]
  where
    grow : (a p : ℕ) → a * 10 * p ≡ a * p * 10
    grow a p = omega arith

    shift : (a p : ℕ) → a * p * 10 ≡ a * (p * 10)
    shift a p = omega arith

contains_separator-AreDigits : (s : Str) → AreDigits s → contains_separator s ≡ false
unfolding contains_separator
contains_separator-AreDigits [] h = refl
contains_separator-AreDigits (b ∷ s) h = ground (arith, h.0, contains_separator-AreDigits s h.1)

cut_at-AreDigits :
    (whole fraction : Str)
    → AreDigits whole
    → cut_at b'.' (whole ++ (b'.' ∷ fraction)) ≡ some (whole, fraction)
unfolding cut_at
cut_at-AreDigits [] fraction h = refl
cut_at-AreDigits (b ∷ s) fraction h = ground (arith, h.0, cut_at-AreDigits s fraction h.1)

-- What is left of a rate of digits with a point: the coefficient and the scale.
abbrev pub coefficient_of : Str → Str → Str
coefficient_of whole fraction =
    reverse (drop_zeros (length fraction) (reverse (trim_left_zeros (whole ++ fraction)))).0

abbrev pub scale_of : Str → Str → ℕ
scale_of whole fraction =
    (drop_zeros (length fraction) (reverse (trim_left_zeros (whole ++ fraction)))).1

positive_trimmed : (s : Str) → 1 ≤ decimal s 0 → is_empty (trim_left_zeros s) ≡ false
unfolding decimal
positive_trimmed s h = elim (Bool-cases (is_empty (trim_left_zeros s))) [
  | inr e ↦ e
  | inl e ↦ none_left (trim_left_zeros s) e (decimal-trim_left_zeros s) h
]
  where
    none_left :
        (t : Str)
        → is_empty t ≡ true
        → decimal t 0 ≡ decimal s 0
        → 1 ≤ decimal s 0
        → is_empty t ≡ false
    none_left (b ∷ t) e v k = refl
    none_left [] e v k = ground (arith, v, k)

pub normalize_fx_rate_point :
    (whole fraction : Str)
    → AreDigits whole
    → AreDigits fraction
    → 1 ≤ decimal (whole ++ fraction) 0
    → normalize_fx_rate (whole ++ (b'.' ∷ fraction))
      ≡ some (coefficient_of whole fraction, scale_of whole fraction)
unfolding normalize_fx_rate
normalize_fx_rate_point whole fraction h k positive =
    rw
      (
        cut_at-AreDigits whole fraction h,
        contains_separator-AreDigits whole h,
        contains_separator-AreDigits fraction k,
        positive_trimmed (whole ++ fraction) positive,
      )
      refl

-- The coefficient over its power of ten is the rate.
pub coefficient_of_value :
    (whole fraction : Str)
    → decimal (coefficient_of whole fraction) 0 * 10 ^ length fraction
      ≡ decimal (whole ++ fraction) 0 * 10 ^ scale_of whole fraction
coefficient_of_value whole fraction =
    let trimmed = trim_left_zeros (whole ++ fraction) in
    let dropped = drop_zeros (length fraction) (reverse trimmed) in
    ap (λ n. n * 10 ^ length fraction) (decimal-reverse dropped.0)
    ∙ sym (backwards-drop_zeros (length fraction) (reverse trimmed))
    ∙ ap (λ n. n * 10 ^ dropped.1)
        (sym (decimal-reverse (reverse trimmed))
          ∙ ap (λ t. decimal t 0) (reverse-reverse trimmed)
          ∙ decimal-trim_left_zeros (whole ++ fraction))
