-- ===== src/Transfers/Fx.antt =====
-- Whether the two legs of a conversion fit its rate: `fxConversionMatches` of finance/fx_evidence.go.
-- The currencies are those of golang.org/x/text/currency, a parameter.
use sumweave.Base.{
  ℕ, suc, ◌+◌, ◌-◌, ◌*◌, ◌/◌, ◌%◌, ◌^◌, Bool, false, Option, none, some, [], ◌∷◌, ◌&&◌, ◌||◌, ◌==◌,
  leb, if◌then◌else◌, is_nil,
}
use sumweave.Base.Text.{Str, str_eq}
use sumweave.Base.Int.{ℤ, pos, negsuc, ltb_ℤ, ◌==ℤ◌}
use sumweave.Transfers.Types.{FxEvidence, min_int64}

-- What `currency.ParseISO` and `currency.Standard.Rounding` answer: the scale of a code that is
-- recognised, other than XXX. A scale is negative for no currency of the library.
pub record Currencies : Type 0 where
  pub parse_currency : Str → Option ℕ

abbrev digit_value : ℕ → Option ℕ
digit_value b = if leb b'0' b && leb b b'9' then some (b - b'0') else none

unfoldable pub digits_value : Str → ℕ → Option ℕ
digits_value [] acc = some acc
digits_value (b ∷ s) acc = elim (digit_value b) [
  | none ↦ none
  | some d ↦ digits_value s (acc * 10 + d)
]

abbrev positive : Option ℕ → Option ℕ
positive none = none
positive (some n) = if n == 0 then none else some n

unfoldable pub positive_decimal_integer : Str → Option ℕ
positive_decimal_integer [] = none
positive_decimal_integer (b ∷ s) = positive (digits_value (b ∷ s) 0)

abbrev magnitude : ℤ → ℕ
magnitude (pos n) = n
magnitude (negsuc n) = suc n

abbrev pub positive_minor_magnitude : ℤ → Option ℕ
positive_minor_magnitude amount =
    if amount ==ℤ pos 0
    then none
    else if amount ==ℤ min_int64
    then none
    else some (magnitude amount)

-- The quotient of two integers, rounded to the nearest, halves upwards.
unfoldable pub rounded_quotient : ℕ → ℕ → ℕ
rounded_quotient numerator denominator =
    let quotient = numerator / denominator in
    if leb denominator ((numerator % denominator) * 2) then quotient + 1 else quotient

-- The quote amount that the base amount converts to.
unfoldable pub converted : ℕ → ℕ → ℕ → ℕ → ℕ → ℕ
unfolding rounded_quotient
converted base_magnitude rate_coefficient rate_scale base_scale quote_scale =
    rounded_quotient (base_magnitude * rate_coefficient * 10 ^ quote_scale)
      (10 ^ rate_scale * 10 ^ base_scale)

-- The magnitudes in the order base, quote; `none` if the currencies are not those of the evidence.
abbrev pub base_and_quote : FxEvidence → Str → ℕ → Str → ℕ → Option (ℕ × ℕ)
base_and_quote e first_currency first second_currency second =
    if str_eq first_currency e.base_currency && str_eq second_currency e.quote_currency
    then some (first, second)
    else if str_eq first_currency e.quote_currency && str_eq second_currency e.base_currency
    then some (second, first)
    else none

module _ (currencies : Currencies) where
  open currencies use {parse_currency}

  legs_match : FxEvidence → Option (ℕ × ℕ) → Option ℕ → Option ℕ → Option ℕ → Bool
  legs_match e (some (base, quote)) (some coefficient) (some base_scale) (some quote_scale) =
      converted base coefficient e.rate_scale base_scale quote_scale == quote
  legs_match e legs coefficient base_scale quote_scale = false

  abbrev both_legs : FxEvidence → Str → Option ℕ → Str → Option ℕ → Option (ℕ × ℕ)
  both_legs e c (some first) d (some second) = base_and_quote e c first d second
  both_legs e c first d second = none

  unfoldable pub fx_conversion_matches : FxEvidence → Str → ℤ → Str → ℤ → Bool
  unfolding legs_match
  fx_conversion_matches e first_currency first_amount second_currency second_amount =
      if str_eq e.base_currency e.quote_currency
        || is_nil (parse_currency e.base_currency)
        || is_nil (parse_currency e.quote_currency)
      then false
      else if ltb_ℤ first_amount (pos 0)
      then if ltb_ℤ second_amount (pos 0)
        then false
        else legs_match e
            (both_legs e first_currency (positive_minor_magnitude first_amount) second_currency
              (positive_minor_magnitude second_amount))
            (positive_decimal_integer e.rate_coefficient) (parse_currency e.base_currency)
            (parse_currency e.quote_currency)
      else if ltb_ℤ second_amount (pos 0)
      then legs_match e
          (both_legs e first_currency (positive_minor_magnitude first_amount) second_currency
            (positive_minor_magnitude second_amount))
          (positive_decimal_integer e.rate_coefficient) (parse_currency e.base_currency)
          (parse_currency e.quote_currency)
      else false
