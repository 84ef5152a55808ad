-- ===== src/Transfers/Evidence/Fx.antt =====
-- `extractFXEvidence` of finance/fx_evidence.go. The cursor is what is left of the description.
use sumweave.Base.{
  ℕ, zero, suc, Bool, true, false, Option, none, some, [], ◌∷◌, ◌++◌, ◌&&◌, ◌||◌, not, ◌==◌, leb,
  if◌then◌else◌, is_nil, length, ◌>>=◌, ◌>>◌, guard,
}
use mathlib.Core.List.{reverse}
use sumweave.Base.Text.{Str, str_eq, bytes, is_empty}
use sumweave.Transfers.Types.{FxEvidence}
use sumweave.Transfers.Fx.{Currencies}

abbrev pub is_digit : ℕ → Bool
is_digit b = leb b'0' b && leb b b'9'

abbrev pub is_upper : ℕ → Bool
is_upper b = leb b'A' b && leb b b'Z'

unfoldable pub consume_fx_literal : Str → Str → Option Str
consume_fx_literal [] s = some s
consume_fx_literal (a ∷ literal) [] = none
consume_fx_literal (a ∷ literal) (b ∷ s) =
    let rest = consume_fx_literal literal s in if b == a then rest else none

-- The digits in front, and the rest.
unfoldable pub fx_digits : Str → Str
fx_digits [] = []
fx_digits (b ∷ s) = let more = fx_digits s in if is_digit b then b ∷ more else []

unfoldable pub after_digits : Str → Str
after_digits [] = []
after_digits (b ∷ s) = let more = after_digits s in if is_digit b then more else b ∷ s

abbrev pub consume_fx_digits : Str → Option (Str × Str)
consume_fx_digits s = if is_empty (fx_digits s) then none else some (fx_digits s, after_digits s)

unfoldable pub consume_fx_currency : Str → Option (Str × Str)
consume_fx_currency (a ∷ b ∷ c ∷ s) =
    if is_upper a && is_upper b && is_upper c then some (a ∷ b ∷ c ∷ [], s) else none
consume_fx_currency s = none

-- The text of the rate, whether amounts follow, and the rest.
pub record FxRate : Type 0 where
  pub text : Str
  pub has_amounts : Bool
  pub rest : Str

-- The first four bytes of the fraction, where a digit follows them: the amounts are joined to the rate.
abbrev pub concatenated_rate : Str → ℕ → Str → Option FxRate
concatenated_rate whole separator (a ∷ b ∷ c ∷ d ∷ e ∷ s) =
    if is_digit e
    then some (record {
      text = whole ++ (separator ∷ a ∷ b ∷ c ∷ d ∷ []);
      has_amounts = true;
      rest = e ∷ s;
    })
    else none
concatenated_rate whole separator s = none

abbrev pub rate_fraction : Str → ℕ → Str → Option FxRate
rate_fraction whole separator s =
    if is_empty (fx_digits s)
    then none
    else if is_empty (after_digits s)
    then some (record { text = whole ++ (separator ∷ fx_digits s); has_amounts = false; rest = [] })
    else concatenated_rate whole separator s

abbrev pub after_whole : Str → Str → Option FxRate
after_whole whole [] = some (record { text = whole; has_amounts = false; rest = [] })
after_whole whole (b ∷ s) = if b == b'.' || b == b',' then rate_fraction whole b s else none

unfoldable pub consume_fx_rate : Str → Option FxRate
unfolding fx_digits after_digits
consume_fx_rate s =
    if is_empty (fx_digits s) then none else after_whole (fx_digits s) (after_digits s)

-- "\u00a0"
abbrev pub no_break_space : Str
no_break_space = 0xC2 ∷ 0xA0 ∷ []

abbrev starts_digit : Str → Bool
starts_digit [] = false
starts_digit (b ∷ s) = is_digit b

-- The groups of three digits behind no-break spaces.
unfoldable pub consume_groups : Str → Option Str
unfolding consume_fx_literal
consume_groups (a ∷ b ∷ c ∷ d ∷ e ∷ s) =
    let more = consume_groups s in
    if a == 0xC2 && b == 0xA0
    then (if is_digit c && is_digit d && is_digit e && not (starts_digit s) then more else none)
    else some (a ∷ b ∷ c ∷ d ∷ e ∷ s)
consume_groups s = elim (consume_fx_literal no_break_space s) [ none ↦ some s | some rest ↦ none ]

abbrev consume_sign : Bool → Str → Option Str
consume_sign true s = consume_fx_literal (b'-' ∷ []) s
consume_sign false s = some s

abbrev two_digits : Str × Str → Option Str
two_digits (digits, rest) = if length digits == 2 then some rest else none

unfoldable pub consume_fx_localized_amount : Bool → Str → Option Str
unfolding consume_groups fx_digits after_digits consume_fx_literal
consume_fx_localized_amount signed s = do
  start ← consume_sign signed s
  (digits, more) ← consume_fx_digits start
  guard (leb (length digits) 3)
  grouped ← consume_groups more
  fraction ← consume_fx_literal (b',' ∷ []) grouped
  pair ← consume_fx_digits fraction
  two_digits pair

-- `strings.Cut`
abbrev pub before_cut : ℕ → Option (Str × Str) → Option (Str × Str)
before_cut c none = none
before_cut c (some (before, after)) = some (c ∷ before, after)

unfoldable pub cut_at : ℕ → Str → Option (Str × Str)
cut_at b [] = none
cut_at b (c ∷ s) = let later = before_cut c (cut_at b s) in if c == b then some ([], s) else later

unfoldable pub contains_separator : Str → Bool
contains_separator [] = false
contains_separator (c ∷ s) = c == b'.' || c == b',' || contains_separator s

unfoldable pub trim_left_zeros : Str → Str
trim_left_zeros [] = []
trim_left_zeros (c ∷ s) = let rest = trim_left_zeros s in if c == b'0' then rest else c ∷ s

-- The loop over the trailing zeros of a coefficient that is read backwards.
unfoldable pub drop_zeros : ℕ → Str → Str × ℕ
drop_zeros zero s = (s, 0)
drop_zeros (suc scale) [] = ([], suc scale)
drop_zeros (suc scale) (c ∷ s) =
    let rest = drop_zeros scale s in if c == b'0' then rest else (c ∷ s, suc scale)

abbrev pub halves_of : Str → Option (Str × Str) → Option (Str × Str) → Str × Str
halves_of rate (some halves) comma = halves
halves_of rate none (some halves) = halves
halves_of rate none none = (rate, [])

abbrev pub reduced_rate : Str → Str → Option (Str × ℕ)
reduced_rate coefficient fraction =
    if is_empty coefficient
    then none
    else let (s, scale) = drop_zeros (length fraction) (reverse coefficient) in
      some (reverse s, scale)

abbrev pub normalize_halves : Str × Str → Option (Str × ℕ)
normalize_halves (whole, fraction) =
    if contains_separator whole || contains_separator fraction
    then none
    else reduced_rate (trim_left_zeros (whole ++ fraction)) fraction

unfoldable pub normalize_fx_rate : Str → Option (Str × ℕ)
unfolding cut_at contains_separator trim_left_zeros drop_zeros
normalize_fx_rate rate = normalize_halves (halves_of rate (cut_at b'.' rate) (cut_at b',' rate))

abbrev space : Str
space = b' ' ∷ []

abbrev consume_amounts : Str → Str → Bool → Str → Option Str
consume_amounts base quote false s = some s
consume_amounts base quote true s = do
  a ← consume_fx_localized_amount false s
  b ← consume_fx_literal space a
  c ← consume_fx_literal base b
  d ← consume_fx_literal space c
  e ← consume_fx_localized_amount true d
  f ← consume_fx_literal space e
  consume_fx_literal quote f

module _ (currencies : Currencies) where
  open currencies use {parse_currency}

  abbrev pub is_recognized_currency : Str → Bool
  is_recognized_currency code = not (is_nil (parse_currency code))

  unfoldable pub extract_fx_evidence : Str → Option FxEvidence
  unfolding consume_fx_literal fx_digits after_digits consume_fx_currency consume_fx_rate
      consume_fx_localized_amount normalize_fx_rate
  extract_fx_evidence description = do
    a ← consume_fx_literal (bytes "FX") description
    (reference, b) ← consume_fx_digits a
    c ← consume_fx_literal space b
    (base, d) ← consume_fx_currency c
    e ← consume_fx_literal (b'/' ∷ []) d
    (quote, f) ← consume_fx_currency e
    g ← consume_fx_literal space f
    guard (not (str_eq base quote))
    guard (is_recognized_currency base && is_recognized_currency quote)
    rate ← consume_fx_rate g
    h ← consume_amounts base quote rate.has_amounts rate.rest
    guard (is_empty h)
    (coefficient, scale) ← normalize_fx_rate rate.text
    some (record {
      namespace = bytes "FX";
      reference = reference;
      base_currency = base;
      quote_currency = quote;
      rate_coefficient = coefficient;
      rate_scale = scale;
    })
