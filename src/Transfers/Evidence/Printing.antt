-- ===== src/Transfers/Evidence/Printing.antt =====
-- Reading back a description that is written in the format of `extractFXEvidence`.
use sumweave.Base.{
  ◌*◌, ◌^◌, ◌≤◌, ◌≡◌, refl, sym, ap, ◌∙◌, Bool, true, false, some, [], ◌∷◌, ◌++◌, ◌&&◌, arith,
  length, append-nil,
}
use sumweave.Base.Text.{Str, is_empty, bytes, str_eq}
use sumweave.Transfers.Types.{FxEvidence}
use sumweave.Transfers.Fx.{Currencies}
use sumweave.Transfers.Evidence.Fx.{
  is_digit, is_upper, consume_fx_literal, fx_digits, after_digits, consume_fx_digits,
  consume_fx_currency, consume_fx_rate, is_recognized_currency, extract_fx_evidence,
}
use sumweave.Transfers.Evidence.Rates.{
  AreDigits, decimal, coefficient_of, scale_of, normalize_fx_rate_point, coefficient_of_value,
}

-- Three upper-case letters.
abbrev pub is_code : Str → Bool
is_code (a ∷ b ∷ c ∷ []) = is_upper a && is_upper b && is_upper c
is_code s = false

abbrev starts_with_digit : Str → Bool
starts_with_digit [] = false
starts_with_digit (b ∷ s) = is_digit b

fx_digits-append :
    (s t : Str)
    → AreDigits s
    → starts_with_digit t ≡ false
    → (fx_digits (s ++ t) ≡ s) × (after_digits (s ++ t) ≡ t)
unfolding fx_digits after_digits
fx_digits-append [] [] h k = (refl, refl)
fx_digits-append [] (b ∷ t) h k = (ground arith, ground arith)
fx_digits-append (b ∷ s) t h k =
    let ih = fx_digits-append s t h.1 k in (rw h.0 (ap (λ more. b ∷ more) ih.0), rw h.0 ih.1)

consume_fx_currency-append :
    (code s : Str) → is_code code ≡ true → consume_fx_currency (code ++ s) ≡ some (code, s)
unfolding consume_fx_currency
consume_fx_currency-append [] s h = cc
consume_fx_currency-append (a ∷ []) s h = cc
consume_fx_currency-append (a ∷ b ∷ []) s h = cc
consume_fx_currency-append (a ∷ b ∷ c ∷ []) s h = rw h refl
consume_fx_currency-append (a ∷ b ∷ c ∷ d ∷ code) s h = cc

consume_fx_digits-append :
    (s t : Str)
    → AreDigits s
    → is_empty s ≡ false
    → starts_with_digit t ≡ false
    → consume_fx_digits (s ++ t) ≡ some (s, t)
consume_fx_digits-append s t h some_digit k =
    let (e, f) = fx_digits-append s t h k in rw (e, f, some_digit) refl

-- The format without amounts.
abbrev pub fx_description : Str → Str → Str → Str → Str → Str
fx_description reference base quote whole fraction =
    bytes "FX"
    ++ (reference ++ (b' ' ∷ (base ++ (b'/' ∷ (quote ++ (b' ' ∷ (whole ++ (b'.' ∷ fraction))))))))

rate_at_end :
    (whole fraction : Str)
    → AreDigits whole
    → is_empty whole ≡ false
    → AreDigits fraction
    → is_empty fraction ≡ false
    → consume_fx_rate (whole ++ (b'.' ∷ fraction))
      ≡ some (record { text = whole ++ (b'.' ∷ fraction); has_amounts = false; rest = [] })
unfolding consume_fx_rate
rate_at_end whole fraction h k i j =
    let (a, b) = fx_digits-append whole (b'.' ∷ fraction) h refl in
    let (c, d) = fx_digits-append fraction [] i refl in
    let c' = sym (ap fx_digits (append-nil fraction)) ∙ c in
    let d' = sym (ap after_digits (append-nil fraction)) ∙ d in rw (a, b, k, c', d', j) refl

abbrev pub fx_evidence_of : Str → Str → Str → Str → Str → FxEvidence
fx_evidence_of reference base quote whole fraction = record {
  namespace = bytes "FX";
  reference = reference;
  base_currency = base;
  quote_currency = quote;
  rate_coefficient = coefficient_of whole fraction;
  rate_scale = scale_of whole fraction;
}

module _ (currencies : Currencies) where
  -- A description "FX<reference> <base>/<quote> <whole>.<fraction>", of two different currencies that are
  -- recognised, written in three upper-case letters, of digits that are there, and of a positive rate, is
  -- read as the evidence of this reference and these currencies, with a coefficient whose value over ten
  -- to the power of the scale is the rate that was written.
  pub extract_fx_evidence-fx_description :
      (reference base quote whole fraction : Str)
      → AreDigits reference
      → is_empty reference ≡ false
      → is_code base ≡ true
      → is_code quote ≡ true
      → str_eq base quote ≡ false
      → is_recognized_currency currencies base ≡ true
      → is_recognized_currency currencies quote ≡ true
      → AreDigits whole
      → is_empty whole ≡ false
      → AreDigits fraction
      → is_empty fraction ≡ false
      → 1 ≤ decimal (whole ++ fraction) 0
      → (extract_fx_evidence currencies (fx_description reference base quote whole fraction)
          ≡ some (fx_evidence_of reference base quote whole fraction))
        × (decimal (coefficient_of whole fraction) 0 * 10 ^ length fraction
            ≡ decimal (whole ++ fraction) 0 * 10 ^ scale_of whole fraction)
  unfolding extract_fx_evidence consume_fx_literal
  extract_fx_evidence-fx_description reference base quote whole fraction ds d0 cb cq ne rb rq ws w0
        fs f0 positive =
      let r1 = whole ++ (b'.' ∷ fraction) in
      let r2 = b' ' ∷ r1 in
      let r3 = b'/' ∷ (quote ++ r2) in
      let r4 = b' ' ∷ (base ++ r3) in
      (
        rw
            (
              consume_fx_digits-append reference r4 ds d0 refl,
              consume_fx_currency-append base r3 cb,
              consume_fx_currency-append quote r2 cq,
              ne,
              rb,
              rq,
              rate_at_end whole fraction ws w0 fs f0,
              normalize_fx_rate_point whole fraction ws fs positive,
            )
            refl,
        coefficient_of_value whole fraction,
      )
