-- ===== src/Transfers/Examples/Evidence.antt =====
-- The theorems on evidence at concrete texts.
use sumweave.Base.{
  ℕ, ◌+◌, ◌*◌, ◌^◌, ◌≡◌, refl, true, Option, none, some, ◌++◌, arith, if◌then◌else◌, length, ◌||◌,
}
use sumweave.Base.Text.{Str, str_eq, bytes}
use sumweave.Base.Int.{pos, ◌-ℤ◌, ◌+ℤ◌}
use sumweave.Transfers.Fx.{Currencies}
use sumweave.Transfers.Evidence.Fx.{extract_fx_evidence}
use sumweave.Transfers.Evidence.Rates.{decimal, coefficient_of, scale_of}
use sumweave.Transfers.Evidence.Printing.{
  fx_description, fx_evidence_of, extract_fx_evidence-fx_description,
}
use sumweave.Transfers.Evidence.Amounts.{parse_amount_minor}
use sumweave.Transfers.Evidence.Amounts.Decimals.{
  sign_text, amount_in_range, parse_amount_minor_lem,
}

abbrev two_codes : Str → Option ℕ
two_codes code = if str_eq code (bytes "EUR") || str_eq code (bytes "USD") then some 2 else none

abbrev two_currencies : Currencies
two_currencies = record { parse_currency = two_codes }

extract_fx_evidence-fx_description_example :
    (extract_fx_evidence two_currencies
        (fx_description (bytes "71") (bytes "EUR") (bytes "USD") (bytes "1") (bytes "1050"))
      ≡ some (fx_evidence_of (bytes "71") (bytes "EUR") (bytes "USD") (bytes "1") (bytes "1050")))
    × (decimal (coefficient_of (bytes "1") (bytes "1050")) 0 * 10 ^ length (bytes "1050")
        ≡ decimal (bytes "1" ++ bytes "1050") 0 * 10 ^ scale_of (bytes "1") (bytes "1050"))
unfolding str_eq decimal
extract_fx_evidence-fx_description_example =
    extract_fx_evidence-fx_description two_currencies (bytes "71") (bytes "EUR") (bytes "USD")
      (bytes "1") (bytes "1050") (refl, (refl, tt)) refl refl refl refl refl refl (refl, tt) refl
      (refl, (refl, (refl, (refl, tt)))) refl (omega arith)

parse_amount_minor_lem_example :
    parse_amount_minor (sign_text true ++ (bytes "12" ++ bytes ".05"))
    ≡ amount_in_range true (decimal (bytes "12") 0 * 100 + decimal (bytes "05") 0)
parse_amount_minor_lem_example =
    parse_amount_minor_lem true (bytes "12") b'0' b'5' (refl, (refl, tt)) refl refl refl

-- Texts that are no decimals and are read all the same.
reads_two_signs : parse_amount_minor (bytes "--5.00") ≡ some (pos 500)
unfolding parse_amount_minor ◌-ℤ◌ ◌+ℤ◌
reads_two_signs = refl

reads_inner_sign : parse_amount_minor (bytes "5.+5") ≡ some (pos 505)
unfolding parse_amount_minor ◌-ℤ◌ ◌+ℤ◌
reads_inner_sign = refl

-- A rate whose fraction is not of digits.
reads_broken_rate :
    extract_fx_evidence two_currencies (bytes "FX71 EUR/USD 1.2 xx5,00 EUR -5,00 USD")
    ≡ some (record {
      namespace = bytes "FX";
      reference = bytes "71";
      base_currency = bytes "EUR";
      quote_currency = bytes "USD";
      rate_coefficient = bytes "12 xx";
      rate_scale = 4;
    })
unfolding extract_fx_evidence str_eq
reads_broken_rate = refl
