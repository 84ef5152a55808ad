-- ===== src/Transfers/Evidence/Amounts/Decimals.antt =====
-- What `parseAmountMinor` makes of a decimal with two digits behind the point.
use sumweave.Base.{
  ℕ, zero, suc, ◌+◌, ◌-◌, ◌*◌, ◌/◌, ◌^◌, ◌≤◌, ◌<◌, ◌≡◌, refl, ap, ◌∙◌, inl, inr, Bool, true, false,
  Option, none, some, [], ◌∷◌, ◌++◌, leb, ltb, if◌then◌else◌, arith, Bool-cases,
}
use sumweave.Base.Text.{Str, is_empty}
use sumweave.Base.Int.{max_int64, wrap_int64, ℤ, pos, ◌+ℤ◌, ◌-ℤ◌, ltb_ℤ}
use sumweave.Transfers.Types.{negate}
use sumweave.Transfers.Fx.{digits_value}
use sumweave.Transfers.Evidence.Fx.{is_digit}
use sumweave.Transfers.Evidence.Rates.{AreDigits, decimal}
use sumweave.Transfers.Evidence.Amounts.{
  quotient, positive_int, parse_int, split_dots, with_sign, amount_of, parse_parts,
  parse_amount_minor,
}

digits_value-AreDigits :
    (s : Str) (acc : ℕ) → AreDigits s → digits_value s acc ≡ some (decimal s acc)
unfolding digits_value decimal
digits_value-AreDigits [] acc h = refl
digits_value-AreDigits (b ∷ s) acc h =
    rw (h.0, digits_value) (digits_value-AreDigits s (acc * 10 + (b - b'0')) h.1)

parse_int-AreDigits :
    (s : Str) → AreDigits s → is_empty s ≡ false → parse_int s ≡ positive_int (some (decimal s 0))
unfolding parse_int
parse_int-AreDigits [] h k = cc
parse_int-AreDigits (b ∷ s) h k = rw (digits_value-AreDigits (b ∷ s) 0 h) (ground (arith, h.0))

split_dots-AreDigits : (s : Str) → AreDigits s → split_dots s ≡ s ∷ []
unfolding split_dots
split_dots-AreDigits [] h = refl
split_dots-AreDigits (b ∷ s) h = ground (arith, h.0, split_dots-AreDigits s h.1)

split_dots_point :
    (whole fraction : Str)
    → AreDigits whole
    → AreDigits fraction
    → split_dots (whole ++ (b'.' ∷ fraction)) ≡ whole ∷ fraction ∷ []
unfolding split_dots
split_dots_point [] fraction h k = ap (λ parts. [] ∷ parts) (split_dots-AreDigits fraction k)
split_dots_point (b ∷ s) fraction h k = ground (arith, h.0, split_dots_point s fraction h.1 k)

-- The amount of a number of minor units, if it is an int64.
abbrev pub signed_amount : Bool → ℕ → ℤ
signed_amount true n = negate (pos n)
signed_amount false n = pos n

abbrev pub amount_in_range : Bool → ℕ → Option ℤ
amount_in_range negative n = if leb n max_int64 then some (signed_amount negative n) else none

abbrev pub sign_text : Bool → Str
sign_text true = b'-' ∷ []
sign_text false = []

wrap_pos : (n : ℕ) → n ≤ max_int64 → wrap_int64 (pos n) ≡ pos n
wrap_pos n h = ground arith

wrap_neg : (n : ℕ) → n ≤ max_int64 → wrap_int64 (pos 0 -ℤ pos n) ≡ pos 0 -ℤ pos n
unfolding ◌-ℤ◌
wrap_neg zero h = ground arith
wrap_neg (suc n) h = ground arith

sub_pos : (a b : ℕ) → b ≤ a → pos a -ℤ pos b ≡ pos (a - b)
unfolding ◌-ℤ◌
sub_pos a b h = ground arith

add_pos : (a b : ℕ) → pos a +ℤ pos b ≡ pos (a + b)
unfolding ◌+ℤ◌
add_pos a b = ground arith

highest :
    (minor : ℕ)
    → minor < 100
    → quotient (wrap_int64 (pos max_int64 -ℤ pos minor)) 100 ≡ pos ((max_int64 - minor) / 100)
highest minor h =
    ap (λ n. quotient (wrap_int64 n) 100) (sub_pos max_int64 minor (omega (arith, h)))
    ∙ ap (λ n. quotient n 100) (wrap_pos (max_int64 - minor) (omega arith))

amount_of_pos :
    (negative : Bool) (whole minor : ℕ)
    → minor < 100
    → amount_of negative (some (pos whole)) (some (pos minor))
      ≡ amount_in_range negative (whole * 100 + minor)
unfolding negate
amount_of_pos negative whole minor h = elim (Bool-cases (leb (whole * 100 + minor) max_int64)) [
  | inl within ↦
      let small : whole * 100 + minor ≤ max_int64 = ground arith in
      rw (highest minor h, add_pos (whole * 100) minor, wrap_pos (whole * 100 + minor) small)
        (signed negative small within)
  | inr beyond ↦ rw (highest minor h) (ground arith)
]
  where
    signed :
        (negative : Bool)
        → whole * 100 + minor ≤ max_int64
        → leb (whole * 100 + minor) max_int64 ≡ true
        → (if ltb_ℤ (pos ((max_int64 - minor) / 100)) (pos whole)
            then none
            else some (with_sign negative (pos (whole * 100 + minor))))
          ≡ amount_in_range negative (whole * 100 + minor)
    signed true small within = rw (wrap_neg (whole * 100 + minor) small) (ground arith)
    signed false small within = ground arith

amount_of-positive_int :
    (negative : Bool) (whole minor : ℕ)
    → minor < 100
    → amount_of negative (positive_int (some whole)) (positive_int (some minor))
      ≡ amount_in_range negative (whole * 100 + minor)
amount_of-positive_int negative whole minor h = elim (Bool-cases (ltb whole (2 ^ 63))) [
  | inl word ↦
      let small : ltb minor (2 ^ 63) ≡ true = ground arith in
      rw (word, small) (amount_of_pos negative whole minor h)
  | inr beyond ↦ rw beyond (ground arith)
]

two_digits : (a b : ℕ) → is_digit a ≡ true → is_digit b ≡ true → decimal (a ∷ b ∷ []) 0 < 100
unfolding decimal
two_digits a b h k = ground arith

parts :
    (negative : Bool) (whole : Str) (a b : ℕ)
    → AreDigits whole
    → is_empty whole ≡ false
    → is_digit a ≡ true
    → is_digit b ≡ true
    → parse_parts negative (split_dots (whole ++ (b'.' ∷ a ∷ b ∷ [])))
      ≡ amount_in_range negative (decimal whole 0 * 100 + decimal (a ∷ b ∷ []) 0)
parts negative whole a b ws w0 ha hb =
    rw
      (
        split_dots_point whole (a ∷ b ∷ []) ws (ha, (hb, tt)),
        w0,
        parse_int-AreDigits whole ws w0,
        parse_int-AreDigits (a ∷ b ∷ []) (ha, (hb, tt)) refl,
      )
      (amount_of-positive_int negative (decimal whole 0) (decimal (a ∷ b ∷ []) 0)
        (two_digits a b ha hb))

-- Of digits, a point and two digits, with a minus sign in front or not, parseAmountMinor returns the
-- number of minor units, negated under the sign, when it is at most 2 ^ 63 - 1, and nothing otherwise.
pub parse_amount_minor_lem :
    (negative : Bool) (whole : Str) (a b : ℕ)
    → AreDigits whole
    → is_empty whole ≡ false
    → is_digit a ≡ true
    → is_digit b ≡ true
    → parse_amount_minor (sign_text negative ++ (whole ++ (b'.' ∷ a ∷ b ∷ [])))
      ≡ amount_in_range negative (decimal whole 0 * 100 + decimal (a ∷ b ∷ []) 0)
unfolding parse_amount_minor
parse_amount_minor_lem true whole a b ws w0 ha hb = parts true whole a b ws w0 ha hb
parse_amount_minor_lem false [] a b ws w0 ha hb = cc
parse_amount_minor_lem false (c ∷ whole) a b ws w0 ha hb =
    ground (arith, ws.0, parts false (c ∷ whole) a b ws w0 ha hb)
