-- ===== src/Transfers/Evidence/Amounts.antt =====
-- `parseAmountMinor` of finance/internal/pko/transfer_matching_evidence.go, with `strings.Split` and
-- `strconv.ParseInt(s, 10, 64)`. An int64 wraps around.
pub mod Decimals
use sumweave.Base.{
  ℕ, zero, suc, ◌+◌, ◌-◌, ◌*◌, ◌/◌, ◌%◌, ◌^◌, Bool, true, false, Option, none, some, List, [], ◌∷◌,
  ◌++◌, ◌&&◌, ◌||◌, ◌==◌, leb, ltb, if◌then◌else◌, length,
}
use sumweave.Base.Text.{Str, is_empty}
use sumweave.Base.Int.{max_int64, wrap_int64, ℤ, pos, negsuc, ◌+ℤ◌, ◌-ℤ◌, ltb_ℤ}
use sumweave.Transfers.Types.{negate}
use sumweave.Transfers.Fx.{digits_value}

abbrev pub times : ℤ → ℕ → ℤ
times (pos n) k = pos (n * k)
times (negsuc n) k = pos 0 -ℤ pos (suc n * k)

-- Go's division truncates.
abbrev pub quotient : ℤ → ℕ → ℤ
quotient (pos n) k = pos (n / k)
quotient (negsuc n) k = pos 0 -ℤ pos (suc n / k)

abbrev pub positive_int : Option ℕ → Option ℤ
positive_int none = none
positive_int (some n) = if ltb n (2 ^ 63) then some (pos n) else none

abbrev pub negative_int : Option ℕ → Option ℤ
negative_int none = none
negative_int (some n) = if leb n (2 ^ 63) then some (pos 0 -ℤ pos n) else none

-- The value of a text of digits, none of which is not a value.
abbrev pub unsigned : Str → Option ℕ
unsigned [] = none
unsigned (b ∷ s) = digits_value (b ∷ s) 0

unfoldable pub parse_int : Str → Option ℤ
unfolding digits_value
parse_int [] = none
parse_int (b ∷ s) =
    if b == b'-'
    then negative_int (unsigned s)
    else if b == b'+'
    then positive_int (unsigned s)
    else positive_int (unsigned (b ∷ s))

abbrev pub cons_first : ℕ → List Str → List Str
cons_first b [] = (b ∷ []) ∷ []
cons_first b (p ∷ ps) = (b ∷ p) ∷ ps

-- `strings.Split(value, ".")`
unfoldable pub split_dots : Str → List Str
split_dots [] = [] ∷ []
split_dots (b ∷ s) =
    let parts = split_dots s in if b == b'.' then [] ∷ parts else cons_first b parts

-- The loop that fills the fraction up to two digits.
abbrev pub padded : Str → Str
padded [] = b'0' ∷ b'0' ∷ []
padded (a ∷ []) = a ∷ b'0' ∷ []
padded (a ∷ b ∷ s) = a ∷ b ∷ s

abbrev pub with_sign : Bool → ℤ → ℤ
with_sign true result = wrap_int64 (pos 0 -ℤ result)
with_sign false result = result

abbrev pub amount_of : Bool → Option ℤ → Option ℤ → Option ℤ
amount_of negative (some whole) (some minor) =
    if ltb_ℤ (quotient (wrap_int64 (pos max_int64 -ℤ minor)) 100) whole
    then none
    else some (with_sign negative (wrap_int64 (times whole 100 +ℤ minor)))
amount_of negative whole minor = none

abbrev pub whole_and_fraction : Bool → Str → Str → Option ℤ
whole_and_fraction negative whole fraction =
    if is_empty whole
    then none
    else if ltb 2 (length fraction)
    then none
    else amount_of negative (parse_int whole) (parse_int (padded fraction))

abbrev pub parse_parts : Bool → List Str → Option ℤ
parse_parts negative [] = none
parse_parts negative (whole ∷ []) = whole_and_fraction negative whole []
parse_parts negative (whole ∷ fraction ∷ []) = whole_and_fraction negative whole fraction
parse_parts negative (a ∷ b ∷ c ∷ rest) = none

unfoldable pub parse_amount_minor : Str → Option ℤ
unfolding parse_int split_dots
parse_amount_minor [] = none
parse_amount_minor (b ∷ s) =
    if b == b'-'
    then parse_parts true (split_dots s)
    else if b == b'+'
    then parse_parts false (split_dots s)
    else parse_parts false (split_dots (b ∷ s))
