-- ===== src/Base/Text/Order.antt =====
-- That `<` on Go strings is a strict order.
use mathlib.Core.Path.{◌≡◌, refl}
use mathlib.Core.Bool.{true, false}
use mathlib.Core.List.{[], ◌∷◌}
use native.Mathlib.Omega.{arith}
use sumweave.Base.Text.{Str, str_lt}

pub str_lt_irrefl : (s : Str) → str_lt s s ≡ false
unfolding str_lt
str_lt_irrefl [] = refl
str_lt_irrefl (a ∷ s) = ground (arith, str_lt_irrefl s)

pub str_lt_trans : (s t u : Str) → str_lt s t ≡ true → str_lt t u ≡ true → str_lt s u ≡ true
unfolding str_lt
str_lt_trans s t [] h k = cc
str_lt_trans s [] (c ∷ u) h k = cc
str_lt_trans [] (b ∷ t) (c ∷ u) h k = refl
str_lt_trans (a ∷ s) (b ∷ t) (c ∷ u) h k = ground (arith, str_lt_trans s t u)

pub str_lt_total : (a b : Str) → str_lt a b ≡ false → str_lt b a ≡ false → a ≡ b
unfolding str_lt
str_lt_total [] [] h k = refl
str_lt_total [] (y ∷ b) h k = cc
str_lt_total (x ∷ a) [] h k = cc
str_lt_total (x ∷ a) (y ∷ b) h k = ground (arith, str_lt_total a b)
