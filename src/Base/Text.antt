-- ===== src/Base/Text.antt =====
-- Go strings as lists of bytes: equality, and `strings.TrimSpace` on UTF-8 text.
pub mod Order
use Prim.Native.Nat.{ℕ, zero, suc, ◌-◌}
use Prim.Native.Char.{code}
use Prim.Native.String.{String}
use mathlib.Core.Path.{◌≡◌, refl, ap, sym, ◌∙◌}
use mathlib.Core.Logic.{◌↔◌, ◌⊎◌, inl, inr}
use mathlib.Core.Bool.{Bool, true, false, ◌&&◌, ◌||◌}
use mathlib.Core.List.{List, [], ◌∷◌, ◌++◌, reverse, reverse-reverse, reverse-append}
use native.Mathlib.Omega.{arith}
use sumweave.Base.Lists.{length, length-append}
use sumweave.Base.Tests.{ltb, leb, ◌==◌, if◌then◌else◌}

abbrev pub Str : Type 0
Str = List ℕ

-- The bytes of an ASCII literal.
abbrev pub bytes : String → Str
bytes String.[] = []
bytes (String.◌∷◌ c s) = code c ∷ bytes s

unfoldable pub str_eq : Str → Str → Bool
str_eq [] [] = true
str_eq [] (b ∷ t) = false
str_eq (a ∷ s) [] = false
str_eq (a ∷ s) (b ∷ t) = a == b && str_eq s t

pub str_eq_refl : (s : Str) → str_eq s s ≡ true
unfolding str_eq
str_eq_refl [] = refl
str_eq_refl (a ∷ s) = ground (arith, str_eq_refl s)

pub eq_of_str_eq : (s t : Str) → str_eq s t ≡ true → s ≡ t
unfolding str_eq
eq_of_str_eq [] [] h = refl
eq_of_str_eq [] (b ∷ t) h = cc
eq_of_str_eq (a ∷ s) [] h = cc
eq_of_str_eq (a ∷ s) (b ∷ t) h = ground (arith, eq_of_str_eq s t)

pub str_eq_iff : (s t : Str) → (str_eq s t ≡ true) ↔ (s ≡ t)
str_eq_iff s t = (eq_of_str_eq s t, λ e. cc (str_eq_refl s, ap (str_eq s) e))

-- `s == ""`
-- `a < b` on Go strings.
unfoldable pub str_lt : Str → Str → Bool
str_lt s [] = false
str_lt [] (b ∷ t) = true
str_lt (a ∷ s) (b ∷ t) = ltb a b || (a == b && str_lt s t)

abbrev pub is_empty : Str → Bool
is_empty [] = true
is_empty (b ∷ s) = false

-- The characters of `unicode.IsSpace` in UTF-8, by the bytes they take.
is_space_1 : ℕ → Bool
is_space_1 a = (leb 9 a && leb a 13) || a == 32

is_space_2 : ℕ → ℕ → Bool
is_space_2 a b = a == 0xC2 && (b == 0x85 || b == 0xA0)

is_space_3 : ℕ → ℕ → ℕ → Bool
is_space_3 a b c =
    (a == 0xE1 && b == 0x9A && c == 0x80)
    || (a == 0xE2
        && b == 0x80
        && ((leb 0x80 c && leb c 0x8A) || c == 0xA8 || c == 0xA9 || c == 0xAF))
    || (a == 0xE2 && b == 0x81 && c == 0x9F)
    || (a == 0xE3 && b == 0x80 && c == 0x80)

-- The number of bytes of the white space character at the front, or 0.
leading_space : Str → ℕ
leading_space [] = 0
leading_space (a ∷ []) = if is_space_1 a then 1 else 0
leading_space (a ∷ b ∷ []) = if is_space_1 a then 1 else if is_space_2 a b then 2 else 0
leading_space (a ∷ b ∷ c ∷ s) =
    if is_space_1 a then 1 else if is_space_2 a b then 2 else if is_space_3 a b c then 3 else 0

-- The same at the end of a text that is read backwards.
trailing_space : Str → ℕ
trailing_space [] = 0
trailing_space (a ∷ []) = if is_space_1 a then 1 else 0
trailing_space (a ∷ b ∷ []) = if is_space_1 a then 1 else if is_space_2 b a then 2 else 0
trailing_space (a ∷ b ∷ c ∷ s) =
    if is_space_1 a then 1 else if is_space_2 b a then 2 else if is_space_3 c b a then 3 else 0

-- Drop the characters of width above 0; the number is what is left of the one being dropped.
trim_by : (Str → ℕ) → ℕ → Str → Str
trim_by width k [] = []
trim_by width (suc k) (a ∷ s) = trim_by width k s
trim_by width zero (a ∷ s) = elim (width (a ∷ s)) [ zero ↦ a ∷ s | suc k ↦ trim_by width k s ]

unfoldable pub trim_space : Str → Str
unfolding trim_by leading_space trailing_space is_space_1 is_space_2 is_space_3
trim_space s = reverse (trim_by trailing_space 0 (reverse (trim_by leading_space 0 s)))

trim_by-width :
    (width : Str → ℕ) (k : ℕ) (s : Str) → (trim_by width k s ≡ []) ⊎ (width (trim_by width k s) ≡ 0)
unfolding trim_by
trim_by-width width k [] = inl refl
trim_by-width width (suc k) (a ∷ s) = trim_by-width width k s
trim_by-width width zero (a ∷ s) = ground (arith, trim_by-width width (width (a ∷ s) - 1) s)

trim_by_id : (width : Str → ℕ) (s : Str) → width s ≡ 0 → trim_by width 0 s ≡ s
unfolding trim_by
trim_by_id width [] h = refl
trim_by_id width (a ∷ s) h = ground arith

trim_by_space :
    (width : Str → ℕ) (a : ℕ) (s : Str) (k : ℕ)
    → width (a ∷ s) ≡ suc k
    → trim_by width 0 (a ∷ s) ≡ trim_by width k s
unfolding trim_by
trim_by_space width a s k e = rw (e, trim_by)

ℕ-cases : (n : ℕ) → (n ≡ 0) ⊎ ((k : ℕ) × (n ≡ suc k))
ℕ-cases zero = inl refl
ℕ-cases (suc k) = inr (k, refl)

-- What trimming leaves is the end of the text.
trim_by-suffix : (width : Str → ℕ) (k : ℕ) (s : Str) → (p : Str) × (p ++ trim_by width k s ≡ s)
unfolding trim_by
trim_by-suffix width k [] = ([], refl)
trim_by-suffix width (suc k) (a ∷ s) =
    let (p, e) = trim_by-suffix width k s in (a ∷ p, ap (λ t. a ∷ t) e)
trim_by-suffix width zero (a ∷ s) = elim (ℕ-cases (width (a ∷ s))) [
  | inl e ↦ ([], trim_by_id width (a ∷ s) e)
  | inr (k, e) ↦
      let (p, r) = trim_by-suffix width k s in
      (a ∷ p, rw (trim_by_space width a s k e) (ap (λ t. a ∷ t) r))
]

leading_space-append : (p q : Str) → leading_space (p ++ q) ≡ 0 → leading_space p ≡ 0
unfolding leading_space
leading_space-append [] q h = refl
leading_space-append (a ∷ []) [] h = h
leading_space-append (a ∷ []) (b ∷ []) h = ground arith
leading_space-append (a ∷ []) (b ∷ c ∷ q) h = ground arith
leading_space-append (a ∷ b ∷ []) [] h = h
leading_space-append (a ∷ b ∷ []) (c ∷ q) h = ground arith
leading_space-append (a ∷ b ∷ c ∷ p) q h = h

trim_by_idem : (width : Str → ℕ) (s : Str) → trim_by width 0 (trim_by width 0 s) ≡ trim_by width 0 s
unfolding trim_by
trim_by_idem width s = elim (trim_by-width width 0 s) [
  | inl e ↦ rw e
  | inr e ↦ trim_by_id width (trim_by width 0 s) e
]

trim_end : Str → Str
trim_end s = reverse (trim_by trailing_space 0 (reverse s))

trim_end_idem : (s : Str) → trim_end (trim_end s) ≡ trim_end s
unfolding trim_end
trim_end_idem s =
    rw (reverse-reverse (trim_by trailing_space 0 (reverse s)))
      (ap reverse (trim_by_idem trailing_space (reverse s)))

trim_end-prefix : (s : Str) → (p : Str) × (trim_end s ++ p ≡ s)
unfolding trim_end
trim_end-prefix s =
    let (p, e) = trim_by-suffix trailing_space 0 (reverse s) in
    (
      reverse p,
      sym (reverse-append p (trim_by trailing_space 0 (reverse s)))
          ∙ ap reverse e
          ∙ reverse-reverse s,
    )

leading_space-trim_end : (s : Str) → leading_space s ≡ 0 → leading_space (trim_end s) ≡ 0
leading_space-trim_end s h =
    let (p, e) = trim_end-prefix s in leading_space-append (trim_end s) p (ap leading_space e ∙ h)

leading_space-trim_by : (s : Str) → leading_space (trim_by leading_space 0 s) ≡ 0
unfolding leading_space
leading_space-trim_by s = elim (trim_by-width leading_space 0 s) [
  | inl e ↦ ap leading_space e
  | inr e ↦ e
]

trim_space-eq : (s : Str) → trim_space s ≡ trim_end (trim_by leading_space 0 s)
unfolding trim_space trim_end
trim_space-eq s = refl

-- Trimming a trimmed text changes nothing.
pub trim_space_idem : (s : Str) → trim_space (trim_space s) ≡ trim_space s
trim_space_idem s =
    let t = trim_by leading_space 0 s in
    rw (trim_space-eq s, trim_space-eq (trim_end t))
      (ap trim_end (
          trim_by_id leading_space (trim_end t)
            (leading_space-trim_end t (leading_space-trim_by s)))
        ∙ trim_end_idem t)

pub length-reverse : (s : Str) → length (reverse s) ≡ length s
length-reverse [] = refl
length-reverse (a ∷ s) =
    ap length (reverse-append (a ∷ []) s)
    ∙ omega (arith, length-append (reverse s) (a ∷ []), length-reverse s)
