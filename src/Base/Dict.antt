-- ===== src/Base/Dict.antt =====
-- Go maps with string keys, as association lists.
use mathlib.Core.Path.{◌≡◌, refl}
use mathlib.Core.Option.{Option, none, some}
use mathlib.Core.List.{List, [], ◌∷◌}
use native.Mathlib.Omega.{arith}
use sumweave.Base.Tests.{if◌then◌else◌}
use sumweave.Base.Text.{Str, str_eq, str_eq_iff}

abbrev pub Dict {ℓ} : Type ℓ → Type ℓ
Dict V = List (Str × V)

module _ {ℓ} {V : Type ℓ} where
  -- `v, ok := d[k]`
  unfoldable pub lookup : Str → Dict V → Option V
  lookup k [] = none
  lookup k ((j, v) ∷ d) = if str_eq j k then some v else lookup k d

  -- `d[k] = v`
  unfoldable pub insert : Str → V → Dict V → Dict V
  insert k v [] = (k, v) ∷ []
  insert k v ((j, w) ∷ d) = if str_eq j k then (k, v) ∷ d else (j, w) ∷ insert k v d

  -- `delete(d, k)`
  unfoldable pub erase : Str → Dict V → Dict V
  erase k [] = []
  erase k ((j, w) ∷ d) = let rest = erase k d in if str_eq j k then rest else (j, w) ∷ rest

  pub lookup-insert :
      (k j : Str) (v : V) (d : Dict V)
      → lookup j (insert k v d) ≡ (if str_eq k j then some v else lookup j d)
  unfolding lookup insert
  lookup-insert k j v [] = refl
  lookup-insert k j v ((i, w) ∷ d) =
      ground (arith, str_eq_iff k j, str_eq_iff i k, str_eq_iff i j, lookup-insert k j v d)

  pub lookup-erase :
      (k j : Str) (d : Dict V) → lookup j (erase k d) ≡ (if str_eq k j then none else lookup j d)
  unfolding lookup erase
  lookup-erase k j [] = ground arith
  lookup-erase k j ((i, w) ∷ d) =
      ground (arith, str_eq_iff k j, str_eq_iff i k, str_eq_iff i j, lookup-erase k j d)
