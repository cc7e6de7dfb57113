-- ===== src/Prelude/Maps.antt =====
-- Go maps with text keys, as association lists. Their order is never read by the modelled code.
use Prim.Native.String.{String}
use mathlib.Core.Path.{◌≡◌, refl}
use mathlib.Core.Bool.{Bool, false, ◌||◌}
use mathlib.Core.Option.{Option, none, some}
use mathlib.Core.List.{List, [], ◌∷◌}
use native.Mathlib.Omega.{arith}
use text.Mathlib.Text.{◌==◌ as str_eq}
use text.Mathlib.TextEquality.{eq_iff}
use cwl_go.Prelude.Tests.{if◌then◌else◌}

abbrev pub Map {ℓ} : Type ℓ → Type ℓ
Map V = List (String × V)

module _ {κ} {Entry : Type κ} where
  unfoldable pub lookup : String → Map Entry → Option Entry
  lookup key ((other, entry) ∷ rest) = if str_eq other key then some entry else lookup key rest
  lookup key [] = none

  -- m[key] = entry
  unfoldable pub insert : String → Entry → Map Entry → Map Entry
  insert key entry ((other, old) ∷ rest) =
      if str_eq other key then (key, entry) ∷ rest else (other, old) ∷ insert key entry rest
  insert key entry [] = (key, entry) ∷ []

  pub lookup-insert :
      (key asked : String) (entry : Entry) (m : Map Entry)
      → lookup asked (insert key entry m)
        ≡ (if str_eq key asked then some entry else lookup asked m)
  unfolding lookup insert
  lookup-insert key asked entry ((other, old) ∷ rest) = ground (
    arith,
    lookup-insert key asked entry rest,
    eq_iff other asked,
    eq_iff other key,
    eq_iff key asked,
  )
  lookup-insert key asked entry [] = refl

-- slices.Contains on texts
unfoldable pub contains : List String → String → Bool
contains [] s = false
contains (x ∷ xs) s = str_eq x s || contains xs s
