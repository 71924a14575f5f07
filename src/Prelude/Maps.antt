-- ===== src/Prelude/Maps.antt =====
-- Go maps with string keys as association lists, where the code never depends on their order.
use Prim.Native.String.{String}
use mathlib.Core.Path.{◌≡◌, refl}
use mathlib.Core.Option.{Option, none, some}
use mathlib.Core.List.{List, [], ◌∷◌}
use native.Mathlib.Omega.{arith}
use text.Mathlib.Text.{◌==◌}
use text.Mathlib.TextEquality.{eq_iff}
use text.Mathlib.TextPositions.{eq_refl}
use durable_acp.Prelude.Tests.{if◌then◌else◌}

abbrev pub Map {ℓ} : Type ℓ → Type ℓ
Map V = List (String × V)

-- Each key has one entry, the last one that was written, and that is the first of the list.
module _ {ℓ} {V : Type ℓ} where
  unfoldable pub lookup : String → Map V → Option V
  lookup key [] = none
  lookup key ((here, value) ∷ entries) =
      let further = lookup key entries in if key == here then some value else further

  -- `delete(m, key)`.
  unfoldable pub erase : String → Map V → Map V
  erase key [] = []
  erase key ((here, value) ∷ entries) =
      let others = erase key entries in if key == here then others else (here, value) ∷ others

  -- `m[key] = value`.
  unfoldable pub insert : String → V → Map V → Map V
  insert key value entries = (key, value) ∷ erase key entries

  pub lookup-erase :
      (key asked : String) (entries : Map V)
      → lookup asked (erase key entries) ≡ (if key == asked then none else lookup asked entries)
  unfolding lookup erase
  lookup-erase key asked [] = ground arith
  lookup-erase key asked ((here, value) ∷ entries) =
      ground (
        arith,
        lookup-erase key asked entries,
        eq_iff asked here,
        eq_iff key here,
        eq_iff key asked,
      )

  pub lookup-insert :
      (key asked : String) (value : V) (entries : Map V)
      → lookup asked (insert key value entries)
        ≡ (if key == asked then some value else lookup asked entries)
  unfolding lookup insert
  lookup-insert key asked value entries =
      ground (arith, lookup-erase key asked entries, eq_iff asked key, eq_iff key asked)

  pub lookup-insert_self :
      (key : String) (value : V) (entries : Map V)
      → lookup key (insert key value entries) ≡ some value
  unfolding lookup insert
  lookup-insert_self key value entries = rw (eq_refl key) refl
