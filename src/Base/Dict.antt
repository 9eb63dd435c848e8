-- ===== src/Base/Dict.antt =====
-- Go's `map[string]V`, as an association list with one entry to a key that was stored. The program
-- never iterates over such a map.
use mathlib.Core.Path.{◌≡◌, refl}
use mathlib.Core.Option.{Option, none, some}
use mathlib.Core.List.{List, [], ◌∷◌}
use native.Mathlib.Omega.{arith}
use Prim.Native.String.{String}
use text.Mathlib.Text.{◌==◌}
use text.Mathlib.TextEquality.{eq_iff}
use influxdb_operator.Base.Tests.{if◌then◌else◌}

abbrev pub Dict {ℓ} : Type ℓ → Type ℓ
Dict V = List (String × V)

module _ {ℓ} {V : Type ℓ} where
  -- found, ok := m[key]
  unfoldable pub lookup : String → Dict V → Option V
  lookup key [] = none
  lookup key (entry ∷ others) = if entry.0 == key then some entry.1 else lookup key others

  -- m[key] = value: an entry of the key is replaced where it stands.
  unfoldable pub insert : String → V → Dict V → Dict V
  insert key value [] = (key, value) ∷ []
  insert key value (entry ∷ others) =
      let changed = insert key value others in
      if entry.0 == key then (key, value) ∷ others else entry ∷ changed

  -- After a store, the map is as before at every other key.
  pub lookup-insert :
      (key at : String) (value : V) (m : Dict V)
      → lookup at (insert key value m) ≡ (if key == at then some value else lookup at m)
  unfolding lookup insert
  lookup-insert key at value [] = refl
  lookup-insert key at value (entry ∷ others) = ground (
    arith,
    lookup-insert key at value others,
    eq_iff entry.0 at,
    eq_iff entry.0 key,
    eq_iff key at,
  )
