-- ===== src/Prelude/Maps.antt =====
-- Go maps with text keys, as association lists read by their first entry, and maps.Copy.
use mathlib.Core.Path.{◌≡◌, refl}
use mathlib.Core.Bool.{Bool, true, false, ◌&&◌}
use mathlib.Core.Option.{Option, none, some}
use mathlib.Core.List.{List, [], ◌∷◌}
use native.Mathlib.Omega.{arith}
use Prim.Native.String.{String}
use text.Mathlib.Text.{◌==◌}
use text.Mathlib.TextEquality.{eq_iff}
use luars_stoatcord.Prelude.Tests.{if◌then◌else◌}

abbrev pub Map {ℓ} : Type ℓ → Type ℓ
Map V = List (String × V)

abbrev pub or_else {ℓ} : {A : Type ℓ} → Option A → Option A → Option A
or_else none b = b
or_else (some a) b = some a

module _ {ℓ} {V : Type ℓ} where
  -- m[key], with `none` for a missing key
  unfoldable pub lookup : String → Map V → Option V
  lookup key [] = none
  lookup key ((first, value) ∷ others) =
      let found = lookup key others in if first == key then some value else found

  -- m[key] = value, in the place of the key's entry or at the end
  unfoldable pub insert : String → V → Map V → Map V
  insert key value [] = (key, value) ∷ []
  insert key value ((first, old) ∷ others) =
      let changed = insert key value others in
      if first == key then (key, value) ∷ others else (first, old) ∷ changed

  pub lookup-insert :
      (key asked : String) (value : V) (m : Map V)
      → lookup asked (insert key value m) ≡ (if key == asked then some value else lookup asked m)
  unfolding insert lookup
  lookup-insert key asked value [] = refl
  lookup-insert key asked value ((first, old) ∷ others) = ground (
    arith,
    lookup-insert key asked value others,
    eq_iff first key,
    eq_iff first asked,
    eq_iff key asked,
  )

  -- maps.Copy(dst, src)
  unfoldable pub copy : Map V → Map V → Map V
  copy dst [] = dst
  copy dst ((k, v) ∷ src) = insert k v (copy dst src)

  pub lookup-copy :
      (j : String) (dst src : Map V)
      → lookup j (copy dst src) ≡ or_else (lookup j src) (lookup j dst)
  unfolding copy lookup
  lookup-copy j dst [] = refl
  lookup-copy j dst ((k, v) ∷ src) =
      ground (arith, lookup-insert k j v (copy dst src), lookup-copy j dst src)

module _ {ℓ κ} {V : Type ℓ} {W : Type κ} where
  -- A map with each value translated, built in a loop over the entries.
  abbrev pub map_values : (V → W) → Map V → Map W
  map_values f [] = []
  map_values f ((k, v) ∷ m) = (k, f v) ∷ map_values f m

  abbrev pub map_option : (V → W) → Option V → Option W
  map_option f none = none
  map_option f (some v) = some (f v)

  pub lookup-map_values :
      (f : V → W) (k : String) (m : Map V) → lookup k (map_values f m) ≡ map_option f (lookup k m)
  unfolding lookup
  lookup-map_values f k [] = refl
  lookup-map_values f k ((j, v) ∷ m) = ground (arith, lookup-map_values f k m)

-- reflect.DeepEqual of two maps, by a test on their values.
module _ {ℓ} {V : Type ℓ} (eq : V → V → Bool) where
  abbrev pub entry_equal : V → Option V → Bool
  entry_equal v none = false
  entry_equal v (some w) = eq v w

  unfoldable pub included : Map V → Map V → Bool
  included [] n = true
  included ((k, v) ∷ m) n = entry_equal v (lookup k n) && included m n
