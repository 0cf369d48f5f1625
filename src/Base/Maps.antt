-- ===== src/Base/Maps.antt =====
-- What the sources use of `BTreeMap<String, V>` and `BTreeSet<String>`: lists in the order of the keys.
use Prim.Native.String
use Prim.Native.String.{String}
use mathlib.Core.Path.{◌≡◌, refl}
use mathlib.Core.Option.{Option, none, some}
use mathlib.Core.List.{List, [], ◌∷◌}
use native.Mathlib.Omega.{arith}
use text.Mathlib.Text
use text.Mathlib.TextEquality.{eq_iff}
use artesian.Base.Tests.{str_eq, if◌then◌else◌}

module _ {ℓ} {V : Type ℓ} where
  -- `BTreeMap::get`.
  unfoldable pub map_get : String → List (String × V) → Option V
  map_get key [] = none
  map_get key ((k, v) ∷ rest) = if str_eq k key then some v else map_get key rest

  -- `BTreeMap::insert`, and a write through `get_mut` at a key that is there.
  unfoldable pub map_insert : String → V → List (String × V) → List (String × V)
  map_insert key value [] = (key, value) ∷ []
  map_insert key value ((k, v) ∷ rest) =
      let later = map_insert key value rest in
      if str_eq k key
      then (key, value) ∷ rest
      else if Text.is_lt (String.compare key k)
      then (key, value) ∷ (k, v) ∷ rest
      else (k, v) ∷ later

  abbrev pub map_values : List (String × V) → List V
  map_values [] = []
  map_values ((k, v) ∷ rest) = v ∷ map_values rest

  pub map_get-map_insert :
      (j key : String) (value : V) (m : List (String × V))
      → map_get j (map_insert key value m) ≡ (if str_eq key j then some value else map_get j m)
  unfolding map_get map_insert
  map_get-map_insert j key value [] = refl
  map_get-map_insert j key value ((k, v) ∷ rest) =
      let ih = map_get-map_insert j key value rest in
      let same = eq_iff k key in
      let here = eq_iff k j in let there = eq_iff key j in ground (arith, ih, same, here, there)

-- `BTreeSet::insert` and `BTreeSet::remove`.
unfoldable pub set_insert : String → List String → List String
set_insert x [] = x ∷ []
set_insert x (y ∷ ys) =
    let later = set_insert x ys in
    if str_eq y x then y ∷ ys else if Text.is_lt (String.compare x y) then x ∷ y ∷ ys else y ∷ later

unfoldable pub set_remove : String → List String → List String
set_remove x [] = []
set_remove x (y ∷ ys) = let later = set_remove x ys in if str_eq y x then ys else y ∷ later
