-- ===== src/Prelude/Maps.antt =====
-- A JavaScript `Map`: its entries in the order in which their keys were first set.
use mathlib.Core.Path.{◌≡◌, refl}
use mathlib.Core.List.{List, [], ◌∷◌}
use mathlib.Core.Option.{Option, none, some}
use native.Mathlib.Omega.{arith}
use package.adscope_identity.Prelude.Tests.{if◌then◌else◌, or_else}
use package.adscope_identity.Prelude.Equality.{Equality, ◌==◌}

module _ {ℓ κ} {K : Type ℓ} {V : Type κ} ⦃e : Equality K⦄ where
  unfoldable pub map_get : K → List (K × V) → Option V
  map_get k [] = none
  map_get k ((j, v) ∷ m) = if j == k then some v else map_get k m

  unfoldable pub map_set : K → V → List (K × V) → List (K × V)
  map_set k v [] = (k, v) ∷ []
  map_set k v ((j, w) ∷ m) = if j == k then (j, v) ∷ m else (j, w) ∷ map_set k v m

  -- A write is read back under its key, and no other key is touched.
  pub get-set :
      (k j : K) (v : V) (m : List (K × V))
      → map_get j (map_set k v m) ≡ (if k == j then some v else map_get j m)
  unfolding map_get map_set
  get-set k j v [] = refl
  get-set k j v ((i, w) ∷ m) =
      ground (arith, e.decides k j, e.decides i k, e.decides i j, get-set k j v m)

-- `entries` with every value replaced.
module _ {ℓ κ} {K : Type ℓ} {V : Type κ} ⦃e : Equality K⦄ where
  unfoldable pub map_values : (V → V) → List (K × V) → List (K × V)
  map_values f [] = []
  map_values f ((j, v) ∷ m) = (j, f v) ∷ map_values f m

  pub get-map_values :
      (f : V → V) (k : K) (d : V) (m : List (K × V))
      → f d ≡ d
      → or_else (map_get k (map_values f m)) d ≡ f (or_else (map_get k m) d)
  unfolding map_get map_values
  get-map_values f k d [] h = cc
  get-map_values f k d ((j, v) ∷ m) h = ground (arith, get-map_values f k d m h)
