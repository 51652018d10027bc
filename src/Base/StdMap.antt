-- ===== src/Base/StdMap.antt =====
-- std::map: the pairs in ascending order of their keys.
pub mod Laws
use Prim.Native.Nat.{Ordering}
use mathlib.Core.Path.{◌≡◌, refl}
use mathlib.Core.Logic.{◌≢◌}
use mathlib.Core.List.{List, [], ◌∷◌}
use mathlib.Core.Option.{Option, none, some}
use native.Mathlib.Omega.{arith}
use http_cpp.Base.Order.{Order}

abbrev pub StdMap {ℓ κ} : Type ℓ → Type κ → Type (ℓ ⊔ κ)
StdMap K V = List (K × V)

module _ {ℓ κ} {K : Type ℓ} {V : Type κ} ⦃o : Order K⦄ where
  unfoldable pub find : K → StdMap K V → Option V
  find k [] = none
  find k ((j, w) ∷ m) = elim (o.cmp k j) [ Ordering.eq ↦ some w | _ ↦ find k m ]

  -- `emplace` and `insert`: a key that is there keeps its value.
  unfoldable pub emplace : K → V → StdMap K V → StdMap K V
  emplace k v [] = (k, v) ∷ []
  emplace k v ((j, w) ∷ m) = elim (o.cmp k j) [
    | Ordering.lt ↦ (k, v) ∷ (j, w) ∷ m
    | Ordering.eq ↦ (j, w) ∷ m
    | Ordering.gt ↦ (j, w) ∷ emplace k v m
  ]

  -- `m[k] = v`: a key that is there gets the new value.
  unfoldable pub assign : K → V → StdMap K V → StdMap K V
  assign k v [] = (k, v) ∷ []
  assign k v ((j, w) ∷ m) = elim (o.cmp k j) [
    | Ordering.lt ↦ (k, v) ∷ (j, w) ∷ m
    | Ordering.eq ↦ (j, v) ∷ m
    | Ordering.gt ↦ (j, w) ∷ assign k v m
  ]

  -- `m.insert(from.begin(), from.end())`
  unfoldable pub insert_all : StdMap K V → StdMap K V → StdMap K V
  insert_all [] m = m
  insert_all ((k, v) ∷ from) m = insert_all from (emplace k v m)

  -- A loop of `m[k] = v` over another map.
  unfoldable pub assign_all : StdMap K V → StdMap K V → StdMap K V
  assign_all [] m = m
  assign_all ((k, v) ∷ from) m = assign_all from (assign k v m)
