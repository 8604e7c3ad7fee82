-- ===== src/Prelude/Map.antt =====
-- `BTreeMap<String, V>`: an association list in the order of its keys.
pub mod Carries
pub mod Sorted
pub mod Fits
use Prim.Native.Nat.Ordering.{lt, eq, gt}
use Prim.Native.String.{String, compare}
use mathlib.Core.Path.{◌≡◌, refl}
use mathlib.Core.Bool.{Bool}
use mathlib.Core.List.{List, [], ◌∷◌}
use mathlib.Core.Option.{Option, none, some}
use native.Mathlib.Omega.{arith}
use text.Mathlib.Text.{◌==◌ as str_eq}
use text.Mathlib.TextEquality.{eq_iff}
use piqo_server.Prelude.Tests.{if◌then◌else◌, is_some}
use piqo_server.Prelude.Results.{Result, err, map_ok}

abbrev pub Map {ℓ} : Type ℓ → Type ℓ
Map V = List (String × V)

module _ {ℓ} {V : Type ℓ} where
  unfoldable pub get : String → Map V → Option V
  get k [] = none
  get k ((j, v) ∷ m) = if str_eq j k then some v else get k m

  unfoldable pub insert : String → V → Map V → Map V
  insert k v [] = (k, v) ∷ []
  insert k v ((j, w) ∷ m) = elim (compare k j) [
    | lt ↦ (k, v) ∷ (j, w) ∷ m
    | eq ↦ (k, v) ∷ m
    | gt ↦ (j, w) ∷ insert k v m
  ]

  unfoldable pub remove : String → Map V → Map V
  remove k [] = []
  remove k ((j, v) ∷ m) = let rest = remove k m in if str_eq j k then rest else (j, v) ∷ rest

  -- `extend` by the entries of another map
  unfoldable pub extend : Map V → Map V → Map V
  extend m [] = m
  extend m ((k, v) ∷ more) = extend (insert k v m) more

  abbrev pub contains_key : String → Map V → Bool
  contains_key k m = is_some (get k m)

  -- `values()`, in the order of the keys
  unfoldable pub values : Map V → List V
  values [] = []
  values ((j, v) ∷ m) = v ∷ values m

  -- `get_mut(k).ok_or(missing)?`, then `change` on the value; on an error nothing is written
  unfoldable pub modify {κ} :
      {E : Type κ} → String → E → (V → Result E V) → Map V → Result E (Map V)
  modify k missing change m = elim (get k m) [
    | none ↦ err missing
    | some v ↦ map_ok (λ v'. insert k v' m) (change v)
  ]

  pub get-insert :
      (k j : String) (v : V) (m : Map V)
      → get j (insert k v m) ≡ (if str_eq k j then some v else get j m)
  unfolding get insert
  get-insert k j v [] = refl
  get-insert k j v ((i, w) ∷ m) =
      ground (arith, eq_iff k j, eq_iff i j, eq_iff i k, eq_iff k i, get-insert k j v m)

  pub get-remove :
      (k j : String) (m : Map V) → get j (remove k m) ≡ (if str_eq k j then none else get j m)
  unfolding get remove
  get-remove k j [] = ground arith
  get-remove k j ((i, w) ∷ m) = ground (arith, eq_iff k j, eq_iff i j, eq_iff i k, get-remove k j m)
