-- ===== src/Provider/Bodies.antt =====
-- piqo-provider/src/body.rs: merging the layers of a provider's request body.
pub mod Layering
use piqo_server.Prelude.{ℕ, ◌+◌, Option, none, some, List, [], ◌∷◌, ◌≡◌, Result, ok, err, ◌>>=◌}
use piqo_server.Prelude.Map.{Map, extend}
use piqo_server.Prelude.Map.Sorted.{IsSorted}

-- What the merge relies on of JSON values, which come from a library: `as_object` views a value as an
-- object, whose entries are in the order of their keys; `Value::Object` makes one.
pub record JsonObjects (V : Type 0) : Type 0 where
  pub as_object : V → Option (Map V)
  pub object : Map V → V
  pub as_object-object : (m : Map V) → IsSorted m → as_object (object m) ≡ some m
  pub as_object-IsSorted : (v : V) {m : Map V} → as_object v ≡ some m → IsSorted m

pub data BodyMergeError : Type 0 where
  layer_is_not_an_object : (index : ℕ) → BodyMergeError

module _ {V : Type 0} (json : JsonObjects V) where
  -- the loop over the layers, from the one with number `index`
  unfoldable pub merge_layers : ℕ → Map V → List V → Result BodyMergeError (Map V)
  merge_layers index merged [] = ok merged
  merge_layers index merged (layer ∷ layers) = elim (json.as_object layer) [
    | none ↦ err (layer_is_not_an_object index)
    | some entries ↦ merge_layers (index + 1) (extend merged entries) layers
  ]

  unfoldable pub merge_request_bodies : List V → Result BodyMergeError V
  unfolding merge_layers
  merge_request_bodies layers = merge_layers 0 [] layers >>= λ merged. ok (json.object merged)
