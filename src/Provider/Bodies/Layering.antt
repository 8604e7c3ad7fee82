-- ===== src/Provider/Bodies/Layering.antt =====
-- Which layer of a request body decides a key, and which one makes the merge fail.
use piqo_server.Prelude.{
  ℕ, ◌+◌, String, true, ◌≡◌, refl, sym, ap, ◌∙◌, Option, none, some, or_else, Option-cases, inl,
  inr, List, [], ◌∷◌, ◌++◌, All, length, is_some, ok, err, arith,
}
use piqo_server.Prelude.Map.{Map, get, extend}
use piqo_server.Prelude.Map.Sorted.{IsSorted, get-extend, extend-IsSorted}
use piqo_server.Provider.Bodies.{
  JsonObjects, layer_is_not_an_object, merge_layers, merge_request_bodies,
}

module _ {V : Type 0} (json : JsonObjects V) where
  abbrev pub IsObject : V → Type 0
  IsObject v = is_some (json.as_object v) ≡ true

  -- the value of a key in a layer
  abbrev pub value_in : String → Option (Map V) → Option V
  value_in key none = none
  value_in key (some entries) = get key entries

  abbrev pub field_of : String → V → Option V
  field_of key layer = value_in key (json.as_object layer)

  -- the value of a key in the last layer that has it
  abbrev pub last_field : String → List V → Option V
  last_field key [] = none
  last_field key (layer ∷ layers) = or_else (last_field key layers) (field_of key layer)

  or_else_assoc : (a b c : Option V) → or_else (or_else a b) c ≡ or_else a (or_else b c)
  or_else_assoc a b c = ground arith

  or_else-none : (a : Option V) → or_else a none ≡ a
  or_else-none a = ground arith

  merge_layers-get :
      (index : ℕ) (merged : Map V) (layers : List V)
      → All IsObject layers
      → IsSorted merged
      → (after : Map V) × (merge_layers json index merged layers ≡ ok after)
        × IsSorted after
        × ((key : String) → get key after ≡ or_else (last_field key layers) (get key merged))
  unfolding merge_layers
  merge_layers-get index merged [] objects s = (merged, refl, s, λ key. refl)
  merge_layers-get index merged (layer ∷ layers) objects s =
      elim (Option-cases (json.as_object layer)) [
        | inl plain ↦ absurd (cc (rw plain at objects.0))
        | inr (entries, found) ↦
            let (after, done, sorted, fields) =
              merge_layers-get (index + 1) (extend merged entries) layers objects.1
                (extend-IsSorted merged entries s) in
            (
              after,
              rw (found, merge_layers) done,
              sorted,
              λ key.
                  fields key
                  ∙ (rw (get-extend key merged entries (json.as_object-IsSorted layer found)) (
                      sym (
                        ap
                          (λ (v : Option (Map V)).
                            or_else (or_else (last_field key layers) (value_in key v))
                              (get key merged))
                          found
                        ∙ or_else_assoc (last_field key layers) (get key entries)
                            (get key merged)))),
            )
      ]

  merge_layers-error :
      (index : ℕ) (merged : Map V) (before after : List V) (layer : V)
      → All IsObject before
      → json.as_object layer ≡ none
      → merge_layers json index merged (before ++ layer ∷ after)
        ≡ err (layer_is_not_an_object (index + length before))
  unfolding merge_layers
  merge_layers-error index merged [] after layer objects plain =
      rw plain (ap (λ (i : ℕ). err (layer_is_not_an_object i)) (omega arith))
  merge_layers-error index merged (b ∷ before) after layer objects plain =
      elim (Option-cases (json.as_object b)) [
        | inl plain_b ↦ absurd (cc (rw plain_b at objects.0))
        | inr (entries, found) ↦ rw found (
            merge_layers-error (index + 1) (extend merged entries) before after layer objects.1
              plain
            ∙ ap (λ (i : ℕ). err (layer_is_not_an_object i)) (omega arith))
      ]

  -- Layers that are objects merge into one, in which a key has the value of the last layer that has the
  -- key, and is absent when no layer has it.
  pub merge_request_bodies-get :
      (layers : List V)
      → All IsObject layers
      → (body : V) × (merge_request_bodies json layers ≡ ok body)
        × ((key : String) → field_of key body ≡ last_field key layers)
  unfolding merge_request_bodies get
  merge_request_bodies-get layers objects =
      let (after, done, sorted, fields) = merge_layers-get 0 [] layers objects tt in
      (
        json.object after,
        rw done refl,
        λ key.
            rw (json.as_object-object after sorted)
              (fields key ∙ or_else-none (last_field key layers)),
      )

  -- The merge fails at the first layer that is not an object, and names its index.
  pub merge_request_bodies-error :
      (before after : List V) (layer : V)
      → All IsObject before
      → json.as_object layer ≡ none
      → merge_request_bodies json (before ++ layer ∷ after)
        ≡ err (layer_is_not_an_object (length before))
  unfolding merge_request_bodies
  merge_request_bodies-error before after layer objects plain =
      rw (merge_layers-error 0 [] before after layer objects plain)
        (ap (λ (i : ℕ). err (layer_is_not_an_object i)) (omega arith))
