-- ===== src/Tests/Requests.antt =====
-- Two layers of a request body, with objects of strings for JSON values.
use piqo_server.Prelude.{
  String, ◌≡◌, refl, Option, none, some, [], ◌∷◌, ok, err, Bool, Bool-cases, inl, inr, ◌↔◌, ap,
  true, false, ◌&&◌, if◌then◌else◌, arith,
}
use Prim.Native.Nat.{Ordering}
use Prim.Native.Nat.Ordering.{lt, eq, gt}
use Prim.Native.String.{compare}
use piqo_server.Prelude.Map.{Map}
use piqo_server.Prelude.Map.Sorted.{IsSorted, Above}
use piqo_server.Provider.Bodies.{JsonObjects, layer_is_not_an_object, merge_request_bodies}
use piqo_server.Provider.Bodies.Layering.{
  field_of, last_field, merge_request_bodies-get, merge_request_bodies-error,
}

mutual
  data Value : Type 0 where
    atom : String → Value
    node : Fields → Value

  data Fields : Type 0 where
    done : Fields
    field : String → Value → Fields → Fields

abbrev entries : Fields → Map Value
entries done = []
entries (field k v f) = (k, v) ∷ entries f

abbrev fields_of : Map Value → Fields
fields_of [] = done
fields_of ((k, v) ∷ m) = field k v (fields_of m)

entries-fields_of : (m : Map Value) → entries (fields_of m) ≡ m
entries-fields_of [] = refl
entries-fields_of ((k, v) ∷ m) = ap (λ (l : Map Value). (k, v) ∷ l) (entries-fields_of m)

-- fields out of order make no object
abbrev is_lt : Ordering → Bool
is_lt lt = true
is_lt eq = false
is_lt gt = false

abbrev comes_before : String → String → Bool
comes_before j k = is_lt (compare j k)

abbrev is_above : String → Map Value → Bool
is_above j [] = true
is_above j ((k, v) ∷ m) = comes_before j k && is_above j m

abbrev is_ordered : Map Value → Bool
is_ordered [] = true
is_ordered ((k, v) ∷ m) = is_above k m && is_ordered m

is_above-eq_true : (j : String) (m : Map Value) → (is_above j m ≡ true) ↔ Above j m
is_above-eq_true j [] = (λ h. tt, λ h. refl)
is_above-eq_true j ((k, v) ∷ m) = (
  λ h. (ground arith, (is_above-eq_true j m).0 (ground arith)),
  λ h. rw (h.0, (is_above-eq_true j m).1 h.1) refl,
)

is_ordered-eq_true : (m : Map Value) → (is_ordered m ≡ true) ↔ IsSorted m
is_ordered-eq_true [] = (λ h. tt, λ h. refl)
is_ordered-eq_true ((k, v) ∷ m) = (
  λ h. ((is_above-eq_true k m).0 (ground arith), (is_ordered-eq_true m).0 (ground arith)),
  λ h. rw ((is_above-eq_true k m).1 h.0, (is_ordered-eq_true m).1 h.1) refl,
)

abbrev view : Value → Option (Map Value)
view (atom s) = none
view (node f) = if is_ordered (entries f) then some (entries f) else none

view-node : (m : Map Value) → IsSorted m → view (node (fields_of m)) ≡ some m
view-node m s = rw (entries-fields_of m, (is_ordered-eq_true m).1 s) refl

view-IsSorted : (v : Value) {m : Map Value} → view v ≡ some m → IsSorted m
view-IsSorted (atom s) h = absurd (cc)
view-IsSorted (node f) {m = m} h = elim (Bool-cases (is_ordered (entries f))) [
  | inl ordered ↦
      let same : some (entries f) ≡ some m = (rw ordered at h) in
      let is : entries f ≡ m = cc in rw (← is) ((is_ordered-eq_true (entries f)).0 ordered)
  | inr other ↦ absurd (cc (rw other at h))
]

-- The laws that the merge relies on hold of a JSON of strings and objects.
abbrev objects : JsonObjects Value
objects = record {
  as_object = view;
  object = λ m. node (fields_of m);
  as_object-object = view-node;
  as_object-IsSorted = view-IsSorted;
}

abbrev base : Value
base = node (field "model" (atom "small") (field "stream" (atom "on") done))

abbrev override : Value
override = node (field "model" (atom "large") done)

merge_request_bodies-get_example :
    (body : Value) × (merge_request_bodies objects (base ∷ override ∷ []) ≡ ok body)
    × ((key : String) → field_of objects key body ≡ last_field objects key (base ∷ override ∷ []))
merge_request_bodies-get_example =
    merge_request_bodies-get objects (base ∷ override ∷ []) (refl, (refl, tt))

merge_request_bodies-error_example :
    merge_request_bodies objects (base ∷ atom "text" ∷ override ∷ [])
    ≡ err (layer_is_not_an_object 1)
merge_request_bodies-error_example =
    merge_request_bodies-error objects (base ∷ []) (override ∷ []) (atom "text") (refl, tt) refl
