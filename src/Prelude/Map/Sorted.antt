-- ===== src/Prelude/Map/Sorted.antt =====
-- Maps whose keys increase, as `BTreeMap` keeps them.
use Prim.Native.Nat.{Ordering}
use Prim.Native.Nat.Ordering.{lt, eq, gt}
use Prim.Native.String.{String, compare}
use mathlib.Core.Path.{◌≡◌, refl}
use mathlib.Core.Bool.{Bool, true, false}
use mathlib.Core.Logic.{inl, inr}
use mathlib.Core.List.{[], ◌∷◌}
use mathlib.Core.Option.{none, some}
use native.Mathlib.Omega.{arith}
use text.Mathlib.Text.{◌==◌ as str_eq}
use text.Mathlib.TextEquality.{eq_iff}
use text.Mathlib.TextPositions.{eq_refl}
use piqo_server.Prelude.Tests.{Bool-cases, Option-cases, or_else}
use piqo_server.Prelude.Lists.{find}
use piqo_server.Prelude.Order.{◌≺◌, ≺_trans, ≺_irrefl, ≺_of_gt, eq_of_compare}
use piqo_server.Prelude.Map.{Map, get, insert, remove, extend, values, get-insert}

module _ {ℓ} {V : Type ℓ} where
  -- every key of the map lies above `k`
  abbrev pub Above : String → Map V → Type 0
  Above k [] = Unit
  Above k ((j, v) ∷ m) = (k ≺ j) × Above k m

  abbrev pub IsSorted : Map V → Type 0
  IsSorted [] = Unit
  IsSorted ((j, v) ∷ m) = Above j m × IsSorted m

module _ {ℓ} {V : Type ℓ} where
  Above-insert : (j k : String) (v : V) (m : Map V) → j ≺ k → Above j m → Above j (insert k v m)
  unfolding insert
  Above-insert j k v [] h a = (h, tt)
  Above-insert j k v ((i, w) ∷ m) h a =
      elim (compare k i)
        as (λ o.
          Above j
            (elim o [ lt ↦ (k, v) ∷ (i, w) ∷ m | eq ↦ (k, v) ∷ m | gt ↦ (i, w) ∷ insert k v m ])) [
              | lt ↦ (h, a)
              | eq ↦ (h, a.1)
              | gt ↦ (a.0, Above-insert j k v m h a.1)
            ]

  Above-trans : (j k : String) (m : Map V) → j ≺ k → Above k m → Above j m
  Above-trans j k [] h a = tt
  Above-trans j k ((i, w) ∷ m) h a = (≺_trans j k i h a.0, Above-trans j k m h a.1)

  -- Writing an entry keeps the order of the keys.
  pub insert-IsSorted : (k : String) (v : V) (m : Map V) → IsSorted m → IsSorted (insert k v m)
  unfolding insert
  insert-IsSorted k v [] s = (tt, tt)
  insert-IsSorted k v ((i, w) ∷ m) s = go (insert-IsSorted k v m s.1) (compare k i) refl
    where
      go :
          IsSorted (insert k v m)
          → (o : Ordering) → compare k i ≡ o
          → IsSorted (insert k v ((i, w) ∷ m))
      go r lt e = rw (e, insert) ((e, Above-trans k i m e s.0), s)
      go r eq e = rw (e, insert) (rw (eq_of_compare k i e) s.0, s.1)
      go r gt e = rw (e, insert) (Above-insert i k v m (≺_of_gt k i e) s.0, r)

  Above-get : (j k : String) (m : Map V) {v : V} → Above j m → get k m ≡ some v → j ≺ k
  unfolding get
  Above-get j k [] a h = absurd (cc)
  Above-get j k ((i, w) ∷ m) a h = elim (Bool-cases (str_eq i k)) [
    | inl same ↦ rw (← (eq_iff i k).0 same) a.0
    | inr other ↦ Above-get j k m a.1 (rw other at h)
  ]

  -- A key that lies below all of a map's is not in it.
  pub get-Above : (k : String) (m : Map V) → Above k m → get k m ≡ none
  get-Above k m a = elim (Option-cases (get k m)) [
    | inl absent ↦ absent
    | inr (v, found) ↦ absurd (≺_irrefl k (Above-get k k m a found))
  ]

  get-tail :
      (j k : String) (w : V) (m : Map V) {v : V}
      → Above j m
      → get k m ≡ some v
      → get k ((j, w) ∷ m) ≡ some v
  unfolding get
  get-tail j k w m a h = elim (Bool-cases (str_eq j k)) [
    | inl same ↦ absurd (≺_irrefl k (rw ((eq_iff j k).0 same) at (Above-get j k m a h)))
    | inr other ↦ rw other h
  ]

  -- What a search of the values finds is the value of some key.
  pub find-values :
      (test : V → Bool) (m : Map V) {v : V}
      → IsSorted m
      → find test (values m) ≡ some v
      → (k : String) × (get k m ≡ some v) × (test v ≡ true)
  unfolding values get
  find-values test [] s h = absurd (cc)
  find-values test ((j, w) ∷ m) {v = v} s h = elim (Bool-cases (test w)) [
    | inl hit ↦
        let e : some w ≡ some v = (rw hit at h) in (j, rw (eq_refl j) e, ground (arith, hit, e))
    | inr miss ↦
        let (k, found, passed) = find-values test m s.1 (rw miss at h) in
        (k, get-tail j k w m s.0 found, passed)
  ]

  -- Where a search of the values finds nothing, no value of the map passes its test.
  pub find-values-none :
      (test : V → Bool) (m : Map V) (k : String) {v : V}
      → find test (values m) ≡ none
      → get k m ≡ some v
      → test v ≡ false
  unfolding values get
  find-values-none test [] k h g = absurd (cc)
  find-values-none test ((j, w) ∷ m) k {v = v} h g =
      ground (arith, find-values-none test m k {v = v})

  remove-Above : (k : String) (m : Map V) → Above k m → remove k m ≡ m
  unfolding remove
  remove-Above k [] a = refl
  remove-Above k ((i, w) ∷ m) a = elim (Bool-cases (str_eq i k)) [
    | inl same ↦ absurd (≺_irrefl k (rw ((eq_iff i k).0 same) at a.0))
    | inr other ↦ rw (other, remove-Above k m a.1) refl
  ]

  Above-remove : (j k : String) (m : Map V) → Above j m → Above j (remove k m)
  unfolding remove
  Above-remove j k [] a = tt
  Above-remove j k ((i, w) ∷ m) a = elim (Bool-cases (str_eq i k)) [
    | inl same ↦ rw same (Above-remove j k m a.1)
    | inr other ↦ rw other (a.0, Above-remove j k m a.1)
  ]

  -- Removing an entry keeps the order of the keys.
  pub remove-IsSorted : (k : String) (m : Map V) → IsSorted m → IsSorted (remove k m)
  unfolding remove
  remove-IsSorted k [] s = tt
  remove-IsSorted k ((i, w) ∷ m) s = elim (Bool-cases (str_eq i k)) [
    | inl same ↦ rw same (remove-IsSorted k m s.1)
    | inr other ↦ rw other (Above-remove i k m s.0, remove-IsSorted k m s.1)
  ]

  -- Removing the first key of a map leaves the rest.
  pub remove-first :
      (j k : String) (w : V) (m : Map V)
      → IsSorted ((j, w) ∷ m)
      → str_eq j k ≡ true
      → remove k ((j, w) ∷ m) ≡ m
  unfolding remove
  remove-first j k w m s same = rw same (remove-Above k m (rw ((eq_iff j k).0 same) at s.0))

  -- An extended map has the new entries, and the old ones at the other keys.
  pub get-extend :
      (k : String) (m n : Map V) → IsSorted n → get k (extend m n) ≡ or_else (get k n) (get k m)
  unfolding extend get
  get-extend k m [] s = refl
  get-extend k m ((j, v) ∷ n) s = elim (Bool-cases (str_eq j k)) [
    | inl same ↦
        let absent : get k n ≡ none = (rw ((eq_iff j k).0 same) at (get-Above j n s.0)) in
        rw (get-extend k (insert j v m) n s.1, same, absent, get-insert j k v m, same) refl
    | inr other ↦ rw (get-extend k (insert j v m) n s.1, other, get-insert j k v m, other) refl
  ]

  -- Extending a map keeps the order of its keys.
  pub extend-IsSorted : (m n : Map V) → IsSorted m → IsSorted (extend m n)
  unfolding extend
  extend-IsSorted m [] s = s
  extend-IsSorted m ((k, v) ∷ n) s = extend-IsSorted (insert k v m) n (insert-IsSorted k v m s)
