-- ===== src/Prelude/Map/Carries.antt =====
-- How the entries of a map fare when it is written to: no key is lost, and each value goes to a
-- value that is related to it.
use Prim.Native.String.{String}
use mathlib.Core.Path.{◌≡◌, sym, ◌∙◌, ap}
use mathlib.Core.Option.{Option, none, some}
use text.Mathlib.Text.{◌==◌ as str_eq}
use text.Mathlib.TextEquality.{eq_iff}
use mathlib.Core.Logic.{inl, inr}
use piqo_server.Prelude.Tests.{Bool-cases, Option-cases}
use piqo_server.Prelude.Results.{Result, ok, err, map_ok-eq-ok}
use piqo_server.Prelude.Map.{Map, get, insert, modify, get-insert}

abbrev pub Carries {ℓ κ} : {V : Type ℓ} → (V → V → Type κ) → Map V → Map V → Type (ℓ ⊔ κ)
Carries {V} R m m' =
    (k : String) (v : V) → get k m ≡ some v → (v' : V) × (get k m' ≡ some v') × R v v'

module _ {ℓ κ} {V : Type ℓ} {E : Type κ} where
  -- A successful `modify` found the key, changed its value, and wrote it back.
  pub modify-eq-ok :
      (k : String) (missing : E) (change : V → Result E V) (m : Map V) {m' : Map V}
      → modify k missing change m ≡ ok m'
      → (v : V) × (v' : V) × (get k m ≡ some v) × (change v ≡ ok v') × (m' ≡ insert k v' m)
  unfolding modify
  modify-eq-ok k missing change m h = elim (Option-cases (get k m)) [
    | inl e ↦ absurd (impossible (rw (e, modify) at h))
    | inr (v, e) ↦
        let (v', c, w) = map_ok-eq-ok (λ u. insert k u m) (change v) (rw (e, modify) at h) in
        (v, v', e, c, sym w)
  ]
    where
      impossible : {a : E} {b : Map V} → err a ≡ ok b → ⊥
      impossible p = cc

same_value {ℓ} :
    {V : Type ℓ} (m : Map V) (k j : String) {v u : V}
    → k ≡ j
    → get k m ≡ some v
    → get j m ≡ some u
    → v ≡ u
same_value m k j e found at_j = cc (ap (λ (i : String). get i m) e)

none-ne-some {ℓ} : {V : Type ℓ} {o : Option V} {v : V} → o ≡ none → o ≡ some v → ⊥
none-ne-some p q = cc

module _ {ℓ κ} {V : Type ℓ} (R : V → V → Type κ) where
  pub insert-Carries :
      (k : String) (v v' : V) (m : Map V)
      → ((u : V) → R u u)
      → get k m ≡ some v
      → R v v'
      → Carries R m (insert k v' m)
  insert-Carries k v v' m R_refl found step j u at_j = elim (Bool-cases (str_eq k j)) [
    | inl same ↦
        let e : v ≡ u = same_value m k j ((eq_iff k j).0 same) found at_j in
        (v', rw get-insert (rw same), rw (← e) step)
    | inr other ↦ (u, rw get-insert (rw other at_j), R_refl u)
  ]

  pub insert_fresh-Carries :
      (k : String) (v : V) (m : Map V)
      → ((u : V) → R u u)
      → get k m ≡ none
      → Carries R m (insert k v m)
  insert_fresh-Carries k v m R_refl fresh j u at_j = elim (Bool-cases (str_eq k j)) [
    | inl same ↦
        absurd (none-ne-some fresh (ap (λ (i : String). get i m) ((eq_iff k j).0 same) ∙ at_j))
    | inr other ↦ (u, rw get-insert (rw other at_j), R_refl u)
  ]

  pub Carries-refl : (m : Map V) → ((u : V) → R u u) → Carries R m m
  Carries-refl m R_refl k v h = (v, h, R_refl v)

module _ {ℓ κ μ ν} {V : Type ℓ} (R : V → V → Type κ) (S : V → V → Type μ) (T : V → V → Type ν) where
  pub Carries-trans :
      (m m' m'' : Map V)
      → ((u v w : V) → R u v → S v w → T u w)
      → Carries R m m'
      → Carries S m' m''
      → Carries T m m''
  Carries-trans m m' m'' compose c d k v h =
      let (v', h', r) = c k v h in let (v'', h'', s) = d k v' h' in (v'', h'', compose v v' v'' r s)

module _ {ℓ κ μ} {V : Type ℓ} {E : Type κ} (R : V → V → Type μ) where
  pub modify-Carries :
      (k : String) (missing : E) (change : V → Result E V) (m : Map V) {m' : Map V}
      → ((u : V) → R u u)
      → ((v v' : V) → change v ≡ ok v' → R v v')
      → modify k missing change m ≡ ok m'
      → Carries R m m'
  modify-Carries k missing change m R_refl step h =
      let (v, v', found, changed, e) = modify-eq-ok k missing change m h in
      rw e (insert-Carries R k v v' m R_refl found (step v v' changed))
