-- ===== src/Prelude/Map/Fits.antt =====
-- Well-formed maps: the keys increase, and each entry fits its key.
use Prim.Native.String.{String}
use mathlib.Core.Path.{◌≡◌}
use mathlib.Core.Logic.{inl, inr}
use mathlib.Core.List.{[]}
use mathlib.Core.Option.{some}
use text.Mathlib.Text.{◌==◌ as str_eq}
use text.Mathlib.TextEquality.{eq_iff}
use piqo_server.Prelude.Tests.{Bool-cases}
use piqo_server.Prelude.Results.{Result, ok}
use piqo_server.Prelude.Map.{Map, get, insert, modify, get-insert}
use piqo_server.Prelude.Map.Carries.{modify-eq-ok}
use piqo_server.Prelude.Map.Sorted.{IsSorted, insert-IsSorted}

pub record Fits {ℓ κ} {V : Type ℓ} (P : String → V → Type κ) (m : Map V) : Type (ℓ ⊔ κ) where
  pub sorted : IsSorted m
  pub at : (k : String) (v : V) → get k m ≡ some v → P k v

module _ {ℓ κ} {V : Type ℓ} (P : String → V → Type κ) where
  pub Fits-nil : Fits P []
  unfolding get
  Fits-nil = record { sorted = tt; at = λ k v h. absurd (cc) }

  entry_fits :
      (k j : String) (v u : V) (m : Map V)
      → P k v
      → Fits P m
      → get j (insert k v m) ≡ some u
      → P j u
  entry_fits k j v u m p f h = elim (Bool-cases (str_eq k j)) [
    | inl same ↦
        let e : v ≡ u = cc (rw (get-insert, same) at h) in rw (← (eq_iff k j).0 same) (rw (← e) p)
    | inr other ↦ f.at j u (rw (get-insert, other) at h)
  ]

  pub insert-Fits : (k : String) (v : V) (m : Map V) → P k v → Fits P m → Fits P (insert k v m)
  insert-Fits k v m p f = record {
    sorted = insert-IsSorted k v m f.sorted;
    at = λ j u h. entry_fits k j v u m p f h;
  }

  pub modify-Fits {μ} :
      {E : Type μ} (k : String) (missing : E) (change : V → Result E V) (m : Map V) {m' : Map V}
      → ((v v' : V) → P k v → change v ≡ ok v' → P k v')
      → Fits P m
      → modify k missing change m ≡ ok m'
      → Fits P m'
  modify-Fits k missing change m keep f h =
      let (v, v', found, changed, e) = modify-eq-ok k missing change m h in
      rw e (insert-Fits k v' m (keep v v' (f.at k v found) changed) f)
