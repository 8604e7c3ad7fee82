-- ===== src/Prelude/Steps/Ensures.antt =====
-- What a method ensures where it succeeds, by the steps that it begins with.
use mathlib.Core.Path.{◌≡◌, refl}
use mathlib.Core.Bool.{Bool, true, false}
use piqo_server.Prelude.Tests.{if◌then◌else◌}
use piqo_server.Prelude.Results.{Result, ok, err}
use piqo_server.Prelude.Steps.{Step, continue, ◌>>=◌, lift, check}

-- `m`, from the state `s`, leaves a state and a result that `Q` holds of, unless it fails
pub record Ensures {ℓ κ μ ν} {S : Type ℓ} {E : Type κ} {A : Type μ} (m : Step S E A) (s : S)
    (Q : S → A → Type ν) : Type (ℓ ⊔ κ ⊔ μ ⊔ ν) where
  pub ensured : (t : S) (a : A) → m s ≡ (t, ok a) → Q t a

module _ {ℓ κ μ ν} {S : Type ℓ} {E : Type κ} {B : Type μ} (Q : S → B → Type ν) where
  pub >>=-Ensures {ρ} :
      {A : Type ρ} (m : Step S E A) (next : A → Step S E B) (s : S)
      → ((t : S) (a : A) → m s ≡ (t, ok a) → Ensures (next a) t Q)
      → Ensures (m >>= next) s Q
  unfolding ◌>>=◌ continue
  >>=-Ensures {A = A} m next s rest = record { ensured = λ u b h. go u b (m s) refl h }
    where
      go : (u : S) (b : B) (r : S × Result E A) → m s ≡ r → continue next r ≡ (u, ok b) → Q u b
      go u b (t, ok a) e k = (rest t a e).ensured u b k
      go u b (t, err x) e k = absurd (cc)

  pub lift-Ensures {ρ} :
      {A : Type ρ} (r : Result E A) (next : A → Step S E B) (s : S)
      → ((a : A) → r ≡ ok a → Ensures (next a) s Q)
      → Ensures (lift r >>= next) s Q
  unfolding ◌>>=◌ continue lift
  lift-Ensures (ok a) next s rest = record { ensured = (rest a refl).ensured }
  lift-Ensures (err x) next s rest = record { ensured = λ t b h. absurd (cc) }

  pub check-Ensures :
      (test : Bool) (e : E) (next : Unit {0} → Step S E B) (s : S)
      → (test ≡ true → Ensures (next tt) s Q)
      → Ensures (check test e >>= next) s Q
  unfolding ◌>>=◌ continue check
  check-Ensures true e next s rest = record { ensured = (rest refl).ensured }
  check-Ensures false e next s rest = record { ensured = λ t b h. absurd (cc) }

  pub if-Ensures :
      (b : Bool) (m n : Step S E B) (s : S)
      → (b ≡ true → Ensures m s Q)
      → (b ≡ false → Ensures n s Q)
      → Ensures (if b then m else n) s Q
  if-Ensures true m n s yes_case no_case = yes_case refl
  if-Ensures false m n s yes_case no_case = no_case refl
