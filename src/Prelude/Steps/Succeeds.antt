-- ===== src/Prelude/Steps/Succeeds.antt =====
-- What is known once a step has succeeded.
use mathlib.Core.Path.{◌≡◌, refl, ap}
use mathlib.Core.Bool.{Bool, true, false}
use piqo_server.Prelude.Results.{Result, ok, err}
use piqo_server.Prelude.Steps.{Step, continue, ◌>>=◌, pure, fail, lift, check, read, attempt}

module _ {ℓ κ} {S : Type ℓ} {E : Type κ} where
  -- its first part did, and the rest went on from there
  pub >>=-succeeds {μ ν} :
      {A : Type μ} {B : Type ν} (m : Step S E A) (next : A → Step S E B) (s : S) {u : S} {b : B}
      → (m >>= next) s ≡ (u, ok b)
      → (a : A) × (t : S) × (m s ≡ (t, ok a)) × (next a t ≡ (u, ok b))
  unfolding ◌>>=◌ continue
  >>=-succeeds {A = A} m next s {u = u} {b = b} h = go (m s) refl h
    where
      go :
          (r : S × Result E A)
          → m s ≡ r
          → continue next r ≡ (u, ok b)
          → (a : A) × (t : S) × (m s ≡ (t, ok a)) × (next a t ≡ (u, ok b))
      go (t, ok a) e k = (a, t, e, k)
      go (t, err x) e k = absurd (cc)

  pub check-succeeds :
      (b : Bool) (e : E) (s : S) {t : S} → check b e s ≡ (t, ok tt) → (b ≡ true) × (t ≡ s)
  unfolding check
  check-succeeds true e s h = (refl, cc)
  check-succeeds false e s h = absurd (cc)

  pub lift-succeeds {μ} :
      {A : Type μ} (r : Result E A) (s : S) {t : S} {a : A}
      → lift r s ≡ (t, ok a)
      → (r ≡ ok a) × (t ≡ s)
  unfolding lift
  lift-succeeds r s h = (cc, cc)

  pub read-succeeds {μ} :
      {A : Type μ} (view : S → A) (s : S) {t : S} {a : A}
      → read {E = E} view s ≡ (t, ok a)
      → (view s ≡ a) × (t ≡ s)
  unfolding read
  read-succeeds view s h = (cc, cc)

  pub pure-succeeds {μ} :
      {A : Type μ} (a : A) (s : S) {t : S} {b : A}
      → pure {E = E} a s ≡ (t, ok b)
      → (a ≡ b) × (t ≡ s)
  unfolding pure
  pure-succeeds a s h = (cc, cc)

  pub fail-succeeds {μ} : {A : Type μ} (e : E) (s : S) {t : S} {a : A} → ¬ (fail e s ≡ (t, ok a))
  unfolding fail
  fail-succeeds e s h = absurd (cc)

  -- a step that is attempted leaves its state and its result
  pub attempt-is {μ} :
      {A : Type μ} (m : Step S E A) (s : S) {t : S} {r : Result E A}
      → attempt m s ≡ (t, ok r)
      → m s ≡ (t, r)
  unfolding attempt
  attempt-is {A = A} m s h = ap (λ (x : S × Result E (Result E A)). (x.0, value x.1)) h
    where
      value : Result E (Result E A) → Result E A
      value (ok r) = r
      value (err e) = err e
