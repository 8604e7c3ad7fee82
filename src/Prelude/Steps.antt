-- ===== src/Prelude/Steps.antt =====
-- Methods on shared state that may fail: a step goes from a state to the state that it leaves behind and
-- its result. What a step wrote before an error stays written.
pub mod Keeps
pub mod Succeeds
pub mod Ensures
use mathlib.Core.Path.{◌≡◌, refl}
use mathlib.Core.Bool.{Bool, true, false}
use mathlib.Core.List.{List, [], ◌∷◌}
use mathlib.Core.Option.{Option, none, some}
use piqo_server.Prelude.Tests.{if◌then◌else◌}
use piqo_server.Prelude.Results.{Result, ok, err}

abbrev pub Step {ℓ κ μ} : Type ℓ → Type κ → Type μ → Type (ℓ ⊔ κ ⊔ μ)
Step S E A = S → S × Result E A

-- a step that returns nothing
abbrev pub Act {ℓ κ} : Type ℓ → Type κ → Type (ℓ ⊔ κ)
Act S E = S → S × Result E (Unit {0})

module _ {ℓ κ} {S : Type ℓ} {E : Type κ} where
  unfoldable pub continue {μ ν} :
      {A : Type μ} {B : Type ν} → (A → Step S E B) → S × Result E A → S × Result E B
  continue next (s, ok a) = next a s
  continue next (s, err e) = (s, err e)

  infixl 5 ◌>>=◌
  unfoldable pub ◌>>=◌ {μ ν} :
      {A : Type μ} {B : Type ν} → Step S E A → (A → Step S E B) → Step S E B
  unfolding continue
  (m >>= next) s = continue next (m s)

  unfoldable pub pure {μ} : {A : Type μ} → A → Step S E A
  pure a s = (s, ok a)

  unfoldable pub fail {μ} : {A : Type μ} → E → Step S E A
  fail e s = (s, err e)

  -- `?` on a result that needs no state
  unfoldable pub lift {μ} : {A : Type μ} → Result E A → Step S E A
  lift r s = (s, r)

  -- an early return of an error, unless the test holds
  unfoldable pub check : Bool → E → Act S E
  check true e s = (s, ok tt)
  check false e s = (s, err e)

  unfoldable pub read {μ} : {A : Type μ} → (S → A) → Step S E A
  read view s = (s, ok (view s))

  unfoldable pub update : (S → S) → Act S E
  update change s = (change s, ok tt)

  -- the result of a step as a value, so that its error does not end the method
  unfoldable pub attempt {μ} : {A : Type μ} → Step S E A → Step S E (Result E A)
  attempt m s = ((m s).0, ok (m s).1)

  -- `if let Some(…)`, and nothing otherwise
  unfoldable pub if_some {μ} : {A : Type μ} → Option A → (A → Act S E) → Act S E
  if_some none m s = (s, ok tt)
  if_some (some a) m s = m a s

  -- `if` without an `else`
  unfoldable pub when : Bool → Act S E → Act S E
  when true m s = m s
  when false m s = (s, ok tt)

  -- a `for` loop
  unfoldable pub for_each {μ} : {A : Type μ} → List A → (A → Act S E) → Act S E
  for_each [] body = pure tt
  for_each (a ∷ as') body = body a >>= λ done. for_each as' body
