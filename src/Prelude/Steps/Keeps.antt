-- ===== src/Prelude/Steps/Keeps.antt =====
-- What a step does to the state, whatever its result: a reflexive and transitive relation that the parts
-- of a method keep is kept by the method.
use mathlib.Core.Bool.{Bool, true, false}
use mathlib.Core.List.{List, [], ◌∷◌}
use mathlib.Core.Option.{Option, none, some}
use piqo_server.Prelude.Tests.{if◌then◌else◌}
use piqo_server.Prelude.Results.{Result, ok, err}
use piqo_server.Prelude.Steps.{
  Step, Act, continue, ◌>>=◌, pure, fail, lift, check, read, update, attempt, if_some, when,
  for_each,
}

pub record Preorder {ℓ} (S : Type ℓ) : Type (ℓ + 1) where
  pub holds : S → S → Type ℓ
  pub reflexive : (s : S) → holds s s
  pub transitive : (s t u : S) → holds s t → holds t u → holds s u

-- A property that is never lost.
abbrev pub invariant {ℓ} : {S : Type ℓ} → (S → Type ℓ) → Preorder S
invariant P = record {
  holds = λ s t. P s → P t;
  reflexive = λ s p. p;
  transitive = λ s t u f g p. g (f p);
}

pub record Keeps {ℓ κ μ} {S : Type ℓ} {E : Type κ} {A : Type μ} (R : Preorder S) (m : Step S E A)
    : Type ℓ where
  pub over : (s : S) → R.holds s (m s).0

module _ {ℓ κ} {S : Type ℓ} {E : Type κ} (R : Preorder S) where
  pub pure-Keeps {μ} : {A : Type μ} (a : A) → Keeps R (pure {E = E} a)
  unfolding pure
  pure-Keeps a = record { over = R.reflexive }

  pub fail-Keeps {μ} : {A : Type μ} (e : E) → Keeps R (fail {A = A} e)
  unfolding fail
  fail-Keeps e = record { over = R.reflexive }

  pub lift-Keeps {μ} : {A : Type μ} (r : Result E A) → Keeps R (lift r)
  unfolding lift
  lift-Keeps r = record { over = R.reflexive }

  pub read-Keeps {μ} : {A : Type μ} (view : S → A) → Keeps R (read {E = E} view)
  unfolding read
  read-Keeps view = record { over = R.reflexive }

  pub check-Keeps : (b : Bool) (e : E) → Keeps R (check b e)
  unfolding check
  check-Keeps true e = record { over = R.reflexive }
  check-Keeps false e = record { over = R.reflexive }

  pub update-Keeps :
      (change : S → S) → ((s : S) → R.holds s (change s)) → Keeps R (update {E = E} change)
  unfolding update
  update-Keeps change h = record { over = h }

  continue-Keeps {μ ν} :
      {A : Type μ} {B : Type ν} (s : S) (r : S × Result E A) (next : A → Step S E B)
      → R.holds s r.0
      → ((a : A) → Keeps R (next a))
      → R.holds s (continue next r).0
  unfolding continue
  continue-Keeps s (t, ok a) next first rest = R.transitive s t (next a t).0 first ((rest a).over t)
  continue-Keeps s (t, err e) next first rest = first

  pub >>=-Keeps {μ ν} :
      {A : Type μ} {B : Type ν} (m : Step S E A) (next : A → Step S E B)
      → Keeps R m
      → ((a : A) → Keeps R (next a))
      → Keeps R (m >>= next)
  unfolding ◌>>=◌
  >>=-Keeps m next first rest = record {
    over = λ s. continue-Keeps s (m s) next (first.over s) rest;
  }

  pub attempt-Keeps {μ} : {A : Type μ} (m : Step S E A) → Keeps R m → Keeps R (attempt m)
  unfolding attempt
  attempt-Keeps m k = record { over = k.over }

  pub if_some-Keeps {μ} :
      {A : Type μ} (o : Option A) (m : A → Act S E)
      → ((a : A) → Keeps R (m a))
      → Keeps R (if_some o m)
  unfolding if_some
  if_some-Keeps none m k = record { over = R.reflexive }
  if_some-Keeps (some a) m k = record { over = (k a).over }

  pub when-Keeps : (b : Bool) (m : Act S E) → Keeps R m → Keeps R (when b m)
  unfolding when
  when-Keeps true m k = record { over = k.over }
  when-Keeps false m k = record { over = R.reflexive }

  pub if-Keeps {μ} :
      {A : Type μ} (b : Bool) (m n : Step S E A)
      → Keeps R m
      → Keeps R n
      → Keeps R (if b then m else n)
  if-Keeps true m n k l = k
  if-Keeps false m n k l = l

  pub for_each-Keeps {μ} :
      {A : Type μ} (as' : List A) (body : A → Act S E)
      → ((a : A) → Keeps R (body a))
      → Keeps R (for_each as' body)
  unfolding for_each
  for_each-Keeps [] body k = pure-Keeps tt
  for_each-Keeps (a ∷ as') body k =
      >>=-Keeps (body a) (λ done. for_each as' body) (k a) (λ done. for_each-Keeps as' body k)

pub ruleset step_rules = (
  pure-Keeps, fail-Keeps, lift-Keeps, read-Keeps, check-Keeps, attempt-Keeps, >>=-Keeps,
  if_some-Keeps, when-Keeps, if-Keeps, for_each-Keeps,
)
