-- ===== src/Prelude/Results.antt =====
-- `Result<T, E>` and the `?` operator as a bind.
use mathlib.Core.Path.{◌≡◌, refl}
use mathlib.Core.Bool.{Bool, true, false}
use mathlib.Core.Option.{Option, none, some}

pub data Result {ℓ κ} (E : Type ℓ) (A : Type κ) : Type (ℓ ⊔ κ) where
  ok : A → Result E A
  err : E → Result E A

infixl 5 ◌>>=◌
abbrev pub ◌>>=◌ {ℓ κ μ} :
    {Err : Type ℓ} {Mid : Type κ} {Out : Type μ}
    → Result Err Mid
    → (Mid → Result Err Out)
    → Result Err Out
ok mid >>= next = next mid
err failure >>= next = err failure

abbrev pub map_ok {ℓ κ μ} :
    {E : Type ℓ} {A : Type κ} {B : Type μ} → (A → B) → Result E A → Result E B
map_ok f (ok a) = ok (f a)
map_ok f (err e) = err e

-- `Option::ok_or`
abbrev pub ok_or {ℓ κ} : {E : Type ℓ} {A : Type κ} → Option A → E → Result E A
ok_or none e = err e
ok_or (some a) e = ok a

pub ok_or-eq-ok {ℓ κ} :
    {E : Type ℓ} {A : Type κ} (o : Option A) (e : E) {a : A} → ok_or o e ≡ ok a → o ≡ some a
ok_or-eq-ok none e h = absurd (cc)
ok_or-eq-ok (some a) e h = cc

abbrev pub is_ok {ℓ κ} : {E : Type ℓ} {A : Type κ} → Result E A → Bool
is_ok (ok a) = true
is_ok (err e) = false

-- a chain that succeeds has a first step that does, and goes on from its value
pub >>=-eq-ok {ℓ κ μ} :
    {Err : Type ℓ} {Mid : Type κ} {Out : Type μ} (step : Result Err Mid)
    (next : Mid → Result Err Out) {out : Out}
    → (step >>= next) ≡ ok out
    → (mid : Mid) × (step ≡ ok mid) × (next mid ≡ ok out)
>>=-eq-ok (ok mid) next succeeds = (mid, refl, succeeds)
>>=-eq-ok (err failure) next succeeds = absurd (cc)

pub map_ok-eq-ok {ℓ κ μ} :
    {E : Type ℓ} {A : Type κ} {B : Type μ} (f : A → B) (r : Result E A) {b : B}
    → map_ok f r ≡ ok b
    → (a : A) × (r ≡ ok a) × (f a ≡ b)
map_ok-eq-ok f (ok a) h = (a, refl, cc)
map_ok-eq-ok f (err e) h = cc

pub >>=-ok {ℓ κ} : {E : Type ℓ} {A : Type κ} (m : Result E A) → (m >>= ok) ≡ m
>>=-ok (ok a) = refl
>>=-ok (err e) = refl

pub >>=-assoc {ℓ κ μ ν} :
    {E : Type ℓ} {A : Type κ} {B : Type μ} {C : Type ν} (m : Result E A) (f : A → Result E B)
    (g : B → Result E C)
    → (m >>= λ a. f a >>= g) ≡ (m >>= f >>= g)
>>=-assoc (ok a) f g = refl
>>=-assoc (err e) f g = refl

pub >>=-ap {ℓ κ μ} :
    {E : Type ℓ} {A : Type κ} {B : Type μ} (m : Result E A) (f g : A → Result E B)
    → ((a : A) → f a ≡ g a)
    → (m >>= f) ≡ (m >>= g)
>>=-ap (ok a) f g h = h a
>>=-ap (err e) f g h = refl
