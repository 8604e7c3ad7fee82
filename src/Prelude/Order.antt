-- ===== src/Prelude/Order.antt =====
-- The order of texts that `Ord for String` gives, by code points from the left.
use Prim.Native.Nat.{ℕ, Ordering, compare as compare_ℕ}
use Prim.Native.Nat.Ordering.{lt, eq, gt}
use Prim.Native.Char.{code}
use Prim.Native.String.{String, [], ◌∷◌, compare, then}
use Prim.Native.String.compare as compare_laws
use mathlib.Core.Path.{◌≡◌, refl, sym, ◌∙◌, ap}
use mathlib.Core.Logic.{◌≢◌}
use native.Mathlib.Omega.{arith}
use text.Mathlib.TextEquality.{path_by_compare}

abbrev pub swap : Ordering → Ordering
swap lt = gt
swap eq = eq
swap gt = lt

swap-then : (o p : Ordering) → swap (then o p) ≡ then (swap o) (swap p)
swap-then lt p = refl
swap-then eq p = refl
swap-then gt p = refl

compare_ℕ-swap : (a b : ℕ) → compare_ℕ b a ≡ swap (compare_ℕ a b)
compare_ℕ-swap a b = ground arith

pub compare-swap : (s t : String) → compare t s ≡ swap (compare s t)
compare-swap [] [] = rw compare_laws.nil-nil
compare-swap [] (d ∷ t) = rw (compare_laws.cons-nil, compare_laws.nil-cons)
compare-swap (c ∷ s) [] = rw (compare_laws.cons-nil, compare_laws.nil-cons)
compare-swap (c ∷ s) (d ∷ t) =
    simp (compare_laws.cons-cons, swap-then, compare-swap s t, compare_ℕ-swap (code c) (code d))

then_trans :
    (a b c : ℕ) (p q r : Ordering)
    → (p ≡ lt → q ≡ lt → r ≡ lt)
    → then (compare_ℕ a b) p ≡ lt
    → then (compare_ℕ b c) q ≡ lt
    → then (compare_ℕ a c) r ≡ lt
then_trans a b c p q r f h k = ground arith

not-lt_nil : eq ≡ lt → ⊥
not-lt_nil h = cc

gt_not-lt : gt ≡ lt → ⊥
gt_not-lt h = cc

same_code : (n : ℕ) → then (compare_ℕ n n) eq ≡ eq
same_code n = ground arith

-- `<` on texts
infix 50 ◌≺◌
abbrev pub ◌≺◌ : String → String → Type 0
s ≺ t = compare s t ≡ lt

pub ≺_trans : (s t u : String) → s ≺ t → t ≺ u → s ≺ u
≺_trans [] [] u h k = absurd (not-lt_nil (sym compare_laws.nil-nil ∙ h))
≺_trans [] (d ∷ t) [] h k = absurd (gt_not-lt (sym (compare_laws.cons-nil d t) ∙ k))
≺_trans [] (d ∷ t) (e ∷ u) h k = compare_laws.nil-cons e u
≺_trans (c ∷ s) [] u h k = absurd (gt_not-lt (sym (compare_laws.cons-nil c s) ∙ h))
≺_trans (c ∷ s) (d ∷ t) [] h k = absurd (gt_not-lt (sym (compare_laws.cons-nil d t) ∙ k))
≺_trans (c ∷ s) (d ∷ t) (e ∷ u) h k = rw compare_laws.cons-cons (
    then_trans (code c) (code d) (code e) (compare s t) (compare t u) (compare s u) (≺_trans s t u)
      (rw compare_laws.cons-cons at h) (rw compare_laws.cons-cons at k))

pub compare_refl : (s : String) → compare s s ≡ eq
compare_refl [] = compare_laws.nil-nil
compare_refl (c ∷ s) = rw compare_laws.cons-cons (rw (compare_refl s) (same_code (code c)))

pub ≺_irrefl : (s : String) → s ≺ s → ⊥
≺_irrefl s h = not-lt_nil (sym (compare_refl s) ∙ h)

pub eq_of_compare : (s t : String) → compare s t ≡ eq → s ≡ t
eq_of_compare = path_by_compare

pub ≺_of_gt : (s t : String) → compare s t ≡ gt → t ≺ s
≺_of_gt s t e = rw (compare-swap s t) (rw e)

pub compare_not_gt_trans : (s t u : String) → compare s t ≢ gt → compare t u ≢ gt → compare s u ≢ gt
compare_not_gt_trans s t u h k = go (compare s t) (compare t u) refl refl
  where
    go : (o p : Ordering) → compare s t ≡ o → compare t u ≡ p → compare s u ≢ gt
    go lt lt e f = λ g. cc (≺_trans s t u e f)
    go lt eq e f = λ g. cc (ap (λ (v : String). compare s v) (path_by_compare t u f))
    go eq p e f = λ g. k (ap (λ (v : String). compare v u) (sym (path_by_compare s t e)) ∙ g)
    go lt gt e f = absurd (k f)
    go gt p e f = absurd (h e)
