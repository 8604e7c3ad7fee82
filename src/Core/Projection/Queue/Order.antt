-- ===== src/Core/Projection/Queue/Order.antt =====
-- The order of the queue.
use Prim.Native.Nat.{Ordering}
use Prim.Native.Nat.Ordering.{lt, eq, gt}
use Prim.Native.String.{compare}
use mathlib.Core.List.{Perm, perm_middle}
use mathlib.Core.List.Perm
use mathlib.Core.Path.{subst}
use piqo_server.Prelude.{
  String, ◌<◌, ◌⊎◌, ◌++◌, Bool, true, false, not, ◌≡◌, ◌≢◌, refl, ap, ◌∙◌, inl, inr, some, List, [],
  ◌∷◌, All, select, str_eq, Bool-cases, arith,
}
use piqo_server.Prelude.Order.{compare_not_gt_trans, compare-swap, compare_refl, swap}
use piqo_server.Prelude.Int.{ℤ, pos, negsuc, compare_ℤ}
use piqo_server.Prelude.Map.{Map, get, values}
use piqo_server.Core.Phases.{RunStatus, queued}
use piqo_server.Core.Projection.{SessionProjection, RunProjection}
use piqo_server.Core.Projection.Queue.{
  then_with, run_order, put_in_order, sort_runs, queued_runs, is_queued,
}

-- the first priority is the smaller
abbrev pub Below : ℤ → ℤ → Type 0
Below (pos m) (pos n) = m < n
Below (pos m) (negsuc n) = ⊥
Below (negsuc m) (pos n) = Unit
Below (negsuc m) (negsuc n) = n < m

-- the first run has the smaller priority, or the same one and an id that is not after the second's
abbrev pub NotAfter : {V : Type 0} → RunProjection V → RunProjection V → Type 0
NotAfter a b =
    Below a.queue_priority b.queue_priority
    ⊎ ((a.queue_priority ≡ b.queue_priority) × (compare a.run_id b.run_id ≢ gt))

-- no run stands behind one that it comes before
abbrev pub InOrder : {V : Type 0} → List (RunProjection V) → Type 0
InOrder [] = Unit
InOrder (r ∷ rs) = All (NotAfter r) rs × InOrder rs

compare_ℤ-Below :
    (a b : ℤ) (o : Ordering) → then_with (compare_ℤ a b) o ≢ gt → Below a b ⊎ ((a ≡ b) × (o ≢ gt))
unfolding compare_ℤ
compare_ℤ-Below a b o h = ground arith

is_queued-status : (s : RunStatus) → is_queued s ≡ true → s ≡ queued
is_queued-status s h = ground arith

is_queued-other : (s : RunStatus) → is_queued s ≡ false → s ≢ queued
is_queued-other s h e = cc (rw e at h)

-- the closure of the sort does not put the first run behind the second
abbrev Ordered : {V : Type 0} → RunProjection V → RunProjection V → Type 0
Ordered a b = run_order a b ≢ gt

abbrev InRunOrder : {V : Type 0} → List (RunProjection V) → Type 0
InRunOrder [] = Unit
InRunOrder (r ∷ rs) = All (Ordered r) rs × InRunOrder rs

compare_ℤ-trans :
    (a b c : ℤ) (o p q : Ordering)
    → (o ≢ gt → p ≢ gt → q ≢ gt)
    → then_with (compare_ℤ a b) o ≢ gt
    → then_with (compare_ℤ b c) p ≢ gt
    → then_with (compare_ℤ a c) q ≢ gt
unfolding compare_ℤ
compare_ℤ-trans a b c o p q t h k = ground arith

compare_ℤ-total :
    (a b : ℤ) (o : Ordering)
    → then_with (compare_ℤ a b) o ≡ gt
    → then_with (compare_ℤ b a) (swap o) ≡ lt
unfolding compare_ℤ
compare_ℤ-total a b o h = ground arith

compare_ℤ-refl : (a : ℤ) (o : Ordering) → o ≢ gt → then_with (compare_ℤ a a) o ≢ gt
unfolding compare_ℤ
compare_ℤ-refl a o h = ground arith

module _ {V : Type 0} where
  Ordered-trans : (a b c : RunProjection V) → Ordered a b → Ordered b c → Ordered a c
  unfolding run_order
  Ordered-trans a b c =
      compare_ℤ-trans a.queue_priority b.queue_priority c.queue_priority (compare a.run_id b.run_id)
        (compare b.run_id c.run_id) (compare a.run_id c.run_id)
        (compare_not_gt_trans a.run_id b.run_id c.run_id)

  Ordered-refl : (a : RunProjection V) → Ordered a a
  unfolding run_order
  Ordered-refl a =
      compare_ℤ-refl a.queue_priority (compare a.run_id a.run_id) (λ g. cc (compare_refl a.run_id))

  Ordered-total : (a b : RunProjection V) → run_order a b ≡ gt → Ordered b a
  unfolding run_order
  Ordered-total a b h g =
      let l = compare_ℤ-total a.queue_priority b.queue_priority (compare a.run_id b.run_id) h in
      cc (l, g, compare-swap a.run_id b.run_id)

  All-Ordered :
      (a b : RunProjection V) (rs : List (RunProjection V))
      → Ordered a b
      → All (Ordered b) rs
      → All (Ordered a) rs
  All-Ordered a b [] h k = tt
  All-Ordered a b (r ∷ rs) h k = (Ordered-trans a b r h k.0, All-Ordered a b rs h k.1)

  All-put_in_order :
      (P : RunProjection V → Type 0) (r : RunProjection V) (rs : List (RunProjection V))
      → P r
      → All P rs
      → All P (put_in_order r rs)
  unfolding put_in_order
  All-put_in_order P r [] h k = (h, tt)
  All-put_in_order P r (s ∷ rs) h k =
      elim (run_order r s)
        as (λ o. All P (elim o [ gt ↦ s ∷ put_in_order r rs | _ ↦ r ∷ s ∷ rs ])) [
          | gt ↦ (k.0, All-put_in_order P r rs h k.1)
          | lt ↦ (h, k)
          | eq ↦ (h, k)
        ]

  All-of_put :
      (P : RunProjection V → Type 0) (r : RunProjection V) (rs : List (RunProjection V))
      → All P (put_in_order r rs)
      → P r × All P rs
  unfolding put_in_order
  All-of_put P r [] = λ h. h
  All-of_put P r (s ∷ rs) =
      elim (run_order r s)
        as (λ o.
          All P (elim o [ gt ↦ s ∷ put_in_order r rs | _ ↦ r ∷ s ∷ rs ]) → P r × All P (s ∷ rs)) [
            | gt ↦ λ h. let (first, others) = All-of_put P r rs h.1 in (first, (h.0, others))
            | lt ↦ λ h. h
            | eq ↦ λ h. h
          ]

  put_in_order-InRunOrder :
      (r : RunProjection V) (rs : List (RunProjection V))
      → InRunOrder rs
      → InRunOrder (put_in_order r rs)
  unfolding put_in_order
  put_in_order-InRunOrder r [] o = (tt, tt)
  put_in_order-InRunOrder r (s ∷ rs) o = go (put_in_order-InRunOrder r rs o.1) (run_order r s) refl
    where
      front : Ordered r s → InRunOrder (r ∷ s ∷ rs)
      front h = ((h, All-Ordered r s rs h o.0), o)

      go :
          InRunOrder (put_in_order r rs)
          → (d : Ordering) → run_order r s ≡ d
          → InRunOrder (put_in_order r (s ∷ rs))
      go ih lt e = rw (e, put_in_order) (front (λ g. cc))
      go ih eq e = rw (e, put_in_order) (front (λ g. cc))
      go ih gt e =
          rw (e, put_in_order) (All-put_in_order (Ordered s) r rs (Ordered-total r s e) o.0, ih)

  put_in_order-perm :
      (r : RunProjection V) (rs : List (RunProjection V)) → Perm (put_in_order r rs) (r ∷ rs)
  unfolding put_in_order
  put_in_order-perm r [] = Perm.refl (r ∷ [])
  put_in_order-perm r (s ∷ rs) =
      elim (run_order r s)
        as (λ o. Perm (elim o [ gt ↦ s ∷ put_in_order r rs | _ ↦ r ∷ s ∷ rs ]) (r ∷ s ∷ rs)) [
          | gt ↦ Perm.trans (Perm.cons s (put_in_order-perm r rs)) (Perm.swap r s rs)
          | lt ↦ Perm.refl (r ∷ s ∷ rs)
          | eq ↦ Perm.refl (r ∷ s ∷ rs)
        ]

  sort_runs-lem : (rs : List (RunProjection V)) → Perm (sort_runs rs) rs × InRunOrder (sort_runs rs)
  unfolding sort_runs
  sort_runs-lem [] = (Perm.refl [], tt)
  sort_runs-lem (r ∷ rs) =
      let (perm, order) = sort_runs-lem rs in
      (
        Perm.trans (put_in_order-perm r (sort_runs rs)) (Perm.cons r perm),
        put_in_order-InRunOrder r (sort_runs rs) order,
      )

  -- the head of a sorted list comes before all
  All-sort_runs :
      (P : RunProjection V → Type 0) (rs : List (RunProjection V)) → All P (sort_runs rs) → All P rs
  unfolding sort_runs
  All-sort_runs P [] h = tt
  All-sort_runs P (r ∷ rs) h =
      let (first, others) = All-of_put P r (sort_runs rs) h in (first, All-sort_runs P rs others)

  All-select :
      (P : RunProjection V → Type 0) (test : RunProjection V → Bool) (m : Map (RunProjection V))
      (k : String) (r : RunProjection V)
      → All P (select test (values m))
      → get k m ≡ some r
      → test r ≡ true
      → P r
  unfolding values get
  All-select P test [] k r h g t = absurd (cc)
  All-select P test ((j, s) ∷ m) k r h g t = elim (Bool-cases (str_eq j k)) [
    | inl here ↦
        let e : s ≡ r = cc (rw here at g) in
        let passes : test s ≡ true = ap test e ∙ t in subst P e ((rw passes at h).0)
    | inr further ↦ elim (Bool-cases (test s)) [
      | inl kept ↦ All-select P test m k r (rw kept at h).1 (rw further at g) t
      | inr dropped ↦ All-select P test m k r (rw dropped at h) (rw further at g) t
    ]
  ]

  Ordered-NotAfter : (a b : RunProjection V) → Ordered a b → NotAfter a b
  unfolding run_order
  Ordered-NotAfter a b h =
      compare_ℤ-Below a.queue_priority b.queue_priority (compare a.run_id b.run_id) h

  All-map :
      (P Q : RunProjection V → Type 0) (rs : List (RunProjection V))
      → ((r : RunProjection V) → P r → Q r)
      → All P rs
      → All Q rs
  All-map P Q [] f h = tt
  All-map P Q (r ∷ rs) f h = (f r h.0, All-map P Q rs f h.1)

  InRunOrder-InOrder : (rs : List (RunProjection V)) → InRunOrder rs → InOrder rs
  InRunOrder-InOrder [] o = tt
  InRunOrder-InOrder (r ∷ rs) o =
      (All-map (Ordered r) (NotAfter r) rs (Ordered-NotAfter r) o.0, InRunOrder-InOrder rs o.1)

  -- the runs that pass a test and those that do not
  select-splits :
      (test : RunProjection V → Bool) (rs : List (RunProjection V))
      → Perm (select test rs ++ select (λ r. not (test r)) rs) rs
        × All (λ r. test r ≡ true) (select test rs)
        × All (λ r. test r ≡ false) (select (λ r. not (test r)) rs)
  select-splits test [] = (Perm.refl [], tt, tt)
  select-splits test (r ∷ rs) =
      let (perm, passes, fails) = select-splits test rs in
      elim (Bool-cases (test r)) [
        | inl passing ↦ rw passing (Perm.cons r perm, (passing, passes), fails)
        | inr failing ↦ rw failing (
          Perm.trans (perm_middle (select test rs) (select (λ s. not (test s)) rs))
              (Perm.cons r perm),
          passes,
          (failing, fails),
        )
      ]

  sort_runs-All :
      (P : RunProjection V → Type 0) (rs : List (RunProjection V)) → All P rs → All P (sort_runs rs)
  unfolding sort_runs
  sort_runs-All P [] h = tt
  sort_runs-All P (r ∷ rs) h = All-put_in_order P r (sort_runs rs) h.0 (sort_runs-All P rs h.1)

  -- The queue is in the order of the runs' priorities and, within one priority, of their ids; it holds the
  -- session's queued runs, each once: with other runs, none of which is queued, it makes up all the runs.
  pub queued_runs-InOrder :
      (p : SessionProjection V)
      → InOrder (queued_runs p)
        × All (λ (r : RunProjection V). r.status ≡ queued) (queued_runs p)
        × ((others : List (RunProjection V)) × All
              (λ (r : RunProjection V). r.status ≢ queued)
              others
            × Perm (queued_runs p ++ others) (values p.runs))
  unfolding queued_runs
  queued_runs-InOrder p =
      let is_waiting : RunProjection V → Bool = λ r. is_queued r.status in
      let runs = values p.runs in
      let others = select (λ r. not (is_waiting r)) runs in
      let (perm, passes, fails) = select-splits is_waiting runs in
      let (sorted, order) = sort_runs-lem (select is_waiting runs) in
      (
        InRunOrder-InOrder (sort_runs (select is_waiting runs)) order,
        sort_runs-All (λ r. r.status ≡ queued) (select is_waiting runs)
            (All-map _ _ (select is_waiting runs) (λ r. is_queued-status r.status) passes),
        (
          others,
          All-map _ _ others (λ r. is_queued-other r.status) fails,
          Perm.trans (Perm.append sorted (Perm.refl others)) perm,
        ),
      )

  -- The run that is served next is queued, and comes after no queued run of the session: each of those has
  -- a greater priority, or the same priority and an id that is not before its own.
  pub next_run-NotAfter :
      (p : SessionProjection V) (next : RunProjection V) (rest : List (RunProjection V))
      (run_id : String) (r : RunProjection V)
      → queued_runs p ≡ next ∷ rest
      → get run_id p.runs ≡ some r
      → r.status ≡ queued
      → (next.status ≡ queued) × NotAfter next r
  unfolding queued_runs
  next_run-NotAfter p next rest run_id r h found waiting =
      let runs = select (λ (r : RunProjection V). is_queued r.status) (values p.runs) in
      let (order, all_queued, others) = queued_runs-InOrder p in
      let ordered = rw h at (sort_runs-lem runs).1 in
      let before : All (Ordered next) (next ∷ rest) = (Ordered-refl next, ordered.0) in
      (
        (rw h at all_queued).0,
        Ordered-NotAfter next r (
            All-select (Ordered next) (λ (r : RunProjection V). is_queued r.status) p.runs run_id r
              (All-sort_runs (Ordered next) runs (rw h before)) found (rw waiting)),
      )
