-- ===== src/Server/Admission/Balance.antt =====
-- The counts of admission agree with the runs that hold a place.
use piqo_server.Prelude.{
  ℕ, ◌+◌, ◌-◌, ◌≤◌, ◌<◌, String, ◌≡◌, ◌↔◌, ◌⊎◌, refl, inl, inr, none, some, [], ◌∷◌, length, str_eq,
  eq_iff, unwrap_or, if◌then◌else◌, Bool-cases, Option-cases, ok, err, arith,
}
use text.Mathlib.TextPositions.{eq_refl}
use piqo_server.Prelude.Order.{eq_of_compare}
use piqo_server.Prelude.Map.{Map, get, insert, remove, get-insert, get-remove}
use piqo_server.Prelude.Map.Sorted.{IsSorted, insert-IsSorted, remove-IsSorted, remove-first}
use piqo_server.Server.Admission.{
  AdmissionState, Limits, new, reserve, release, decrement, session_pending, placed,
  run_capacity_exceeded,
}

-- how many runs hold a place for a session
abbrev pub holders : String → Map String → ℕ
holders s [] = 0
holders s ((run, t) ∷ m) = (if str_eq t s then 1 else 0) + holders s m

-- The counts are those of `run_sessions`, and lie within the limits.
pub record IsBalanced (limits : Limits) (state : AdmissionState) : Type 0 where
  pub ordered : IsSorted state.run_sessions
  pub all_counted : state.pending ≡ length state.run_sessions
  pub each_counted : (s : String) → session_pending state s ≡ holders s state.run_sessions
  pub within : state.pending ≤ limits.max_pending_runs
  pub each_within : (s : String) → session_pending state s ≤ limits.max_pending_runs_per_session

holders-insert :
    (s k v : String) (m : Map String)
    → get k m ≡ none
    → holders s (insert k v m) ≡ (if str_eq v s then 1 else 0) + holders s m
unfolding get insert
holders-insert s k v [] h = refl
holders-insert s k v ((j, w) ∷ m) h =
    ground (arith, eq_iff j k, eq_of_compare k j, holders-insert s k v m)

length-insert :
    (k v : String) (m : Map String) → get k m ≡ none → length (insert k v m) ≡ length m + 1
unfolding get insert
length-insert k v [] h = omega arith
length-insert k v ((j, w) ∷ m) h =
    ground (arith, eq_iff j k, eq_of_compare k j, length-insert k v m)

holders-remove :
    (s k v : String) (m : Map String)
    → IsSorted m
    → get k m ≡ some v
    → holders s m ≡ (if str_eq v s then 1 else 0) + holders s (remove k m)
unfolding get remove
holders-remove s k v [] sorted h = ground arith
holders-remove s k v ((j, w) ∷ m) sorted h = elim (Bool-cases (str_eq j k)) [
  | inl same ↦ rw (remove-first j k w m sorted same) (ground arith)
  | inr other ↦ ground (arith, holders-remove s k v m sorted.1)
]

length-remove :
    (k v : String) (m : Map String)
    → IsSorted m
    → get k m ≡ some v
    → length m ≡ length (remove k m) + 1
unfolding get remove
length-remove k v [] sorted h = ground arith
length-remove k v ((j, w) ∷ m) sorted h = elim (Bool-cases (str_eq j k)) [
  | inl same ↦ rw (remove-first j k w m sorted same) (omega arith)
  | inr other ↦ ground (arith, length-remove k v m sorted.1)
]

-- Before any run is queued the counts agree.
pub new-IsBalanced : (limits : Limits) → IsBalanced limits new
unfolding new get
new-IsBalanced limits = record {
  ordered = tt;
  all_counted = refl;
  each_counted = λ s. refl;
  within = omega arith;
  each_within = λ s. omega arith;
}

get-decrement :
    (s t : String) (m : Map ℕ)
    → unwrap_or (get s (decrement t m)) 0
      ≡ (if str_eq t s then unwrap_or (get s m) 0 - 1 else unwrap_or (get s m) 0)
unfolding decrement
get-decrement s t m =
    ground (arith, eq_iff t s, get-remove t s m, get-insert t s (unwrap_or (get t m) 0 - 1) m)

-- A reservation is refused exactly when the pending runs have reached the limit of the server or that
-- of the session.
pub reserve_refused :
    (limits : Limits) (state : AdmissionState) (session_id run_id : String)
    → (reserve limits state session_id run_id ≡ err run_capacity_exceeded) ↔ (
        (limits.max_pending_runs ≤ state.pending)
        ⊎ (limits.max_pending_runs_per_session ≤ session_pending state session_id))
unfolding reserve
reserve_refused limits state session_id run_id = ground arith

reserve-eq-ok :
    (limits : Limits) (state : AdmissionState) (session_id run_id : String) {after : AdmissionState}
    → reserve limits state session_id run_id ≡ ok after
    → (state.pending < limits.max_pending_runs)
      × (session_pending state session_id < limits.max_pending_runs_per_session)
      × (placed state session_id run_id ≡ after)
unfolding reserve
reserve-eq-ok limits state session_id run_id e = ground arith

placed-session_pending :
    (state : AdmissionState) (session_id run_id s : String)
    → session_pending (placed state session_id run_id) s
      ≡ (if str_eq session_id s then 1 else 0) + session_pending state s
placed-session_pending state session_id run_id s = ground (
  arith,
  eq_iff session_id s,
  get-insert session_id s (session_pending state session_id + 1) state.sessions,
)

-- A reservation for a run that holds no place keeps the counts in agreement and within the limits.
pub reserve-IsBalanced :
    (limits : Limits) (state : AdmissionState) (session_id run_id : String) {after : AdmissionState}
    → IsBalanced limits state
    → get run_id state.run_sessions ≡ none
    → reserve limits state session_id run_id ≡ ok after
    → IsBalanced limits after
reserve-IsBalanced limits state session_id run_id balanced fresh e =
    let (room, session_room, done) = reserve-eq-ok limits state session_id run_id e in
    rw (← done) (record {
      ordered = insert-IsSorted run_id session_id state.run_sessions balanced.ordered;
      all_counted =
          ground
            (arith, balanced.all_counted, length-insert run_id session_id state.run_sessions fresh);
      each_counted = λ s. ground (
        arith,
        placed-session_pending state session_id run_id s,
        balanced.each_counted s,
        holders-insert s run_id session_id state.run_sessions fresh,
      );
      within = omega arith;
      each_within = λ s. ground (
        arith,
        eq_iff session_id s,
        placed-session_pending state session_id run_id s,
        balanced.each_within s,
      );
    })

-- Giving a place back keeps the counts in agreement, whether or not the run held one.
pub release-IsBalanced :
    (limits : Limits) (state : AdmissionState) (run_id : String)
    → IsBalanced limits state
    → IsBalanced limits (release state run_id)
unfolding release
release-IsBalanced limits state run_id balanced =
    elim (Option-cases (get run_id state.run_sessions)) [
      | inl absent ↦ rw (release, absent) balanced
      | inr (session_id, held) ↦
          rw (release, held)
            (record {
              ordered = remove-IsSorted run_id state.run_sessions balanced.ordered;
              all_counted = ground (
                arith,
                balanced.all_counted,
                length-remove run_id session_id state.run_sessions balanced.ordered held,
              );
              each_counted = λ s. ground (
                arith,
                get-decrement s session_id state.sessions,
                balanced.each_counted s,
                holders-remove s run_id session_id state.run_sessions balanced.ordered held,
              );
              within = ground (arith, balanced.within);
              each_within = λ s.
                  ground (arith, get-decrement s session_id state.sessions, balanced.each_within s);
            })
    ]

release-placed :
    (state : AdmissionState) (session_id run_id : String)
    → get run_id state.run_sessions ≡ none
    → ((release (placed state session_id run_id) run_id).pending ≡ state.pending)
      × ((s : String)
          → session_pending (release (placed state session_id run_id) run_id) s
            ≡ session_pending state s)
      × ((run : String)
          → get run (release (placed state session_id run_id) run_id).run_sessions
            ≡ get run state.run_sessions)
unfolding release
release-placed state session_id run_id fresh =
    let held : get run_id (insert run_id session_id state.run_sessions) ≡ some session_id =
      ground (arith, eq_refl run_id, get-insert run_id run_id session_id state.run_sessions) in
    rw (release, held)
      (
        omega arith,
        λ s. ground (
          arith,
          get-decrement s session_id (placed state session_id run_id).sessions,
          placed-session_pending state session_id run_id s,
        ),
        λ run. ground (
          arith,
          eq_iff run_id run,
          get-remove run_id run (insert run_id session_id state.run_sessions),
          get-insert run_id run session_id state.run_sessions,
        ),
      )

-- A place that is reserved for a run that held none and then given back leaves every count as it was.
pub release-reserve :
    (limits : Limits) (state : AdmissionState) (session_id run_id : String) {after : AdmissionState}
    → get run_id state.run_sessions ≡ none
    → reserve limits state session_id run_id ≡ ok after
    → ((release after run_id).pending ≡ state.pending)
      × ((s : String) → session_pending (release after run_id) s ≡ session_pending state s)
      × ((run : String) → get run (release after run_id).run_sessions ≡ get run state.run_sessions)
release-reserve limits state session_id run_id {after = after} fresh e =
    let (room, session_room, done) = reserve-eq-ok limits state session_id run_id e in
    rw (← done) (release-placed state session_id run_id fresh)
