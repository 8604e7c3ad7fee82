-- ===== src/Server/Supervisor/Consistent.antt =====
-- The database stays consistent: every session's row and cached projection agree with its log.
use piqo_server.Prelude.{
  String, ◌≡◌, refl, Option-cases, Bool-cases, inl, inr, some, List, str_eq, Result, ok, err,
  eq_iff,
}
use piqo_server.Prelude.Map.{get, get-insert}
use piqo_server.Prelude.Steps.{update}
use piqo_server.Prelude.Steps.Keeps.{invariant}
use piqo_server.Core.Json.{Json}
use piqo_server.Core.Event.{EventId, SemanticEvent}
use piqo_server.Core.EventLog.{RecordedEvent}
use piqo_server.Core.Projection.{SessionProjection}
use piqo_server.Server.Admission.{AdmissionState, AdmissionError}
use piqo_server.Server.Storage.{SessionStore, StoreError, append_events, current}
use piqo_server.Server.Storage.Consistency.{IsConsistent, current-IsConsistent}
use piqo_server.Server.Storage.Appending.{append_events-IsConsistent}
use piqo_server.Server.Supervisor.{
  Session, Supervisor, Outside, store_of, put_store, store_events, publish_recorded, append_many,
  projection, cache_projection, take_place, reserve_place, release_place,
}
use piqo_server.Server.Supervisor.Sessions.{
  publish_all-sessions, put_store-present, put_store-absent, store_of-present,
}
use piqo_server.Server.Supervisor.Primitives.{Placing}
use piqo_server.Server.Supervisor.Calls.{Call, perform_all}
use piqo_server.Server.Supervisor.Calls.Performed.{perform_all-Keeps}

module _ {V : Type 0} ⦃j : Json V⦄ where
  abbrev pub AllConsistent : Supervisor V → Type 0
  AllConsistent s =
      (session_id : String) (session : Session V)
      → get session_id s.sessions ≡ some session
      → IsConsistent session_id session.store

  put_store-AllConsistent :
      (k : String) (store : SessionStore V) (s : Supervisor V)
      → AllConsistent s
      → ((session : Session V) → get k s.sessions ≡ some session → IsConsistent k store)
      → AllConsistent (put_store k store s)
  put_store-AllConsistent k store s c good i found h = elim (Option-cases (get k s.sessions)) [
    | inl absent ↦ c i found (rw (put_store-absent k store s absent) at h)
    | inr (session, present) ↦
        let new = record session { store = store } in
        let here = rw (put_store-present k store s present, get-insert k i new s.sessions) at h in
        elim (Bool-cases (str_eq k i)) [
          | inl same ↦
              let k_is : k ≡ i = (eq_iff k i).0 same in
              let is_new : new ≡ found = cc (rw same at here) in
              rw (← is_new, ← k_is) (good session present)
          | inr other ↦ c i found (rw other at here)
        ]
  ]

  appended-AllConsistent :
      (k : String) (now : EventId → String) (events : List (SemanticEvent V)) (s : Supervisor V)
      → AllConsistent s
      → AllConsistent
          (publish_recorded (store_events k s (append_events k now events (store_of k s)))).0
  unfolding store_events publish_recorded
  appended-AllConsistent k now events s c = go (append_events k now events (store_of k s)) refl
    where
      go :
          (r : Result StoreError (SessionStore V × List (RecordedEvent V)))
          → append_events k now events (store_of k s) ≡ r
          → AllConsistent (publish_recorded (store_events k s r)).0
      go (ok (store, recorded)) e i found there =
          put_store-AllConsistent k store s c
            (λ session present.
              (append_events-IsConsistent k now events session.store (c k session present)
                (rw (store_of-present k s present) at e)).0)
            i found (rw (publish_all-sessions recorded (put_store k store s)) at there)
      go (err x) e i found there = c i found there

  -- a consistent session with its projection cached
  cached-IsConsistent :
      (k : String) (store : SessionStore V) (p : SessionProjection V)
      → IsConsistent k store
      → current k store ≡ ok p
      → IsConsistent k (record store { cached = some p })
  cached-IsConsistent k store p c h =
      let p_is : c.state ≡ p = cc (current-IsConsistent k store c) in
      record {
        state = c.state;
        replays = c.replays;
        has_events = c.has_events;
        row_agrees = c.row_agrees;
        last_agrees = c.last_agrees;
        cache_agrees = inr (rw p_is refl);
      }

  cached-AllConsistent :
      (k : String) (s : Supervisor V) {session : Session V}
      (r : Result StoreError (SessionProjection V))
      → get k s.sessions ≡ some session
      → current k session.store ≡ r
      → AllConsistent s
      → AllConsistent (cache_projection k s r).0
  cached-AllConsistent k s {session = session} (ok p) present e c =
      put_store-AllConsistent k (record (store_of k s) { cached = some p }) s c
        (λ found there.
          rw (store_of-present k s present)
            (cached-IsConsistent k session.store p (c k session present) e))
  cached-AllConsistent k s (err x) present e c = c

  projection-AllConsistent :
      (k : String) (s : Supervisor V) → AllConsistent s → AllConsistent (projection k s).0
  unfolding projection
  projection-AllConsistent k s c = elim (Option-cases (get k s.sessions)) [
    | inl absent ↦ rw (absent, projection) c
    | inr (session, present) ↦
        rw (present, projection) (cached-AllConsistent k s (current k session.store) present refl c)
  ]

  take_place-AllConsistent :
      (s : Supervisor V) (r : Result AdmissionError AdmissionState)
      → AllConsistent s
      → AllConsistent (take_place s r).0
  take_place-AllConsistent s (ok a) c = c
  take_place-AllConsistent s (err e) c = c

module _ {V : Type 0} ⦃j : Json V⦄ (outside : Outside V) where
  consistent-Placing : Placing outside (invariant AllConsistent)
  unfolding append_many release_place update reserve_place
  consistent-Placing = record {
    primitives = record {
      elsewhere = λ s t h c i session there. c i session (rw h.same_sessions at there);
      appending = λ k events. record { over = λ s. appended-AllConsistent k _ events s };
      projecting = λ k. record { over = projection-AllConsistent k };
      releasing = λ run_id. record { over = λ s c. c };
    };
    reserving = λ k run_id. record { over = λ s. take_place-AllConsistent s _ };
  }

  -- While calls do not overlap, each being over when the next begins: whatever they are, in whatever order,
  -- whether they succeed or fail, every session of a consistent database stays consistent, its log
  -- replays, and its row and its cached projection agree with what it replays to.
  pub perform_all-IsConsistent :
      (calls : List (Call V)) (s : Supervisor V)
      → AllConsistent s
      → AllConsistent (perform_all outside calls s)
  perform_all-IsConsistent = perform_all-Keeps outside (invariant AllConsistent) consistent-Placing
