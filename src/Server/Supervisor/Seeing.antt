-- ===== src/Server/Supervisor/Seeing.antt =====
-- What a session's projection is, as the supervisor's methods see it, and how an appended event moves it.
use piqo_server.Prelude.{
  ◌+◌, String, ◌≡◌, refl, sym, ap, ◌∙◌, Option-cases, inl, inr, some, List, [], ◌∷◌, length, Result,
  ok, err,
}
use text.Mathlib.TextPositions.{eq_refl}
use piqo_server.Prelude.Map.{get}
use piqo_server.Core.Json.{Json}
use piqo_server.Core.Event.{EventId, SemanticEvent}
use piqo_server.Core.EventLog.{RecordedEvent}
use piqo_server.Core.Projection.{SessionProjection}
use piqo_server.Core.Projection.Apply
use piqo_server.Server.Storage.{SessionStore, StoreError, append_events, current, project, replay}
use piqo_server.Server.Storage.Advancing.{append_events-applied}
use piqo_server.Server.Supervisor.{
  Session, Supervisor, Outside, empty_store, store_events, publish_recorded, append_many, append,
  projection, cache_projection, store_of, put_store,
}
use piqo_server.Server.Supervisor.Sessions.{
  publish_all-sessions, store_of-put_store, store_of-absent, store_of-present, store_of-same,
}

module _ {V : Type 0} ⦃j : Json V⦄ where
  -- the projection that a method on the session starts from
  abbrev pub Sees : String → Supervisor V → SessionProjection V → Type 0
  Sees k s p = current k (store_of k s) ≡ ok p

  no_projection : (k : String) {p : SessionProjection V} → ¬ (current k empty_store ≡ ok p)
  unfolding current project replay
  no_projection k h = absurd (cc)

  -- writing the store of a session whose projection was seen
  put_store-Sees :
      (k : String) (store : SessionStore V) (s : Supervisor V) {p q : SessionProjection V}
      → Sees k s p
      → current k store ≡ ok q
      → Sees k (put_store k store s) q
  put_store-Sees k store s seen h = elim (Option-cases (get k s.sessions)) [
    | inl absent ↦ absurd (no_projection k (rw (store_of-absent k s absent) at seen))
    | inr (session, present) ↦
        let there = store_of-put_store k k store s present in rw (there, eq_refl k) h
  ]

  -- An appended event is applied to the session's projection.
  pub append-Sees :
      (outside : Outside V) (k : String) (event : SemanticEvent V) (s : Supervisor V)
      (p : SessionProjection V) {t : Supervisor V} {recorded : List (RecordedEvent V)}
      → Sees k s p
      → append outside k event s ≡ (t, ok recorded)
      → (event_id : EventId) × (q : SessionProjection V) × (Apply.apply p event_id event
          ≡ (q, ok tt))
        × Sees k t q
  unfolding append append_many store_events publish_recorded
  append-Sees outside k event s p {t = t} {recorded = recorded} seen h =
      go (append_events k now (event ∷ []) (store_of k s)) refl h
    where
      now : EventId → String
      now reading = outside.now (length s.published + reading)

      go :
          (r : Result StoreError (SessionStore V × List (RecordedEvent V)))
          → append_events k now (event ∷ []) (store_of k s) ≡ r
          → publish_recorded (store_events k s r) ≡ (t, ok recorded)
          → (event_id : EventId) × (q : SessionProjection V) × (Apply.apply p event_id event
              ≡ (q, ok tt))
            × Sees k t q
      go (ok (store, new)) e done =
          let (event_id, q, accepted, now_is) =
            append_events-applied k now event (store_of k s) p seen e in
          let after = put_store-Sees k store s seen now_is in
          let sessions =
            sym (publish_all-sessions new (put_store k store s))
            ∙ ap (λ (x : Supervisor V × Result StoreError (List (RecordedEvent V))). x.0.sessions)
                done in
          (
            event_id,
            q,
            accepted,
            rw (store_of-same k t (put_store k store s) (rw (← sessions) refl)) after,
          )
      go (err x) e done = absurd (cc)

module _ {V : Type 0} ⦃j : Json V⦄ where
  pub same-Sees :
      (k : String) (s t : Supervisor V) {p : SessionProjection V}
      → t.sessions ≡ s.sessions
      → Sees k s p
      → Sees k t p
  same-Sees k s t sessions seen = rw (store_of-same k t s (rw sessions refl)) seen

  cached-Sees :
      (k : String) (s : Supervisor V) {session : Session V}
      (r : Result StoreError (SessionProjection V)) {t : Supervisor V} {p : SessionProjection V}
      → get k s.sessions ≡ some session
      → current k session.store ≡ r
      → cache_projection k s r ≡ (t, ok p)
      → Sees k s p × Sees k t p
  unfolding current
  cached-Sees k s {session = session} (ok q) {t = t} {p = p} present e h =
      let q_is : q ≡ p = cc in
      let seen : Sees k s p = rw (store_of-present k s present, ← q_is) e in
      let after = record (store_of k s) { cached = some q } in
      let here : Sees k (put_store k after s) q = put_store-Sees k after s seen refl in
      let sessions =
        ap (λ (x : Supervisor V × Result StoreError (SessionProjection V)). x.0.sessions) h in
      (seen, rw (← q_is) (same-Sees k (put_store k after s) t (sym sessions) here))
  cached-Sees k s (err x) present e h = absurd (cc)

  -- A projection that is returned is the session's, before and after.
  pub projection-Sees :
      (k : String) (s : Supervisor V) {t : Supervisor V} {p : SessionProjection V}
      → projection k s ≡ (t, ok p)
      → Sees k s p × Sees k t p
  unfolding projection
  projection-Sees k s h = elim (Option-cases (get k s.sessions)) [
    | inl absent ↦ absurd (cc (rw (absent, projection) at h))
    | inr (session, present) ↦
        cached-Sees k s (current k session.store) present refl (rw (present, projection) at h)
  ]
