-- ===== src/Server/Supervisor/Guards.antt =====
-- What is known after the steps that methods begin with, and after the events of a method are appended.
use piqo_server.Prelude.{
  ◌+◌, String, false, not, ◌≡◌, refl, sym, ap, ◌∙◌, inl, inr, Option-cases, Option, none, some,
  List, ◌++◌, map, length, Result, ok, err, ok_or, arith,
}
use piqo_server.Prelude.Map.{get}
use piqo_server.Prelude.Steps.{lift, read, update}
use piqo_server.Prelude.Steps.Succeeds.{
  >>=-succeeds, check-succeeds, lift-succeeds, read-succeeds, pure-succeeds,
}
use piqo_server.Core.Json.{Json}
use piqo_server.Core.Event.{EventId, SemanticEvent}
use piqo_server.Core.EventLog.{RecordedEvent}
use piqo_server.Core.Projection.{SessionProjection}
use piqo_server.Server.Storage.{SessionStore, StoreError, session_not_found, append_events, current}
use piqo_server.Server.Storage.Recording.{append_events-recorded}
use piqo_server.Server.Supervisor.Sessions.{publish_all-published}
use piqo_server.Server.Supervisor.{
  Supervisor, Outside, store_events, publish_recorded, put_store, append_many, projection,
  cache_projection, store_of, ensure_running, ensure_session_mutable, get_session, refuse_deleting,
  project_is_deleting, spawn_worker,
}
use piqo_server.Server.Supervisor.Sessions.{put_store-published}

module _ {V : Type 0} where
  pub ensure_running-succeeds :
      (s : Supervisor V) {t : Supervisor V}
      → ensure_running s ≡ (t, ok tt)
      → (s.is_shutting_down ≡ false) × (t ≡ s)
  unfolding ensure_running
  ensure_running-succeeds s h =
      let (stopping, u, seen, rest) =
        >>=-succeeds (read (λ (s : Supervisor V). s.is_shutting_down)) _ s h in
      let (goes, same) = check-succeeds (not stopping) _ u rest in
      let (is, unmoved) = read-succeeds (λ (s : Supervisor V). s.is_shutting_down) s seen in
      (is ∙ ground arith, same ∙ unmoved)

  refuse_deleting-succeeds :
      (project_id : Option String) (s : Supervisor V) {t : Supervisor V}
      → refuse_deleting project_id s ≡ (t, ok tt)
      → t ≡ s
  unfolding refuse_deleting project_is_deleting
  refuse_deleting-succeeds none s h = (pure-succeeds tt s h).1
  refuse_deleting-succeeds (some project_id) s h =
      let (deleting, u, seen, rest) = >>=-succeeds (project_is_deleting project_id) _ s h in
      let (is, unmoved) = read-succeeds _ s seen in
      (check-succeeds (not deleting) _ u rest).1 ∙ unmoved

  pub ensure_session_mutable-succeeds :
      (session_id : String) (s : Supervisor V) {t : Supervisor V}
      → ensure_session_mutable session_id s ≡ (t, ok tt)
      → t ≡ s
  unfolding ensure_session_mutable get_session lift
  ensure_session_mutable-succeeds session_id s h =
      let (session, u, seen, rest) = >>=-succeeds (get_session session_id) _ s h in
      refuse_deleting-succeeds session.project_id u rest
      ∙ (lift-succeeds (ok_or (get session_id s.sessions) (session_not_found session_id)) s seen).1

  pub spawn_worker-published :
      (session_id : String) (s : Supervisor V)
      → (spawn_worker session_id s).0.published ≡ s.published
  unfolding spawn_worker update
  spawn_worker-published session_id s = ground arith

module _ {V : Type 0} ⦃j : Json V⦄ where
  cache_projection-published :
      (k : String) (s : Supervisor V) (r : Result StoreError (SessionProjection V))
      → (cache_projection k s r).0.published ≡ s.published
  cache_projection-published k s (ok p) = put_store-published k _ s
  cache_projection-published k s (err e) = refl

  pub projection-published :
      (k : String) (s : Supervisor V) → (projection k s).0.published ≡ s.published
  unfolding projection
  projection-published k s = elim (Option-cases (get k s.sessions)) [
    | inl absent ↦ rw (absent, projection) refl
    | inr (session, present) ↦
        rw (present, projection) (cache_projection-published k s (current k session.store))
  ]

module _ {V : Type 0} ⦃j : Json V⦄ (outside : Outside V) where
  -- what is published is what was to be recorded
  pub append_many-published :
      (session_id : String) (events : List (SemanticEvent V)) (s : Supervisor V) {t : Supervisor V}
      {recorded : List (RecordedEvent V)}
      → append_many outside session_id events s ≡ (t, ok recorded)
      → (t.published ≡ s.published ++ recorded) × (map (λ e. e.event) recorded ≡ events)
  unfolding append_many store_events publish_recorded
  append_many-published session_id events s {t = t} {recorded = recorded} h =
      go (append_events session_id now events (store_of session_id s)) refl h
    where
      now : EventId → String
      now reading = outside.now (length s.published + reading)

      go :
          (r : Result StoreError (SessionStore V × List (RecordedEvent V)))
          → append_events session_id now events (store_of session_id s) ≡ r
          → publish_recorded (store_events session_id s r) ≡ (t, ok recorded)
          → (t.published ≡ s.published ++ recorded) × (map (λ e. e.event) recorded ≡ events)
      go (ok (store, new)) e k =
          let (grown, events_are, here) =
            append_events-recorded session_id now events (store_of session_id s) e in
          let new_is : new ≡ recorded = cc in
          let published : s.published ++ new ≡ t.published =
            sym (
              publish_all-published new (put_store session_id store s)
              ∙ ap (λ (l : List (RecordedEvent V)). l ++ new)
                  (put_store-published session_id store s))
            ∙ ap (λ (p : Supervisor V × Result StoreError (List (RecordedEvent V))). p.0.published)
                k in
          (rw (← new_is) (sym published), rw (← new_is) events_are)
      go (err x) e k = absurd (cc)
