-- ===== src/Server/Supervisor/Sessions.antt =====
-- Reading and writing the store of one session among the others.
use mathlib.Core.List.{append_assoc, append-nil}
use piqo_server.Core.EventLog.{RecordedEvent}
use piqo_server.Prelude.{sym, ◌∙◌, List, [], ◌∷◌, ◌++◌}
use piqo_server.Server.Supervisor.{publish_event, publish_all}
use piqo_server.Prelude.{
  String, ◌≡◌, refl, Option-cases, none, some, str_eq, inl, inr, Bool-cases, if◌then◌else◌,
}
use piqo_server.Prelude.Map.{get, insert, get-insert}
use piqo_server.Server.Storage.{SessionStore}
use piqo_server.Server.Supervisor.{Session, Supervisor, empty_store, store_of, put_store}

module _ {V : Type 0} where
  pub put_store-present :
      (k : String) (store : SessionStore V) (s : Supervisor V) {session : Session V}
      → get k s.sessions ≡ some session
      → put_store k store s
        ≡ record s { sessions = insert k (record session { store = store }) s.sessions }
  unfolding put_store
  put_store-present k store s h = rw (h, put_store) refl

  pub put_store-absent :
      (k : String) (store : SessionStore V) (s : Supervisor V)
      → get k s.sessions ≡ none
      → put_store k store s ≡ s
  unfolding put_store
  put_store-absent k store s h = rw (h, put_store) refl

  pub store_of-absent :
      (k : String) (s : Supervisor V) → get k s.sessions ≡ none → store_of k s ≡ empty_store
  unfolding store_of
  store_of-absent k s h = rw (h, store_of) refl

  pub store_of-present :
      (k : String) (s : Supervisor V) {session : Session V}
      → get k s.sessions ≡ some session
      → store_of k s ≡ session.store
  unfolding store_of
  store_of-present k s h = rw (h, store_of) refl

  pub store_of-same :
      (k : String) (s t : Supervisor V)
      → get k s.sessions ≡ get k t.sessions
      → store_of k s ≡ store_of k t
  unfolding store_of
  store_of-same k s t h = rw (h, store_of) refl

  -- writing the store of a session that is there changes what is read of that session, and of no other
  pub store_of-put_store :
      (k i : String) (store : SessionStore V) (s : Supervisor V) {session : Session V}
      → get k s.sessions ≡ some session
      → store_of i (put_store k store s) ≡ (if str_eq k i then store else store_of i s)
  store_of-put_store k i store s {session = session} h =
      let new = record session { store = store } in
      let after : Supervisor V = record s { sessions = insert k new s.sessions } in
      let found = get-insert k i new s.sessions in
      rw (put_store-present k store s h) (elim (Bool-cases (str_eq k i)) [
        | inl same ↦ rw same (store_of-present i after (rw same at found))
        | inr other ↦ rw other (store_of-same i after s (rw other at found))
      ])

  pub put_store-published :
      (k : String) (store : SessionStore V) (s : Supervisor V)
      → (put_store k store s).published ≡ s.published
  put_store-published k store s = elim (Option-cases (get k s.sessions)) [
    | inl absent ↦ rw (put_store-absent k store s absent) refl
    | inr (session, present) ↦ rw (put_store-present k store s present) refl
  ]

module _ {V : Type 0} where
  pub publish_all-sessions :
      (recorded : List (RecordedEvent V)) (s : Supervisor V)
      → (publish_all recorded s).sessions ≡ s.sessions
  unfolding publish_all publish_event
  publish_all-sessions [] s = refl
  publish_all-sessions (e ∷ recorded) s = publish_all-sessions recorded (publish_event e s)

  pub publish_all-published :
      (recorded : List (RecordedEvent V)) (s : Supervisor V)
      → (publish_all recorded s).published ≡ s.published ++ recorded
  unfolding publish_all publish_event
  publish_all-published [] s = sym (append-nil s.published)
  publish_all-published (e ∷ recorded) s =
      publish_all-published recorded (publish_event e s)
      ∙ append_assoc s.published (e ∷ []) recorded
