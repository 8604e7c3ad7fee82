-- ===== src/Server/Storage/Consistency.antt =====
-- A session's row and its cached projection agree with its log.
use piqo_server.Prelude.{
  ℕ, String, Bool, true, false, not, ◌||◌, ◌==◌, ◌↔◌, if◌then◌else◌, unwrap_or, err, >>=-eq-ok, ◌≡◌,
  ◌⊎◌, inl, inr, refl, Option, none, some, length, is_empty, ok, arith,
}
use piqo_server.Core.Json.{Json}
use piqo_server.Core.Event.{session_created}
use piqo_server.Core.SessionState.{Outcome, same_phase}
use piqo_server.Core.SessionState
use piqo_server.Core.Projection.{SessionProjection}
use piqo_server.Core.Projection.Apply
use piqo_server.Core.Projection.Apply.{project_event}
use piqo_server.Core.Phases.{SessionPhase}
use piqo_server.Server.Storage.{
  SessionStore, SessionRow, StoreError, row_of, replay, project, current, validate, create_session,
  applied,
}

same_phase_refl : (phase : SessionPhase) → same_phase phase phase ≡ true
same_phase_refl phase = ground arith

same_phase-eq : (s t : SessionPhase) → same_phase s t ≡ true → t ≡ s
same_phase-eq s t h = ground arith

abbrev checked : Bool → StoreError → Outcome StoreError
checked bad e = if bad then err e else ok tt

passed :
    (phase phase' : SessionPhase) (revision revision' last_id last_id' : ℕ) (e : StoreError)
    → checked
        (not (same_phase phase phase') || not (revision == revision') || not (last_id == last_id'))
        e
      ≡ ok tt
    → (phase' ≡ phase) × (revision' ≡ revision) × (last_id' ≡ last_id)
passed phase phase' revision revision' last_id last_id' e h =
    (same_phase-eq phase phase' (ground arith), ground arith, ground arith)

module _ {V : Type 0} ⦃j : Json V⦄ where
  -- The log replays, the row holds the phase, the revision and the last id of what it replays to, and
  -- the cache is empty or holds it.
  pub record IsConsistent (session_id : String) (store : SessionStore V) : Type 0 where
    pub state : SessionProjection V
    pub replays : replay session_id 1 (Apply.new session_id) store.events ≡ ok state
    pub has_events : is_empty store.events ≡ false
    pub row_agrees : store.row ≡ some (row_of state (length store.events))
    pub last_agrees : state.state.last_event_id ≡ some (length store.events)
    pub cache_agrees : (store.cached ≡ none) ⊎ (store.cached ≡ some state)

  project-IsConsistent :
      (session_id : String) (store : SessionStore V) (c : IsConsistent session_id store)
      → project session_id store.events ≡ ok c.state
  unfolding project
  project-IsConsistent session_id store c = rw (c.replays, c.has_events) refl

  -- The projection that a consistent session's operations start from is what its log replays to,
  -- whether or not it is cached.
  pub current-IsConsistent :
      (session_id : String) (store : SessionStore V) (c : IsConsistent session_id store)
      → current session_id store ≡ ok c.state
  unfolding current
  current-IsConsistent session_id store c = elim c.cache_agrees [
    | inl empty ↦ rw empty (project-IsConsistent session_id store c)
    | inr full ↦ rw full refl
  ]

  -- the log replays, to the phase, the revision and the last id that the row has
  abbrev pub RowAgrees : String → SessionStore V → SessionRow → Type 0
  RowAgrees session_id store row =
      (p : SessionProjection V) × (project session_id store.events ≡ ok p)
      × (row.phase ≡ p.state.phase)
      × (row.revision ≡ p.state.revision)
      × (row.last_event_id ≡ unwrap_or p.state.last_event_id 0)

  -- The check that the server makes when it starts accepts a session exactly if its log replays to the
  -- phase, the revision and the last event id that its row has.
  pub validate-RowAgrees :
      (session_id : String) (store : SessionStore V) (row : SessionRow)
      → store.row ≡ some row
      → (validate session_id store ≡ ok tt) ↔ RowAgrees session_id store row
  unfolding validate
  validate-RowAgrees session_id store row present = (
    λ h.
        let (p, projects, rest) = >>=-eq-ok (project session_id store.events) _ (rw present at h) in
        let (phase_is, revision_is, last_is) =
          passed p.state.phase row.phase p.state.revision row.revision
            (unwrap_or p.state.last_event_id 0) row.last_event_id _ rest in
        (p, projects, phase_is, revision_is, last_is),
    λ (p, projects, phase_is, revision_is, last_is).
        rw (present, projects, phase_is, revision_is, last_is, same_phase_refl p.state.phase)
          (ground arith),
  )

  -- A session that was just created is consistent.
  pub create_session-IsConsistent :
      (session_id now : String) (title : Option String)
      → IsConsistent session_id (create_session {V = V} session_id now title)
  unfolding create_session replay applied Apply.new Apply.apply SessionState.new SessionState.apply
      project_event
  create_session-IsConsistent session_id now title = record {
    state = (Apply.apply (Apply.new session_id) 1 (session_created title)).0;
    replays = refl;
    has_events = refl;
    row_agrees = refl;
    last_agrees = refl;
    cache_agrees = inl refl;
  }
