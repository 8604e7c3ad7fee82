-- ===== src/Core/Projection/Messages/Ids.antt =====
-- The message arms keep the ids of messages distinct.
use piqo_server.Prelude.{
  String, Bool, true, false, not, none, some, ◌≡◌, refl, ◌∙◌, inl, inr, List, [], ◌∷◌, ◌++◌, any,
  str_eq, eq_iff, if◌then◌else◌, Result, ok, map_ok-eq-ok, Bool-cases, arith,
}
use piqo_server.Core.Phases.{MessageRole, MessageAuthor, ContentBlock}
use piqo_server.Core.Errors.{ProjectionError}
use piqo_server.Core.Event.{EventId}
use piqo_server.Core.Projection.{MessageProjection}
use piqo_server.Core.Projection.Shape.{Distinct}
use piqo_server.Core.Projection.Messages.{
  projected_author, start_message, edit_message, if_open, append_content, complete_message,
  interrupt_message,
}

module _ {V : Type 0} where
  abbrev has_id : String → List (MessageProjection V) → Bool
  has_id id = any (λ n. str_eq n.message_id id)

  has_id-append :
      (id : String) (ms : List (MessageProjection V)) (m : MessageProjection V)
      → has_id id ms ≡ false
      → str_eq m.message_id id ≡ false
      → has_id id (ms ++ m ∷ []) ≡ false
  has_id-append id [] m h k = ground arith
  has_id-append id (n ∷ ms) m h k = ground (arith, has_id-append id ms m)

  not_head :
      (n m : MessageProjection V) (id : String)
      → m.message_id ≡ id
      → str_eq n.message_id id ≡ false
      → str_eq m.message_id n.message_id ≡ false
  not_head n m id e h = ground (arith, eq_iff n.message_id id, eq_iff m.message_id n.message_id)

  Distinct-append :
      (ms : List (MessageProjection V)) (m : MessageProjection V)
      → Distinct ms
      → has_id m.message_id ms ≡ false
      → Distinct (ms ++ m ∷ [])
  Distinct-append [] m d h = (refl, tt)
  Distinct-append (n ∷ ms) m d h = elim (Bool-cases (str_eq n.message_id m.message_id)) [
    | inl same ↦ absurd (cc (rw same at h))
    | inr other ↦ (
      has_id-append n.message_id ms m d.0 (not_head n m m.message_id refl other),
      Distinct-append ms m d.1 (rw other at h),
    )
  ]

  -- a change of a message that leaves its id
  abbrev KeepsId : (MessageProjection V → Result ProjectionError (MessageProjection V)) → Type 0
  KeepsId change = (m n : MessageProjection V) → change m ≡ ok n → n.message_id ≡ m.message_id

  has_id-edit_message :
      (id other : String)
      (change : MessageProjection V → Result ProjectionError (MessageProjection V))
      (ms : List (MessageProjection V)) {ns : List (MessageProjection V)}
      → KeepsId change
      → edit_message id change ms ≡ ok ns
      → has_id other ns ≡ has_id other ms
  unfolding edit_message
  has_id-edit_message id other change [] keep h = absurd (cc)
  has_id-edit_message id other change (m ∷ ms) keep h = elim (Bool-cases (str_eq m.message_id id)) [
    | inl here ↦
        let (n, changed, e) = map_ok-eq-ok (λ n. n ∷ ms) (change m) (rw here at h) in
        rw (← e) (rw (keep m n changed))
    | inr further ↦
        let (ns, edited, e) =
          map_ok-eq-ok (λ ns. m ∷ ns) (edit_message id change ms) (rw further at h) in
        rw (← e) (rw (has_id-edit_message id other change ms keep edited))
  ]

  Distinct-edit_message :
      (id : String) (change : MessageProjection V → Result ProjectionError (MessageProjection V))
      (ms : List (MessageProjection V)) {ns : List (MessageProjection V)}
      → KeepsId change
      → Distinct ms
      → edit_message id change ms ≡ ok ns
      → Distinct ns
  unfolding edit_message
  Distinct-edit_message id change [] keep d h = absurd (cc)
  Distinct-edit_message id change (m ∷ ms) keep d h = elim (Bool-cases (str_eq m.message_id id)) [
    | inl here ↦
        let (n, changed, e) = map_ok-eq-ok (λ n. n ∷ ms) (change m) (rw here at h) in
        rw (← e) (rw (keep m n changed) d.0, d.1)
    | inr further ↦
        let (ns, edited, e) =
          map_ok-eq-ok (λ ns. m ∷ ns) (edit_message id change ms) (rw further at h) in
        rw (← e) (
          has_id-edit_message id m.message_id change ms keep edited ∙ d.0,
          Distinct-edit_message id change ms keep d.1 edited,
        )
  ]

  if_open-id :
      (id : String) (m m' n : MessageProjection V)
      → m'.message_id ≡ m.message_id
      → if_open id m m' ≡ ok n
      → n.message_id ≡ m.message_id
  unfolding if_open
  if_open-id id m m' n e h = ground arith

  pub start_message-Distinct :
      (event_id : EventId) (id agent_id : String) (role : MessageRole) (author : MessageAuthor)
      (ms : List (MessageProjection V)) {ns : List (MessageProjection V)}
      → Distinct ms
      → start_message event_id id agent_id role author ms ≡ ok ns
      → Distinct ns
  unfolding start_message
  start_message-Distinct event_id id agent_id role author ms {ns = ns} d h =
      rw (started.1) (Distinct-append ms new_message d started.0)
    where
      new_message : MessageProjection V
      new_message = record {
        message_id = id;
        role = role;
        agent_id = if not (str_eq agent_id "") then some agent_id else none;
        author = projected_author author role (str_eq agent_id "") agent_id;
        blocks = [];
        completed = false;
        interrupted = false;
        first_event_id = event_id;
        last_event_id = event_id;
      }

      started : (has_id id ms ≡ false) × (ns ≡ ms ++ new_message ∷ [])
      started = ground arith

  pub append_content-Distinct :
      (event_id : EventId) (id : String) (block : ContentBlock V) (ms : List (MessageProjection V))
      {ns : List (MessageProjection V)}
      → Distinct ms
      → append_content event_id id block ms ≡ ok ns
      → Distinct ns
  unfolding append_content
  append_content-Distinct event_id id block ms d h =
      Distinct-edit_message id
        (λ m. if_open id m (record m { blocks = m.blocks ++ block ∷ []; last_event_id = event_id }))
        ms
        (λ m n.
          if_open-id id m (record m { blocks = m.blocks ++ block ∷ []; last_event_id = event_id }) n
            refl)
        d h

  pub complete_message-Distinct :
      (event_id : EventId) (id : String) (ms : List (MessageProjection V))
      {ns : List (MessageProjection V)}
      → Distinct ms
      → complete_message event_id id ms ≡ ok ns
      → Distinct ns
  unfolding complete_message
  complete_message-Distinct event_id id ms d h =
      Distinct-edit_message id
        (λ m. if_open id m (record m { completed = true; last_event_id = event_id })) ms
        (λ m n. if_open-id id m (record m { completed = true; last_event_id = event_id }) n refl) d
        h

  pub interrupt_message-Distinct :
      (event_id : EventId) (id : String) (ms : List (MessageProjection V))
      {ns : List (MessageProjection V)}
      → Distinct ms
      → interrupt_message event_id id ms ≡ ok ns
      → Distinct ns
  unfolding interrupt_message
  interrupt_message-Distinct event_id id ms d h =
      Distinct-edit_message id
        (λ m. if_open id m (record m { interrupted = true; last_event_id = event_id })) ms
        (λ m n. if_open-id id m (record m { interrupted = true; last_event_id = event_id }) n refl)
        d h
