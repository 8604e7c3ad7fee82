-- ===== src/Core/Projection/Messages/Growth.antt =====
-- How the transcript fares: messages are only added at its end, their blocks only appended to, and a
-- closed message is final. No two messages share an id.
use piqo_server.Prelude.{
  String, true, false, not, ◌||◌, ◌≡◌, refl, sym, ◌∙◌, none, some, List, [], ◌∷◌, ◌++◌, str_eq,
  if◌then◌else◌, Result, ok, map_ok-eq-ok, arith, Bool-cases, inl, inr,
}
use mathlib.Core.List.{append-nil, append_assoc}
use piqo_server.Core.Phases.{MessageRole, MessageAuthor, ContentBlock}
use piqo_server.Core.Errors.{ProjectionError}
use piqo_server.Core.Event.{EventId}
use piqo_server.Core.Projection.{MessageProjection}
use piqo_server.Core.Projection.Messages.{
  start_message, edit_message, if_open, append_content, complete_message, interrupt_message,
  projected_author,
}

-- A later state of the same message.
pub record MessageKeeps {V : Type 0} (m n : MessageProjection V) : Type 0 where
  pub same_id : n.message_id ≡ m.message_id
  pub same_role : n.role ≡ m.role
  pub same_agent : n.agent_id ≡ m.agent_id
  pub same_author : n.author ≡ m.author
  pub same_start : n.first_event_id ≡ m.first_event_id
  pub blocks_extend : (extra : List (ContentBlock V)) × (n.blocks ≡ m.blocks ++ extra)
  pub closed_final : (m.completed || m.interrupted) ≡ true → n ≡ m

-- each message stands at its place, and new ones stand behind them
abbrev pub Grows : {V : Type 0} → List (MessageProjection V) → List (MessageProjection V) → Type 0
Grows [] ns = Unit
Grows (m ∷ ms) [] = ⊥
Grows (m ∷ ms) (n ∷ ns) = MessageKeeps m n × Grows ms ns

module _ {V : Type 0} where
  pub MessageKeeps-refl : (m : MessageProjection V) → MessageKeeps m m
  MessageKeeps-refl m = record {
    same_id = refl;
    same_role = refl;
    same_agent = refl;
    same_author = refl;
    same_start = refl;
    blocks_extend = ([], sym (append-nil m.blocks));
    closed_final = λ c. refl;
  }

  pub Grows-refl : (ms : List (MessageProjection V)) → Grows ms ms
  Grows-refl [] = tt
  Grows-refl (m ∷ ms) = (MessageKeeps-refl m, Grows-refl ms)

  MessageKeeps-trans :
      (l m n : MessageProjection V) → MessageKeeps l m → MessageKeeps m n → MessageKeeps l n
  MessageKeeps-trans l m n h k =
      let (first, e) = h.blocks_extend in
      let (second, f) = k.blocks_extend in
      record {
        same_id = k.same_id ∙ h.same_id;
        same_role = k.same_role ∙ h.same_role;
        same_agent = k.same_agent ∙ h.same_agent;
        same_author = k.same_author ∙ h.same_author;
        same_start = k.same_start ∙ h.same_start;
        blocks_extend = (first ++ second, rw (f, e) (append_assoc l.blocks first second));
        closed_final = λ c. let same = h.closed_final c in k.closed_final (rw same c) ∙ same;
      }

  pub Grows-trans :
      (ls ms ns : List (MessageProjection V)) → Grows ls ms → Grows ms ns → Grows ls ns
  Grows-trans [] ms ns h k = tt
  Grows-trans (l ∷ ls) [] ns h k = absurd h
  Grows-trans (l ∷ ls) (m ∷ ms) [] h k = absurd k
  Grows-trans (l ∷ ls) (m ∷ ms) (n ∷ ns) h k =
      (MessageKeeps-trans l m n h.0 k.0, Grows-trans ls ms ns h.1 k.1)

  Grows-append : (ms ns : List (MessageProjection V)) → Grows ms (ms ++ ns)
  Grows-append [] ns = tt
  Grows-append (m ∷ ms) ns = (MessageKeeps-refl m, Grows-append ms ns)

  pub start_message-Grows :
      (event_id : EventId) (id agent_id : String) (role : MessageRole) (author : MessageAuthor)
      (ms : List (MessageProjection V)) {ns : List (MessageProjection V)}
      → start_message event_id id agent_id role author ms ≡ ok ns
      → Grows ms ns
  unfolding start_message
  start_message-Grows event_id id agent_id role author ms {ns = ns} h =
      let (m, e) = appended in rw e (Grows-append ms (m ∷ []))
    where
      new_message : MessageProjection V
      new_message = record {
        message_id = id;
        role = role;
        agent_id = if not (str_eq agent_id "") then some agent_id else none;
        author = projected_author author role (str_eq agent_id "") agent_id;
        blocks = [];
        completed = false;
        interrupted = false;
        first_event_id = event_id;
        last_event_id = event_id;
      }

      appended : (m : MessageProjection V) × (ns ≡ ms ++ m ∷ [])
      appended = (new_message, ground arith)

  edit_message-Grows :
      (id : String) (change : MessageProjection V → Result ProjectionError (MessageProjection V))
      (ms : List (MessageProjection V)) {ns : List (MessageProjection V)}
      → ((m n : MessageProjection V) → change m ≡ ok n → MessageKeeps m n)
      → edit_message id change ms ≡ ok ns
      → Grows ms ns
  unfolding edit_message
  edit_message-Grows id change [] keep h = tt
  edit_message-Grows id change (m ∷ ms) keep h = elim (Bool-cases (str_eq m.message_id id)) [
    | inl here ↦
        let (n, changed, e) = map_ok-eq-ok (λ n. n ∷ ms) (change m) (rw here at h) in
        rw (← e) (keep m n changed, Grows-refl ms)
    | inr further ↦
        let (ns, edited, e) =
          map_ok-eq-ok (λ ns. m ∷ ns) (edit_message id change ms) (rw further at h) in
        rw (← e) (MessageKeeps-refl m, edit_message-Grows id change ms keep edited)
  ]

  -- what `if_open` lets through was open, and only its blocks and flags differ
  append_content-MessageKeeps :
      (event_id : EventId) (id : String) (block : ContentBlock V) (m n : MessageProjection V)
      → if_open id m (record m { blocks = m.blocks ++ block ∷ []; last_event_id = event_id }) ≡ ok n
      → MessageKeeps m n
  unfolding if_open
  append_content-MessageKeeps event_id id block m n h = record {
    same_id = ground arith;
    same_role = ground arith;
    same_agent = ground arith;
    same_author = ground arith;
    same_start = ground arith;
    blocks_extend = (block ∷ [], ground arith);
    closed_final = λ c. ground arith;
  }

  -- a change of an open message that leaves its blocks
  flag-MessageKeeps :
      (id : String) (m m' n : MessageProjection V)
      → m'.blocks ≡ m.blocks
      → m'.message_id ≡ m.message_id
      → (m'.role ≡ m.role)
        × (m'.agent_id ≡ m.agent_id)
        × (m'.author ≡ m.author)
        × (m'.first_event_id ≡ m.first_event_id)
      → if_open id m m' ≡ ok n
      → MessageKeeps m n
  unfolding if_open
  flag-MessageKeeps id m m' n b i r h = record {
    same_id = ground arith;
    same_role = ground arith;
    same_agent = ground arith;
    same_author = ground arith;
    same_start = ground arith;
    blocks_extend = ([], same_blocks ∙ sym (append-nil m.blocks));
    closed_final = λ c. ground arith;
  }
    where
      same_blocks : n.blocks ≡ m.blocks
      same_blocks = ground arith

  pub append_content-Grows :
      (event_id : EventId) (id : String) (block : ContentBlock V) (ms : List (MessageProjection V))
      {ns : List (MessageProjection V)}
      → append_content event_id id block ms ≡ ok ns
      → Grows ms ns
  unfolding append_content
  append_content-Grows event_id id block ms h =
      edit_message-Grows id
        (λ m. if_open id m (record m { blocks = m.blocks ++ block ∷ []; last_event_id = event_id }))
        ms (append_content-MessageKeeps event_id id block) h

  pub complete_message-Grows :
      (event_id : EventId) (id : String) (ms : List (MessageProjection V))
      {ns : List (MessageProjection V)}
      → complete_message event_id id ms ≡ ok ns
      → Grows ms ns
  unfolding complete_message
  complete_message-Grows event_id id ms h =
      edit_message-Grows id
        (λ m. if_open id m (record m { completed = true; last_event_id = event_id })) ms
        (λ m n.
          flag-MessageKeeps id m (record m { completed = true; last_event_id = event_id }) n refl
            refl (refl, refl, refl, refl))
        h

  pub interrupt_message-Grows :
      (event_id : EventId) (id : String) (ms : List (MessageProjection V))
      {ns : List (MessageProjection V)}
      → interrupt_message event_id id ms ≡ ok ns
      → Grows ms ns
  unfolding interrupt_message
  interrupt_message-Grows event_id id ms h =
      edit_message-Grows id
        (λ m. if_open id m (record m { interrupted = true; last_event_id = event_id })) ms
        (λ m n.
          flag-MessageKeeps id m (record m { interrupted = true; last_event_id = event_id }) n refl
            refl (refl, refl, refl, refl))
        h
