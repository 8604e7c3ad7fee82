-- ===== src/Core/Projection/Messages.antt =====
-- The messages of a session: the arms of `SessionProjection::apply` that write to `messages`.
pub mod Growth
pub mod Ids
use piqo_server.Prelude.{
  String, Bool, true, false, not, ◌||◌, Option, none, some, List, [], ◌∷◌, ◌++◌, any, str_eq,
  if◌then◌else◌, Result, ok, err, map_ok,
}
use piqo_server.Core.Phases.{MessageRole, MessageAuthor, ContentBlock}
use piqo_server.Core.Errors.{
  ProjectionError, duplicate_message, unknown_message, message_already_closed,
}
use piqo_server.Core.Event.{EventId}
use piqo_server.Core.Projection.{MessageProjection}

-- the author of a message whose event names none: the third test is `agent_id.is_empty()`
unfoldable pub projected_author : MessageAuthor → MessageRole → Bool → String → MessageAuthor
projected_author MessageAuthor.system MessageRole.user anonymous agent_id = MessageAuthor.user
projected_author MessageAuthor.system MessageRole.assistant false agent_id =
    MessageAuthor.agent agent_id
projected_author MessageAuthor.system MessageRole.tool false agent_id = MessageAuthor.tool agent_id
projected_author author role anonymous agent_id = author

module _ {V : Type 0} where
  unfoldable pub start_message :
      EventId
      → String
      → String
      → MessageRole
      → MessageAuthor
      → List (MessageProjection V)
      → Result ProjectionError (List (MessageProjection V))
  unfolding projected_author
  start_message event_id message_id agent_id role author messages =
      if any (λ m. str_eq m.message_id message_id) messages
      then err (duplicate_message message_id)
      else ok (
          messages
          ++ record {
            message_id = message_id;
            role = role;
            agent_id = if not (str_eq agent_id "") then some agent_id else none;
            author = projected_author author role (str_eq agent_id "") agent_id;
            blocks = [];
            completed = false;
            interrupted = false;
            first_event_id = event_id;
            last_event_id = event_id;
          }
            ∷ [])

  -- `iter_mut().find(…).ok_or(UnknownMessage)?`, then `change` on the message
  unfoldable pub edit_message :
      String
      → (MessageProjection V → Result ProjectionError (MessageProjection V))
      → List (MessageProjection V)
      → Result ProjectionError (List (MessageProjection V))
  edit_message id change [] = err (unknown_message id)
  edit_message id change (m ∷ ms) =
      if str_eq m.message_id id
      then map_ok (λ m'. m' ∷ ms) (change m)
      else map_ok (λ ms'. m ∷ ms') (edit_message id change ms)

  -- `if message.completed || message.interrupted { return Err(…) }`
  unfoldable pub if_open :
      String
      → MessageProjection V
      → MessageProjection V
      → Result ProjectionError (MessageProjection V)
  if_open id m m' = if m.completed || m.interrupted then err (message_already_closed id) else ok m'

  unfoldable pub append_content :
      EventId
      → String
      → ContentBlock V
      → List (MessageProjection V)
      → Result ProjectionError (List (MessageProjection V))
  unfolding edit_message if_open
  append_content event_id id block =
      edit_message id
        (λ m. if_open id m (record m { blocks = m.blocks ++ block ∷ []; last_event_id = event_id }))

  unfoldable pub complete_message :
      EventId
      → String
      → List (MessageProjection V)
      → Result ProjectionError (List (MessageProjection V))
  unfolding edit_message if_open
  complete_message event_id id =
      edit_message id (λ m. if_open id m (record m { completed = true; last_event_id = event_id }))

  unfoldable pub interrupt_message :
      EventId
      → String
      → List (MessageProjection V)
      → Result ProjectionError (List (MessageProjection V))
  unfolding edit_message if_open
  interrupt_message event_id id =
      edit_message id
        (λ m. if_open id m (record m { interrupted = true; last_event_id = event_id }))
