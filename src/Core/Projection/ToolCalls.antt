-- ===== src/Core/Projection/ToolCalls.antt =====
-- The tool calls of one run: what the tool arms of `SessionProjection::apply` do to the run that
-- they have looked up.
use piqo_server.Prelude.{
  String, Bool, not, none, some, str_eq, if◌then◌else◌, Result, ok, err, map_ok,
}
use piqo_server.Prelude.Map.{insert, contains_key, modify}
use piqo_server.Core.Json.{Json}
use piqo_server.Core.Errors.{
  ProjectionError, duplicate_tool_call, unknown_tool_call, external_tool_execution,
  conflicting_tool_execution, conflicting_tool_result,
}
use piqo_server.Core.Projection.{RunProjection, ToolCallProjection}

module _ {V : Type 0} where
  unfoldable pub emit_call :
      String
      → String
      → String
      → String
      → V
      → String
      → Bool
      → RunProjection V
      → Result ProjectionError (RunProjection V)
  emit_call assistant_message_id call_id agent_id tool_name arguments raw_arguments native run =
      if contains_key call_id run.tool_calls
      then err (duplicate_tool_call call_id)
      else ok (record run {
        tool_calls =
            insert call_id
              (record {
                call_id = call_id;
                assistant_message_id = assistant_message_id;
                agent_id = agent_id;
                tool_name = tool_name;
                arguments = arguments;
                raw_arguments = raw_arguments;
                native = native;
                execution_id = none;
                result = none;
              })
              run.tool_calls;
      })

  -- `run.tool_calls.get_mut(call_id).ok_or(UnknownToolCall)?`, then `change` on the call
  unfoldable pub edit_call :
      String
      → (ToolCallProjection V → Result ProjectionError (ToolCallProjection V))
      → RunProjection V
      → Result ProjectionError (RunProjection V)
  edit_call call_id change run =
      map_ok (λ calls. record run { tool_calls = calls })
        (modify call_id (unknown_tool_call call_id) change run.tool_calls)

  unfoldable pub claim_execution :
      String → String → ToolCallProjection V → Result ProjectionError (ToolCallProjection V)
  claim_execution call_id execution_id call =
      if not call.native then err (external_tool_execution call_id) else elim call.execution_id [
        | none ↦ ok (record call { execution_id = some execution_id })
        | some existing ↦
            if str_eq existing execution_id
            then ok call
            else err (conflicting_tool_execution call_id)
      ]

module _ {V : Type 0} ⦃j : Json V⦄ where
  unfoldable pub record_result :
      String → V → ToolCallProjection V → Result ProjectionError (ToolCallProjection V)
  record_result call_id result call = elim call.result [
    | none ↦ ok (record call { result = some result })
    | some existing ↦
        if j.same existing result then ok call else err (conflicting_tool_result call_id)
  ]
