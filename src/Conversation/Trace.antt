-- ===== src/Conversation/Trace.antt =====
-- The trace of one stream for the run log: `_new_trace_state` and `_accumulate_trace` of
-- apps/backend/app/services/dify_conversation_adapter.py. The columns of a step and of a tool call
-- that are constants there are left out.
use eap.Prelude.{
  String, Bool, true, false, ◌||◌, not, Option, none, some, List, [], ◌∷◌, ◌++◌, if◌then◌else◌,
  str_eq,
}
use eap.Json.{pos, Json, null, num, text, Fields}
use eap.Conversation.Values.{◌>>=◌, truthy, at, or_empty, or_else, sliced_or, same_key, is_hashable}

pub record Step : Type 0 where
  pub node_id : Json
  pub step_order : Json
  pub name : Json
  pub status : Json

pub record ToolCall : Type 0 where
  pub tool_name : Json
  pub response_summary : Json

pub record Trace : Type 0 where
  pub steps : List Step
  pub tool_calls : List ToolCall
  pub output : Json
  pub status : Json

abbrev pub new_trace : Trace
new_trace = record { steps = []; tool_calls = []; output = null; status = null }

abbrev pub is_null : Json → Bool
is_null null = true
is_null value = false

-- `steps[node_id] = step`: a step that is there keeps its place
unfoldable pub put_step : Step → List Step → List Step
put_step step [] = step ∷ []
put_step step (old ∷ rest) =
    let others = put_step step rest in
    if same_key old.node_id step.node_id then step ∷ rest else old ∷ others

-- the status of the step of the node, if it was started
unfoldable pub set_status : (node_id status : Json) → List Step → List Step
set_status node_id status [] = []
set_status node_id status (old ∷ rest) =
    let others = set_status node_id status rest in
    if same_key old.node_id node_id then record old { status = status } ∷ rest else old ∷ others

abbrev node_started : Fields → Trace → Option Trace
node_started node trace =
    let node_id = at node "node_id" in
    let step : Step = record {
      node_id = node_id;
      step_order = or_else (at node "index") (num (pos 0));
      name = or_else (at node "title") (text "");
      status = text "running";
    } in
    if is_null node_id
    then some trace
    else if not (is_hashable node_id)
    then none
    else some (record trace { steps = put_step step trace.steps })

abbrev node_finished : Fields → Trace → Option Trace
node_finished node trace =
    if not (is_hashable (at node "node_id"))
    then none
    else some
        (record trace { steps = set_status (at node "node_id") (at node "status") trace.steps })

abbrev tool_called : Fields → Trace → Option Trace
tool_called d trace = do
  summary ← sliced_or 2000 null (at d "observation")
  some (record trace {
    tool_calls =
        trace.tool_calls ++ record { tool_name = at d "tool"; response_summary = summary } ∷ [];
  })

-- `none` is an exception
unfoldable pub accumulate_trace : String → Fields → Trace → Option Trace
unfolding put_step set_status at
accumulate_trace name d trace =
    if str_eq name "node_started"
    then or_empty (at d "data") >>= (λ node. node_started node trace)
    else if str_eq name "node_finished"
    then or_empty (at d "data") >>= (λ node. node_finished node trace)
    else if str_eq name "agent_thought"
    then (if truthy (at d "tool") then tool_called d trace else some trace)
    else if str_eq name "message" || str_eq name "message_replace"
    then some (if is_null (at d "answer") then trace else record trace { output = at d "answer" })
    else if str_eq name "workflow_finished"
    then or_empty (at d "data")
      >>= (λ workflow. some (record trace { status = at workflow "status" }))
    else some trace
