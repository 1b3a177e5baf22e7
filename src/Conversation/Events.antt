-- ===== src/Conversation/Events.antt =====
-- `_map_event` of apps/backend/app/services/dify_conversation_adapter.py: the platform event of a
-- Dify event.
use eap.Prelude.{String, Option, none, some, List, [], ◌∷◌, if◌then◌else◌, str_eq}
use eap.Json.{Json, text, arr, obj, Items, nil, cons, Fields, end, field, get}
use eap.Conversation.Values.{◌>>=◌, at, or_empty, sliced_or}

-- an event as it leaves the adapter
pub record Event : Type 0 where
  pub event : String
  pub payload : Fields

-- the fields of a payload, in their order
abbrev pub fields : List (String × Json) → Fields
fields [] = end
fields ((key, value) ∷ rest) = field key value (fields rest)

abbrev event_with : String → List (String × Json) → Option (Option Event)
event_with name entries = some (some (record { event = name; payload = fields entries }))

-- one entry of `retrieverResources`
abbrev resource : Json → Option Json
resource (obj r) = do
  excerpt ← sliced_or 200 (text "") (at r "content")
  some (
      obj (
        fields (
          ("sourceName", at r "document_name")
          ∷ ("kbName", at r "dataset_name")
          ∷ ("excerpt", excerpt)
          ∷ ("score", at r "score")
          ∷ [])))
resource value = none

abbrev resource_items : Items → Option Items
resource_items nil = some nil
resource_items (cons r rest) = do
  mapped ← resource r
  others ← resource_items rest
  some (cons mapped others)

-- the iteration over `metadata.get("retriever_resources", [])`
abbrev resources : Option Json → Option Items
resources none = some nil
resources (some (arr items)) = resource_items items
resources (some (obj end)) = some nil
resources (some (text String.[])) = some nil
resources (some value) = none

abbrev message_end : Fields → Option (Option Event)
message_end d = do
  metadata ← or_empty (at d "metadata")
  items ← resources (get metadata "retriever_resources")
  event_with "message_end" (
      ("traceId", at d "id")
      ∷ (
        "metadata",
        obj (fields (("usage", at metadata "usage") ∷ ("retrieverResources", arr items) ∷ [])),
      )
      ∷ [])

-- an event whose payload comes from the keys of the frame's `data`
abbrev from_data : Fields → String → (Fields → List (String × Json)) → Option (Option Event)
from_data d name entries = do inner ← or_empty (at d "data"); event_with name (entries inner)

abbrev answer_of : Fields → List (String × Json)
answer_of d =
    ("answer", at d "answer") ∷ ("messageId", at d "message_id") ∷ ("taskId", at d "task_id") ∷ []

abbrev text_of : Fields → List (String × Json)
text_of inner = ("text", at inner "text") ∷ []

-- `some none` drops the event, `none` is an exception
unfoldable pub map_event : String → Fields → Option (Option Event)
unfolding at get
map_event name d =
    if str_eq name "message"
    then event_with "message" (
        ("content", at d "answer")
        ∷ ("messageId", at d "message_id")
        ∷ ("conversationId", at d "conversation_id")
        ∷ ("taskId", at d "task_id")
        ∷ [])
    else if str_eq name "message_end"
    then message_end d
    else if str_eq name "message_file"
    then event_with "file" (
        ("id", at d "id")
        ∷ ("type", at d "type")
        ∷ ("url", at d "url")
        ∷ ("belongsTo", at d "belongs_to")
        ∷ [])
    else if str_eq name "message_replace"
    then event_with "replace" (answer_of d)
    else if str_eq name "agent_message"
    then event_with "agent_message" (answer_of d)
    else if str_eq name "agent_thought"
    then event_with "agent_thought" (
        ("thoughtId", at d "id")
        ∷ ("thought", at d "thought")
        ∷ ("tool", at d "tool")
        ∷ ("observation", at d "observation")
        ∷ [])
    else if str_eq name "workflow_started"
    then event_with "workflow_started" (("workflowRunId", at d "workflow_run_id") ∷ [])
    else if str_eq name "workflow_finished"
    then from_data d "workflow_finished" (λ inner.
      ("status", at inner "status")
      ∷ ("outputs", at inner "outputs")
      ∷ ("error", at inner "error")
      ∷ [])
    else if str_eq name "node_started"
    then from_data d "node_started" (λ inner.
      ("nodeId", at inner "node_id")
      ∷ ("title", at inner "title")
      ∷ ("index", at inner "index")
      ∷ [])
    else if str_eq name "node_finished"
    then from_data d "node_finished"
        (λ inner. ("nodeId", at inner "node_id") ∷ ("status", at inner "status") ∷ [])
    else if str_eq name "parallel_branch_started"
    then from_data d "branch_started" (λ inner.
      ("parallelId", at inner "parallel_id")
      ∷ ("parallelBranchId", at inner "parallel_branch_id")
      ∷ [])
    else if str_eq name "parallel_branch_finished"
    then from_data d "branch_finished" (λ inner. ("status", at inner "status") ∷ [])
    else if str_eq name "text_chunk"
    then from_data d "text_chunk" text_of
    else if str_eq name "text_replace"
    then from_data d "text_replace" text_of
    else if str_eq name "tts_message"
    then event_with "tts_message" (
        ("audio", at d "audio")
        ∷ ("messageId", at d "message_id")
        ∷ ("taskId", at d "task_id")
        ∷ [])
    else if str_eq name "tts_message_end"
    then event_with "tts_message_end" (("audio", at d "audio") ∷ [])
    else if str_eq name "error"
    then event_with "error"
        (("code", at d "code") ∷ ("message", at d "message") ∷ ("status", at d "status") ∷ [])
    else some none
