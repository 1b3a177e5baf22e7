-- ===== src/Conversation/Adapter.antt =====
-- `DifyConversationAdapter` of apps/backend/app/services/dify_conversation_adapter.py from the body's
-- chunks to the platform's events. A chunk is its decoded text. `json.loads` and the approval gateway
-- are arguments; an exception ends the stream.
pub mod Chunks
pub mod Ends
use eap.Prelude.{
  String, Bool, true, false, not, ◌&&◌, ◌||◌, Option, none, some, List, [], ◌∷◌, ◌++◌,
  if◌then◌else◌, str_eq,
}
use Prim.Native.String
use eap.Json.{Json, null, bool, text, obj, Fields, end, field}
use eap.Conversation.Lines.{is_empty, strip, after_prefix, split_lines}
use eap.Conversation.Values.{truthy, at, as_name, or_else}
use eap.Conversation.Events.{Event, map_event}
use eap.Conversation.Trace.{Trace, Step, ToolCall, new_trace, accumulate_trace}

-- One turn: whose it is, and what the adapter was given.
pub record Turn : Type 0 where
  pub user_id : String
  pub tenant_id : String
  pub truncation_notice : Bool
  pub loads : String → Option Json
  pub gateway : Option (String → Fields → Option Fields)

-- the payload of `conversation.completed`
pub record Completed : Type 0 where
  pub conversation_id : Json
  pub user_id : String
  pub tenant_id : String
  pub message_end : Fields
  pub steps : List Step
  pub tool_calls : List ToolCall
  pub output : Json
  pub status : Json

-- What was read so far: the name of the pending event, what was yielded and published, and whether
-- the stream has ended, by an error event or by an exception.
pub record Stream : Type 0 where
  pub event_type : String
  pub trace : Trace
  pub events : List Event
  pub published : List Completed
  pub is_over : Bool
  pub is_failed : Bool

abbrev pub opened : Stream
opened = record {
  event_type = "";
  trace = new_trace;
  events = [];
  published = [];
  is_over = false;
  is_failed = false;
}

abbrev reset : Stream → Stream
reset s = record s { event_type = "" }

abbrev fail : Stream → Stream
fail s = record s { is_over = true; is_failed = true }

-- `_parse_tool_input`
unfoldable pub parse_tool_input : (String → Option Json) → Json → Fields
parse_tool_input loads (obj fields) = fields
parse_tool_input loads (text raw) = elim (loads raw) [ some (obj fields) ↦ fields | _ ↦ end ]
parse_tool_input loads value = end

abbrev pub ask : Turn → String → Fields → List Event
ask t tool params = elim t.gateway [
  | none ↦ []
  | some request ↦ elim (request tool params) [
    | none ↦ []
    | some approval ↦ record { event = "tool_approval_required"; payload = approval } ∷ []
  ]
]

abbrev pub named_tool : Json → Option String
named_tool (text name) = if is_empty name then none else some name
named_tool value = none

-- `_request_tool_approval`: only the frame before the call asks
unfoldable pub request_tool_approval : Turn → Fields → List Event
unfolding parse_tool_input
request_tool_approval t d = elim (named_tool (at d "tool")) [
  | none ↦ []
  | some tool ↦
      if not (truthy (at d "tool_input")) || truthy (at d "observation")
      then []
      else ask t tool (parse_tool_input t.loads (at d "tool_input"))
]

abbrev appended : Fields → String → Json → Fields
appended end key value = field key value end
appended (field k v rest) key value = field k v (appended rest key value)

-- `event["data"]["metadata"]["truncationNotice"] = notice`
abbrev pub noted : Bool → Fields → Fields
noted notice end = end
noted notice (field k (obj metadata) rest) =
    let others = noted notice rest in
    if str_eq k "metadata"
    then field k (obj (appended metadata "truncationNotice" (bool notice))) rest
    else field k (obj metadata) others
noted notice (field k v rest) = field k v (noted notice rest)

abbrev completed : Turn → Fields → Trace → Completed
completed t d trace = record {
  conversation_id = at d "conversation_id";
  user_id = t.user_id;
  tenant_id = t.tenant_id;
  message_end = d;
  steps = trace.steps;
  tool_calls = trace.tool_calls;
  output = trace.output;
  status = or_else trace.status (text "success");
}

-- a mapped event is published, yielded with what it asks for, and ends the stream if it is an error
unfoldable pub deliver : Turn → String → Fields → Event → Stream → Stream
unfolding request_tool_approval
deliver t name d e s = record s {
  event_type = "";
  events =
      s.events
      ++ (if str_eq name "message_end"
          then record e { payload = noted t.truncation_notice e.payload }
          else e)
        ∷ (if str_eq name "agent_thought" then request_tool_approval t d else []);
  published =
      if str_eq name "message_end" then s.published ++ completed t d s.trace ∷ [] else s.published;
  is_over = str_eq e.event "error";
}

unfoldable pub dispatch : Turn → String → Fields → Stream → Stream
unfolding deliver
dispatch t name d s = elim (accumulate_trace name d s.trace) [
  | none ↦ fail s
  | some trace ↦ elim (map_event name d) [
    | none ↦ fail s
    | some none ↦ record s { event_type = ""; trace = trace }
    | some (some e) ↦ deliver t name d e (record s { trace = trace })
  ]
]

-- what follows `data:`, once it was decoded
unfoldable pub handle_data : Turn → Option Json → Stream → Stream
unfolding dispatch
handle_data t (some (obj d)) s = dispatch t (as_name (at d "event") s.event_type) d s
handle_data t value s = reset s

-- `_handle_sse_line`
unfoldable pub handle_sse_line : Turn → String → Stream → Stream
unfolding handle_data
handle_sse_line t line s = elim (after_prefix "event:" line) [
  | some name ↦ record s { event_type = strip name }
  | none ↦ elim (after_prefix "data:" line) [
    | none ↦ s
    | some payload ↦
        if is_empty (strip payload) then reset s else handle_data t (t.loads (strip payload)) s
  ]
]

-- the lines of a chunk, until the stream is over
unfoldable pub handle_lines : Turn → List String → Stream → Stream
handle_lines t [] s = s
handle_lines t (line ∷ lines) s =
    if s.is_over then s else handle_lines t lines (handle_sse_line t line s)

-- a last line that no line feed ends
unfoldable pub flush : Turn → String → Stream → Stream
flush t buffer s = if s.is_over || is_empty buffer then s else handle_sse_line t buffer s

-- `_stream_events`: the chunks that are left, after the pending `buffer`
unfoldable pub read_chunks : Turn → List String → (buffer : String) → Stream → Stream
unfolding flush handle_lines
read_chunks t [] buffer s = flush t buffer s
read_chunks t (chunk ∷ chunks) buffer s =
    let (lines, rest) = split_lines (String.◌++◌ buffer chunk) in
    if s.is_over then s else read_chunks t chunks rest (handle_lines t lines s)

unfoldable pub stream_events : Turn → List String → Stream
unfolding read_chunks
stream_events t chunks = read_chunks t chunks "" opened
