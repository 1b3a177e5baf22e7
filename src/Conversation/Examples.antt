-- ===== src/Conversation/Examples.antt =====
-- Streams of a turn, cut into chunks, and the tests.
use eap.Prelude.{
  String, true, false, ◌≡◌, refl, Option, none, some, List, [], ◌∷◌, map, if◌then◌else◌, str_eq,
}
use eap.Json.{Json, text, obj, end, field, get}
use eap.Conversation.Lines.{split_lines, strip, strip_left, strip_right, after_prefix}
use eap.Conversation.Values.{at}
use eap.Conversation.Events.{map_event}
use eap.Conversation.Trace.{accumulate_trace, put_step, set_status}
use eap.Conversation.Adapter.{
  Turn, opened, parse_tool_input, request_tool_approval, deliver, dispatch, handle_data,
  handle_sse_line, handle_lines, flush, read_chunks, stream_events,
}
use eap.Conversation.Adapter.Chunks.{concat, read_text, stream_events-exact}
use eap.Conversation.Adapter.Ends.{errors_end, stream_events-errors_end}

-- the payloads are abbreviated: `1` is a message, `2` a thought that calls a gated tool, `3` an error
abbrev decoded : String → Option Json
decoded payload =
    if str_eq payload "1"
    then some (obj (field "event" (text "message") (field "answer" (text "hi") end)))
    else if str_eq payload "2"
    then some (
        obj (
          field "event" (text "agent_thought")
            (field "tool" (text "send_mail") (field "tool_input" (text "4") end))))
    else if str_eq payload "3"
    then some (obj (field "event" (text "error") (field "message" (text "stopped") end)))
    else none

abbrev turn : Turn
turn = record {
  user_id = "ann";
  tenant_id = "acme";
  truncation_notice = false;
  loads = decoded;
  gateway = some (λ tool params. some (field "taskId" (text tool) end));
}

-- an error in the middle, cut inside of `data:` and of the line after
abbrev chunks : List String
chunks = "data: 1\nda" ∷ "ta: 2\ndata: 9\ndata: 3\nda" ∷ "ta: 1" ∷ []

test_events :
    map (λ e. e.event) (stream_events turn chunks).events
    ≡ "message" ∷ "agent_thought" ∷ "tool_approval_required" ∷ "error" ∷ []
unfolding stream_events read_chunks flush handle_lines handle_sse_line handle_data dispatch deliver
    request_tool_approval parse_tool_input map_event accumulate_trace put_step set_status at
    split_lines strip strip_left strip_right after_prefix get
test_events = refl

stream_events-exact_example : stream_events turn chunks ≡ read_text turn (concat chunks) opened
stream_events-exact_example = stream_events-exact turn chunks

stream_events-errors_end_example : errors_end (stream_events turn chunks).events ≡ true
stream_events-errors_end_example = stream_events-errors_end turn chunks
