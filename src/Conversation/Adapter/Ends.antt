-- ===== src/Conversation/Adapter/Ends.antt =====
-- An error event ends the stream.
use eap.Prelude.{
  String, Bool, true, false, not, ◌||◌, subst, some_inv, ◌&&◌, ◌≡◌, refl, sym, Option, none, some,
  List, [], ◌∷◌, ◌++◌, arith, if◌then◌else◌, str_eq, eq_iff, if_true, if_false, Bool-cases,
  Option-cases, inl, inr,
}
use eap.Json.{Json, Fields, null, bool, num, text, arr, obj}
use eap.Conversation.Lines.{is_empty, strip, after_prefix, split_lines}
use eap.Conversation.Values.{as_name, at, truthy}
use eap.Conversation.Events.{Event, map_event}
use eap.Conversation.Trace.{accumulate_trace}
use eap.Conversation.Adapter.{
  Turn, Stream, opened, ask, named_tool, noted, parse_tool_input, request_tool_approval, deliver,
  dispatch, handle_data, handle_sse_line, handle_lines, flush, stream_events,
}
use eap.Conversation.Adapter.Chunks.{concat, read_text, handle_lines-over, stream_events-exact}

abbrev is_error : Event → Bool
is_error e = str_eq e.event "error"

abbrev no_error : List Event → Bool
no_error [] = true
no_error (e ∷ es) = not (is_error e) && no_error es

abbrev is_last : List Event → Bool
is_last [] = true
is_last (e ∷ es) = false

-- nothing follows an event that is an error
unfoldable pub errors_end : List Event → Bool
errors_end [] = true
errors_end (e ∷ es) = if is_error e then is_last es else errors_end es

Fine : Stream → Type 0
Fine s = (s.is_over ≡ false → no_error s.events ≡ true) × (errors_end s.events ≡ true)

no_error-append :
    (es ms : List Event) → no_error es ≡ true → no_error ms ≡ true → no_error (es ++ ms) ≡ true
no_error-append [] ms h k = k
no_error-append (e ∷ es) ms h k = elim (Bool-cases (is_error e)) [
  | inl b ↦ absurd (ground arith)
  | inr b ↦ rw b (no_error-append es ms (ground arith) k)
]

errors_end-append :
    (es ms : List Event) → no_error es ≡ true → errors_end ms ≡ true → errors_end (es ++ ms) ≡ true
unfolding errors_end
errors_end-append [] ms h k = k
errors_end-append (e ∷ es) ms h k = elim (Bool-cases (is_error e)) [
  | inl b ↦ absurd (ground arith)
  | inr b ↦ rw b (errors_end-append es ms (ground arith) k)
]

no_error-ends : (es : List Event) → no_error es ≡ true → errors_end es ≡ true
unfolding errors_end
no_error-ends [] h = refl
no_error-ends (e ∷ es) h = elim (Bool-cases (is_error e)) [
  | inl b ↦ absurd (ground arith)
  | inr b ↦ rw b (no_error-ends es (ground arith))
]

ask-no_error : (t : Turn) (tool : String) (params : Fields) → no_error (ask t tool params) ≡ true
ask-no_error t tool params = elim (Option-cases t.gateway) [
  | inl e ↦ rw e refl
  | inr (request, e) ↦ rw e (elim (Option-cases (request tool params)) [
    | inl k ↦ rw k refl
    | inr (approval, k) ↦ rw k refl
  ])
]

approval_no_error : (t : Turn) (d : Fields) → no_error (request_tool_approval t d) ≡ true
unfolding request_tool_approval
approval_no_error t d = elim (Option-cases (named_tool (at d "tool"))) [
  | inl e ↦ rw (request_tool_approval, e) refl
  | inr (tool, e) ↦
      rw (request_tool_approval, e)
        (elim (Bool-cases (not (truthy (at d "tool_input")) || truthy (at d "observation"))) [
          | inl k ↦ rw k refl
          | inr k ↦ rw k (ask-no_error t tool (parse_tool_input t.loads (at d "tool_input")))
        ])
]

-- a thought is no error
thought_no_error :
    (name : String) (d : Fields) (e : Event)
    → str_eq name "agent_thought" ≡ true
    → map_event name d ≡ some (some e)
    → is_error e ≡ false
unfolding map_event
thought_no_error name d e k h =
    subst (λ e. is_error e ≡ false)
      (some_inv (
        some_inv
          (subst (λ name. map_event name d ≡ some (some e)) ((eq_iff name "agent_thought").0 k) h)))
      refl

push-Fine :
    (es asks : List Event) (e e' : Event)
    → is_error e' ≡ is_error e
    → no_error es ≡ true
    → no_error asks ≡ true
    → (is_error e ≡ true → asks ≡ [])
    → (is_error e ≡ false → no_error (es ++ e' ∷ asks) ≡ true)
      × (errors_end (es ++ e' ∷ asks) ≡ true)
unfolding errors_end
push-Fine es asks e e' same h k none_after = (
  (λ ok. no_error-append es (e' ∷ asks) h (ground arith)),
  errors_end-append es (e' ∷ asks) h (elim (Bool-cases (is_error e)) [
    | inl err ↦ rw (same, err, none_after err) refl
    | inr ok ↦ rw (same, ok) (no_error-ends asks k)
  ]),
)

deliver-Fine :
    (t : Turn) (name : String) (d : Fields) (e : Event) (s : Stream)
    → map_event name d ≡ some (some e)
    → no_error s.events ≡ true
    → Fine (deliver t name d e s)
unfolding deliver Fine
deliver-Fine t name d e s h k =
    push-Fine s.events (if str_eq name "agent_thought" then request_tool_approval t d else []) e
      (if str_eq name "message_end"
        then record e { payload = noted t.truncation_notice e.payload }
        else e)
      (elim (Bool-cases (str_eq name "message_end")) [ inl b ↦ rw b refl | inr b ↦ rw b refl ]) k
      (elim (Bool-cases (str_eq name "agent_thought")) [
        | inl b ↦ rw b (approval_no_error t d)
        | inr b ↦ rw b refl
      ])
      (λ err. elim (Bool-cases (str_eq name "agent_thought")) [
        | inl b ↦ absurd (cc (thought_no_error name d e b h))
        | inr b ↦ rw b refl
      ])

kept-Fine : (s s' : Stream) → s'.events ≡ s.events → no_error s.events ≡ true → Fine s'
unfolding Fine
kept-Fine s s' e h = ((λ over. rw e h), rw e (no_error-ends s.events h))

dispatch-Fine :
    (t : Turn) (name : String) (d : Fields) (s : Stream)
    → no_error s.events ≡ true
    → Fine (dispatch t name d s)
unfolding dispatch
dispatch-Fine t name d s h = elim (Option-cases (accumulate_trace name d s.trace)) [
  | inl e ↦ rw (dispatch, e) (kept-Fine s _ refl h)
  | inr (trace, e) ↦
      rw (dispatch, e)
        (elim (Option-cases (map_event name d)) [
          | inl k ↦ rw k (kept-Fine s _ refl h)
          | inr (none, k) ↦ rw k (kept-Fine s _ refl h)
          | inr (some event, k) ↦
              rw k (deliver-Fine t name d event (record s { trace = trace }) k h)
        ])
]

data-Fine :
    (t : Turn) (o : Option Json) (s : Stream) → no_error s.events ≡ true → Fine (handle_data t o s)
unfolding handle_data
data-Fine t none s h = kept-Fine s _ refl h
data-Fine t (some (obj d)) s h = dispatch-Fine t (as_name (at d "event") s.event_type) d s h
data-Fine t (some null) s h = kept-Fine s _ refl h
data-Fine t (some (bool b)) s h = kept-Fine s _ refl h
data-Fine t (some (num n)) s h = kept-Fine s _ refl h
data-Fine t (some (text x)) s h = kept-Fine s _ refl h
data-Fine t (some (arr xs)) s h = kept-Fine s _ refl h

line-Fine :
    (t : Turn) (line : String) (s : Stream)
    → no_error s.events ≡ true
    → Fine (handle_sse_line t line s)
unfolding handle_sse_line
line-Fine t line s h = elim (Option-cases (after_prefix "event:" line)) [
  | inr (name, e) ↦ rw (handle_sse_line, e) (kept-Fine s _ refl h)
  | inl e ↦
      rw (handle_sse_line, e)
        (elim (Option-cases (after_prefix "data:" line)) [
          | inl k ↦ rw k (kept-Fine s _ refl h)
          | inr (payload, k) ↦ rw k (elim (Bool-cases (is_empty (strip payload))) [
            | inl b ↦ rw b (kept-Fine s _ refl h)
            | inr b ↦ rw b (data-Fine t (t.loads (strip payload)) s h)
          ])
        ])
]

lines-Fine : (t : Turn) (lines : List String) (s : Stream) → Fine s → Fine (handle_lines t lines s)
unfolding handle_lines Fine
lines-Fine t [] s h = h
lines-Fine t (line ∷ lines) s h = elim (Bool-cases s.is_over) [
  | inl e ↦ subst Fine (sym (handle_lines-over t (line ∷ lines) s e)) h
  | inr e ↦
      subst Fine (sym (if_false s.is_over s (handle_lines t lines (handle_sse_line t line s)) e))
        (lines-Fine t lines (handle_sse_line t line s) (line-Fine t line s (h.0 e)))
]

flush-Fine : (t : Turn) (buffer : String) (s : Stream) → Fine s → Fine (flush t buffer s)
unfolding flush Fine
flush-Fine t buffer s h = elim (Bool-cases (s.is_over || is_empty buffer)) [
  | inl e ↦
      subst Fine (sym (if_true (s.is_over || is_empty buffer) s (handle_sse_line t buffer s) e)) h
  | inr e ↦
      subst Fine (sym (if_false (s.is_over || is_empty buffer) s (handle_sse_line t buffer s) e))
        (line-Fine t buffer s (h.0 (ground arith)))
]

text-Fine : (t : Turn) (body : String) (s : Stream) → Fine s → Fine (read_text t body s)
unfolding read_text
text-Fine t body s h =
    flush-Fine t (split_lines body).1 (handle_lines t (split_lines body).0 s)
      (lines-Fine t (split_lines body).0 s h)

-- An error event is the last one the adapter yields: whatever frames and whatever last line the body
-- has after it, nothing of them is passed on.
pub stream_events-errors_end :
    (t : Turn) (chunks : List String) → errors_end (stream_events t chunks).events ≡ true
unfolding Fine errors_end
stream_events-errors_end t chunks =
    rw (stream_events-exact t chunks) (text-Fine t (concat chunks) opened ((λ over. refl), refl)).1
