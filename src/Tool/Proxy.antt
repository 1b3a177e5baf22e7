-- ===== src/Tool/Proxy.antt =====
-- `ToolProxy` of apps/backend/app/services/tool_proxy.py: the circuit breaker of each tool, the
-- retry loop of `execute`, and `debug`. Instants are seconds of a monotonic clock, durations are
-- milliseconds. What the HTTP client answers to each request is an argument; the masking of the
-- body is one too.
pub mod Breakers
pub mod Tally
pub mod Calls
use eap.Prelude.{
  ℕ, zero, suc, ◌+◌, String, Bool, true, false, not, ◌&&◌, ◌||◌, Option, none, some, ltb, leb, ◌==◌,
  if◌then◌else◌,
}
use eap.Prelude.Map.{Map, put, remove}
use eap.Errors.{
  Result, ok, err, AppError, app_error, ◌>>◌, tool_circuit_open, tool_upstream_error,
  tool_not_configured,
}
use eap.Json.{Json}
use eap.Tool.Policy.{backoff_ms}

-- `CircuitBreakerState`
pub record Breaker : Type 0 where
  pub failures : ℕ
  pub opened_at : ℕ
  pub is_open : Bool
  pub half_open : Bool

abbrev pub new_breaker : Breaker
new_breaker = record { failures = 0; opened_at = 0; is_open = false; half_open = false }

abbrev pub circuit_failure_threshold : ℕ
circuit_failure_threshold = 5

abbrev pub circuit_recovery_seconds : ℕ
circuit_recovery_seconds = 60

abbrev pub Breakers : Type 0
Breakers = Map Breaker

abbrev pub circuit_open : AppError
circuit_open = app_error 503 tool_circuit_open

-- the guard for a tool that has a breaker, by its `open`
unfoldable pub guard_open : Bool → ℕ → String → Breaker → Breakers → Result (Unit {0}) × Breakers
guard_open false now tool_id b bs = (ok tt, bs)
guard_open true now tool_id b bs =
    if ltb now (b.opened_at + circuit_recovery_seconds)
    then (err circuit_open, bs)
    else if b.half_open
    then (err circuit_open, bs)
    else (ok tt, put tool_id (record b { half_open = true }) bs)

unfoldable pub raise_if_circuit_open : ℕ → String → Breakers → Result (Unit {0}) × Breakers
unfolding guard_open
raise_if_circuit_open now tool_id bs = elim (bs tool_id) [
  | none ↦ (ok tt, bs)
  | some b ↦ guard_open b.is_open now tool_id b bs
]

abbrev pub or_new : Option Breaker → Breaker
or_new none = new_breaker
or_new (some b) = b

unfoldable pub failed_once : ℕ → Breaker → Breaker
failed_once now b =
    let n = b.failures + 1 in
    if leb circuit_failure_threshold n
    then record { failures = n; opened_at = now; is_open = true; half_open = false }
    else record b { failures = n; half_open = false }

unfoldable pub record_failure : ℕ → String → Breakers → Breakers
unfolding failed_once
record_failure now tool_id bs = put tool_id (failed_once now (or_new (bs tool_id))) bs

unfoldable pub record_success : String → Breakers → Breakers
record_success tool_id bs = remove tool_id bs

-- How one request ended: an answer, a timeout or transport error, or anything else that leaves the
-- call at once (a tool without an endpoint, a cancelled call).
pub data Reply : Type 0 where
  answered : (status_code : ℕ) (body : Json) → Reply
  unreachable : Reply
  aborted : AppError → Reply

pub record Request : Type 0 where
  pub reply : Reply
  pub duration_ms : ℕ

-- How the attempts of one call ended.
pub data Verdict : Type 0 where
  succeeded : (status_code : ℕ) (body : Json) → Verdict
  gave_up : Verdict
  raised : AppError → Verdict

pub record Run : Type 0 where
  pub verdict : Verdict
  pub attempts : ℕ
  pub elapsed_ms : ℕ

-- `200 <= status_code < 300`
abbrev pub is_success : ℕ → Bool
is_success code = leb 200 code && ltb code 300

-- `_RETRYABLE_STATUS_CODES`
abbrev pub is_retryable : ℕ → Bool
is_retryable code = code == 502 || (code == 503 || code == 504)

abbrev pub ended : Verdict → ℕ → Run
ended v duration = record { verdict = v; attempts = 1; elapsed_ms = duration }

abbrev pub after_wait : ℕ → ℕ → Run → Run
after_wait duration wait rest = record {
  verdict = rest.verdict;
  attempts = suc rest.attempts;
  elapsed_ms = duration + wait + rest.elapsed_ms;
}

-- whether a reply leads to another attempt
abbrev pub retries_on : Reply → Bool
retries_on (answered code body) = not (is_success code) && is_retryable code
retries_on unreachable = true
retries_on (aborted e) = false

-- what a reply means if it is the last
abbrev pub verdict_of : Reply → Verdict
verdict_of (answered code body) = if is_success code then succeeded code body else gave_up
verdict_of unreachable = gave_up
verdict_of (aborted e) = raised e

-- the loop of `execute` from the attempt `k` on, with `left` retries left
unfoldable pub calls : (base left : ℕ) → (k : ℕ) → (ℕ → Request) → Run
calls base zero k requests = ended (verdict_of (requests k).reply) (requests k).duration_ms
calls base (suc left) k requests =
    let rest = calls base left (suc k) requests in
    if retries_on (requests k).reply
    then after_wait (requests k).duration_ms (backoff_ms base k) rest
    else ended (verdict_of (requests k).reply) (requests k).duration_ms

-- `ExecutionResult`
pub record ExecutionResult : Type 0 where
  pub status_code : ℕ
  pub body : Json
  pub latency_ms : ℕ
  pub attempts : ℕ

unfoldable pub settle :
    Verdict
    → (mask : Json → Json) (now : ℕ) (tool_id : String) → Run
    → Breakers
    → Result ExecutionResult × Breakers
unfolding record_failure record_success
settle (succeeded code body) mask now tool_id run bs = (
  ok (record {
    status_code = code;
    body = mask body;
    latency_ms = run.elapsed_ms;
    attempts = run.attempts;
  }),
  record_success tool_id bs,
)
settle gave_up mask now tool_id run bs =
    (err (app_error 502 tool_upstream_error), record_failure now tool_id bs)
settle (raised e) mask now tool_id run bs = (err e, bs)

-- `execute`, admitted at `now` and settled at `later`; `between` is what other calls do to the
-- breakers while this one waits for its answers
unfoldable pub execute :
    (mask : Json → Json) (now later : ℕ) (tool_id : String) (retries base : ℕ)
    → (ℕ → Request)
    → (between : Breakers → Breakers) → Breakers
    → Result ExecutionResult × Breakers
unfolding raise_if_circuit_open
execute mask now later tool_id retries base requests between bs =
    let (admitted, entered) = raise_if_circuit_open now tool_id bs in
    let run = calls base retries 0 requests in
    elim admitted [
      | err e ↦ (err e, entered)
      | ok _ ↦ settle run.verdict mask later tool_id run (between entered)
    ]

unfoldable pub settle_debug :
    Reply
    → (mask : Json → Json) (now : ℕ) (tool_id : String) (latency_ms : ℕ) → Breakers
    → Result ExecutionResult × Breakers
unfolding record_failure record_success
settle_debug (answered code body) mask now tool_id latency_ms bs = (
  ok (record { status_code = code; body = mask body; latency_ms = latency_ms; attempts = 1 }),
  if is_success code then record_success tool_id bs else record_failure now tool_id bs,
)
settle_debug unreachable mask now tool_id latency_ms bs =
    (err (app_error 502 tool_upstream_error), record_failure now tool_id bs)
settle_debug (aborted e) mask now tool_id latency_ms bs = (err e, bs)

-- `debug`: one request, no retry
unfoldable pub debug :
    (mask : Json → Json) (now later : ℕ) (tool_id : String)
    → Request
    → (between : Breakers → Breakers) → Breakers
    → Result ExecutionResult × Breakers
unfolding raise_if_circuit_open
debug mask now later tool_id request between bs =
    let (admitted, entered) = raise_if_circuit_open now tool_id bs in
    elim admitted [
      | err e ↦ (err e, entered)
      | ok _ ↦ settle_debug request.reply mask later tool_id request.duration_ms (between entered)
    ]
