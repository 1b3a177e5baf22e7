-- ===== src/Task/Worker/Upstream.antt =====
-- An approved task from its delivery to the attempts of the tool's call: the worker job of
-- apps/backend/app/workers/process_task.py on the calls of services/tool_proxy.py.
use eap.Prelude.{
  ℕ, suc, ◌+◌, ◌≤◌, ◌<◌, ◌≡◌, refl, arith, String, true, false, some, ◌∙◌, str_eq, ap,
}
use eap.Prelude.Table.{find}
use eap.Errors.{Result, ok, err, AppError, app_error, tool_upstream_error}
use eap.Json.{Json}
use eap.Tool.Model.{Tool}
use eap.Tool.Judgement.{is_disabled}
use eap.Tool.Proxy.{
  Breakers, Request, Verdict, succeeded, gave_up, ExecutionResult, Run, retries_on, verdict_of,
  raise_if_circuit_open, calls, settle, execute,
}
use eap.Tool.Proxy as Proxy
use eap.Tool.Proxy.Calls.{calls-Stopped}
use eap.Task.Model.{executing, is_in, Task, Job, World, has_id}
use eap.Task.Worker.{CallEnd, returned, raised, Delivery, runnable, find_tool, process}
use eap.Task.Worker.Execution.{IsRow, IsCalm, ended, process_runs}

zero_plus : (k : ℕ) → 0 + k ≡ k
zero_plus k = omega arith

module _ (text : AppError → String) (mask : Json → Json) where
  -- how the worker sees the end of a call of the proxy; `text` is `str` of the exception
  abbrev pub call_end : Result ExecutionResult → CallEnd
  call_end (ok r) = returned r.status_code r.body r.latency_ms
  call_end (err e) = raised (text e)

  -- how a call ends whose last attempt came to this verdict
  abbrev pub decided_end : Verdict → (elapsed_ms : ℕ) → CallEnd
  decided_end (succeeded code body) elapsed_ms = returned code (mask body) elapsed_ms
  decided_end gave_up elapsed_ms = raised (text (app_error 502 tool_upstream_error))
  decided_end (Proxy.raised e) elapsed_ms = raised (text e)

  settled_end :
      (v : Verdict) (later : ℕ) (i : String) (run : Run) (bs : Breakers)
      → call_end (settle v mask later i run bs).0 ≡ decided_end v run.elapsed_ms
  unfolding settle
  settled_end (succeeded code body) later i run bs = refl
  settled_end gave_up later i run bs = refl
  settled_end (Proxy.raised e) later i run bs = refl

-- What a delivery whose call was let through came to: the attempts up to the one numbered `last` were
-- made, each but that one was worth another, and that one decides how the row ends.
pub record Delivered (text : AppError → String) (mask : Json → Json) (now retries base : ℕ)
    (requests : ℕ → Request) (task : Task) (left : World) (i : ℕ) : Type 0 where
  pub last : ℕ
  pub made : (calls base retries 0 requests).attempts ≡ suc last
  pub within : last ≤ retries
  pub retried : (j : ℕ) → j < last → retries_on (requests j).reply ≡ true
  pub stopped : last < retries → retries_on (requests last).reply ≡ false
  pub row :
      find (has_id i) left.tasks
      ≡ some (
          ended now
            (decided_end text mask
              (verdict_of (requests last).reply)
              (calls base retries 0 requests).elapsed_ms)
            (record task { status = executing }))

admitted_end :
    (text : AppError → String) (mask : Json → Json) (now later : ℕ) (i : String) (retries base : ℕ)
    (requests : ℕ → Request) (between : Breakers → Breakers) (bs : Breakers)
    → (raise_if_circuit_open now i bs).0 ≡ ok tt
    → call_end text mask (execute mask now later i retries base requests between bs).0
      ≡ decided_end text mask
          (calls base retries 0 requests).verdict
          (calls base retries 0 requests).elapsed_ms
unfolding execute
admitted_end text mask now later i retries base requests between bs a =
    let run = calls base retries 0 requests in
    rw (a, execute)
      (settled_end text mask run.verdict later i run (between (raise_if_circuit_open now i bs).1))

-- Nothing disturbs a delivery, its row is an approved or executing tool approval, its tool is there and
-- enabled, the tool's circuit lets the call through, and the call ends as the proxy ends it. Then the
-- proxy makes at least one attempt and at most one more than the tool's retries; each but the last
-- failed in a way worth another attempt, and an early stop is at one that did not. The row ends
-- completed with the last response if that is a success, and else failed with the proxy's error.
pub process_delivers :
    (text : AppError → String) (mask : Json → Json) (started settled retries base : ℕ)
    (requests : ℕ → Request) (between : Breakers → Breakers) (bs : Breakers) (d : Delivery)
    (job : Job) (task : Task) (tool : Tool) (w : World)
    → IsCalm d
    → IsRow job.task_id task w
    → is_in task.status runnable ≡ true
    → str_eq task.type "tool_approval" ≡ true
    → find_tool job.payload.tool_id w.tools ≡ some tool
    → is_disabled tool ≡ false
    → (raise_if_circuit_open started tool.tool_id bs).0 ≡ ok tt
    → d.call_end
      ≡ call_end text mask
          (execute mask started settled tool.tool_id retries base requests between bs).0
    → Delivered text mask d.now retries base requests task (process d job w) job.task_id
process_delivers text mask started settled retries base requests between bs d job task tool w calm h
      k a n e admitted end =
    let s = calls-Stopped base retries 0 requests in
    let (row, called) = process_runs d calm job task tool w h k a n e in
    let run = calls base retries 0 requests in
    let decided =
      end
      ∙ admitted_end text mask started settled tool.tool_id retries base requests between bs
          admitted in
    record {
      last = s.last;
      made = s.counted;
      within = s.bounded;
      retried = λ j p. rw (zero_plus j) at (s.retried j p);
      stopped = λ p. rw (zero_plus s.last) at (s.stopped p);
      row =
          row
          ∙ ap (λ (z : CallEnd). some (ended d.now z (record task { status = executing })))
              (decided
                ∙ ap (λ (v : Verdict). decided_end text mask v run.elapsed_ms)
                    (rw (zero_plus s.last) at s.decided));
    }
