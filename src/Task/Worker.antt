-- ===== src/Task/Worker.antt =====
-- The worker job of apps/backend/app/workers/process_task.py: `_process` and what it calls. What the
-- tool proxy and the other sessions do while the job waits is an argument of the job.
pub mod Moves
pub mod Cancellation
pub mod Execution
pub mod Upstream
use eap.Prelude.{
  ℕ, String, Bool, true, false, not, ◌&&◌, Option, none, some, List, [], ◌∷◌, ◌==◌, if◌then◌else◌,
  str_eq,
}
use eap.Prelude.Table.{find, update, count}
use eap.Json.{Json}
use eap.Tool.Model.{Tool}
use eap.Tool.Judgement.{is_disabled}
use eap.Task.Model.{
  Status, approved, executing, completed, failed, status_eq, is_in, Payload, Outcome, response,
  FailureMessage, unsupported_type, tool_missing, exception_text, Task, Job, StatusChanged, Call,
  World, has_id,
}
use eap.Task.Service.{emit}

-- How the awaited call of the proxy came out: a result, an exception, or a lease that was lost.
pub data CallEnd : Type 0 where
  returned : (status_code : ℕ) (body : Json) (latency_ms : ℕ) → CallEnd
  raised : String → CallEnd
  lease_lost : CallEnd

-- One delivery's surroundings: whether it won the lease, whether it had lost it before the call,
-- how the call ended, and what other sessions commit before the start and before the outcome is
-- recorded (during the call, when there is one).
pub record Delivery : Type 0 where
  pub now : ℕ
  pub acquired : Bool
  pub lost_before_call : Bool
  pub call_end : CallEnd
  pub before_start : World → World
  pub before_record : World → World

-- `_RUNNABLE_STATUSES` and `_EXECUTING_STATUSES`
abbrev pub runnable : List Status
runnable = approved ∷ executing ∷ []

abbrev pub only_executing : List Status
only_executing = executing ∷ []

-- `_transition`: the conditional update, and whether it moved exactly one row
unfoldable pub move : ℕ → Status → List Status → (Task → Task) → World → Bool × World
move task_id to_status from_statuses values w =
    let hit = λ (t : Task). has_id task_id t && is_in t.status from_statuses in
    (
      count hit w.tasks == 1,
      record w { tasks = update hit (λ t. record (values t) { status = to_status }) w.tasks },
    )

unfoldable pub emit_transition : ℕ → Status → Status → World → World
unfolding emit
emit_transition task_id from_status to_status w =
    if status_eq from_status to_status
    then w
    else emit
        (record {
          task_id = task_id;
          from_status = from_status;
          to_status = to_status;
          actor_id = none;
          metadata = none;
        })
        w

abbrev pub failed_with : ℕ → FailureMessage → Task → Task
failed_with now message t = record t { error_message = some message; resolved_at = some now }

abbrev pub completed_with : ℕ → Outcome → Task → Task
completed_with now outcome t = record t { result = some outcome; resolved_at = some now }

-- the end of a job's last conditional update: announced only if it moved the row
unfoldable pub conclude : ℕ → Status → Status → Bool × World → World
conclude task_id from_status to_status (moved, w) =
    if moved then emit_transition task_id from_status to_status w else w

unfoldable pub finish_failed : Delivery → ℕ → Status → FailureMessage → World → World
finish_failed d task_id from_status message w =
    conclude task_id from_status failed
      (move task_id failed only_executing (failed_with d.now message) w)

unfoldable pub fail_before_execution : Delivery → Task → FailureMessage → World → World
fail_before_execution d task message w =
    if status_eq task.status approved
    then (let (moved, w') = move task.id executing runnable (λ t. t) (d.before_start w) in
        if moved
        then finish_failed d task.id executing message
            (d.before_record (emit_transition task.id approved executing w'))
        else w')
    else finish_failed d task.id executing message (d.before_record w)

-- the outcome of the call, written only on a row that is still executing
unfoldable pub record_outcome : Delivery → ℕ → CallEnd → World → World
record_outcome d task_id (returned code body latency) w =
    conclude task_id executing completed
      (move task_id completed only_executing (completed_with d.now (response code body latency)) w)
record_outcome d task_id (raised text) w =
    conclude task_id executing failed
      (move task_id failed only_executing (failed_with d.now (exception_text text)) w)
record_outcome d task_id lease_lost w = w

-- `ensure_invocable`, then the call and its outcome
unfoldable pub invoke : Delivery → ℕ → Tool → Payload → World → World
invoke d task_id tool payload w =
    if is_disabled tool
    then record_outcome d task_id (raised "Tool is disabled") w
    else record_outcome d task_id d.call_end (
        d.before_record (record w {
          calls =
              record { task_id = task_id; tool_id = tool.tool_id; params = payload.params }
              ∷ w.calls;
        }))

abbrev pub find_tool : Option String → List Tool → Option Tool
find_tool none tools = none
find_tool (some i) tools = find (λ (t : Tool). str_eq t.tool_id i) tools

unfoldable pub start_tool : Delivery → Task → Tool → Payload → World → World
start_tool d task tool payload w =
    let (moved, w') = move task.id executing runnable (λ t. t) (d.before_start w) in
    if moved
    then (let told = emit_transition task.id task.status executing w' in
        if d.lost_before_call then told else invoke d task.id tool payload told)
    else w'

unfoldable pub execute_tool : Delivery → Task → Payload → World → World
execute_tool d task payload w = elim (find_tool payload.tool_id w.tools) [
  | none ↦ fail_before_execution d task (tool_missing payload.tool_id) w
  | some tool ↦ start_tool d task tool payload w
]

-- the judgements of `_process` on the row that it read
unfoldable pub run_task : Delivery → Payload → Task → World → World
run_task d payload task w =
    if not (is_in task.status runnable)
    then w
    else if not (str_eq task.type "tool_approval")
    then fail_before_execution d task unsupported_type w
    else execute_tool d task payload w

unfoldable pub process : Delivery → Job → World → World
process d job w =
    if d.acquired
    then elim (find (has_id job.task_id) w.tasks) [
      | none ↦ w
      | some task ↦ run_task d job.payload task w
    ]
    else w
