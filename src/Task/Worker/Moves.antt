-- ===== src/Task/Worker/Moves.antt =====
-- What a worker job does to the rows of the task table, whatever is committed beside it.
use eap.Prelude.{
  ℕ, ◌≡◌, refl, Bool, true, false, List, ◌∷◌, arith, Bool-cases, if◌then◌else◌, Option-cases, inl,
  inr, ◌&&◌, str_eq,
}
use eap.Prelude.Table.{Rows-update, find}
use eap.Tool.Model.{Tool}
use eap.Tool.Judgement.{is_disabled}
use eap.Task.Model.{
  Status, approved, executing, completed, failed, is_in, status_eq, Payload, FailureMessage,
  unsupported_type, tool_missing, exception_text, Outcome, response, Task, Job, World, has_id,
}
use eap.Task.Machine.{◌⟶*◌, Evolves, Evolves-refl, step, here}
use eap.Task.Service.Moves.{Progress, Progress-refl, Progress-trans}
use eap.Task.Worker.{
  CallEnd, returned, raised, lease_lost, Delivery, runnable, only_executing, move, emit_transition,
  failed_with, completed_with, conclude, finish_failed, fail_before_execution, record_outcome,
  invoke, find_tool, start_tool, execute_tool, run_task, process,
}

pub record IsFair (d : Delivery) : Type 0 where
  pub before_start : (w : World) → Progress w (d.before_start w)
  pub before_record : (w : World) → Progress w (d.before_record w)

-- a conditional update from statuses that may all become `to_status`, or are it already
move-Progress :
    (task_id : ℕ) (to_status : Status) (from_statuses : List Status) (values : Task → Task)
    (w : World)
    → ((t : Task)
        → is_in t.status from_statuses ≡ true
        → Evolves t (record (values t) { status = to_status }))
    → Progress w (move task_id to_status from_statuses values w).1
unfolding move
move-Progress task_id to_status from_statuses values w legal =
    Rows-update Evolves Evolves-refl (λ t. has_id task_id t && is_in t.status from_statuses)
      (λ t. record (values t) { status = to_status }) w.tasks (λ t k. legal t (second t k))
  where
    second :
        (t : Task)
        → (has_id task_id t && is_in t.status from_statuses) ≡ true
        → is_in t.status from_statuses ≡ true
    second t k = ground arith

starts : (t : Task) → is_in t.status runnable ≡ true → Evolves t (record t { status = executing })
starts t k = record { same = refl; moves = go t.status k }
  where
    go : (s : Status) → is_in s runnable ≡ true → s ⟶* executing
    go approved k = step approved executing refl
    go executing k = here
    go _ k = cc

fails :
    (now : ℕ) (message : FailureMessage) (t : Task)
    → is_in t.status only_executing ≡ true
    → Evolves t (record (failed_with now message t) { status = failed })
fails now message t k = record { same = refl; moves = step t.status failed (ground arith) }

completes :
    (now : ℕ) (outcome : Outcome) (t : Task)
    → is_in t.status only_executing ≡ true
    → Evolves t (record (completed_with now outcome t) { status = completed })
completes now outcome t k = record { same = refl; moves = step t.status completed (ground arith) }

emit_transition-Progress :
    (i : ℕ) (from_status to_status : Status) (w : World)
    → Progress w (emit_transition i from_status to_status w)
unfolding emit_transition
emit_transition-Progress i from_status to_status w =
    elim (Bool-cases (status_eq from_status to_status)) [
      | inl e ↦ rw (e, emit_transition) (Progress-refl w)
      | inr e ↦ rw (e, emit_transition) (Progress-refl w)
    ]

conclude-Progress :
    (i : ℕ) (from_status to_status : Status) (v : World) (b : Bool) (w : World)
    → Progress v w
    → Progress v (conclude i from_status to_status (b, w))
unfolding conclude
conclude-Progress i from_status to_status v true w p =
    Progress-trans v w (emit_transition i from_status to_status w) p
      (emit_transition-Progress i from_status to_status w)
conclude-Progress i from_status to_status v false w p = p

module _ (d : Delivery) where
  finish_failed-Progress :
      (i : ℕ) (from_status : Status) (message : FailureMessage) (w : World)
      → Progress w (finish_failed d i from_status message w)
  unfolding finish_failed
  finish_failed-Progress i from_status message w =
      let (b, v) = move i failed only_executing (failed_with d.now message) w in
      conclude-Progress i from_status failed w b v
        (move-Progress i failed only_executing (failed_with d.now message) w (fails d.now message))

  record_outcome-Progress :
      (i : ℕ) (end : CallEnd) (w : World) → Progress w (record_outcome d i end w)
  unfolding record_outcome
  record_outcome-Progress i (returned code body latency) w =
      let set = completed_with d.now (response code body latency) in
      let (b, v) = move i completed only_executing set w in
      conclude-Progress i executing completed w b v (
        move-Progress i completed only_executing set w
          (completes d.now (response code body latency)))
  record_outcome-Progress i (raised text) w =
      let set = failed_with d.now (exception_text text) in
      let (b, v) = move i failed only_executing set w in
      conclude-Progress i executing failed w b v
        (move-Progress i failed only_executing set w (fails d.now (exception_text text)))
  record_outcome-Progress i lease_lost w = Progress-refl w

module _ (d : Delivery) (fair : IsFair d) where
  invoke-Progress :
      (i : ℕ) (tool : Tool) (payload : Payload) (w : World) → Progress w (invoke d i tool payload w)
  unfolding invoke
  invoke-Progress i tool payload w = elim (Bool-cases (is_disabled tool)) [
    | inl e ↦ rw (e, invoke) (record_outcome-Progress d i (raised "Tool is disabled") w)
    | inr e ↦
        rw (e, invoke)
          (Progress-trans w (d.before_record called)
            (record_outcome d i d.call_end (d.before_record called)) (fair.before_record called)
            (record_outcome-Progress d i d.call_end (d.before_record called)))
  ]
    where
      called : World
      called = record w {
        calls = record { task_id = i; tool_id = tool.tool_id; params = payload.params } ∷ w.calls;
      }

  -- the conditional start, and what a job does once it has moved the row
  started-Progress :
      (i : ℕ) (w : World) (rest : Bool × World → World)
      → ((b : Bool) (v : World) → Progress v (rest (b, v)))
      → Progress w (rest (move i executing runnable (λ t. t) (d.before_start w)))
  started-Progress i w rest go =
      let (b, v) = move i executing runnable (λ t. t) (d.before_start w) in
      Progress-trans w v (rest (b, v))
        (Progress-trans w (d.before_start w) v (fair.before_start w)
          (move-Progress i executing runnable (λ t. t) (d.before_start w) starts))
        (go b v)

  fail_before_execution-Progress :
      (task : Task) (message : FailureMessage) (w : World)
      → Progress w (fail_before_execution d task message w)
  unfolding fail_before_execution
  fail_before_execution-Progress task message w =
      elim (Bool-cases (status_eq task.status approved)) [
        | inl e ↦ rw (e, fail_before_execution) (started-Progress task.id w after go)
        | inr e ↦ rw (e, fail_before_execution) (failing (d.before_record w) (fair.before_record w))
      ]
    where
      failing :
          (v : World) → Progress w v → Progress w (finish_failed d task.id executing message v)
      failing v p =
          Progress-trans w v (finish_failed d task.id executing message v) p
            (finish_failed-Progress d task.id executing message v)

      after : Bool × World → World
      after r =
          if r.0
          then finish_failed d task.id executing message
              (d.before_record (emit_transition task.id approved executing r.1))
          else r.1

      go : (b : Bool) (v : World) → Progress v (after (b, v))
      go true v =
          let told = emit_transition task.id approved executing v in
          Progress-trans v (d.before_record told)
            (finish_failed d task.id executing message (d.before_record told))
            (Progress-trans v told (d.before_record told)
              (emit_transition-Progress task.id approved executing v) (fair.before_record told))
            (finish_failed-Progress d task.id executing message (d.before_record told))
      go false v = Progress-refl v

  start_tool-Progress :
      (task : Task) (tool : Tool) (payload : Payload) (w : World)
      → Progress w (start_tool d task tool payload w)
  unfolding start_tool
  start_tool-Progress task tool payload w = started-Progress task.id w after go
    where
      after : Bool × World → World
      after r =
          if r.0
          then (let told = emit_transition task.id task.status executing r.1 in
              if d.lost_before_call then told else invoke d task.id tool payload told)
          else r.1

      calling :
          (lost : Bool) (v : World)
          → Progress v (if lost then v else invoke d task.id tool payload v)
      calling true v = Progress-refl v
      calling false v = invoke-Progress task.id tool payload v

      go : (b : Bool) (v : World) → Progress v (after (b, v))
      go true v =
          let told = emit_transition task.id task.status executing v in
          Progress-trans v told
            (if d.lost_before_call then told else invoke d task.id tool payload told)
            (emit_transition-Progress task.id task.status executing v)
            (calling d.lost_before_call told)
      go false v = Progress-refl v

  run_task-Progress :
      (payload : Payload) (task : Task) (w : World) → Progress w (run_task d payload task w)
  unfolding run_task execute_tool
  run_task-Progress payload task w = elim (Bool-cases (is_in task.status runnable)) [
    | inl e ↦
        rw (e, run_task)
          (elim (Bool-cases (str_eq task.type "tool_approval")) [
            | inl k ↦
                rw (k, run_task)
                  (elim (Option-cases (find_tool payload.tool_id w.tools)) [
                    | inl n ↦
                        rw (n, execute_tool)
                          (fail_before_execution-Progress task (tool_missing payload.tool_id) w)
                    | inr (tool, n) ↦ rw (n, execute_tool) (start_tool-Progress task tool payload w)
                  ])
            | inr k ↦ rw (k, run_task) (fail_before_execution-Progress task unsupported_type w)
          ])
    | inr e ↦ rw (e, run_task) (Progress-refl w)
  ]

  -- Whatever a delivery of a job finds and however its call ends, and whatever fair sessions commit
  -- while it waits, every row keeps its identity and its retry budget, and its status moves along
  -- `VALID_TRANSITIONS` only.
  pub process-Progress : (job : Job) (w : World) → Progress w (process d job w)
  unfolding process
  process-Progress job w = elim (Bool-cases d.acquired) [
    | inl e ↦
        rw (e, process)
          (elim (Option-cases (find (has_id job.task_id) w.tasks)) [
            | inl n ↦ rw (n, process) (Progress-refl w)
            | inr (task, n) ↦ rw (n, process) (run_task-Progress job.payload task w)
          ])
    | inr e ↦ rw (e, process) (Progress-refl w)
  ]
