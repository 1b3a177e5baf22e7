-- ===== src/Task/Worker/Cancellation.antt =====
-- A cancel that lands while a worker job runs stands: before the start it stops the call, and during
-- the call it discards the outcome.
use eap.Prelude.{
  ℕ, ◌≡◌, refl, false, List, sym, ◌∷◌, arith, ==→≡, Bool-cases, Option-cases, inl, inr, ◌&&◌, ◌⊎◌,
  str_eq, subst,
}
use eap.Prelude.Table.{find, count, find-keep, update-count_zero}
use eap.Tool.Model.{Tool}
use eap.Tool.Judgement.{is_disabled}
use eap.Task.Model.{
  Status, approved, executing, completed, failed, is_in, status_eq, Payload, FailureMessage,
  unsupported_type, tool_missing, exception_text, response, Task, Job, World, has_id,
}
use eap.Task.Service.{emit}
use eap.Task.Worker.{
  CallEnd, returned, raised, lease_lost, Delivery, runnable, only_executing, move, emit_transition,
  failed_with, completed_with, conclude, finish_failed, fail_before_execution, record_outcome,
  invoke, find_tool, start_tool, execute_tool, run_task, process,
}

-- a conditional update that matches no row changes nothing and says so
move_none :
    (i : ℕ) (to_status : Status) (w : World) (values : Task → Task) (from_statuses : List Status)
    → count (λ t. has_id i t && is_in t.status from_statuses) w.tasks ≡ 0
    → move i to_status from_statuses values w ≡ (false, w)
unfolding move
move_none i to_status w values from_statuses h =
    rw
      (
        h,
        update-count_zero (λ t. has_id i t && is_in t.status from_statuses)
            (λ t. record (values t) { status = to_status }) w.tasks h,
      )
      refl

module _ (d : Delivery) where
  record_outcome_discards :
      (i : ℕ) (end : CallEnd) (w : World)
      → count (λ t. has_id i t && is_in t.status only_executing) w.tasks ≡ 0
      → record_outcome d i end w ≡ w
  unfolding record_outcome conclude
  record_outcome_discards i (returned code body latency) w h =
      rw
        (move_none i completed w (completed_with d.now (response code body latency)) only_executing
          h)
        refl
  record_outcome_discards i (raised text) w h =
      rw (move_none i failed w (failed_with d.now (exception_text text)) only_executing h) refl
  record_outcome_discards i lease_lost w h = refl

  -- the world as the call left it, before its outcome is recorded
  abbrev pub called : ℕ → Tool → Payload → World → World
  called i tool payload w = d.before_record (record w {
    calls = record { task_id = i; tool_id = tool.tool_id; params = payload.params } ∷ w.calls;
  })

  -- If the row is no longer executing when the call of an enabled tool comes back (it was cancelled),
  -- then nothing is written and nothing is announced, however the call ended.
  pub invoke_discards :
      (i : ℕ) (tool : Tool) (payload : Payload) (w : World)
      → is_disabled tool ≡ false
      → count (λ t. has_id i t && is_in t.status only_executing) (called i tool payload w).tasks ≡ 0
      → invoke d i tool payload w ≡ called i tool payload w
  unfolding invoke
  invoke_discards i tool payload w e h =
      rw (e, invoke) (record_outcome_discards i d.call_end (called i tool payload w) h)

  finish_failed-calls :
      (i : ℕ) (from_status : Status) (message : FailureMessage) (w : World)
      → (finish_failed d i from_status message w).calls ≡ w.calls
  unfolding finish_failed conclude move emit_transition emit
  finish_failed-calls i from_status message w = ground arith

  -- where the calls of a job that called nothing come from
  abbrev pub NoCall : World → World → Type 0
  NoCall w w' =
      (w'.calls ≡ w.calls)
      ⊎ ((w'.calls ≡ (d.before_start w).calls) ⊎ (w'.calls ≡ (d.before_record w).calls))

  fail_before_execution-NoCall :
      (task : Task) (message : FailureMessage) (w : World)
      → count (λ t. has_id task.id t && is_in t.status runnable) (d.before_start w).tasks ≡ 0
      → NoCall w (fail_before_execution d task message w)
  unfolding fail_before_execution
  fail_before_execution-NoCall task message w h =
      elim (Bool-cases (status_eq task.status approved)) [
        | inl e ↦
            rw (e, fail_before_execution)
              (rw (move_none task.id executing (d.before_start w) (λ t. t) runnable h)
                (inr (inl refl)))
        | inr e ↦
            rw (e, fail_before_execution)
              (inr (inr (finish_failed-calls task.id executing message (d.before_record w))))
      ]

  run_task-NoCall :
      (payload : Payload) (task : Task) (w : World)
      → count (λ t. has_id task.id t && is_in t.status runnable) (d.before_start w).tasks ≡ 0
      → NoCall w (run_task d payload task w)
  unfolding run_task execute_tool start_tool
  run_task-NoCall payload task w h = elim (Bool-cases (is_in task.status runnable)) [
    | inl e ↦
        rw (e, run_task)
          (elim (Bool-cases (str_eq task.type "tool_approval")) [
            | inl k ↦
                rw (k, run_task)
                  (elim (Option-cases (find_tool payload.tool_id w.tools)) [
                    | inl n ↦
                        rw (n, execute_tool)
                          (fail_before_execution-NoCall task (tool_missing payload.tool_id) w h)
                    | inr (tool, n) ↦
                        rw (n, execute_tool)
                          (rw (move_none task.id executing (d.before_start w) (λ t. t) runnable h)
                            (inr (inl refl)))
                  ])
            | inr k ↦ rw (k, run_task) (fail_before_execution-NoCall task unsupported_type w h)
          ])
    | inr e ↦ rw (e, run_task) (inl refl)
  ]

  -- If no row of the job's task may still run when the job tries to start it (the task was cancelled
  -- after the job was sent), then the job makes no tool call: the log of calls is the one that the
  -- job found or that other sessions left.
  pub cancelled_not_called :
      (job : Job) (w : World)
      → count (λ t. has_id job.task_id t && is_in t.status runnable) (d.before_start w).tasks ≡ 0
      → NoCall w (process d job w)
  unfolding process
  cancelled_not_called job w h = elim (Bool-cases d.acquired) [
    | inl e ↦
        rw (e, process)
          (elim (Option-cases (find (has_id job.task_id) w.tasks)) [
            | inl n ↦ rw (n, process) (inl refl)
            | inr (task, n) ↦
                rw (n, process)
                  (run_task-NoCall job.payload task w (
                    subst
                      (λ i.
                        count (λ t. has_id i t && is_in t.status runnable) (d.before_start w).tasks
                        ≡ 0)
                      (sym
                        (==→≡ task.id job.task_id (find-keep (has_id job.task_id) w.tasks task n)))
                      h))
          ])
    | inr e ↦ rw (e, process) (inl refl)
  ]
