-- ===== src/Task/Worker/Execution.antt =====
-- A delivery that nothing disturbs runs the approved tool once and records how the call ended.
use eap.Prelude.{
  ℕ, ◌≡◌, refl, sym, subst, Bool, true, false, some, List, ◌∷◌, arith, ◌==◌, ==→≡, ◌&&◌, str_eq,
  ◌∙◌, ap,
}
use eap.Prelude.Table.{find, count, find-keep, find-update, count-update, count_and_of_unique}
use eap.Tool.Model.{Tool}
use eap.Tool.Judgement.{is_disabled}
use eap.Task.Model.{
  Status, executing, completed, failed, is_in, Payload, exception_text, response, Task, Job, Call,
  World, has_id,
}
use eap.Task.Service.{emit}
use eap.Task.Worker.{
  CallEnd, returned, raised, lease_lost, Delivery, runnable, only_executing, move, emit_transition,
  failed_with, completed_with, conclude, record_outcome, invoke, find_tool, start_tool,
  execute_tool, run_task, process,
}

-- `t` is the one row with this id
pub record IsRow (i : ℕ) (t : Task) (w : World) : Type 0 where
  pub unique : count (has_id i) w.tasks ≡ 1
  pub row : find (has_id i) w.tasks ≡ some t

abbrev set : Status → (Task → Task) → Task → Task
set to_status values x = record (values x) { status = to_status }

module _ (i : ℕ) (t : Task) (w : World) (to_status : Status) (from_statuses : List Status)
    (values : Task → Task) (keeps : (x : Task) → (values x).id ≡ x.id) (h : IsRow i t w)
    (k : is_in t.status from_statuses ≡ true) where
  same_key : (x : Task) → has_id i (set to_status values x) ≡ has_id i x
  same_key x = ap (λ (n : ℕ). n == i) (keeps x)

  move-moved : (move i to_status from_statuses values w).0 ≡ true
  unfolding move
  move-moved =
      rw
        (
          count_and_of_unique (has_id i) (λ x. is_in x.status from_statuses) w.tasks t h.unique
              h.row,
          k,
        )
        refl

  move-IsRow : IsRow i (set to_status values t) (move i to_status from_statuses values w).1
  unfolding move
  move-IsRow = record {
    unique = count-update (has_id i) hit (set to_status values) w.tasks same_key ∙ h.unique;
    row =
        find-update (has_id i) hit (set to_status values) w.tasks same_key
        ∙ rw h.row (rw (find-keep (has_id i) w.tasks t h.row, k) refl);
  }
    where
      hit : Task → Bool
      hit x = has_id i x && is_in x.status from_statuses

move-calls :
    (i : ℕ) (to_status : Status) (from_statuses : List Status) (w : World)
    → (move i to_status from_statuses (λ t. t) w).1.calls ≡ w.calls
unfolding move
move-calls i to_status from_statuses w = refl

-- the row as the end of its call leaves it
abbrev pub ended : ℕ → CallEnd → Task → Task
ended now (returned code body latency) t =
    record (completed_with now (response code body latency) t) { status = completed }
ended now (raised text) t = record (failed_with now (exception_text text) t) { status = failed }
ended now lease_lost t = t

-- an announcement changes neither the rows nor the calls
emit_transition-IsRow :
    (i j : ℕ) (t : Task) (a b : Status) (w : World)
    → IsRow i t w
    → IsRow i t (emit_transition j a b w) × ((emit_transition j a b w).calls ≡ w.calls)
unfolding emit_transition emit
emit_transition-IsRow i j t a b w h =
    (record { unique = ground (arith, h.unique); row = ground (arith, h.row) }, ground arith)

conclude-IsRow :
    (i j : ℕ) (t : Task) (a b : Status) (c : Bool) (w : World)
    → IsRow i t w
    → IsRow i t (conclude j a b (c, w)) × ((conclude j a b (c, w)).calls ≡ w.calls)
unfolding conclude
conclude-IsRow i j t a b true w h = emit_transition-IsRow i j t a b w h
conclude-IsRow i j t a b false w h = (h, refl)

module _ (d : Delivery) where
  record_outcome-IsRow :
      (i : ℕ) (end : CallEnd) (t : Task) (w : World)
      → IsRow i t w
      → t.status ≡ executing
      → IsRow i (ended d.now end t) (record_outcome d i end w)
        × ((record_outcome d i end w).calls ≡ w.calls)
  unfolding record_outcome move
  record_outcome-IsRow i (returned code body latency) t w h e =
      let fill = completed_with d.now (response code body latency) in
      let moved = move i completed only_executing fill w in
      let (r, c) =
        conclude-IsRow i i (set completed fill t) executing completed moved.0 moved.1
          (move-IsRow i t w completed only_executing fill (λ _. refl) h (rw e refl)) in
      (r, c)
  record_outcome-IsRow i (raised text) t w h e =
      let fill = failed_with d.now (exception_text text) in
      let moved = move i failed only_executing fill w in
      let (r, c) =
        conclude-IsRow i i (set failed fill t) executing failed moved.0 moved.1
          (move-IsRow i t w failed only_executing fill (λ _. refl) h (rw e refl)) in
      (r, c)
  record_outcome-IsRow i lease_lost t w h e = (h, refl)

-- A delivery that holds its lease, beside which nothing else is committed.
pub record IsCalm (d : Delivery) : Type 0 where
  pub acquired : d.acquired ≡ true
  pub kept : d.lost_before_call ≡ false
  pub before_start : (w : World) → d.before_start w ≡ w
  pub before_record : (w : World) → d.before_record w ≡ w

module _ (d : Delivery) (calm : IsCalm d) where
  invoke-IsRow :
      (i : ℕ) (tool : Tool) (payload : Payload) (t : Task) (w : World)
      → is_disabled tool ≡ false
      → IsRow i t w
      → t.status ≡ executing
      → IsRow i (ended d.now d.call_end t) (invoke d i tool payload w)
        × ((invoke d i tool payload w).calls
            ≡ record { task_id = i; tool_id = tool.tool_id; params = payload.params } ∷ w.calls)
  unfolding invoke
  invoke-IsRow i tool payload t w e h s =
      rw (e, invoke)
        (rw (calm.before_record called) (
          record_outcome-IsRow d i d.call_end t called (record { unique = h.unique; row = h.row })
            s))
    where
      called : World
      called = record w {
        calls = record { task_id = i; tool_id = tool.tool_id; params = payload.params } ∷ w.calls;
      }

  start_tool-IsRow :
      (task : Task) (tool : Tool) (payload : Payload) (w : World)
      → is_disabled tool ≡ false
      → is_in task.status runnable ≡ true
      → IsRow task.id task w
      → IsRow task.id
          (ended d.now d.call_end (record task { status = executing }))
          (start_tool d task tool payload w)
        × ((start_tool d task tool payload w).calls
            ≡ record { task_id = task.id; tool_id = tool.tool_id; params = payload.params }
              ∷ w.calls)
  unfolding start_tool
  start_tool-IsRow task tool payload w e k h =
      let moved = move task.id executing runnable (λ t. t) w in
      let started = record task { status = executing } in
      let told = emit_transition task.id task.status executing moved.1 in
      let (r, c) =
        emit_transition-IsRow task.id task.id started task.status executing moved.1
          (move-IsRow task.id task w executing runnable (λ t. t) (λ _. refl) h k) in
      let (q, n) = invoke-IsRow task.id tool payload started told e r refl in
      rw (calm.before_start w) (
        rw (move-moved task.id task w executing runnable (λ t. t) (λ _. refl) h k)
          (simp calm.kept (q, n ∙ ap (◌∷◌ call) (c ∙ move-calls task.id executing runnable w))))
    where
      call : Call
      call = record { task_id = task.id; tool_id = tool.tool_id; params = payload.params }

  process-eq-start :
      (job : Job) (task : Task) (tool : Tool) (w : World)
      → IsRow job.task_id task w
      → is_in task.status runnable ≡ true
      → str_eq task.type "tool_approval" ≡ true
      → find_tool job.payload.tool_id w.tools ≡ some tool
      → process d job w ≡ start_tool d task tool job.payload w
  unfolding process run_task execute_tool
  process-eq-start job task tool w h k a n =
      simp (calm.acquired, h.row, k, a) (rw (n, execute_tool) refl)

  -- Nothing disturbs the delivery, the job's row is an approved or executing tool approval, and the
  -- tool is there and enabled: then `ToolProxy.execute` is called once, with the parameters of the job, and
  -- the row ends completed with the response, failed with the exception, or still executing if
  -- the lease was lost during the call.
  pub process_runs :
      (job : Job) (task : Task) (tool : Tool) (w : World)
      → IsRow job.task_id task w
      → is_in task.status runnable ≡ true
      → str_eq task.type "tool_approval" ≡ true
      → find_tool job.payload.tool_id w.tools ≡ some tool
      → is_disabled tool ≡ false
      → (find (has_id job.task_id) (process d job w).tasks
          ≡ some (ended d.now d.call_end (record task { status = executing })))
        × ((process d job w).calls
            ≡ record { task_id = job.task_id; tool_id = tool.tool_id; params = job.payload.params }
              ∷ w.calls)
  process_runs job task tool w h k a n e =
      subst
        (λ i.
          (find (has_id i) (process d job w).tasks
            ≡ some (ended d.now d.call_end (record task { status = executing })))
          × ((process d job w).calls
              ≡ record { task_id = i; tool_id = tool.tool_id; params = job.payload.params }
                ∷ w.calls))
        same (rw (process-eq-start job task tool w h k a n) (let (r, c) = started in (r.row, c)))
    where
      same : task.id ≡ job.task_id
      same = ==→≡ task.id job.task_id (find-keep (has_id job.task_id) w.tasks task h.row)

      started :
          IsRow task.id
            (ended d.now d.call_end (record task { status = executing }))
            (start_tool d task tool job.payload w)
          × ((start_tool d task tool job.payload w).calls
              ≡ record { task_id = task.id; tool_id = tool.tool_id; params = job.payload.params }
                ∷ w.calls)
      started =
          start_tool-IsRow task tool job.payload w e k (subst (λ i. IsRow i task w) (sym same) h)
