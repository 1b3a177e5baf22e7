-- ===== src/Task/Service.antt =====
-- `TaskService` of apps/backend/app/services/task_service.py, with `map_queue_name` and
-- `enqueue_process_task` of apps/backend/app/queue.py and `claim_outbox_row` of
-- apps/backend/app/services/task_reconcile.py. Every write is a conditional update of the
-- committed tables; what other sessions commit while a service waits is an argument.
pub mod Guards
pub mod Moves
pub mod Refusals
pub mod Dispatch
pub mod Authority
use eap.Prelude.{
  ℕ, ◌+◌, String, Bool, true, false, not, ◌&&◌, ◌||◌, Option, none, some, List, [], ◌∷◌, ◌++◌, leb,
  ◌==◌, if◌then◌else◌, str_eq,
}
use eap.Prelude.Table.{find, update, count}
use eap.Errors.{
  Result, ok, err, app_error, ◌>>◌, raise_if, task_not_found, invalid_transition, task_expired,
  forbidden, task_already_processed, max_retries_exceeded,
}
use eap.Task.Model.{
  Status, approved, rejected, executing, failed, cancelled, status_eq, is_in, Payload, Outcome,
  reason, Task, OutboxEvent, Job, StatusChanged, World, has_id,
}
use eap.Task.Machine.{valid_transitions, work_triggering}

-- What a request knows of the acting user.
pub record Actor : Type 0 where
  pub id : ℕ
  pub role : String

-- One request's surroundings: the clock, the new row's id, whether the queue takes the job, and
-- what other sessions commit before the update, before the claim and before the last read.
pub record Setting : Type 0 where
  pub parse_uuid : String → Option ℕ
  pub now : ℕ
  pub outbox_id : ℕ
  pub enqueue_works : Bool
  pub before_update : World → World
  pub before_claim : World → World
  pub before_refresh : World → World

-- `ADMIN_ROLES`
abbrev pub is_admin : String → Bool
is_admin role = str_eq role "platform_admin" || str_eq role "agent_admin"

abbrev pub opt_is : Option ℕ → ℕ → Bool
opt_is none i = false
opt_is (some j) i = j == i

unfoldable pub is_owner_or_admin : Task → Actor → Bool
is_owner_or_admin task actor =
    is_admin actor.role || (task.creator_id == actor.id || opt_is task.assignee_id actor.id)

abbrev pub past : Option ℕ → ℕ → Bool
past none now = false
past (some t) now = leb t now

unfoldable pub is_expired : ℕ → Task → Bool
is_expired now task = past task.expires_at now

unfoldable pub map_queue_name : String → String
map_queue_name task_type =
    if str_eq task_type "tool_approval"
    then "tool-approval"
    else if str_eq task_type "knowledge_index"
    then "knowledge-index-status"
    else if str_eq task_type "memory_extraction"
    then "memory-extraction"
    else "audit-log"

unfoldable pub emit : StatusChanged → World → World
emit event w = record w { events = event ∷ w.events }

unfoldable pub enqueue_process_task : ℕ → ℕ → String → Payload → World → World
enqueue_process_task task_id outbox_id queue_name payload w = record w {
  jobs =
      record {
        task_id = task_id;
        outbox_id = outbox_id;
        queue_name = queue_name;
        payload = payload;
      }
      ∷ w.jobs;
}

abbrev pub is_undelivered : OutboxEvent → Bool
is_undelivered event = elim event.delivered_at [ none ↦ true | some _ ↦ false ]

unfoldable pub claim_outbox_row : ℕ → ℕ → World → World
claim_outbox_row now outbox_id w = record w {
  outbox =
      update (λ e. e.id == outbox_id && is_undelivered e)
        (λ e. record e { delivered_at = some now }) w.outbox;
}

abbrev pub select_task : ℕ → ℕ → World → Option Task
select_task task_id tenant w = find (λ t. has_id task_id t && t.tenant_id == tenant) w.tasks

-- the guards of `transition`, in their order
unfoldable pub check_transition : ℕ → Status → Actor → Task → Result (Unit {0})
unfolding is_owner_or_admin is_expired
check_transition now to_status actor task = do
  raise_if (not (is_in to_status (valid_transitions task.status))) 422 invalid_transition
  raise_if (status_eq to_status approved && is_expired now task) 422 task_expired
  raise_if (is_in to_status (approved ∷ rejected ∷ []) && not (is_owner_or_admin task actor)) 403
      forbidden
  raise_if (status_eq to_status cancelled && not (is_owner_or_admin task actor)) 403 forbidden

-- the guards of `retry`, in their order
unfoldable pub check_retry : Actor → Task → Result (Unit {0})
unfolding is_owner_or_admin
check_retry actor task = do
  raise_if (not (is_owner_or_admin task actor)) 403 forbidden
  raise_if (not (status_eq task.status failed)) 422 invalid_transition
  raise_if (leb task.max_retries task.retry_count) 409 max_retries_exceeded

abbrev pub outbox_row : ℕ → ℕ → Task → Status → OutboxEvent
outbox_row now outbox_id task to_status = record {
  id = outbox_id;
  task_id = task.id;
  type = map_queue_name task.type;
  status = to_status;
  payload = task.payload;
  created_at = now;
  delivered_at = none;
}

-- the tables after each step of a dispatch: the job was sent, then the outbox row was claimed
unfoldable pub dispatch_stages : Setting → Task → World → List World
unfolding claim_outbox_row enqueue_process_task
dispatch_stages env task w =
    let sent =
      enqueue_process_task task.id env.outbox_id (map_queue_name task.type) task.payload w in
    if env.enqueue_works
    then sent ∷ claim_outbox_row env.now env.outbox_id (env.before_claim sent) ∷ []
    else []

abbrev pub last_stage : World → List World → World
last_stage w [] = w
last_stage w (v ∷ vs) = last_stage v vs

unfoldable pub dispatch_after_commit : Setting → Task → World → World
unfolding dispatch_stages
dispatch_after_commit env task w = last_stage w (dispatch_stages env task w)

unfoldable pub dispatch_if_work : Setting → Status → Task → World → World
dispatch_if_work env to_status task w =
    if is_in to_status work_triggering then dispatch_after_commit env task w else w

abbrev pub set_rejected : Status → Option String → Option Outcome → Option Outcome
set_rejected rejected (some text) result = some (reason text)
set_rejected _ _ result = result

-- the update and the outbox row, committed together; `none` when no row matched
unfoldable pub commit_move : ℕ → ℕ → Task → Status → (Task → Task) → World → Option World
commit_move now outbox_id task to_status set w =
    let hit = λ (t : Task). has_id task.id t && status_eq t.status task.status in
    if count hit w.tasks == 0
    then none
    else some (record w {
      tasks = update hit set w.tasks;
      outbox =
          if is_in to_status work_triggering
          then w.outbox ++ outbox_row now outbox_id task to_status ∷ []
          else w.outbox;
    })

-- the last read of the row, which answers the request
unfoldable pub refresh : Setting → ℕ → World → Result Task × World
refresh env task_id w =
    let w' = env.before_refresh w in
    elim (find (has_id task_id) w'.tasks) [
      | none ↦ (err (app_error 404 task_not_found), w')
      | some t ↦ (ok t, w')
    ]

-- dispatch, event and last read, after the commit
unfoldable pub announce :
    Setting → Task → Status → Actor → Option String → World → Result Task × World
announce env task to_status actor metadata w = refresh env task.id (
    emit
      (record {
        task_id = task.id;
        from_status = task.status;
        to_status = to_status;
        actor_id = some actor.id;
        metadata = metadata;
      })
      (dispatch_if_work env to_status task w))

-- the values of the update
abbrev pub moved_to : Status → Option String → Task → Task
moved_to to_status metadata t = record t {
  status = to_status;
  result = set_rejected to_status metadata t.result;
}

unfoldable pub transition_task :
    Setting → Status → Actor → Option String → Task → World → Result Task × World
transition_task env to_status actor metadata task w =
    elim (check_transition env.now to_status actor task) [
      | err e ↦ (err e, w)
      | ok _ ↦
          let w' = env.before_update w in
          let set = moved_to to_status metadata in
          elim (commit_move env.now env.outbox_id task to_status set w') [
            | none ↦ (err (app_error 409 task_already_processed), w')
            | some moved ↦ announce env task to_status actor metadata moved
          ]
    ]

unfoldable pub retry_task : Setting → Actor → Task → World → Result Task × World
retry_task env actor task w = elim (check_retry actor task) [
  | err e ↦ (err e, w)
  | ok _ ↦
      let w' = env.before_update w in
      let set = λ (t : Task). record t { status = executing; retry_count = task.retry_count + 1 } in
      elim (commit_move env.now env.outbox_id task executing set w') [
        | none ↦ (err (app_error 409 task_already_processed), w')
        | some moved ↦ announce env task executing actor none moved
      ]
]

-- `_parse_task_id` and `_select_task`, then the rest of the request
unfoldable pub with_task :
    Setting → String → ℕ → (Task → World → Result Task × World) → World → Result Task × World
with_task env task_id tenant body w = elim (env.parse_uuid task_id) [
  | none ↦ (err (app_error 404 task_not_found), w)
  | some i ↦ elim (select_task i tenant w) [
    | none ↦ (err (app_error 404 task_not_found), w)
    | some task ↦ body task w
  ]
]

unfoldable pub transition :
    Setting → String → Status → Actor → ℕ → Option String → World → Result Task × World
transition env task_id to_status actor tenant metadata w =
    with_task env task_id tenant (transition_task env to_status actor metadata) w

unfoldable pub retry : Setting → String → Actor → ℕ → World → Result Task × World
retry env task_id actor tenant w = with_task env task_id tenant (retry_task env actor) w
