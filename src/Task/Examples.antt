-- ===== src/Task/Examples.antt =====
-- The theorems about the task centre at concrete inputs, and tests of its operations.
mod Scans
mod Deliveries
mod Pages
mod Leases
use eap.Prelude.{
  ℕ, ◌≡◌, ◌<◌, refl, String, true, false, Option, none, some, [], ◌∷◌, ◌++◌, ◌⊎◌, arith, str_eq,
  if◌then◌else◌, ◌&&◌,
}
use eap.Prelude.Table.{All, take, find, count, update, select, length}
use eap.Errors.{Result, ok, err, app_error, invalid_transition, tool_disabled}
use eap.Json.{Json, null}
use eap.Tool.Model.{Tool}
use eap.Tool.Judgement.{is_disabled, requires_approval}
use eap.Task.Model.{
  Status, pending, approved, executing, completed, failed, cancelled, Task, OutboxEvent, Job, World,
  has_id,
}
use eap.Task.Machine.{identity}
use eap.Task.Service.{
  Actor, Setting, is_owner_or_admin, select_task, check_transition, check_retry, commit_move,
  dispatch_after_commit, dispatch_stages, dispatch_if_work, announce, refresh, emit,
  transition_task, retry_task, with_task, transition, retry,
}
use eap.Task.Service.Moves.{Progress, Progress-refl, transition-Progress, retry-Progress}
use eap.Task.Service.Moves
use eap.Task.Service.Refusals.{transition_refused}
use eap.Task.Service.Dispatch.{NoLoss, KeepsSent, requests-NoLoss}
use eap.Task.Service.Guards.{IsPermitted}
use eap.Task.Service.Authority.{Committed, transition-IsPermitted, retry_permitted}
use eap.Task.Worker.{returned, Delivery, process, invoke}
use eap.Task.Worker.Moves.{process-Progress}
use eap.Task.Worker.Cancellation.{called, invoke_discards, NoCall, cancelled_not_called}
use eap.Task.Worker.Execution.{ended, process_runs}
use eap.Task.Expiry.{is_overdue, retired, expire_overdue_approvals}
use eap.Task.Expiry.Exact.{expire_exact}
use eap.Task.Reconcile.{is_lost, reconcile_undelivered}
use eap.Task.Reconcile.Exact.{has_key, delivered, reconcile_exact, reconcile-NoLoss}
use eap.Task.Rescue.{Outside, rescue_candidates, rescue_stuck_dispatches}
use eap.Task.Rescue.Exact.{is_ready, after, rescue_exact}
use eap.Task.Approval.{
  Execution, success, pending_approval, Requester, approval_task, execute, execute_gate,
}
use eap.Task.System.{start, next, transition_step, terminal_for_ever}

abbrev pub row : ℕ → Status → Task
row i s = record {
  id = i;
  tenant_id = 1;
  creator_id = 7;
  assignee_id = none;
  type = "tool_approval";
  title = "mail";
  priority = "high";
  status = s;
  payload = record { tool_id = some "mail"; params = none };
  result = none;
  error_message = none;
  retry_count = 0;
  max_retries = 3;
  expires_at = some 100;
  created_at = 10;
  resolved_at = none;
}

abbrev pub mail : Tool
mail = record {
  tool_id = "mail";
  tenant_id = none;
  name = "Mail";
  endpoint = some "http://mail";
  method = some "POST";
  risk_level = "high";
  permission_mode = "auto";
  auth_type = none;
  auth_config = none;
  timeout_ms = 1000;
  retry_policy = none;
}

abbrev pub lost : OutboxEvent
lost = record {
  id = 50;
  task_id = 2;
  type = "tool-approval";
  status = approved;
  payload = record { tool_id = some "mail"; params = none };
  created_at = 20;
  delivered_at = none;
}

abbrev pub office : World
office = record {
  tasks = row 1 pending ∷ row 2 approved ∷ row 3 cancelled ∷ row 4 failed ∷ [];
  outbox = lost ∷ [];
  tools = mail ∷ [];
  jobs = [];
  events = [];
  calls = [];
}

abbrev parse : String → Option ℕ
parse s = if str_eq s "one" then some 1 else if str_eq s "four" then some 4 else none

abbrev quiet : Setting
quiet = record {
  parse_uuid = parse;
  now = 60;
  outbox_id = 51;
  enqueue_works = true;
  before_update = λ w. w;
  before_claim = λ w. w;
  before_refresh = λ w. w;
}

abbrev owner : Actor
owner = record { id = 7; role = "employee" }

abbrev stranger : Actor
stranger = record { id = 8; role = "employee" }

quiet-IsFair : Moves.IsFair quiet
quiet-IsFair = record {
  before_update = Progress-refl;
  before_claim = Progress-refl;
  before_refresh = Progress-refl;
}

unchanged-KeepsSent : KeepsSent (λ w. w)
unchanged-KeepsSent = record { accounts = λ w h. h; sent = λ w i h. h }

abbrev approve : World
approve = (transition quiet "one" approved owner 1 none office).1

-- an approval moves the row, adds a delivered outbox row and sends the job
approve_test :
    (find (has_id 1) approve.tasks ≡ some (row 1 approved))
    × (length approve.outbox ≡ 2)
    × (length approve.jobs ≡ 1)
    × (length approve.events ≡ 1)
unfolding transition with_task transition_task check_transition commit_move announce
    dispatch_if_work dispatch_after_commit dispatch_stages refresh emit find count update
approve_test = (refl, refl, refl, refl)

terminal_for_ever_example :
    (u : Task) × (find (has_id 3) approve.tasks ≡ some u)
    × (u.status ≡ cancelled)
    × (identity u ≡ identity (row 3 cancelled))
unfolding find
terminal_for_ever_example =
    terminal_for_ever 3 (row 3 cancelled) refl refl
      (next start (transition_step quiet quiet-IsFair "one" approved owner 1 none office))

transition-Progress_example : Progress office approve
transition-Progress_example =
    transition-Progress quiet quiet-IsFair "one" approved owner 1 none office

retry-Progress_example : Progress office (retry quiet "four" owner 1 office).1
retry-Progress_example = retry-Progress quiet quiet-IsFair "four" owner 1 office

stranger_refused :
    (transition quiet "four" completed stranger 1 none office).0
    ≡ err (app_error 422 invalid_transition)
unfolding transition with_task transition_task check_transition find
stranger_refused = refl

transition_refused_example :
    ((transition quiet "four" completed stranger 1 none office).1 ≡ office)
    ⊎ ((transition quiet "four" completed stranger 1 none office).1 ≡ office)
transition_refused_example =
    transition_refused quiet quiet-IsFair "four" completed stranger 1 none office
      (app_error 422 invalid_transition) stranger_refused

requests-NoLoss_example :
    NoLoss (transition quiet "one" approved owner 1 none office).1
    × NoLoss (retry quiet "one" owner 1 office).1
    × All NoLoss (dispatch_stages quiet (row 1 approved) office)
requests-NoLoss_example =
    requests-NoLoss quiet
      (record {
        before_update = unchanged-KeepsSent;
        before_claim = unchanged-KeepsSent;
        before_refresh = unchanged-KeepsSent;
      })
      "one" approved owner 1 none (row 1 approved) office (refl, tt)

approve_answers : (transition quiet "one" approved owner 1 none office).0 ≡ ok (row 1 approved)
unfolding transition with_task transition_task check_transition commit_move announce
    dispatch_if_work dispatch_after_commit dispatch_stages refresh emit find count update
approve_answers = refl

transition-IsPermitted_example :
    (task : Task) × (i : ℕ) × (parse "one" ≡ some i)
    × (select_task i 1 office ≡ some task)
    × IsPermitted 60 approved owner task
    × Committed task approved office (λ m.
      transition quiet "one" approved owner 1 none office
      ≡ announce quiet task approved owner none m)
transition-IsPermitted_example =
    transition-IsPermitted quiet "one" approved owner 1 none office (row 1 approved) approve_answers

abbrev rerun : Task
rerun = record (row 4 failed) { status = executing; retry_count = 1 }

retry_answers : (retry quiet "four" owner 1 office).0 ≡ ok rerun
unfolding retry with_task retry_task check_retry commit_move announce dispatch_if_work
    dispatch_after_commit dispatch_stages refresh emit find count update
retry_answers = refl

retry_permitted_example :
    (task : Task) × (i : ℕ) × (parse "four" ≡ some i)
    × (select_task i 1 office ≡ some task)
    × (is_owner_or_admin task owner ≡ true)
    × (task.status ≡ failed)
    × (task.retry_count < task.max_retries)
retry_permitted_example = retry_permitted quiet "four" owner 1 office rerun retry_answers

abbrev pub delivery : Delivery
delivery = record {
  now = 70;
  acquired = true;
  lost_before_call = false;
  call_end = returned 200 null 12;
  before_start = λ w. w;
  before_record = λ w. w;
}

abbrev pub job : ℕ → Job
job i = record {
  task_id = i;
  outbox_id = 50;
  queue_name = "tool-approval";
  payload = record { tool_id = some "mail"; params = none };
}

process-Progress_example : Progress office (process delivery (job 2) office)
process-Progress_example =
    process-Progress delivery
      (record { before_start = Progress-refl; before_record = Progress-refl }) (job 2) office

pub mail_enabled : is_disabled mail ≡ false
unfolding is_disabled
mail_enabled = refl

-- a user cancels the task while the call is on its way
abbrev cancels : World → World
cancels w = record w { tasks = row 2 cancelled ∷ [] }

abbrev interrupted : Delivery
interrupted = record delivery { before_start = λ w. w; before_record = cancels }

invoke_discards_example :
    invoke interrupted 2 mail (job 2).payload office
    ≡ called interrupted 2 mail (job 2).payload office
unfolding count
invoke_discards_example =
    invoke_discards interrupted 2 mail (job 2).payload office mail_enabled refl

cancelled_not_called_example : NoCall delivery office (process delivery (job 3) office)
unfolding count
cancelled_not_called_example = cancelled_not_called delivery (job 3) office refl
