-- ===== src/Task/Model.antt =====
-- The rows of the task tables (apps/backend/app/models/task.py, models/task_outbox.py), the event
-- of apps/backend/app/events/task.py, and the world that the task services change. Instants are
-- numbers of seconds, UUIDs are numbers; the relationships of the ORM are not modelled.
use eap.Prelude.{ℕ, String, Bool, true, false, Option, List, [], ◌∷◌, ◌==◌, ◌≡◌, arith, ◌||◌}
use eap.Json.{Json}
use eap.Tool.Model.{Tool}

-- `ck_tasks_status`
pub data Status : Type 0 where
  pending approved rejected executing completed failed cancelled : Status

abbrev index : Status → ℕ
index pending = 0
index approved = 1
index rejected = 2
index executing = 3
index completed = 4
index failed = 5
index cancelled = 6

abbrev pub status_eq : Status → Status → Bool
status_eq a b = index a == index b

pub status_eq→≡ : (a b : Status) → status_eq a b ≡ true → a ≡ b
status_eq→≡ a b h = ground arith

-- `status in (…)`
abbrev pub is_in : Status → List Status → Bool
is_in s [] = false
is_in s (t ∷ ts) = status_eq s t || is_in s ts

-- What the code reads of a task's `payload`.
pub record Payload : Type 0 where
  pub tool_id : Option String
  pub params : Option Json

-- The `result` column: the reason of a rejection, or the outcome of a call.
pub data Outcome : Type 0 where
  reason : String → Outcome
  response : (status_code : ℕ) (body : Json) (latency_ms : ℕ) → Outcome

-- The `error_message` column, as the data that its text is made of.
pub data FailureMessage : Type 0 where
  unsupported_type : FailureMessage
  tool_missing : Option String → FailureMessage
  exception_text : String → FailureMessage

pub record Task : Type 0 where
  pub id : ℕ
  pub tenant_id : ℕ
  pub creator_id : ℕ
  pub assignee_id : Option ℕ
  pub type : String
  pub title : String
  pub priority : String
  pub status : Status
  pub payload : Payload
  pub result : Option Outcome
  pub error_message : Option FailureMessage
  pub retry_count : ℕ
  pub max_retries : ℕ
  pub expires_at : Option ℕ
  pub created_at : ℕ
  pub resolved_at : Option ℕ

pub record OutboxEvent : Type 0 where
  pub id : ℕ
  pub task_id : ℕ
  pub type : String
  pub status : Status
  pub payload : Payload
  pub created_at : ℕ
  pub delivered_at : Option ℕ

-- A `process_task` job, as `enqueue_process_task` sends it.
pub record Job : Type 0 where
  pub task_id : ℕ
  pub outbox_id : ℕ
  pub queue_name : String
  pub payload : Payload

pub record StatusChanged : Type 0 where
  pub task_id : ℕ
  pub from_status : Status
  pub to_status : Status
  pub actor_id : Option ℕ
  pub metadata : Option String

-- A call of `ToolProxy.execute` on behalf of a task; which requests it sends is told by Tool/Proxy.
pub record Call : Type 0 where
  pub task_id : ℕ
  pub tool_id : String
  pub params : Option Json

-- The committed tables, and the logs of all jobs, events and calls so far, newest first.
pub record World : Type 0 where
  pub tasks : List Task
  pub outbox : List OutboxEvent
  pub tools : List Tool
  pub jobs : List Job
  pub events : List StatusChanged
  pub calls : List Call

abbrev pub has_id : ℕ → Task → Bool
has_id i t = t.id == i
