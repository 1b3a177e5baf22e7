-- ===== src/Task/Approval.antt =====
-- `ToolService.execute` and `_request_approval` of apps/backend/app/services/tool_service.py: the
-- gate that turns a call of a risky tool into a pending task. The dispatch of the notice to the
-- approvers is best effort and is not modelled; neither are the tool's name and the conversation in
-- the payload, which no code reads again.
pub mod Gate
use Prim.Native.String.{◌++◌ as text_append}
use eap.Prelude.{
  ℕ, ◌+◌, ◌*◌, ◌≡◌, refl, none, some, [], ◌∷◌, ◌++◌, if◌then◌else◌, Bool-cases, inl, inr,
}
use eap.Prelude.Table.{Rows-append}
use eap.Errors.{app_error, Result, ok, err, tool_disabled}
use eap.Json.{Json}
use eap.Tool.Model.{Tool}
use eap.Tool.Judgement.{is_disabled, requires_approval, ensure_invocable}
use eap.Task.Model.{Task, pending, World}
use eap.Task.Machine.{Evolves, Evolves-refl}
use eap.Task.Service.Moves.{Progress}

-- the requesting user, as the new task names them
pub record Requester : Type 0 where
  pub id : ℕ
  pub tenant_id : ℕ

-- `APPROVAL_TIMEOUT`, in seconds
abbrev pub approval_timeout : ℕ
approval_timeout = 24 * 3600

abbrev pub approval_task : ℕ → ℕ → Tool → Json → Requester → Task
approval_task now new_id tool params requester = record {
  id = new_id;
  tenant_id = requester.tenant_id;
  creator_id = requester.id;
  assignee_id = none;
  type = "tool_approval";
  title = text_append "工具审批：" tool.name;
  priority = "high";
  status = pending;
  payload = record { tool_id = some tool.tool_id; params = some params };
  result = none;
  error_message = none;
  retry_count = 0;
  max_retries = 3;
  expires_at = some (now + approval_timeout);
  created_at = now;
  resolved_at = none;
}

pub data Execution : Type 0 where
  pending_approval : (task_id : ℕ) → Execution
  success : (status_code : ℕ) (body : Json) (latency_ms : ℕ) → Execution

unfoldable pub request_approval : ℕ → ℕ → Tool → Json → Requester → World → World
request_approval now new_id tool params requester w = record w {
  tasks = w.tasks ++ approval_task now new_id tool params requester ∷ [];
}

-- `proxy` is `ToolProxy.execute`, which answers or raises
unfoldable pub execute :
    (Tool → Json → Result Execution)
    → ℕ
    → ℕ
    → Tool
    → Json
    → Requester
    → World
    → Result Execution × World
unfolding ensure_invocable request_approval
execute proxy now new_id tool params requester w = elim (ensure_invocable tool) [
  | err e ↦ (err e, w)
  | ok _ ↦
      if requires_approval tool
      then (ok (pending_approval new_id), request_approval now new_id tool params requester w)
      else (proxy tool params, w)
]

pub request_approval-Progress :
    (now new_id : ℕ) (tool : Tool) (params : Json) (requester : Requester) (w : World)
    → Progress w (request_approval now new_id tool params requester w)
unfolding request_approval
request_approval-Progress now new_id tool params requester w =
    Rows-append Evolves Evolves-refl w.tasks (approval_task now new_id tool params requester ∷ [])

-- A disabled tool is refused before anything else happens; otherwise a tool of high risk, or one to
-- be confirmed, is not called: a pending task with a deadline of a day is added and its id returned.
-- Only a tool that is neither reaches the proxy, and then no task is added.
pub execute_gate :
    (proxy : Tool → Json → Result Execution) (now new_id : ℕ) (tool : Tool) (params : Json)
    (requester : Requester) (w : World)
    → execute proxy now new_id tool params requester w ≡ (
        if is_disabled tool
        then (err (app_error 409 tool_disabled), w)
        else if requires_approval tool
        then (
          ok (pending_approval new_id),
          record w { tasks = w.tasks ++ approval_task now new_id tool params requester ∷ [] },
        )
        else (proxy tool params, w))
unfolding execute ensure_invocable
execute_gate proxy now new_id tool params requester w = elim (Bool-cases (is_disabled tool)) [
  | inl e ↦ rw (e, execute) refl
  | inr e ↦ rw (e, execute) refl
]
