-- ===== src/Task/Approval/Gate.antt =====
-- What becomes of a call that the gate of apps/backend/app/services/tool_service.py holds back: the
-- approval task under the guards of services/task_service.py and the scan of services/task_expiry.py.
use eap.Prelude.{
  ℕ, ◌+◌, ◌≤◌, ◌≡◌, refl, true, false, ◌||◌, ==_refl, some, List, [], ◌∷◌, ◌++◌, arith, leb,
  if◌then◌else◌, str_eq, inl, inr, Bool-cases, ◌∙◌,
}
use eap.Prelude.Table.{length, select, find, count}
use eap.Prelude.Query.{count-append}
use eap.Errors.{Result, ok, err, app_error, task_expired}
use eap.Json.{Json}
use eap.Tool.Model.{Tool}
use eap.Tool.Judgement.{requires_approval, is_disabled}
use eap.Task.Model.{Task, pending, approved, World, has_id}
use eap.Task.Service.{Actor, check_transition}
use eap.Task.Worker.Execution.{IsRow}
use eap.Task.Expiry.{is_overdue, retired, expire_overdue_approvals}
use eap.Task.Expiry.Exact.{expire_exact}
use eap.Task.Approval.{
  Execution, pending_approval, Requester, approval_task, request_approval, execute, execute_gate,
}

find-fresh :
    (i : ℕ) (t : Task) (ts : List Task)
    → count (has_id i) ts ≡ 0
    → has_id i t ≡ true
    → find (has_id i) (ts ++ t ∷ []) ≡ some t
unfolding find count
find-fresh i t [] h k = rw k refl
find-fresh i t (u ∷ ts) h k = elim (Bool-cases (has_id i u)) [
  | inl e ↦ absurd (ground (arith, e))
  | inr e ↦ rw e (find-fresh i t ts (ground (arith, e)) k)
]

added-IsRow :
    (now new_id : ℕ) (tool : Tool) (params : Json) (requester : Requester) (w : World)
    → count (has_id new_id) w.tasks ≡ 0
    → IsRow new_id
        (approval_task now new_id tool params requester)
        (request_approval now new_id tool params requester w)
unfolding request_approval count
added-IsRow now new_id tool params requester w h = record {
  unique =
      count-append (has_id new_id) w.tasks (approval_task now new_id tool params requester ∷ [])
      ∙ ground (arith, h, ==_refl new_id);
  row =
      find-fresh new_id (approval_task now new_id tool params requester) w.tasks h (==_refl new_id);
}

-- What a call that was held back left: the answer names the new task, no tool was called, and a day
-- later the task has expired.
pub record HeldBack (now new_id instant : ℕ) (person : Actor) (found : World)
    (answer : Result Execution) (left : World) (task : Task) : Type 0 where
  pub answered : answer ≡ ok (pending_approval new_id)
  pub calls : left.calls ≡ found.calls
  pub row : find (has_id new_id) left.tasks ≡ some task
  pub is_pending : task.status ≡ pending
  pub approval :
      check_transition instant approved person task
      ≡ (if leb (now + 86400) instant then err (app_error 422 task_expired) else ok tt)
  pub expiry :
      find (has_id new_id) (expire_overdue_approvals instant (λ w. w) left).tasks
      ≡ some (if leb (now + 86400) instant then retired task else task)

-- A call of an enabled tool of high risk, or of one to be confirmed, is held back, whatever the proxy
-- would answer: the tool is not called, and the answer names a new pending task. The requester may
-- approve it until a day later; from then on an approval is refused with 422 TASK_EXPIRED, and an
-- undisturbed scan with at most 100 overdue approvals cancels it, which before that leaves it alone.
-- The new id is no other task's.
pub risky_call-HeldBack :
    (proxy : Tool → Json → Result Execution) (now new_id instant : ℕ) (tool : Tool) (params : Json)
    (requester : Requester) (person : Actor) (w : World)
    → str_eq tool.permission_mode "disabled" ≡ false
    → (str_eq tool.risk_level "high" || str_eq tool.permission_mode "confirm") ≡ true
    → count (has_id new_id) w.tasks ≡ 0
    → person.id ≡ requester.id
    → length
        (select (is_overdue instant) (execute proxy now new_id tool params requester w).1.tasks)
      ≤ 100
    → HeldBack now new_id instant person w
        (execute proxy now new_id tool params requester w).0
        (execute proxy now new_id tool params requester w).1
        (approval_task now new_id tool params requester)
risky_call-HeldBack proxy now new_id instant tool params requester person w d r f p small =
    rw same (record {
      answered = refl;
      calls = unfold request_approval in refl;
      row = (added-IsRow now new_id tool params requester w f).row;
      is_pending = refl;
      approval = allowed;
      expiry = expires;
    })
  where
    task : Task
    task = approval_task now new_id tool params requester

    same :
        execute proxy now new_id tool params requester w
        ≡ (ok (pending_approval new_id), request_approval now new_id tool params requester w)
    same =
        unfold request_approval in
        execute_gate proxy now new_id tool params requester w
        ∙ (unfold is_disabled in unfold requires_approval in ground (arith, d, r))

    allowed :
        check_transition instant approved person task
        ≡ (if leb (now + 86400) instant then err (app_error 422 task_expired) else ok tt)
    allowed = unfold check_transition in ground (arith, p)

    expires :
        find
          (has_id new_id)
          (expire_overdue_approvals instant
            (λ w. w)
            (request_approval now new_id tool params requester w)).tasks
        ≡ some (if leb (now + 86400) instant then retired task else task)
    expires =
        expire_exact instant new_id task (request_approval now new_id tool params requester w)
          (added-IsRow now new_id tool params requester w f) (rw same at small)
        ∙ (unfold is_overdue in refl)
