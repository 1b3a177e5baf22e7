-- ===== src/Task/System.antt =====
-- The task centre as a whole: the requests, the worker and the scans, in any order, and side by side
-- with other sessions of the same kind.
use eap.Prelude.{
  ℕ, ◌≡◌, refl, ◌∙◌, String, Bool, true, Option, some, List, [], ◌∷◌, Bool-cases, inl, inr,
}
use eap.Prelude.Table.{find}
use eap.Json.{Json}
use eap.Tool.Model.{Tool}
use eap.Task.Model.{Status, Task, OutboxEvent, Job, World, has_id}
use eap.Task.Machine.{terminal_absorbs, is_terminal, identity}
use eap.Task.Service.{Actor, Setting, transition, retry, claim_outbox_row, enqueue_process_task}
use eap.Task.Service.Moves
use eap.Task.Service.Moves.{
  Progress, Progress-refl, Progress-trans, Progress-of_eq, transition-Progress, retry-Progress,
}
use eap.Task.Service.Refusals.{Progress-find}
use eap.Task.Worker.{Delivery, process}
use eap.Task.Worker.Moves as WorkerMoves
use eap.Task.Worker.Moves.{process-Progress}
use eap.Task.Expiry.{expire_overdue_approvals, expire-Progress}
use eap.Task.Reconcile.{reconcile_row, reconcile_rows, reconcile_undelivered, lost_batch}
use eap.Task.Approval.{Requester, request_approval, request_approval-Progress}

reconcile_row-tasks :
    (now : ℕ) (takes : OutboxEvent → Bool) (e : OutboxEvent) (w : World)
    → (reconcile_row now takes e w).tasks ≡ w.tasks
unfolding reconcile_row claim_outbox_row enqueue_process_task
reconcile_row-tasks now takes e w = elim (Bool-cases (takes e)) [
  | inl k ↦ rw (k, reconcile_row) refl
  | inr k ↦ rw (k, reconcile_row) refl
]

reconcile_rows-tasks :
    (now : ℕ) (takes : OutboxEvent → Bool) (es : List OutboxEvent) (w : World)
    → (reconcile_rows now takes es w).tasks ≡ w.tasks
unfolding reconcile_rows
reconcile_rows-tasks now takes [] w = refl
reconcile_rows-tasks now takes (e ∷ es) w =
    reconcile_rows-tasks now takes es (reconcile_row now takes e w)
    ∙ reconcile_row-tasks now takes e w

-- one operation of the task centre
pub data Step : World → World → Type 0 where
  transition_step :
      (env : Setting)
      → Moves.IsFair env
      → (task_id : String) (to_status : Status) (actor : Actor) (tenant : ℕ)
        (metadata : Option String) (w : World)
      → Step w (transition env task_id to_status actor tenant metadata w).1
  retry_step :
      (env : Setting)
      → Moves.IsFair env
      → (task_id : String) (actor : Actor) (tenant : ℕ) (w : World)
      → Step w (retry env task_id actor tenant w).1
  process_step :
      (d : Delivery) → WorkerMoves.IsFair d → (job : Job) (w : World) → Step w (process d job w)
  expire_step :
      (now : ℕ) (between : World → World)
      → ((w : World) → Progress w (between w))
      → (w : World) → Step w (expire_overdue_approvals now between w)
  reconcile_step :
      (now : ℕ) (takes : OutboxEvent → Bool) (w : World)
      → Step w (reconcile_undelivered now takes w)
  approval_step :
      (now new_id : ℕ) (tool : Tool) (params : Json) (requester : Requester) (w : World)
      → Step w (request_approval now new_id tool params requester w)

pub data Reach (w : World) : World → Type 0 where
  start : Reach w w
  next : {u v : World} → Reach w u → Step u v → Reach w v

Step-Progress : {w v : World} → Step w v → Progress w v
unfolding reconcile_undelivered
Step-Progress (transition_step env fair task_id to_status actor tenant metadata w) =
    transition-Progress env fair task_id to_status actor tenant metadata w
Step-Progress (retry_step env fair task_id actor tenant w) =
    retry-Progress env fair task_id actor tenant w
Step-Progress (process_step d fair job w) = process-Progress d fair job w
Step-Progress (expire_step now between fair w) = expire-Progress between fair now w
Step-Progress (reconcile_step now takes w) =
    Progress-of_eq w (reconcile_rows now takes (lost_batch now w) w)
      (reconcile_rows-tasks now takes (lost_batch now w) w)
Step-Progress (approval_step now new_id tool params requester w) =
    request_approval-Progress now new_id tool params requester w

Reach-Progress : {w v : World} → Reach w v → Progress w v
Reach-Progress {w} start = Progress-refl w
Reach-Progress {w} {v} (next {u = m} r s) =
    Progress-trans w m v (Reach-Progress r) (Step-Progress s)

-- A task that is rejected, completed or cancelled stays so for ever: after any operations of the task
-- centre, in any order and beside any fair sessions, its row is there with the same status, identity
-- and owners.
pub terminal_for_ever :
    {w v : World} (i : ℕ) (t : Task)
    → find (has_id i) w.tasks ≡ some t
    → is_terminal t.status ≡ true
    → Reach w v
    → (u : Task) × (find (has_id i) v.tasks ≡ some u)
      × (u.status ≡ t.status)
      × (identity u ≡ identity t)
terminal_for_ever {w} {v} i t h e r =
    let (u, k, p) = Progress-find i w v t (Reach-Progress r) h in
    (u, k, terminal_absorbs e p.moves, p.same)
