-- ===== src/Task/Reconcile.antt =====
-- The reconciler of apps/backend/app/services/task_reconcile.py, which sends the undelivered rows.
-- Whether the queue takes a job is an argument, asked for each outbox row.
pub mod Exact
use eap.Prelude.{
  ℕ, zero, suc, ◌+◌, ◌-◌, ◌*◌, ◌/◌, ◌^◌, String, Bool, true, false, not, ◌&&◌, ◌||◌, Option, none,
  some, List, [], ◌∷◌, ltb, leb, ◌==◌, if◌then◌else◌,
}
use eap.Prelude.Table.{take, select, find}
use eap.Prelude.Query.{sort_by}
use eap.Task.Model.{Status, approved, executing, is_in, Task, OutboxEvent, World, has_id}
use eap.Task.Service.{is_undelivered, claim_outbox_row, enqueue_process_task}

abbrev pub scan_interval_seconds : ℕ
scan_interval_seconds = 15

abbrev pub batch_size : ℕ
batch_size = 100

abbrev created : OutboxEvent → ℕ
created e = e.created_at

-- undelivered, and created before the last scan interval began (a negative instant is no instant)
unfoldable pub is_lost : ℕ → OutboxEvent → Bool
is_lost now e = is_undelivered e && ltb (e.created_at + scan_interval_seconds) now

abbrev pub send : OutboxEvent → World → World
send e w = enqueue_process_task e.task_id e.id e.type e.payload w

-- one row: sent, then claimed; if the queue refuses it, it stays undelivered
unfoldable pub reconcile_row : ℕ → (OutboxEvent → Bool) → OutboxEvent → World → World
reconcile_row now takes e w = if takes e then claim_outbox_row now e.id (send e w) else w

unfoldable pub reconcile_rows : ℕ → (OutboxEvent → Bool) → List OutboxEvent → World → World
unfolding reconcile_row
reconcile_rows now takes [] w = w
reconcile_rows now takes (e ∷ es) w = reconcile_rows now takes es (reconcile_row now takes e w)

unfoldable pub lost_batch : ℕ → World → List OutboxEvent
lost_batch now w = take batch_size (sort_by created (select (is_lost now) w.outbox))

unfoldable pub reconcile_undelivered : ℕ → (OutboxEvent → Bool) → World → World
reconcile_undelivered now takes w = reconcile_rows now takes (lost_batch now w) w
