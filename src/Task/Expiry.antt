-- ===== src/Task/Expiry.antt =====
-- The approval-expiry scan of apps/backend/app/services/task_expiry.py. What other sessions commit
-- between the scan's read and each of its updates is an argument. A database outage in the middle of
-- a scan is not modelled.
pub mod Exact
use eap.Prelude.{
  ℕ, ◌+◌, ◌≤◌, ◌≡◌, refl, sym, ap, ◌∙◌, Bool, true, false, not, ◌&&◌, Option, none, some, List, [],
  ◌∷◌, map, arith, ◌==◌, if◌then◌else◌, Bool-cases, inl, inr, subst,
}
use eap.Prelude.Table.{
  length, take, select, find, update, count, Rows-update, find-update, count-update,
  count_and_of_unique, find-keep, update-count_zero,
}
use eap.Prelude.Query.{mem, sort_by, count-sort_by, length-sort_by, take_all, count-select, mem-map}
use eap.Task.Model.{Status, pending, cancelled, status_eq, status_eq→≡, reason, Task, World, has_id}
use eap.Task.Machine.{Evolves, Evolves-refl, step}
use eap.Task.Service.{emit, past}
use eap.Task.Service.Moves.{Progress, Progress-refl, Progress-trans}
use eap.Task.Worker.Execution.{IsRow}

unfoldable pub is_overdue : ℕ → Task → Bool
is_overdue now t = status_eq t.status pending && past t.expires_at now

abbrev deadline : Task → ℕ
deadline t = elim t.expires_at [ none ↦ 0 | some e ↦ e ]

-- `_BATCH_SIZE`
abbrev batch_size : ℕ
batch_size = 100

abbrev pub retired : Task → Task
retired t = record t { status = cancelled; result = some (reason "超时取消") }

-- `_cancel_expired`
unfoldable pub cancel_expired : (World → World) → ℕ → World → World
unfolding emit
cancel_expired between task_id w =
    let w' = between w in
    let hit = λ (t : Task). has_id task_id t && status_eq t.status pending in
    let cleared = record w' { tasks = update hit retired w'.tasks } in
    if count hit w'.tasks == 0
    then w'
    else emit
        (record {
          task_id = task_id;
          from_status = pending;
          to_status = cancelled;
          actor_id = none;
          metadata = some "超时取消";
        })
        cleared

unfoldable pub cancel_all : (World → World) → List ℕ → World → World
cancel_all between [] w = w
cancel_all between (i ∷ is) w = cancel_all between is (cancel_expired between i w)

-- the ids that one scan reads
unfoldable pub overdue_batch : ℕ → List Task → List ℕ
overdue_batch now tasks =
    map (λ t. t.id) (take batch_size (sort_by deadline (select (is_overdue now) tasks)))

unfoldable pub expire_overdue_approvals : ℕ → (World → World) → World → World
unfolding cancel_all overdue_batch
expire_overdue_approvals now between w = cancel_all between (overdue_batch now w.tasks) w

module _ (between : World → World) (fair : (w : World) → Progress w (between w)) where
  cancel_expired-Progress : (i : ℕ) (w : World) → Progress w (cancel_expired between i w)
  unfolding cancel_expired
  cancel_expired-Progress i w = elim (Bool-cases (count hit (between w).tasks == 0)) [
    | inl e ↦ rw (e, cancel_expired) (fair w)
    | inr e ↦
        rw (e, cancel_expired)
          (Progress-trans w (between w)
            (record (between w) { tasks = update hit retired (between w).tasks }) (fair w)
            (Rows-update Evolves Evolves-refl hit retired (between w).tasks retires))
  ]
    where
      hit : Task → Bool
      hit t = has_id i t && status_eq t.status pending

      retires : (t : Task) → hit t ≡ true → Evolves t (retired t)
      retires t k = record { same = refl; moves = step t.status cancelled (ground arith) }

  cancel_all-Progress : (is : List ℕ) (w : World) → Progress w (cancel_all between is w)
  unfolding cancel_all
  cancel_all-Progress [] w = Progress-refl w
  cancel_all-Progress (i ∷ is) w =
      Progress-trans w (cancel_expired between i w)
        (cancel_all between is (cancel_expired between i w)) (cancel_expired-Progress i w)
        (cancel_all-Progress is (cancel_expired between i w))

  -- Whatever fair sessions commit beside it, the scan moves rows along `VALID_TRANSITIONS` only: an
  -- approval that wins the race against it stays approved or moves on.
  pub expire-Progress : (now : ℕ) (w : World) → Progress w (expire_overdue_approvals now between w)
  unfolding expire_overdue_approvals
  expire-Progress now w = cancel_all-Progress (overdue_batch now w.tasks) w
