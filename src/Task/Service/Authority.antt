-- ===== src/Task/Service/Authority.antt =====
-- Who may act on a task: what a request that was answered with a task has proved about its actor.
use eap.Prelude.{
  ℕ, ◌≤◌, ◌<◌, ◌≡◌, refl, String, Bool, true, ◌&&◌, ◌==◌, Option, some, List, [], ◌∷◌, arith,
  Option-cases, Bool-cases, some_inv, subst, sym, inl, inr,
}
use eap.Prelude.Table.{count, update}
use eap.Errors.{Result, ok, Result-cases}
use eap.Task.Model.{Status, failed, Task, World, has_id, status_eq}
use eap.Task.Service.{
  Actor, Setting, is_owner_or_admin, select_task, check_transition, check_retry, transition_task,
  retry_task, with_task, transition, retry, moved_to, commit_move, announce,
}
use eap.Task.Service.Guards.{IsPermitted, check_transition-IsPermitted, check_retry-ok}

-- What the commit of a move from `w` came to: the tables `m`, which the rest of the request goes on
-- from as `after` says. A row of the task had the status that was read, and one has the new status.
pub record Committed (task : Task) (to_status : Status) (w : World) (after : World → Type 0)
    : Type 0 where
  pub committed : World
  pub before : 1 ≤ count (λ t. has_id task.id t && status_eq t.status task.status) w.tasks
  pub moved : 1 ≤ count (λ t. has_id task.id t && status_eq t.status to_status) committed.tasks
  pub goes_on : after committed

count-moved :
    (p q : Task → Bool) (set : Task → Task) (ts : List Task)
    → ((t : Task) → p t ≡ true → q (set t) ≡ true)
    → 1 ≤ count p ts
    → 1 ≤ count q (update p set ts)
unfolding count update
count-moved p q set [] h k = absurd (omega (arith, k))
count-moved p q set (t ∷ ts) h k = elim (Bool-cases (p t)) [
  | inl e ↦ rw (e, h t e) (omega arith)
  | inr e ↦
      rw e (let rest = count-moved p q set ts h (omega (arith, rw e at k)) in ground (arith, rest))
]

status_eq_refl : (s : Status) → status_eq s s ≡ true
status_eq_refl s = ground arith

commit_move-moved :
    (now outbox_id : ℕ) (task : Task) (to_status : Status) (metadata : Option String) (w m : World)
    → commit_move now outbox_id task to_status (moved_to to_status metadata) w ≡ some m
    → (1 ≤ count (λ t. has_id task.id t && status_eq t.status task.status) w.tasks)
      × (1 ≤ count (λ t. has_id task.id t && status_eq t.status to_status) m.tasks)
unfolding commit_move
commit_move-moved now outbox_id task to_status metadata w m h =
    let hit : Task → Bool = λ t. has_id task.id t && status_eq t.status task.status in
    elim (Bool-cases (count hit w.tasks == 0)) [
      | inl e ↦ cc (rw (e, commit_move) at h)
      | inr e ↦
          let some_row : 1 ≤ count hit w.tasks = ground arith in
          (
            some_row,
            subst
                (λ (z : World).
                  1 ≤ count (λ t. has_id task.id t && status_eq t.status to_status) z.tasks)
                (some_inv (rw (e, commit_move) at h))
                (count-moved hit (λ t. has_id task.id t && status_eq t.status to_status)
                  (moved_to to_status metadata) w.tasks
                  (λ t k. ground (arith, status_eq_refl to_status)) some_row),
          )
    ]

module _ (env : Setting) where
  transition_task-IsPermitted :
      (to_status : Status) (actor : Actor) (metadata : Option String) (task u : Task) (w : World)
      → (transition_task env to_status actor metadata task w).0 ≡ ok u
      → IsPermitted env.now to_status actor task
  unfolding transition_task
  transition_task-IsPermitted to_status actor metadata task u w h =
      elim (Result-cases (check_transition env.now to_status actor task)) [
        | inl (e, p) ↦ cc (rw (p, transition_task) at h)
        | inr p ↦ check_transition-IsPermitted env.now to_status actor task p
      ]

  transition_task-Committed :
      (to_status : Status) (actor : Actor) (metadata : Option String) (task u : Task) (w : World)
      → (transition_task env to_status actor metadata task w).0 ≡ ok u
      → Committed task to_status (env.before_update w) (λ m.
        transition_task env to_status actor metadata task w
        ≡ announce env task to_status actor metadata m)
  unfolding transition_task
  transition_task-Committed to_status actor metadata task u w h =
      elim (Result-cases (check_transition env.now to_status actor task)) [
        | inl (e, p) ↦ cc (rw (p, transition_task) at h)
        | inr p ↦
            let w' = env.before_update w in
            let written =
              commit_move env.now env.outbox_id task to_status (moved_to to_status metadata) w' in
            elim (Option-cases written) [
              | inl e ↦ cc (rw (e, transition_task) at (rw (p, transition_task) at h))
              | inr (m, e) ↦
                  let (k, l) =
                    commit_move-moved env.now env.outbox_id task to_status metadata w' m e in
                  record {
                    committed = m;
                    before = k;
                    moved = l;
                    goes_on = rw (p, transition_task) (rw (e, transition_task) refl);
                  }
            ]
      ]

  -- the row that a request which did not fail was about
  with_task-row :
      (task_id : String) (tenant : ℕ) (body : Task → World → Result Task × World) (w : World)
      (u : Task)
      → (with_task env task_id tenant body w).0 ≡ ok u
      → (task : Task) × (i : ℕ) × (env.parse_uuid task_id ≡ some i)
        × (select_task i tenant w ≡ some task)
        × ((body task w).0 ≡ ok u)
        × (with_task env task_id tenant body w ≡ body task w)
  unfolding with_task
  with_task-row task_id tenant body w u h = elim (Option-cases (env.parse_uuid task_id)) [
    | inl p ↦ cc (rw (p, with_task) at h)
    | inr (i, p) ↦ elim (Option-cases (select_task i tenant w)) [
      | inl q ↦ ground (arith, p, q, h)
      | inr (task, q) ↦
          (task, i, p, q, ground (arith, p, q, h), rw (p, with_task) (rw (q, with_task) refl))
    ]
  ]

  -- A transition that answers a task found the row of this id in the caller's own tenant, approved it
  -- only before its deadline, approved, rejected or cancelled it only for an admin, its creator or its
  -- assignee, and moved it along `VALID_TRANSITIONS`: in the tables that it committed, a row of this
  -- id, which had the status that was read, has the new one.
  pub transition-IsPermitted :
      (task_id : String) (to_status : Status) (actor : Actor) (tenant : ℕ)
      (metadata : Option String) (w : World) (u : Task)
      → (transition env task_id to_status actor tenant metadata w).0 ≡ ok u
      → (task : Task) × (i : ℕ) × (env.parse_uuid task_id ≡ some i)
        × (select_task i tenant w ≡ some task)
        × IsPermitted env.now to_status actor task
        × Committed task to_status (env.before_update w) (λ m.
          transition env task_id to_status actor tenant metadata w
          ≡ announce env task to_status actor metadata m)
  unfolding transition
  transition-IsPermitted task_id to_status actor tenant metadata w u h =
      let (task, i, p, q, k, same) =
        with_task-row task_id tenant (transition_task env to_status actor metadata) w u h in
      (
        task,
        i,
        p,
        q,
        transition_task-IsPermitted to_status actor metadata task u w k,
        subst
            (λ (answer : Result Task × World).
              Committed task to_status (env.before_update w)
                (λ m. answer ≡ announce env task to_status actor metadata m))
            (sym same) (transition_task-Committed to_status actor metadata task u w k),
      )

  retry_task-permitted :
      (actor : Actor) (task u : Task) (w : World)
      → (retry_task env actor task w).0 ≡ ok u
      → (is_owner_or_admin task actor ≡ true)
        × (task.status ≡ failed)
        × (task.retry_count < task.max_retries)
  unfolding retry_task
  retry_task-permitted actor task u w h = elim (Result-cases (check_retry actor task)) [
    | inl (e, p) ↦ cc (rw (p, retry_task) at h)
    | inr p ↦ check_retry-ok actor task p
  ]

  -- A retry that answers a task found a failed row of the caller's tenant with retries left, and its
  -- actor is an admin, its creator or its assignee.
  pub retry_permitted :
      (task_id : String) (actor : Actor) (tenant : ℕ) (w : World) (u : Task)
      → (retry env task_id actor tenant w).0 ≡ ok u
      → (task : Task) × (i : ℕ) × (env.parse_uuid task_id ≡ some i)
        × (select_task i tenant w ≡ some task)
        × (is_owner_or_admin task actor ≡ true)
        × (task.status ≡ failed)
        × (task.retry_count < task.max_retries)
  unfolding retry
  retry_permitted task_id actor tenant w u h =
      let (task, i, p, q, k, same) = with_task-row task_id tenant (retry_task env actor) w u h in
      let (a, b, c) = retry_task-permitted actor task u w k in (task, i, p, q, a, b, c)
