-- ===== src/Task/Service/Refusals.antt =====
-- A request of `TaskService` that answers an error has written nothing.
use eap.Prelude.{
  ℕ, ◌+◌, ◌≡◌, refl, ap, String, Bool, Option, none, some, arith, ◌==◌, Bool-cases, Option-cases,
  inl, inr, ◌&&◌, ◌⊎◌,
}
use eap.Prelude.Table.{find, count, find_of_count, Rows-find}
use eap.Errors.{AppError, Result, ok, err, Result-cases}
use eap.Task.Model.{Status, executing, status_eq, Task, StatusChanged, World, has_id}
use eap.Task.Machine.{Evolves}
use eap.Task.Service.{
  Actor, Setting, check_transition, check_retry, commit_move, refresh, announce, transition_task,
  retry_task, with_task, transition, retry, select_task, emit, set_rejected, dispatch_if_work,
}
use eap.Task.Service.Guards.{check_transition-IsPermitted, check_retry-ok}
use eap.Task.Service.Moves.{
  IsFair, Progress, commit_move-Progress, transition-Evolves, retry-Evolves,
  dispatch_if_work-Progress, Progress-trans,
}

-- the row that a committed move found
pub commit_move-find :
    (now outbox_id : ℕ) (task : Task) (to_status : Status) (set : Task → Task) (w w' : World)
    → commit_move now outbox_id task to_status set w ≡ some w'
    → (t : Task) × (find (has_id task.id) w.tasks ≡ some t)
unfolding commit_move
commit_move-find now outbox_id task to_status set w w' h =
    elim (Bool-cases (count hit w.tasks == 0)) [
      | inl e ↦ cc (rw e at h)
      | inr e ↦ find_of_count (has_id task.id) hit w.tasks (λ t k. ground arith) e
    ]
  where
    hit : Task → Bool
    hit t = has_id task.id t && status_eq t.status task.status

pub has_id-Evolves : (i : ℕ) (t u : Task) → Evolves t u → has_id i u ≡ has_id i t
has_id-Evolves i t u e =
    ap (λ (n : ℕ). n == i) (ap (λ (k : ℕ × ℕ × ℕ × Option ℕ × String × ℕ). k.0) e.same)

-- a row that is there stays there
pub Progress-find :
    (i : ℕ) (w w' : World) (t : Task)
    → Progress w w'
    → find (has_id i) w.tasks ≡ some t
    → (u : Task) × (find (has_id i) w'.tasks ≡ some u) × Evolves t u
Progress-find i w w' t p h = Rows-find Evolves (has_id i) (has_id-Evolves i) w.tasks w'.tasks t p h

module _ (env : Setting) (fair : IsFair env) where
  announce-ok :
      (task : Task) (to_status : Status) (actor : Actor) (metadata : Option String) (w : World)
      {t : Task}
      → find (has_id task.id) w.tasks ≡ some t
      → (u : Task) × ((announce env task to_status actor metadata w).0 ≡ ok u)
  unfolding announce emit refresh
  announce-ok task to_status actor metadata w {t} h =
      let sent = dispatch_if_work env to_status task w in
      let told = emit (event task.id) sent in
      let (u, q, e) =
        Progress-find task.id w (env.before_refresh told) t
          (Progress-trans w sent (env.before_refresh told)
            (dispatch_if_work-Progress env fair to_status task w) (fair.before_refresh told))
          h in
      (u, rw (q, refresh) refl)
    where
      event : ℕ → StatusChanged
      event i = record {
        task_id = i;
        from_status = task.status;
        to_status = to_status;
        actor_id = some actor.id;
        metadata = metadata;
      }

  -- what an error answer left behind: the world as it was, or as others had made it meanwhile
  abbrev pub Untouched : World → Result Task × World → Type 0
  Untouched w out = (e : AppError) → out.0 ≡ err e → (out.1 ≡ w) ⊎ (out.1 ≡ env.before_update w)

  committed-Untouched :
      (outbox_id : ℕ) (task : Task) (to_status : Status) (set : Task → Task) (actor : Actor)
      (metadata : Option String) (w m : World)
      → ((t : Task) → t.status ≡ task.status → Evolves t (set t))
      → commit_move env.now outbox_id task to_status set (env.before_update w) ≡ some m
      → Untouched w (announce env task to_status actor metadata m)
  committed-Untouched outbox_id task to_status set actor metadata w m legal h e p =
      let w' = env.before_update w in
      let (t, q) = commit_move-find env.now outbox_id task to_status set w' m h in
      let (u, r, _) =
        Progress-find task.id w' m t
          (commit_move-Progress env.now outbox_id task to_status set w' m legal h) q in
      let (v, k) = announce-ok task to_status actor metadata m r in cc

  transition_task-Untouched :
      (to_status : Status) (actor : Actor) (metadata : Option String) (task : Task) (w : World)
      → Untouched w (transition_task env to_status actor metadata task w)
  unfolding transition_task
  transition_task-Untouched to_status actor metadata task w =
      elim (Result-cases (check_transition env.now to_status actor task)) [
        | inl (e, p) ↦ rw (p, transition_task) (λ _ _. inl refl)
        | inr p ↦
            rw (p, transition_task)
              (elim (Option-cases
                (commit_move env.now env.outbox_id task to_status set (env.before_update w))) [
                  | inl q ↦ rw (q, transition_task) (λ _ _. inr refl)
                  | inr (m, q) ↦
                      rw (q, transition_task)
                        (committed-Untouched env.outbox_id task to_status set actor metadata w m
                          (λ t e.
                            transition-Evolves to_status metadata task t
                              (check_transition-IsPermitted env.now to_status actor task p).listed
                              e)
                          q)
                ])
      ]
    where
      set : Task → Task
      set t = record t { status = to_status; result = set_rejected to_status metadata t.result }

  retry_task-Untouched :
      (actor : Actor) (task : Task) (w : World) → Untouched w (retry_task env actor task w)
  unfolding retry_task
  retry_task-Untouched actor task w = elim (Result-cases (check_retry actor task)) [
    | inl (e, p) ↦ rw (p, retry_task) (λ _ _. inl refl)
    | inr p ↦
        rw (p, retry_task)
          (elim (Option-cases
            (commit_move env.now env.outbox_id task executing set (env.before_update w))) [
              | inl q ↦ rw (q, retry_task) (λ _ _. inr refl)
              | inr (m, q) ↦
                  rw (q, retry_task)
                    (committed-Untouched env.outbox_id task executing set actor none w m
                      (λ t e. retry-Evolves task t (check_retry-ok actor task p).1 e) q)
            ])
  ]
    where
      set : Task → Task
      set t = record t { status = executing; retry_count = task.retry_count + 1 }

  with_task-Untouched :
      (task_id : String) (tenant : ℕ) (body : Task → World → Result Task × World) (w : World)
      → ((task : Task) → Untouched w (body task w))
      → Untouched w (with_task env task_id tenant body w)
  unfolding with_task
  with_task-Untouched task_id tenant body w h = elim (Option-cases (env.parse_uuid task_id)) [
    | inl p ↦ rw (p, with_task) (λ _ _. inl refl)
    | inr (i, p) ↦
        rw (p, with_task)
          (elim (Option-cases (select_task i tenant w)) [
            | inl q ↦ rw (q, with_task) (λ _ _. inl refl)
            | inr (task, q) ↦ rw (q, with_task) (h task)
          ])
  ]

  -- A transition that answers an error has committed nothing: the tables, the queue and the events
  -- are as the request found them, or as the fair sessions before its update left them.
  pub transition_refused :
      (task_id : String) (to_status : Status) (actor : Actor) (tenant : ℕ)
      (metadata : Option String) (w : World) (e : AppError)
      → (transition env task_id to_status actor tenant metadata w).0 ≡ err e
      → ((transition env task_id to_status actor tenant metadata w).1 ≡ w)
        ⊎ ((transition env task_id to_status actor tenant metadata w).1 ≡ env.before_update w)
  unfolding transition
  transition_refused task_id to_status actor tenant metadata w =
      with_task-Untouched task_id tenant (transition_task env to_status actor metadata) w
        (λ task. transition_task-Untouched to_status actor metadata task w)

  -- A retry that answers an error has committed nothing either.
  pub retry_refused :
      (task_id : String) (actor : Actor) (tenant : ℕ) (w : World) (e : AppError)
      → (retry env task_id actor tenant w).0 ≡ err e
      → ((retry env task_id actor tenant w).1 ≡ w)
        ⊎ ((retry env task_id actor tenant w).1 ≡ env.before_update w)
  unfolding retry
  retry_refused task_id actor tenant w =
      with_task-Untouched task_id tenant (retry_task env actor) w
        (λ task. retry_task-Untouched actor task w)
