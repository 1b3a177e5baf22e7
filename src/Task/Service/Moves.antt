-- ===== src/Task/Service/Moves.antt =====
-- What the requests of `TaskService` do to the rows of the task table, whatever other sessions
-- commit meanwhile.
use eap.Prelude.{
  ℕ, ◌+◌, ◌≡◌, refl, sym, String, Bool, true, Option, none, some, arith, ◌==◌, Bool-cases, some_inv,
  Option-cases, inl, inr, subst, ◌∙◌, ◌&&◌,
}
use eap.Prelude.Table.{Rows, Rows-refl, Rows-update, Rows-trans, count, find}
use eap.Errors.{Result, Result-cases}
use eap.Task.Model.{
  Status, approved, executing, failed, status_eq, status_eq→≡, is_in, Task, StatusChanged, World,
  has_id,
}
use eap.Task.Machine.{valid_transitions, Evolves, Evolves-refl, Evolves-trans, step}
use eap.Task.Service.Guards.{check_transition-IsPermitted, check_retry-ok}
use eap.Task.Service.{
  Actor, Setting, emit, claim_outbox_row, enqueue_process_task, check_transition, check_retry,
  dispatch_if_work, dispatch_after_commit, dispatch_stages, set_rejected, commit_move, refresh,
  announce, transition_task, retry_task, with_task, transition, retry, select_task,
}

-- Every row of `w` is still there in `w'`, with the same identity, owners and budget, and its
-- status has moved along the state machine only.
abbrev pub Progress : World → World → Type 0
Progress w w' = Rows Evolves w.tasks w'.tasks

pub Progress-refl : (w : World) → Progress w w
Progress-refl w = Rows-refl Evolves Evolves-refl w.tasks

pub Progress-trans : (w w' w'' : World) → Progress w w' → Progress w' w'' → Progress w w''
Progress-trans w w' w'' = Rows-trans Evolves Evolves-trans w.tasks w'.tasks w''.tasks

pub Progress-of_eq : (w w' : World) → w'.tasks ≡ w.tasks → Progress w w'
Progress-of_eq w w' e = subst (Rows Evolves w.tasks) (sym e) (Progress-refl w)

-- The other sessions of a request make progress too.
pub record IsFair (env : Setting) : Type 0 where
  pub before_update : (w : World) → Progress w (env.before_update w)
  pub before_claim : (w : World) → Progress w (env.before_claim w)
  pub before_refresh : (w : World) → Progress w (env.before_refresh w)

pub commit_move-Progress :
    (now outbox_id : ℕ) (task : Task) (to_status : Status) (set : Task → Task) (w w' : World)
    → ((t : Task) → t.status ≡ task.status → Evolves t (set t))
    → commit_move now outbox_id task to_status set w ≡ some w'
    → Progress w w'
unfolding commit_move
commit_move-Progress now outbox_id task to_status set w w' legal h =
    elim (Bool-cases (count hit w.tasks == 0)) [
      | inl e ↦ cc (rw e at h)
      | inr e ↦
          subst (λ z. Progress w z) (some_inv (rw e at h))
            (Rows-update Evolves Evolves-refl hit set w.tasks (λ t k. legal t (same_status t k)))
    ]
  where
    hit : Task → Bool
    hit t = has_id task.id t && status_eq t.status task.status

    same_status : (t : Task) → hit t ≡ true → t.status ≡ task.status
    same_status t k = status_eq→≡ t.status task.status (ground arith)

-- the writes of the two requests keep to the table
pub transition-Evolves :
    (to_status : Status) (metadata : Option String) (task t : Task)
    → is_in to_status (valid_transitions task.status) ≡ true
    → t.status ≡ task.status
    → Evolves t (record t { status = to_status; result = set_rejected to_status metadata t.result })
transition-Evolves to_status metadata task t k e = record {
  same = refl;
  moves =
      step t.status to_status (subst (λ z. is_in to_status (valid_transitions z) ≡ true) (sym e) k);
}

pub retry-Evolves :
    (task t : Task)
    → task.status ≡ failed
    → t.status ≡ task.status
    → Evolves t (record t { status = executing; retry_count = task.retry_count + 1 })
retry-Evolves task t k e = record { same = refl; moves = step t.status executing (rw (e ∙ k) refl) }

module _ (env : Setting) (fair : IsFair env) where
  dispatch-Progress : (task : Task) (w : World) → Progress w (dispatch_after_commit env task w)
  unfolding dispatch_after_commit dispatch_stages claim_outbox_row enqueue_process_task
  dispatch-Progress task w = elim (Bool-cases env.enqueue_works) [
    | inl e ↦ rw (e, dispatch_after_commit) (fair.before_claim _)
    | inr e ↦ rw (e, dispatch_after_commit) (Progress-refl w)
  ]

  refresh-Progress : (task_id : ℕ) (w : World) → Progress w (refresh env task_id w).1
  unfolding refresh
  refresh-Progress task_id w =
      elim (Option-cases (find (has_id task_id) (env.before_refresh w).tasks)) [
        | inl e ↦ rw (e, refresh) (fair.before_refresh w)
        | inr (t, e) ↦ rw (e, refresh) (fair.before_refresh w)
      ]

  pub dispatch_if_work-Progress :
      (to_status : Status) (task : Task) (w : World)
      → Progress w (dispatch_if_work env to_status task w)
  unfolding dispatch_if_work
  dispatch_if_work-Progress approved task w = dispatch-Progress task w
  dispatch_if_work-Progress executing task w = dispatch-Progress task w
  dispatch_if_work-Progress _ task w = Progress-refl w

  announce-Progress :
      (task : Task) (to_status : Status) (actor : Actor) (metadata : Option String) (w : World)
      → Progress w (announce env task to_status actor metadata w).1
  unfolding announce emit
  announce-Progress task to_status actor metadata w =
      Progress-trans w (dispatch_if_work env to_status task w)
        (refresh env task.id (emit event (dispatch_if_work env to_status task w))).1
        (dispatch_if_work-Progress to_status task w)
        (refresh-Progress task.id (emit event (dispatch_if_work env to_status task w)))
    where
      event : StatusChanged
      event = record {
        task_id = task.id;
        from_status = task.status;
        to_status = to_status;
        actor_id = some actor.id;
        metadata = metadata;
      }

  transition_task-Progress :
      (to_status : Status) (actor : Actor) (metadata : Option String) (task : Task) (w : World)
      → Progress w (transition_task env to_status actor metadata task w).1
  unfolding transition_task
  transition_task-Progress to_status actor metadata task w =
      elim (Result-cases (check_transition env.now to_status actor task)) [
        | inl (e, p) ↦ rw (p, transition_task) (Progress-refl w)
        | inr p ↦
            rw (p, transition_task)
              (elim (Option-cases (commit_move env.now env.outbox_id task to_status set w')) [
                | inl q ↦ rw (q, transition_task) (fair.before_update w)
                | inr (m, q) ↦
                    rw (q, transition_task)
                      (Progress-trans w m (announce env task to_status actor metadata m).1
                        (Progress-trans w w' m (fair.before_update w) (
                          commit_move-Progress env.now env.outbox_id task to_status set w' m
                            (λ t e.
                              transition-Evolves to_status metadata task t
                                (check_transition-IsPermitted env.now to_status actor task p).listed
                                e)
                            q))
                        (announce-Progress task to_status actor metadata m))
              ])
      ]
    where
      w' : World
      w' = env.before_update w

      set : Task → Task
      set t = record t { status = to_status; result = set_rejected to_status metadata t.result }

  retry_task-Progress :
      (actor : Actor) (task : Task) (w : World) → Progress w (retry_task env actor task w).1
  unfolding retry_task
  retry_task-Progress actor task w = elim (Result-cases (check_retry actor task)) [
    | inl (e, p) ↦ rw (p, retry_task) (Progress-refl w)
    | inr p ↦
        rw (p, retry_task)
          (elim (Option-cases (commit_move env.now env.outbox_id task executing set w')) [
            | inl q ↦ rw (q, retry_task) (fair.before_update w)
            | inr (m, q) ↦
                rw (q, retry_task)
                  (Progress-trans w m (announce env task executing actor none m).1
                    (Progress-trans w w' m (fair.before_update w) (
                      commit_move-Progress env.now env.outbox_id task executing set w' m
                        (λ t e. retry-Evolves task t (check_retry-ok actor task p).1 e) q))
                    (announce-Progress task executing actor none m))
          ])
  ]
    where
      w' : World
      w' = env.before_update w

      set : Task → Task
      set t = record t { status = executing; retry_count = task.retry_count + 1 }

  with_task-Progress :
      (task_id : String) (tenant : ℕ) (body : Task → World → Result Task × World) (w : World)
      → ((task : Task) → Progress w (body task w).1)
      → Progress w (with_task env task_id tenant body w).1
  unfolding with_task
  with_task-Progress task_id tenant body w h = elim (Option-cases (env.parse_uuid task_id)) [
    | inl p ↦ rw (p, with_task) (Progress-refl w)
    | inr (i, p) ↦
        rw (p, with_task)
          (elim (Option-cases (select_task i tenant w)) [
            | inl q ↦ rw (q, with_task) (Progress-refl w)
            | inr (task, q) ↦ rw (q, with_task) (h task)
          ])
  ]

  -- Whatever a transition answers, and whatever fair sessions commit while it runs, every row that
  -- stood in the task table still stands there with its identity, its owners and its retry budget,
  -- and its status has moved along `VALID_TRANSITIONS` only.
  pub transition-Progress :
      (task_id : String) (to_status : Status) (actor : Actor) (tenant : ℕ)
      (metadata : Option String) (w : World)
      → Progress w (transition env task_id to_status actor tenant metadata w).1
  unfolding transition
  transition-Progress task_id to_status actor tenant metadata w =
      with_task-Progress task_id tenant (transition_task env to_status actor metadata) w
        (λ task. transition_task-Progress to_status actor metadata task w)

  -- Whatever fair sessions commit beside it, a retry, served or refused, keeps the identity of every
  -- row and moves statuses along `VALID_TRANSITIONS` only.
  pub retry-Progress :
      (task_id : String) (actor : Actor) (tenant : ℕ) (w : World)
      → Progress w (retry env task_id actor tenant w).1
  unfolding retry
  retry-Progress task_id actor tenant w =
      with_task-Progress task_id tenant (retry_task env actor) w
        (λ task. retry_task-Progress actor task w)
