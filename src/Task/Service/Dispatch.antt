-- ===== src/Task/Service/Dispatch.antt =====
-- No dispatch is lost: an outbox row counts as delivered only after its job was sent.
use eap.Prelude.{
  ℕ, ◌+◌, ◌≡◌, refl, sym, subst, String, Bool, true, false, Option, none, some, List, [], ◌∷◌, ◌++◌,
  arith, ◌==◌, ==→≡, ==_refl, Bool-cases, some_inv, Option-cases, inl, inr, ◌&&◌, ◌||◌,
  if◌then◌else◌,
}
use eap.Prelude.Table.{find, count, All, All-update, All-append, All-map}
use eap.Errors.{Result, Result-cases}
use eap.Task.Model.{
  Status, executing, approved, is_in, Payload, Task, OutboxEvent, Job, StatusChanged, World, has_id,
  status_eq,
}
use eap.Task.Service.{
  Actor, Setting, is_undelivered, check_transition, check_retry, outbox_row, commit_move, refresh,
  announce, transition_task, retry_task, with_task, transition, retry, select_task, emit,
  set_rejected, dispatch_if_work, dispatch_after_commit, dispatch_stages, last_stage,
  claim_outbox_row, enqueue_process_task, map_queue_name,
}
use eap.Task.Machine.{work_triggering}

-- whether the queue was ever given a job for this outbox row
unfoldable pub was_sent : ℕ → List Job → Bool
was_sent i [] = false
was_sent i (j ∷ js) = j.outbox_id == i || was_sent i js

abbrev pub IsAccounted : List Job → OutboxEvent → Type 0
IsAccounted jobs e = (is_undelivered e || was_sent e.id jobs) ≡ true

-- Every outbox row is still undelivered or has been sent.
abbrev pub NoLoss : World → Type 0
NoLoss w = All (IsAccounted w.jobs) w.outbox

-- What other sessions do to the outbox and the queue: rows stay accounted for, jobs stay sent.
pub record KeepsSent (f : World → World) : Type 0 where
  pub accounts : (w : World) → NoLoss w → NoLoss (f w)
  pub sent : (w : World) (i : ℕ) → was_sent i w.jobs ≡ true → was_sent i (f w).jobs ≡ true

pub enqueue-NoLoss :
    (task_id outbox_id : ℕ) (queue_name : String) (payload : Payload) (w : World)
    → NoLoss w
    → NoLoss (enqueue_process_task task_id outbox_id queue_name payload w)
unfolding enqueue_process_task
enqueue-NoLoss task_id outbox_id queue_name payload w h =
    All-map (IsAccounted w.jobs) (IsAccounted (job ∷ w.jobs)) w.outbox (more job w.jobs) h
  where
    job : Job
    job = record {
      task_id = task_id;
      outbox_id = outbox_id;
      queue_name = queue_name;
      payload = payload;
    }

    more : (j : Job) (js : List Job) (e : OutboxEvent) → IsAccounted js e → IsAccounted (j ∷ js) e
    more j js e k = unfold was_sent in ground arith

pub claim-NoLoss :
    (now outbox_id : ℕ) (w : World)
    → was_sent outbox_id w.jobs ≡ true
    → NoLoss w
    → NoLoss (claim_outbox_row now outbox_id w)
unfolding claim_outbox_row
claim-NoLoss now outbox_id w s h =
    All-update (IsAccounted w.jobs) (λ e. e.id == outbox_id && is_undelivered e)
      (λ e. record e { delivered_at = some now }) w.outbox
      (λ e k _. subst (λ i. was_sent i w.jobs ≡ true) (sym (key e k)) s) h
  where
    key : (e : OutboxEvent) → (e.id == outbox_id && is_undelivered e) ≡ true → e.id ≡ outbox_id
    key e k = ==→≡ e.id outbox_id (ground arith)

-- a claim keeps the queue, and so all that was sent
pub enqueue-sent :
    (task_id outbox_id : ℕ) (queue_name : String) (payload : Payload) (w : World)
    → was_sent outbox_id (enqueue_process_task task_id outbox_id queue_name payload w).jobs ≡ true
unfolding enqueue_process_task was_sent
enqueue-sent task_id outbox_id queue_name payload w = ground (arith, ==_refl outbox_id)

commit_move-NoLoss :
    (now outbox_id : ℕ) (task : Task) (to_status : Status) (set : Task → Task) (w w' : World)
    → commit_move now outbox_id task to_status set w ≡ some w'
    → NoLoss w
    → NoLoss w'
unfolding commit_move
commit_move-NoLoss now outbox_id task to_status set w w' h a =
    elim (Bool-cases (count hit w.tasks == 0)) [
      | inl e ↦ cc (rw e at h)
      | inr e ↦ subst NoLoss (some_inv (rw e at h)) (added (is_in to_status work_triggering))
    ]
  where
    hit : Task → Bool
    hit t = has_id task.id t && status_eq t.status task.status

    added :
        (b : Bool)
        → All
            (IsAccounted w.jobs)
            (if b then w.outbox ++ outbox_row now outbox_id task to_status ∷ [] else w.outbox)
    added true =
        All-append (IsAccounted w.jobs) w.outbox (outbox_row now outbox_id task to_status ∷ []) a
          (refl, tt)
    added false = a

-- The sessions that run beside a request account for the outbox too.
pub record KeepsDispatch (env : Setting) : Type 0 where
  pub before_update : KeepsSent env.before_update
  pub before_claim : KeepsSent env.before_claim
  pub before_refresh : KeepsSent env.before_refresh

module _ (env : Setting) (keeps : KeepsDispatch env) where
  dispatch_stages-NoLoss :
      (task : Task) (w : World) → NoLoss w → All NoLoss (dispatch_stages env task w)
  unfolding dispatch_stages
  dispatch_stages-NoLoss task w h = elim (Bool-cases env.enqueue_works) [
    | inl e ↦
        let enqueued =
          enqueue-NoLoss task.id env.outbox_id (map_queue_name task.type) task.payload w h in
        rw (e, dispatch_stages)
          (
            enqueued,
            (
              claim-NoLoss env.now env.outbox_id (env.before_claim sent)
                  (keeps.before_claim.sent sent env.outbox_id
                    (enqueue-sent task.id env.outbox_id (map_queue_name task.type) task.payload w))
                  (keeps.before_claim.accounts sent enqueued),
              tt,
            ),
          )
    | inr e ↦ rw (e, dispatch_stages) tt
  ]
    where
      sent : World
      sent = enqueue_process_task task.id env.outbox_id (map_queue_name task.type) task.payload w

  last_stage-NoLoss :
      (w : World) (vs : List World) → NoLoss w → All NoLoss vs → NoLoss (last_stage w vs)
  last_stage-NoLoss w [] h a = h
  last_stage-NoLoss w (v ∷ vs) h a = last_stage-NoLoss v vs a.0 a.1

  dispatch-NoLoss : (task : Task) (w : World) → NoLoss w → NoLoss (dispatch_after_commit env task w)
  unfolding dispatch_after_commit
  dispatch-NoLoss task w h =
      last_stage-NoLoss w (dispatch_stages env task w) h (dispatch_stages-NoLoss task w h)

  dispatch_if_work-NoLoss :
      (to_status : Status) (task : Task) (w : World)
      → NoLoss w
      → NoLoss (dispatch_if_work env to_status task w)
  unfolding dispatch_if_work
  dispatch_if_work-NoLoss approved task w h = dispatch-NoLoss task w h
  dispatch_if_work-NoLoss executing task w h = dispatch-NoLoss task w h
  dispatch_if_work-NoLoss _ task w h = h

  announce-NoLoss :
      (task : Task) (to_status : Status) (actor : Actor) (metadata : Option String) (w : World)
      → NoLoss w
      → NoLoss (announce env task to_status actor metadata w).1
  unfolding announce emit
  announce-NoLoss task to_status actor metadata w h =
      read task.id (emit event (dispatch_if_work env to_status task w))
        (dispatch_if_work-NoLoss to_status task w h)
    where
      event : StatusChanged
      event = record {
        task_id = task.id;
        from_status = task.status;
        to_status = to_status;
        actor_id = some actor.id;
        metadata = metadata;
      }

      read : (i : ℕ) (v : World) → NoLoss v → NoLoss (refresh env i v).1
      read i v k =
          unfold refresh in
          elim (Option-cases (find (has_id i) (env.before_refresh v).tasks)) [
            | inl e ↦ rw (e, refresh) (keeps.before_refresh.accounts v k)
            | inr (t, e) ↦ rw (e, refresh) (keeps.before_refresh.accounts v k)
          ]

  request-NoLoss :
      (task : Task) (to_status : Status) (set : Task → Task) (actor : Actor)
      (metadata : Option String) (w m : World)
      → commit_move env.now env.outbox_id task to_status set (env.before_update w) ≡ some m
      → NoLoss w
      → NoLoss (announce env task to_status actor metadata m).1
  request-NoLoss task to_status set actor metadata w m q h =
      announce-NoLoss task to_status actor metadata m (
        commit_move-NoLoss env.now env.outbox_id task to_status set (env.before_update w) m q
          (keeps.before_update.accounts w h))

  transition_task-NoLoss :
      (to_status : Status) (actor : Actor) (metadata : Option String) (task : Task) (w : World)
      → NoLoss w
      → NoLoss (transition_task env to_status actor metadata task w).1
  unfolding transition_task
  transition_task-NoLoss to_status actor metadata task w h =
      elim (Result-cases (check_transition env.now to_status actor task)) [
        | inl (e, p) ↦ rw (p, transition_task) h
        | inr p ↦
            rw (p, transition_task)
              (elim (Option-cases
                (commit_move env.now env.outbox_id task to_status set (env.before_update w))) [
                  | inl q ↦ rw (q, transition_task) (keeps.before_update.accounts w h)
                  | inr (m, q) ↦
                      rw (q, transition_task)
                        (request-NoLoss task to_status set actor metadata w m q h)
                ])
      ]
    where
      set : Task → Task
      set t = record t { status = to_status; result = set_rejected to_status metadata t.result }

  retry_task-NoLoss :
      (actor : Actor) (task : Task) (w : World) → NoLoss w → NoLoss (retry_task env actor task w).1
  unfolding retry_task
  retry_task-NoLoss actor task w h = elim (Result-cases (check_retry actor task)) [
    | inl (e, p) ↦ rw (p, retry_task) h
    | inr p ↦
        rw (p, retry_task)
          (elim (Option-cases
            (commit_move env.now env.outbox_id task executing set (env.before_update w))) [
              | inl q ↦ rw (q, retry_task) (keeps.before_update.accounts w h)
              | inr (m, q) ↦
                  rw (q, retry_task) (request-NoLoss task executing set actor none w m q h)
            ])
  ]
    where
      set : Task → Task
      set t = record t { status = executing; retry_count = task.retry_count + 1 }

  with_task-NoLoss :
      (task_id : String) (tenant : ℕ) (body : Task → World → Result Task × World) (w : World)
      → ((task : Task) → NoLoss (body task w).1)
      → NoLoss w
      → NoLoss (with_task env task_id tenant body w).1
  unfolding with_task
  with_task-NoLoss task_id tenant body w h k = elim (Option-cases (env.parse_uuid task_id)) [
    | inl p ↦ rw (p, with_task) k
    | inr (i, p) ↦
        rw (p, with_task)
          (elim (Option-cases (select_task i tenant w)) [
            | inl q ↦ rw (q, with_task) k
            | inr (task, q) ↦ rw (q, with_task) (h task)
          ])
  ]

  -- A transition and a retry keep every outbox row accounted for, whether the queue takes the job or
  -- not, and so do the tables after each step of their dispatch, where the process may stop: at every
  -- point a row is marked delivered only if its job was sent before.
  pub requests-NoLoss :
      (task_id : String) (to_status : Status) (actor : Actor) (tenant : ℕ)
      (metadata : Option String) (task : Task) (w : World)
      → NoLoss w
      → NoLoss (transition env task_id to_status actor tenant metadata w).1
        × NoLoss (retry env task_id actor tenant w).1
        × All NoLoss (dispatch_stages env task w)
  unfolding transition retry
  requests-NoLoss task_id to_status actor tenant metadata task w h = (
    with_task-NoLoss task_id tenant (transition_task env to_status actor metadata) w
        (λ task. transition_task-NoLoss to_status actor metadata task w h) h,
    with_task-NoLoss task_id tenant (retry_task env actor) w
        (λ task. retry_task-NoLoss actor task w h) h,
    dispatch_stages-NoLoss task w h,
  )
