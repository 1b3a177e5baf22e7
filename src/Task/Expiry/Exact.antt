-- ===== src/Task/Expiry/Exact.antt =====
-- What one undisturbed expiry scan does to each row.
use eap.Prelude.{
  ℕ, ◌≤◌, ◌≡◌, refl, sym, ap, ◌∙◌, Bool, ◌&&◌, some, List, [], ◌∷◌, arith, ◌==◌, ==→≡,
  if◌then◌else◌, Bool-cases, inl, inr, subst,
}
use eap.Prelude.Table.{
  length, select, find, update, count, find-update, count-update, count_and_of_unique, find-keep,
  update-count_zero,
}
use eap.Prelude.Query.{mem, sort_by, count-sort_by, length-sort_by, take_all, count-select, mem-map}
use eap.Task.Model.{pending, status_eq, Task, World, has_id}
use eap.Task.Service.{emit}
use eap.Task.Worker.Execution.{IsRow}
use eap.Task.Expiry.{
  is_overdue, deadline, retired, cancel_expired, cancel_all, overdue_batch,
  expire_overdue_approvals,
}

abbrev calm : World → World
calm w = w

abbrev hit : ℕ → Task → Bool
hit i t = has_id i t && status_eq t.status pending

cancel_expired-tasks :
    (i : ℕ) (w : World) → (cancel_expired calm i w).tasks ≡ update (hit i) retired w.tasks
unfolding cancel_expired emit
cancel_expired-tasks i w = elim (Bool-cases (count (hit i) w.tasks == 0)) [
  | inl e ↦
      rw (e, cancel_expired)
        (sym (update-count_zero (hit i) retired w.tasks (==→≡ (count (hit i) w.tasks) 0 e)))
  | inr e ↦ rw (e, cancel_expired) refl
]

-- what a row becomes when the ids of a batch are retired
abbrev after : Bool → Task → Task
after b t = if b && status_eq t.status pending then retired t else t

cancel_expired-IsRow :
    (i j : ℕ) (t : Task) (w : World)
    → IsRow j t w
    → IsRow j (after (i == j) t) (cancel_expired calm i w)
cancel_expired-IsRow i j t w h = record {
  unique =
      ap (count (has_id j)) (cancel_expired-tasks i w)
      ∙ (count-update (has_id j) (hit i) retired w.tasks (λ _. refl) ∙ h.unique);
  row =
      ap (find (has_id j)) (cancel_expired-tasks i w)
      ∙ (find-update (has_id j) (hit i) retired w.tasks (λ _. refl) ∙ rw h.row (ap some changed));
}
  where
    changed : (if hit i t then retired t else t) ≡ after (i == j) t
    changed = ground (arith, ==→≡ t.id j (find-keep (has_id j) w.tasks t h.row))

cancel_all-IsRow :
    (is : List ℕ) (j : ℕ) (t : Task) (w : World)
    → IsRow j t w
    → IsRow j (after (mem j is) t) (cancel_all calm is w)
unfolding cancel_all
cancel_all-IsRow [] j t w h = h
cancel_all-IsRow (i ∷ is) j t w h =
    subst (λ u. IsRow j u (cancel_all calm (i ∷ is) w)) twice
      (cancel_all-IsRow is j (after (i == j) t) (cancel_expired calm i w)
        (cancel_expired-IsRow i j t w h))
  where
    twice : after (mem j is) (after (i == j) t) ≡ after (mem j (i ∷ is)) t
    twice = ground arith

-- the batch holds exactly the ids of the overdue rows, if it is large enough for all of them
mem-overdue_batch :
    (now j : ℕ) (t : Task) (w : World)
    → IsRow j t w
    → length (select (is_overdue now) w.tasks) ≤ 100
    → mem j (overdue_batch now w.tasks) ≡ is_overdue now t
unfolding overdue_batch
mem-overdue_batch now j t w h small =
    rw (take_all 100 (sort_by deadline overdue) (rw (length-sort_by deadline overdue) small)) (
      rw (mem-map (λ x. x.id) j (sort_by deadline overdue)) (
        rw (count-sort_by deadline (has_id j) overdue) (
          rw (count-select (has_id j) (is_overdue now) w.tasks) (
            rw (count_and_of_unique (has_id j) (is_overdue now) w.tasks t h.unique h.row)
              (ground arith)))))
  where
    overdue : List Task
    overdue = select (is_overdue now) w.tasks

-- only a pending task is overdue
overdue-pending :
    (now : ℕ) (t : Task) → after (is_overdue now t) t ≡ (if is_overdue now t then retired t else t)
unfolding is_overdue
overdue-pending now t = ground arith

-- With at most 100 overdue approvals, one undisturbed scan cancels exactly the overdue ones, with the
-- timeout as their reason, and leaves every other task as it was.
pub expire_exact :
    (now j : ℕ) (t : Task) (w : World)
    → IsRow j t w
    → length (select (is_overdue now) w.tasks) ≤ 100
    → find (has_id j) (expire_overdue_approvals now calm w).tasks
      ≡ some (if is_overdue now t then retired t else t)
unfolding expire_overdue_approvals
expire_exact now j t w h small =
    (cancel_all-IsRow (overdue_batch now w.tasks) j t w h).row ∙ ap some exactly
  where
    exactly :
        after (mem j (overdue_batch now w.tasks)) t ≡ (if is_overdue now t then retired t else t)
    exactly = rw (mem-overdue_batch now j t w h small) (overdue-pending now t)
