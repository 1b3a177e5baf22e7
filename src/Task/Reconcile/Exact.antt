-- ===== src/Task/Reconcile/Exact.antt =====
-- What one scan of the reconciler does to each outbox row, and that it loses no dispatch.
use eap.Prelude.{
  ℕ, ◌≤◌, ◌≡◌, refl, ap, ◌∙◌, Bool, true, false, not, ◌&&◌, some, List, [], ◌∷◌, arith, ◌==◌, ==→≡,
  if◌then◌else◌, Bool-cases, inl, inr, subst,
}
use eap.Prelude.Table.{
  length, select, find, count, find-update, count-update, count_and_of_unique, find-keep,
}
use eap.Prelude.Query.{sort_by, count-sort_by, length-sort_by, take_all, count-select, count-congr}
use eap.Task.Model.{OutboxEvent, World}
use eap.Task.Service.{is_undelivered, claim_outbox_row, enqueue_process_task}
use eap.Task.Service.Dispatch.{NoLoss, enqueue-NoLoss, enqueue-sent, claim-NoLoss}
use eap.Task.Reconcile.{
  created, is_lost, send, reconcile_row, reconcile_rows, lost_batch, reconcile_undelivered,
}

module _ (now : ℕ) (takes : OutboxEvent → Bool) where
  reconcile_row-NoLoss :
      (e : OutboxEvent) (w : World) → NoLoss w → NoLoss (reconcile_row now takes e w)
  unfolding reconcile_row
  reconcile_row-NoLoss e w h = elim (Bool-cases (takes e)) [
    | inl k ↦
        rw (k, reconcile_row)
          (claim-NoLoss now e.id (send e w) (enqueue-sent e.task_id e.id e.type e.payload w)
            (enqueue-NoLoss e.task_id e.id e.type e.payload w h))
    | inr k ↦ rw (k, reconcile_row) h
  ]

  reconcile_rows-NoLoss :
      (es : List OutboxEvent) (w : World) → NoLoss w → NoLoss (reconcile_rows now takes es w)
  unfolding reconcile_rows
  reconcile_rows-NoLoss [] w h = h
  reconcile_rows-NoLoss (e ∷ es) w h =
      reconcile_rows-NoLoss es (reconcile_row now takes e w) (reconcile_row-NoLoss e w h)

  -- Whichever jobs the queue refuses, a scan marks a row delivered only after its job was sent.
  pub reconcile-NoLoss : (w : World) → NoLoss w → NoLoss (reconcile_undelivered now takes w)
  unfolding reconcile_undelivered
  reconcile-NoLoss w h = reconcile_rows-NoLoss (lost_batch now w) w h

abbrev pub has_key : ℕ → OutboxEvent → Bool
has_key i e = e.id == i

-- `e` is the one outbox row with this id
pub record IsEvent (i : ℕ) (e : OutboxEvent) (w : World) : Type 0 where
  pub unique : count (has_key i) w.outbox ≡ 1
  pub row : find (has_key i) w.outbox ≡ some e

module _ (now : ℕ) (takes : OutboxEvent → Bool) where
  abbrev pub delivered : OutboxEvent → OutboxEvent
  delivered e = record e { delivered_at = some now }

  abbrev after : Bool → OutboxEvent → OutboxEvent
  after b e = if b && is_undelivered e then delivered e else e

  reconcile_row-IsEvent :
      (x : OutboxEvent) (i : ℕ) (e : OutboxEvent) (w : World)
      → IsEvent i e w
      → IsEvent i (after (has_key i x && takes x) e) (reconcile_row now takes x w)
  unfolding reconcile_row claim_outbox_row enqueue_process_task
  reconcile_row-IsEvent x i e w h = elim (Bool-cases (takes x)) [
    | inl k ↦
        rw (k, reconcile_row)
          (record {
            unique = count-update (has_key i) hit delivered w.outbox (λ _. refl) ∙ h.unique;
            row =
                find-update (has_key i) hit delivered w.outbox (λ _. refl)
                ∙ rw h.row (ap some changed);
          })
    | inr k ↦ rw (k, reconcile_row) (subst (λ u. IsEvent i u w) kept h)
  ]
    where
      hit : OutboxEvent → Bool
      hit y = y.id == x.id && is_undelivered y

      changed : (if hit e then delivered e else e) ≡ after (has_key i x && true) e
      changed = ground (arith, ==→≡ e.id i (find-keep (has_key i) w.outbox e h.row))

      kept : e ≡ after (has_key i x && false) e
      kept = ground arith

  -- whether a batch holds a row with this id that the queue takes
  abbrev reaches : ℕ → List OutboxEvent → Bool
  reaches i es = not (count (λ x. has_key i x && takes x) es == 0)

  reconcile_rows-IsEvent :
      (es : List OutboxEvent) (i : ℕ) (e : OutboxEvent) (w : World)
      → IsEvent i e w
      → IsEvent i (after (reaches i es) e) (reconcile_rows now takes es w)
  unfolding reconcile_rows count
  reconcile_rows-IsEvent [] i e w h = h
  reconcile_rows-IsEvent (x ∷ es) i e w h =
      subst (λ u. IsEvent i u (reconcile_rows now takes (x ∷ es) w)) twice
        (reconcile_rows-IsEvent es i (after (has_key i x && takes x) e)
          (reconcile_row now takes x w) (reconcile_row-IsEvent x i e w h))
    where
      twice : after (reaches i es) (after (has_key i x && takes x) e) ≡ after (reaches i (x ∷ es)) e
      twice = ground arith

  reaches-lost_batch :
      (i : ℕ) (e : OutboxEvent) (w : World)
      → IsEvent i e w
      → length (select (is_lost now) w.outbox) ≤ 100
      → reaches i (lost_batch now w) ≡ (takes e && is_lost now e)
  unfolding lost_batch
  reaches-lost_batch i e w h small =
      rw (take_all 100 (sort_by created lost) (rw (length-sort_by created lost) small)) (
        rw (count-sort_by created (λ x. has_key i x && takes x) lost) (
          rw (count-select (λ x. has_key i x && takes x) (is_lost now) w.outbox) (
            rw
              (count-congr (λ x. (has_key i x && takes x) && is_lost now x)
                (λ x. has_key i x && (takes x && is_lost now x)) w.outbox regroup)
              (rw
                (count_and_of_unique (has_key i) (λ x. takes x && is_lost now x) w.outbox e h.unique
                  h.row)
                (ground arith)))))
    where
      lost : List OutboxEvent
      lost = select (is_lost now) w.outbox

      regroup :
          (x : OutboxEvent)
          → ((has_key i x && takes x) && is_lost now x)
            ≡ (has_key i x && (takes x && is_lost now x))
      regroup x = ground arith

  -- With at most 100 lost rows, one scan marks delivered exactly the lost rows whose job the queue
  -- takes; a row whose job it refuses stays undelivered for the next scan, and so does a row that is
  -- younger than the scan interval.
  pub reconcile_exact :
      (i : ℕ) (e : OutboxEvent) (w : World)
      → IsEvent i e w
      → length (select (is_lost now) w.outbox) ≤ 100
      → find (has_key i) (reconcile_undelivered now takes w).outbox
        ≡ some (if takes e && is_lost now e then delivered e else e)
  unfolding reconcile_undelivered
  reconcile_exact i e w h small =
      (reconcile_rows-IsEvent (lost_batch now w) i e w h).row ∙ ap some exactly
    where
      lost_open :
          after (takes e && is_lost now e) e ≡ (if takes e && is_lost now e then delivered e else e)
      lost_open = unfold is_lost in ground arith

      exactly :
          after (reaches i (lost_batch now w)) e
          ≡ (if takes e && is_lost now e then delivered e else e)
      exactly = rw (reaches-lost_batch i e w h small) lost_open
