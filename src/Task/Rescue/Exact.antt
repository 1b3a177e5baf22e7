-- ===== src/Task/Rescue/Exact.antt =====
-- Which dispatches a rescue scan sends: paging changes nothing but how far the scan looks.
use eap.Prelude.{
  ℕ, zero, suc, ◌+◌, ◌-◌, ◌≤◌, ◌<◌, ◌≡◌, refl, Bool, true, false, ◌&&◌, List, [], ◌∷◌, ◌++◌, arith,
  ltb, leb, leb→le, ltb→lt, ==→≡, ◌==◌, if◌then◌else◌, Bool-cases, inl, inr, ap, ◌∙◌, sym,
}
use eap.Prelude.Table.{take, select, length}
use eap.Task.Model.{OutboxEvent, World}
use eap.Task.Service.{enqueue_process_task}
use eap.Task.Reconcile.{batch_size, send}
use eap.Task.Rescue.{
  Outside, dispatched, is_rescuable, grace, grace_over, rescue_dispatch, rescue_rows, drop,
  rescue_pages, rescue_candidates, rescue_stuck_dispatches, scan_page_size,
}
use eap.Task.Rescue.Pages.{
  append_nil, length-append, select-append, take-append, length-take_le, take_nil, take-plus,
  drop-plus, drop_short,
}

-- the dispatches that the scan can send: their grace is over, their task may still run, no marker
-- of an earlier rescue stands, and the queue takes them
pub is_ready : Outside → ℕ → World → OutboxEvent → Bool
is_ready o now w e =
    grace_over now e.delivered_at (grace o w.tools e)
    && (is_rescuable (dispatched e w) && (o.sets_marker e && o.takes e))

pub send_all : List OutboxEvent → World → World
send_all [] w = w
send_all (e ∷ es) w = send_all es (send e w)

send_all-append :
    (xs ys : List OutboxEvent) (w : World) → send_all (xs ++ ys) w ≡ send_all ys (send_all xs w)
unfolding send_all
send_all-append [] ys w = refl
send_all-append (x ∷ xs) ys w = send_all-append xs ys (send x w)

-- the count and the world after these were sent
abbrev pub after : List OutboxEvent → ℕ → World → ℕ × World
after es rescued w = (rescued + length es, send_all es w)

room_filled : (rescued room n : ℕ) → rescued + room ≡ 100 → leb 100 (rescued + n) ≡ true → room ≤ n
room_filled rescued room n h k = omega (arith, leb→le 100 (rescued + n) k)

whole_page : (n : ℕ) → ltb n 100 ≡ false → n ≤ 100 → n ≡ 100
whole_page n h k = ground arith

module _ (o : Outside) (now : ℕ) (p : OutboxEvent → Bool) where
  abbrev Agrees : World → Type 0
  Agrees w = (e : OutboxEvent) → is_ready o now w e ≡ p e

  Agrees-send : (e : OutboxEvent) (w : World) → Agrees w → Agrees (send e w)
  unfolding enqueue_process_task is_ready
  Agrees-send e w h = h

  dispatch_exact :
      (e : OutboxEvent) (w : World)
      → Agrees w
      → rescue_dispatch o now e w ≡ (if p e then (true, send e w) else (false, w))
  unfolding rescue_dispatch is_ready
  dispatch_exact e w h = rw (sym (h e)) (ground arith)

  rows_exact :
      (es : List OutboxEvent) (room rescued : ℕ) (w : World)
      → Agrees w
      → rescued + room ≡ 100
      → rescue_rows o now es rescued w ≡ after (take room (select p es)) rescued w
  unfolding rescue_rows select send_all
  rows_exact [] room rescued w h full =
      let same : rescued + 0 ≡ rescued = omega arith in rw (sym (take_nil room)) (rw same refl)
  rows_exact (e ∷ es) zero rescued w h full =
      let same : rescued + 0 ≡ rescued = omega arith in
      let done : leb batch_size rescued ≡ true = ground arith in rw (done, same) refl
  rows_exact (e ∷ es) (suc room) rescued w h full =
      let more : leb batch_size rescued ≡ false = ground arith in
      rw (dispatch_exact e w h, rescue_rows)
        (elim (Bool-cases (p e)) [
          | inl k ↦
              let step : (n : ℕ) → rescued + suc n ≡ suc rescued + n = λ n. omega arith in
              rw k (
                rw more (
                  rw (step (length (take room (select p es)))) (
                    rows_exact es room (suc rescued) (send e w) (Agrees-send e w h) (omega arith))))
          | inr k ↦ rw k (rw more (rows_exact es (suc room) rescued w h full))
        ])

  -- the candidates that are left to look at
  abbrev window : ℕ → ℕ
  window zero = 0
  window (suc left) = 100 + window left

  Agrees-send_all : (es : List OutboxEvent) (w : World) → Agrees w → Agrees (send_all es w)
  unfolding send_all
  Agrees-send_all [] w h = h
  Agrees-send_all (e ∷ es) w h = Agrees-send_all es (send e w) (Agrees-send e w h)

  -- what a page and the rest send together
  sent_exact :
      (es fs : List OutboxEvent) (room rescued : ℕ) (w : World)
      → after (take room (select p (es ++ fs))) rescued w
        ≡ after
            (take (room - length (take room (select p es))) (select p fs))
            (rescued + length (take room (select p es)))
            (send_all (take room (select p es)) w)
  sent_exact es fs room rescued w =
      let first = take room (select p es) in
      let second = take (room - length first) (select p fs) in
      let shape : take room (select p (es ++ fs)) ≡ first ++ second =
        ap (take room) (select-append p es fs) ∙ take-append room (select p es) (select p fs) in
      let sum : rescued + (length first + length second) ≡ rescued + length first + length second =
        omega arith in
      rw (shape, length-append first second, send_all-append first second w, sum) refl

  -- nothing is sent from the rest if the batch is full or nothing is left
  rest_empty :
      (es fs : List OutboxEvent) (room rescued : ℕ) (w : World)
      → fs ≡ []
      → after (take room (select p (es ++ fs))) rescued w
        ≡ after (take room (select p es)) rescued w
  rest_empty es fs room rescued w h =
      ap (λ xs. after (take room (select p xs)) rescued w) (rw h (append_nil es))

  rest_full :
      (es fs : List OutboxEvent) (room rescued : ℕ) (w : World)
      → room ≤ length (take room (select p es))
      → after (take room (select p (es ++ fs))) rescued w
        ≡ after (take room (select p es)) rescued w
  rest_full es fs room rescued w h =
      let first = take room (select p es) in
      let none_left : room - length first ≡ 0 = omega arith in
      let shape : take room (select p (es ++ fs)) ≡ first =
        ap (take room) (select-append p es fs)
        ∙ (take-append room (select p es) (select p fs) ∙ rw none_left (append_nil first)) in
      ap (λ xs. after xs rescued w) shape

  short_page : (n m : ℕ) (xs : List OutboxEvent) → length (take n xs) < n → take m (drop n xs) ≡ []
  short_page n m xs h = rw (drop_short n xs h) (sym (take_nil m))

  page_nil : (xs : List OutboxEvent) → length xs ≡ 0 → xs ≡ []
  page_nil [] h = refl
  page_nil (x ∷ xs) h = absurd (omega arith)

  after_nil :
      (room rescued : ℕ) (w : World) → after (take room (select p [])) rescued w ≡ (rescued, w)
  unfolding select send_all
  after_nil room rescued w =
      let same : rescued + 0 ≡ rescued = omega arith in rw (sym (take_nil room)) (rw same refl)

  pages_exact :
      (es : List OutboxEvent) (left offset room rescued : ℕ) (w : World)
      → Agrees w
      → rescued + room ≡ 100
      → rescue_pages o now es left offset rescued w
        ≡ after (take room (select p (take (window left) (drop offset es)))) rescued w
  unfolding rescue_pages select send_all
  pages_exact es zero offset room rescued w h full = sym (after_nil room rescued w)
  pages_exact es (suc left) offset room rescued w h full =
      let page = take 100 (drop offset es) in
      let fs = take (window left) (drop 100 (drop offset es)) in
      let n = rescued + length (take room (select p page)) in
      let whole : ltb (length page) scan_page_size ≡ false → length page ≡ 100 =
        λ d. whole_page (length page) d (length-take_le 100 (drop offset es)) in
      rw
        (
          take-plus 100 (window left) (drop offset es),
          rows_exact page room rescued w h full,
          rescue_pages,
        )
        (elim (Bool-cases (length page == 0)) [
          | inl a ↦ rw a (
              sym (
                rest_empty page fs room rescued w (
                  short_page 100 (window left) (drop offset es)
                    (omega (arith, ==→≡ (length page) 0 a)))
                ∙ (ap (λ xs. after (take room (select p xs)) rescued w)
                      (page_nil page (==→≡ (length page) 0 a))
                    ∙ after_nil room rescued w)))
          | inr a ↦ rw a (elim (Bool-cases (leb batch_size n)) [
            | inl b ↦ rw b (
                sym (
                  rest_full page fs room rescued w
                    (room_filled rescued room (length (take room (select p page))) full b)))
            | inr b ↦ rw b (elim (Bool-cases (ltb (length page) scan_page_size)) [
              | inl d ↦ rw d (
                  sym (
                    rest_empty page fs room rescued w
                      (short_page 100 (window left) (drop offset es) (ltb→lt (length page) 100 d))))
              | inr d ↦ rw d (
                  pages_exact es left (offset + length page)
                    (room - length (take room (select p page))) n
                    (send_all (take room (select p page)) w)
                    (Agrees-send_all (take room (select p page)) w h)
                    (omega (arith, length-take_le room (select p page)))
                  ∙ (rw (drop-plus offset (length page) es) (rw (whole d) refl)
                      ∙ sym (sent_exact page fs room rescued w)))
            ])
          ])
        ])

-- A rescue scan sends, oldest first, the first 100 dispatches that are ready among the 1000 oldest
-- candidates: those whose grace is over, whose task may still run, whose marker could be set and
-- which the queue took.
pub rescue_exact :
    (o : Outside) (now : ℕ) (w : World)
    → rescue_stuck_dispatches o now w
      ≡ after (take 100 (select (is_ready o now w) (take 1000 (rescue_candidates now w)))) 0 w
unfolding rescue_stuck_dispatches
rescue_exact o now w =
    pages_exact o now (is_ready o now w) (rescue_candidates now w) 10 0 100 0 w (λ e. refl)
      (omega arith)
