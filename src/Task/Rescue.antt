-- ===== src/Task/Rescue.antt =====
-- The rescue scan of apps/backend/app/services/task_reconcile.py, which sends again what a worker
-- that died left behind. For each dispatch, whether its Redis marker could be set and whether the
-- queue takes the job are arguments. Other sessions commit nothing while a scan runs.
pub mod Pages
pub mod Exact
use eap.Prelude.{
  ℕ, zero, suc, ◌+◌, String, Bool, true, false, not, ◌&&◌, Option, none, some, List, [], ◌∷◌, ltb,
  leb, ◌==◌, if◌then◌else◌, str_eq,
}
use eap.Prelude.Table.{take, select, find, count, length}
use eap.Prelude.Query.{sort_by}
use eap.Json.{ℤ, Fields}
use eap.Tool.Model.{Tool}
use eap.Tool.Policy.{lease_ttl_seconds, rescue_grace_seconds}
use eap.Task.Model.{approved, executing, is_in, Task, OutboxEvent, World, has_id}
use eap.Task.Reconcile.{batch_size, send}

-- `_SCAN_PAGE_SIZE` and `_SCAN_MAX_PAGES`
abbrev pub scan_page_size : ℕ
scan_page_size = 100

abbrev pub scan_max_pages : ℕ
scan_max_pages = 10

-- `_RESCUABLE_STATUSES`
abbrev pub is_rescuable : Option Task → Bool
is_rescuable none = false
is_rescuable (some task) = is_in task.status (approved ∷ executing ∷ [])

abbrev pub dispatched : OutboxEvent → World → Option Task
dispatched e w = find (has_id e.task_id) w.tasks

abbrev tool_named : Option String → List Tool → Option Tool
tool_named none tools = none
tool_named (some i) tools = find (λ t. str_eq t.tool_id i) tools

-- a later dispatch of the same task
abbrev superseded : OutboxEvent → World → Bool
superseded e w =
    not (count (λ n. n.task_id == e.task_id && ltb e.created_at n.created_at) w.outbox == 0)

-- delivered longer than the smallest grace ago
abbrev delivered_before : ℕ → Option ℕ → Bool
delivered_before now none = false
delivered_before now (some at) = ltb (at + lease_ttl_seconds) now

abbrev is_candidate : ℕ → World → OutboxEvent → Bool
is_candidate now w e =
    delivered_before now e.delivered_at && (is_rescuable (dispatched e w) && not (superseded e w))

abbrev created : OutboxEvent → ℕ
created e = e.created_at

unfoldable pub rescue_candidates : ℕ → World → List OutboxEvent
rescue_candidates now w = sort_by created (select (is_candidate now w) w.outbox)

-- What a scan learns from outside: Python's `int`, the markers and the queue.
pub record Outside : Type 0 where
  pub parse_int : String → Option ℤ
  pub sets_marker : OutboxEvent → Bool
  pub takes : OutboxEvent → Bool

abbrev grace_of : Outside → Option Tool → ℕ
grace_of o none = rescue_grace_seconds o.parse_int none none
grace_of o (some tool) = rescue_grace_seconds o.parse_int (some tool.timeout_ms) tool.retry_policy

-- the grace of the tool that the left join finds
abbrev pub grace : Outside → List Tool → OutboxEvent → ℕ
grace o tools e = grace_of o (tool_named e.payload.tool_id tools)

abbrev grace_over : ℕ → Option ℕ → ℕ → Bool
grace_over now none grace = false
grace_over now (some at) grace = leb (at + grace) now

-- `_rescue_dispatch`: whether it sent, and the world after it
unfoldable pub rescue_dispatch : Outside → ℕ → OutboxEvent → World → Bool × World
rescue_dispatch o now e w =
    if not (grace_over now e.delivered_at (grace o w.tools e))
    then (false, w)
    else if not (is_rescuable (dispatched e w))
    then (false, w)
    else if not (o.sets_marker e)
    then (false, w)
    else if o.takes e
    then (true, send e w)
    else (false, w)

abbrev counted : Bool × World → ℕ → ℕ × World
counted (true, w) rescued = (suc rescued, w)
counted (false, w) rescued = (rescued, w)

-- the rows of one page, until the batch is full
unfoldable pub rescue_rows : Outside → ℕ → List OutboxEvent → ℕ → World → ℕ × World
unfolding rescue_dispatch
rescue_rows o now [] rescued w = (rescued, w)
rescue_rows o now (e ∷ es) rescued w =
    let (n, w') = counted (rescue_dispatch o now e w) rescued in
    let rest = rescue_rows o now es n w' in if leb batch_size rescued then (rescued, w) else rest

abbrev pub drop : ℕ → List OutboxEvent → List OutboxEvent
drop zero es = es
drop (suc n) [] = []
drop (suc n) (e ∷ es) = drop n es

-- the pages from `offset` on, of which at most `left` are read
unfoldable pub rescue_pages :
    Outside → ℕ → List OutboxEvent → (left offset rescued : ℕ) → World → ℕ × World
unfolding rescue_rows
rescue_pages o now candidates zero offset rescued w = (rescued, w)
rescue_pages o now candidates (suc left) offset rescued w =
    let rows = take scan_page_size (drop offset candidates) in
    let (n, w') = rescue_rows o now rows rescued w in
    let rest = rescue_pages o now candidates left (offset + length rows) n w' in
    if length rows == 0
    then (rescued, w)
    else if leb batch_size n
    then (n, w')
    else if ltb (length rows) scan_page_size
    then (n, w')
    else rest

unfoldable pub rescue_stuck_dispatches : Outside → ℕ → World → ℕ × World
unfolding rescue_candidates rescue_pages
rescue_stuck_dispatches o now w = rescue_pages o now (rescue_candidates now w) scan_max_pages 0 0 w
