-- ===== src/Task/Machine.antt =====
-- The state machine: `VALID_TRANSITIONS` and the status sets of
-- apps/backend/app/services/task_service.py, and the ways that a row can move along it.
use eap.Prelude.{ℕ, String, Option, ◌≡◌, refl, ◌∙◌, Bool, true, List, [], ◌∷◌, arith}
use eap.Task.Model.{
  Status, pending, approved, rejected, executing, completed, failed, cancelled, is_in, Task,
}

abbrev pub valid_transitions : Status → List Status
valid_transitions pending = approved ∷ rejected ∷ cancelled ∷ []
valid_transitions approved = executing ∷ cancelled ∷ []
valid_transitions rejected = []
valid_transitions executing = completed ∷ failed ∷ cancelled ∷ []
valid_transitions completed = []
valid_transitions failed = executing ∷ cancelled ∷ []
valid_transitions cancelled = []

-- `_WORK_TRIGGERING_STATUSES`
abbrev pub work_triggering : List Status
work_triggering = approved ∷ executing ∷ []

-- Any number of transitions of the table, one after the other.
infix 40 ◌⟶*◌
pub data ◌⟶*◌ : Status → Status → Type 0 where
  here : {s : Status} → s ⟶* s
  via : {s t u : Status} → is_in t (valid_transitions s) ≡ true → t ⟶* u → s ⟶* u

pub ⟶*-trans : {s t u : Status} → s ⟶* t → t ⟶* u → s ⟶* u
⟶*-trans here q = q
⟶*-trans (via e p) q = via e (⟶*-trans p q)

pub step : (s t : Status) → is_in t (valid_transitions s) ≡ true → s ⟶* t
step s t e = via e here

-- `rejected`, `completed` and `cancelled` are the statuses that nothing leaves.
abbrev pub is_terminal : Status → Bool
is_terminal s = is_in s (rejected ∷ completed ∷ cancelled ∷ [])

no_exit : (s t : Status) → is_terminal s ≡ true → is_in t (valid_transitions s) ≡ true → ⊥
no_exit s t h e = ground arith

pub terminal_absorbs : {s t : Status} → is_terminal s ≡ true → s ⟶* t → t ≡ s
terminal_absorbs h here = refl
terminal_absorbs {s} h (via {t = m} e p) = absurd (no_exit s m h e)

-- What no service ever writes: the identity of a row, its owners and its retry budget.
abbrev pub identity : Task → ℕ × ℕ × ℕ × Option ℕ × String × ℕ
identity t = (t.id, t.tenant_id, t.creator_id, t.assignee_id, t.type, t.max_retries)

-- `u` is a later state of the row `t`: the same row, whose status has moved along the table.
pub record Evolves (t u : Task) : Type 0 where
  pub same : identity u ≡ identity t
  pub moves : t.status ⟶* u.status

pub Evolves-refl : (t : Task) → Evolves t t
Evolves-refl t = record { same = refl; moves = here }

pub Evolves-trans : (t u v : Task) → Evolves t u → Evolves u v → Evolves t v
Evolves-trans t u v p q = record { same = q.same ∙ p.same; moves = ⟶*-trans p.moves q.moves }
