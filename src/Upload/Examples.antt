-- ===== src/Upload/Examples.antt =====
-- Two uploads of one user who may have one at a time, in a process with two slots.
use eap.Prelude.{ℕ, ◌≤◌, ◌≡◌, refl, some, none, if◌then◌else◌, ◌==◌, [], ◌∷◌}
use eap.Prelude.Table.{count}
use eap.Upload.Slots.{
  Slots, State, Steps, idle, created, enter, acquire_user, acquire_free, waiting, holding, at,
  arrive, admit, hold, done, then_step,
}
use eap.Upload.Counts.{holds}
use eap.Upload.Fair.{holds_for, slots_bound, slots_return, Restored}

abbrev both_in : Slots
both_in = enter 2 1 7 (enter 2 1 7 (created 2 1))

abbrev one_admitted : Slots
one_admitted = record {
  free = 2;
  users = λ u. if 7 == u then some (record { permits = 0; requests = 2 }) else both_in.users u;
}

abbrev one_holding : Slots
one_holding = record one_admitted { free = 1 }

abbrev state : State
state = record { slots = one_holding; requests = at 7 holding ∷ at 7 waiting ∷ [] }

gets_permit : acquire_user 7 both_in ≡ some one_admitted
unfolding acquire_user enter
gets_permit = refl

gets_slot : acquire_free one_admitted ≡ some one_holding
unfolding acquire_free
gets_slot = refl

-- the other one waits
test_waits : acquire_user 7 one_holding ≡ none
unfolding acquire_user
test_waits = refl

reached : Steps 2 1 (idle 2 1) state
reached =
    then_step
      (then_step
        (then_step (then_step done (arrive 7 (created 2 1) []))
          (arrive 7 (enter 2 1 7 (created 2 1)) (at 7 waiting ∷ [])))
        (admit 7 both_in one_admitted [] (at 7 waiting ∷ []) gets_permit))
      (hold 7 one_admitted one_holding [] (at 7 waiting ∷ []) gets_slot)

slots_bound_example :
    (count holds state.requests ≤ 2) × ((u : ℕ) → count (holds_for u) state.requests ≤ 1)
slots_bound_example = slots_bound 2 1 state reached

slots_return_example :
    (t : Slots) × Steps 2 1 state (record { slots = t; requests = [] }) × Restored 2 t
slots_return_example = slots_return 2 1 state reached
