-- ===== src/Upload/Fair.antt =====
-- The limits of uploads in flight hold, and no slot is lost.
use eap.Prelude.{
  ℕ, ◌≤◌, ◌≡◌, Bool, true, false, ◌&&◌, not, ◌==◌, if◌then◌else◌, Option, none, some, List, [], ◌∷◌,
  arith, Option-cases, inl, inr,
}
use eap.Prelude.Table.{count}
use eap.Upload.Slots.{
  UserSlot, Slots, release_user, leave, release, Phase, waiting, admitted, holding, Request, State,
  at, Step, give_up, fall_back, finish, Steps, done, then_step, idle,
}
use eap.Upload.Counts.{is_waiting, is_holding, of_user, past_user, Counted, Sound, past_le, holds}
use eap.Upload.Sound.{Steps-Sound, idle-Sound}

past_bound : (k all past : ℕ) (o : Option UserSlot) → past ≤ all → Counted k all past o → past ≤ k
past_bound k all past none w h = omega arith
past_bound k all past (some slot) w h = let p = h.2 in omega arith

abbrev pub holds_for : ℕ → Request → Bool
holds_for u r = r.user == u && holds r

held_one :
    (mine : Bool) (p : Phase)
    → (if mine && is_holding p then 1 else 0) ≤ (if mine && not (is_waiting p) then 1 else 0)
held_one false p = omega arith
held_one true waiting = omega arith
held_one true admitted = omega arith
held_one true holding = omega arith

held_le : (u : ℕ) (rs : List Request) → count (holds_for u) rs ≤ count (past_user u) rs
unfolding count
held_le u [] = omega arith
held_le u (r ∷ rs) =
    let rest = held_le u rs in let one = held_one (r.user == u) r.phase in omega arith

-- Whatever the interleaving of the uploads, no more than the process's slots are held at once, and no
-- user holds more than the slots of one user.
pub slots_bound :
    (max_slots per_user_slots : ℕ) (s : State)
    → Steps max_slots per_user_slots (idle max_slots per_user_slots) s
    → (count holds s.requests ≤ max_slots)
      × ((u : ℕ) → count (holds_for u) s.requests ≤ per_user_slots)
slots_bound max k s r =
    let sound = Steps-Sound max k r (idle-Sound max k) in
    (
      (let process = sound.process in omega arith),
      λ u.
          let past =
            past_bound k (count (of_user u) s.requests) (count (past_user u) s.requests)
              (s.slots.users u) (past_le u s.requests) (sound.users u) in
          let held = held_le u s.requests in omega arith,
    )

first_step : (max k : ℕ) {s t u : State} → Step max k s t → Steps max k t u → Steps max k s u
first_step max k one done = then_step done one
first_step max k one (then_step others last) = then_step (first_step max k one others) last

-- every request can leave, at whatever point it stands
leaving :
    (max k u : ℕ) (p : Phase) (s : Slots) (rs : List Request)
    → (t : Slots) × Step max k
        (record { slots = s; requests = at u p ∷ rs })
        (record { slots = t; requests = rs })
leaving max k u waiting s rs = (leave u s, give_up u s [] rs)
leaving max k u admitted s rs = (leave u (release_user u s), fall_back u s [] rs)
leaving max k u holding s rs = (release u s, finish u s [] rs)

drain :
    (max k : ℕ) (rs : List Request) (s : Slots)
    → (t : Slots) × Steps max k
        (record { slots = s; requests = rs })
        (record { slots = t; requests = [] })
drain max k [] s = (s, done)
drain max k (r ∷ rs) s =
    let (after, one) = leaving max k r.user r.phase s rs in
    let (t, rest) = drain max k rs after in (t, first_step max k one rest)

-- the slots as they were created
pub record Restored (max_slots : ℕ) (t : Slots) : Type 0 where
  pub free : t.free ≡ max_slots
  pub users : (u : ℕ) → t.users u ≡ none

empty-Restored :
    (max k : ℕ) (t : Slots) → Sound max k (record { slots = t; requests = [] }) → Restored max t
unfolding count
empty-Restored max k t h = record {
  free = let process = h.process in omega arith;
  users = λ u. elim (Option-cases (t.users u)) [
    | inl e ↦ e
    | inr (slot, e) ↦ let c = rw e at (h.users u) in absurd (let one = c.1 in omega arith)
  ];
}

one_after_another :
    (max k : ℕ) {s t u : State} → Steps max k s t → Steps max k t u → Steps max k s u
one_after_another max k before done = before
one_after_another max k before (then_step others last) =
    then_step (one_after_another max k before others) last

-- No slot is lost: from every state that uploads lead to, the requests in flight can all leave, wherever
-- they stand, and then every slot of the process is free and no user has an entry left.
pub slots_return :
    (max_slots per_user_slots : ℕ) (s : State)
    → Steps max_slots per_user_slots (idle max_slots per_user_slots) s
    → (t : Slots) × Steps max_slots per_user_slots s (record { slots = t; requests = [] })
      × Restored max_slots t
slots_return max k s r =
    let (t, all_left) = drain max k s.requests s.slots in
    (
      t,
      all_left,
      empty-Restored max k t
          (Steps-Sound max k (one_after_another max k r all_left) (idle-Sound max k)),
    )
