-- ===== src/Upload/Sound.antt =====
-- Every step of an upload keeps the counts of `UploadSlots` of apps/backend/app/uploads.py.
use eap.Prelude.{
  ℕ, ◌+◌, ◌≡◌, refl, sym, subst, false, ◌==◌, some, List, [], ◌∷◌, ◌++◌, arith, Bool-cases,
  Option-cases, some_inv, inl, inr,
}
use eap.Prelude.Table.{count}
use eap.Upload.Slots.{
  Slots, slot_of, enter, taken, acquire_user, acquire_free, given_back, release_user, left, leave,
  release, Phase, waiting, admitted, holding, Request, State, at, Step, arrive, admit, hold,
  give_up, fall_back, finish, Steps, done, then_step, idle,
}
use eap.Upload.Counts.{
  is_waiting, of_user, past_user, Counted, Sound, past_le, enter-Counted, left-Counted,
  back-Counted, taken-Counted, swapped, dropped, of_mine, past_waiting, past_beyond, holds_mine,
  beyond_swapped, change-Sound,
}

-- The steps one by one.
module _ (max k u : ℕ) (s : Slots) (b a : List Request) where
  abbrev standing : Slots → Phase → State
  standing t p = record { slots = t; requests = b ++ at u p ∷ a }

  waiting-Counted :
      Sound max k (standing s waiting)
      → Counted k (1 + count (of_user u) (b ++ a)) (count (past_user u) (b ++ a)) (s.users u)
  waiting-Counted h = rw (of_mine u waiting b a, past_waiting u b a) at (h.users u)

  beyond-Counted :
      (p : Phase)
      → is_waiting p ≡ false
      → Sound max k (standing s p)
      → Counted k (1 + count (of_user u) (b ++ a)) (1 + count (past_user u) (b ++ a)) (s.users u)
  beyond-Counted p e h = rw (of_mine u p b a, past_beyond u p b a e) at (h.users u)

  give_up-Sound :
      Sound max k (standing s waiting)
      → Sound max k (record { slots = leave u s; requests = b ++ a })
  unfolding leave
  give_up-Sound h =
      change-Sound max k u s s.free (left (s.users u)) (b ++ at u waiting ∷ a) (b ++ a) h
        (let process = rw (holds_mine u waiting b a) at h.process in omega arith)
        (left-Counted k (count (of_user u) (b ++ a)) (count (past_user u) (b ++ a)) (s.users u)
          (past_le u (b ++ a)) (waiting-Counted h))
        (λ v e. dropped u v waiting b a e)

  admit-Sound :
      (t : Slots)
      → acquire_user u s ≡ some t
      → Sound max k (standing s waiting)
      → Sound max k (standing t admitted)
  unfolding acquire_user
  admit-Sound t e h = elim (Option-cases (s.users u)) [
    | inl n ↦ cc (rw (acquire_user, n) at e)
    | inr (slot, n) ↦ elim (Option-cases (taken slot)) [
      | inl m ↦ cc (rw (acquire_user, n, m) at e)
      | inr (slot', m) ↦
          subst (λ t. Sound max k (standing t admitted)) (some_inv (rw (acquire_user, n, m) at e))
            (change-Sound max k u s s.free (some slot') (b ++ at u waiting ∷ a)
              (b ++ at u admitted ∷ a) h
              (let process = rw (holds_mine u waiting b a) at h.process in
                rw (holds_mine u admitted b a) process)
              (rw (of_mine u admitted b a, past_beyond u admitted b a refl)
                (taken-Counted k (1 + count (of_user u) (b ++ a)) (count (past_user u) (b ++ a))
                  slot slot' m (rw n at (waiting-Counted h))))
              (λ v e. swapped u v admitted waiting b a e))
    ]
  ]

  back-Sound : Sound max k (standing s admitted) → Sound max k (standing (release_user u s) waiting)
  unfolding release_user
  back-Sound h =
      change-Sound max k u s s.free (given_back (s.users u)) (b ++ at u admitted ∷ a)
        (b ++ at u waiting ∷ a) h
        (let process = rw (holds_mine u admitted b a) at h.process in
          rw (holds_mine u waiting b a) process)
        (rw (of_mine u waiting b a, past_waiting u b a)
          (back-Counted k (1 + count (of_user u) (b ++ a)) (count (past_user u) (b ++ a))
            (s.users u) (beyond-Counted admitted refl h)))
        (λ v e. swapped u v waiting admitted b a e)

  hold-Sound :
      (t : Slots)
      → acquire_free s ≡ some t
      → Sound max k (standing s admitted)
      → Sound max k (standing t holding)
  unfolding acquire_free
  hold-Sound t e h = elim (Bool-cases (s.free == 0)) [
    | inl n ↦ cc (rw (acquire_free, n) at e)
    | inr n ↦
        subst (λ t. Sound max k (standing t holding)) (some_inv (rw (acquire_free, n) at e))
          (record {
            process =
                let process = rw (holds_mine u admitted b a) at h.process in
                rw (holds_mine u holding b a) (ground arith);
            users = λ v. rw ((beyond_swapped u v b a).0, (beyond_swapped u v b a).1) (h.users v);
          })
  ]

  free-Sound :
      Sound max k (standing s holding)
      → Sound max k (standing (record s { free = s.free + 1 }) admitted)
  free-Sound h = record {
    process =
        let process = rw (holds_mine u holding b a) at h.process in
        rw (holds_mine u admitted b a) (omega arith);
    users = λ v. rw (sym (beyond_swapped u v b a).0, sym (beyond_swapped u v b a).1) (h.users v);
  }

arrive-Sound :
    (max k u : ℕ) (s : Slots) (rs : List Request)
    → Sound max k (record { slots = s; requests = rs })
    → Sound max k (record { slots = enter max k u s; requests = at u waiting ∷ rs })
unfolding enter count
arrive-Sound max k u s rs h =
    change-Sound max k u s s.free
      (some (record (slot_of max k (s.users u)) {
        requests = (slot_of max k (s.users u)).requests + 1;
      }))
      rs (at u waiting ∷ rs) h (let process = h.process in omega arith)
      (rw (of_mine u waiting [] rs, past_waiting u [] rs)
        (enter-Counted max k (count (of_user u) rs) (count (past_user u) rs) (s.users u)
          (past_le u rs) (h.users u)))
      (λ v e. let (p, q) = dropped u v waiting [] rs e in (sym p, sym q))

Step-Sound : (max k : ℕ) {s t : State} → Step max k s t → Sound max k s → Sound max k t
unfolding release
Step-Sound max k (arrive u s rs) h = arrive-Sound max k u s rs h
Step-Sound max k (admit u s t b a e) h = admit-Sound max k u s b a t e h
Step-Sound max k (hold u s t b a e) h = hold-Sound max k u s b a t e h
Step-Sound max k (give_up u s b a) h = give_up-Sound max k u s b a h
Step-Sound max k (fall_back u s b a) h =
    give_up-Sound max k u (release_user u s) b a (back-Sound max k u s b a h)
Step-Sound max k (finish u s b a) h =
    let freed = record s { free = s.free + 1 } in
    give_up-Sound max k u (release_user u freed) b a
      (back-Sound max k u freed b a (free-Sound max k u s b a h))

pub idle-Sound : (max k : ℕ) → Sound max k (idle max k)
unfolding count
idle-Sound max k = record { process = omega arith; users = λ u. refl }

pub Steps-Sound : (max k : ℕ) {s t : State} → Steps max k s t → Sound max k s → Sound max k t
Steps-Sound max k done h = h
Steps-Sound max k (then_step before one) h = Step-Sound max k one (Steps-Sound max k before h)
