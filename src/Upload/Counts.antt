-- ===== src/Upload/Counts.antt =====
-- The entries of `UploadSlots` of apps/backend/app/uploads.py against the requests in flight.
use eap.Prelude.{
  ℕ, ◌+◌, ◌-◌, ◌≤◌, ◌≡◌, refl, subst, Bool, true, false, ◌&&◌, not, ◌==◌, if◌then◌else◌, Option,
  none, some, List, [], ◌∷◌, ◌++◌, arith, ==_refl, Bool-cases, some_inv, inl, inr,
}
use eap.Prelude.Table.{count}
use eap.Prelude.Query.{count-append}
use eap.Upload.Slots.{
  UserSlot, Slots, set_user, slot_of, taken, given_back, left, Phase, waiting, admitted, holding,
  Request, State, at,
}

abbrev pub is_waiting : Phase → Bool
is_waiting waiting = true
is_waiting p = false

abbrev pub is_holding : Phase → Bool
is_holding holding = true
is_holding p = false

abbrev pub holds : Request → Bool
holds r = is_holding r.phase

abbrev pub of_user : ℕ → Request → Bool
of_user u r = r.user == u

abbrev pub past_user : ℕ → Request → Bool
past_user u r = r.user == u && not (is_waiting r.phase)

-- what the dictionary has of a user, against the requests of the user and those that have its permit
abbrev pub Counted : (per_user all past : ℕ) → Option UserSlot → Type 0
Counted per_user all past none = all ≡ 0
Counted per_user all past (some slot) =
    (slot.requests ≡ all) × (1 ≤ all) × (slot.permits + past ≡ per_user)

pub record Sound (max_slots per_user : ℕ) (s : State) : Type 0 where
  pub process : s.slots.free + count holds s.requests ≡ max_slots
  pub users :
      (u : ℕ)
      → Counted per_user
          (count (of_user u) s.requests)
          (count (past_user u) s.requests)
          (s.slots.users u)

pub past_le : (u : ℕ) (rs : List Request) → count (past_user u) rs ≤ count (of_user u) rs
unfolding count
past_le u [] = omega arith
past_le u (r ∷ rs) = let rest = past_le u rs in ground arith

pub count-at :
    (p : Request → Bool) (b : List Request) (r : Request) (a : List Request)
    → count p (b ++ r ∷ a) ≡ count p b + ((if p r then 1 else 0) + count p a)
unfolding count
count-at p b r a = count-append p b (r ∷ a)

pub enter-Counted :
    (m k all past : ℕ) (o : Option UserSlot)
    → past ≤ all
    → Counted k all past o
    → Counted k
        (1 + all)
        past
        (some (record (slot_of m k o) { requests = (slot_of m k o).requests + 1 }))
enter-Counted m k all past none w h = (omega arith, omega arith, omega arith)
enter-Counted m k all past (some slot) w h = (omega (arith, h.0), omega arith, h.2)

pub left-Counted :
    (k all past : ℕ) (o : Option UserSlot)
    → past ≤ all
    → Counted k (1 + all) past o
    → Counted k all past (left o)
left-Counted k all past none w h = absurd (omega arith)
left-Counted k all past (some slot) w h = elim (Bool-cases (slot.requests - 1 == 0)) [
  | inl e ↦ rw e (let r = h.0 in ground arith)
  | inr e ↦ rw e (let r = h.0 in (omega arith, ground arith, h.2))
]

pub back-Counted :
    (k all past : ℕ) (o : Option UserSlot)
    → Counted k all (1 + past) o
    → Counted k all past (given_back o)
back-Counted k all past none h = h
back-Counted k all past (some slot) h = (h.0, h.1, let p = h.2 in omega arith)

pub taken-Counted :
    (k all past : ℕ) (slot slot' : UserSlot)
    → taken slot ≡ some slot'
    → Counted k all past (some slot)
    → Counted k all (1 + past) (some slot')
taken-Counted k all past slot slot' e h = elim (Bool-cases (slot.permits == 0)) [
  | inl b ↦ cc (rw b at e)
  | inr b ↦
      subst (λ x. Counted k all (1 + past) (some x)) (some_inv (rw b at e))
        (h.0, h.1, let p = h.2 in ground arith)
]

-- A change of one user's entry and requests.
module _ (max k u : ℕ) (s : Slots) (free : ℕ) (o : Option UserSlot) (rs rs' : List Request) where
  pub change-Sound :
      Sound max k (record { slots = s; requests = rs })
      → free + count holds rs' ≡ max
      → Counted k (count (of_user u) rs') (count (past_user u) rs') o
      → ((v : ℕ)
          → (u == v) ≡ false
          → (count (of_user v) rs' ≡ count (of_user v) rs)
            × (count (past_user v) rs' ≡ count (past_user v) rs))
      → Sound max k (record { slots = set_user u o (record s { free = free }); requests = rs' })
  change-Sound h process own others = record {
    process = process;
    users = λ v. elim (Bool-cases (u == v)) [
      | inl e ↦
          let same : u ≡ v = ground arith in
          rw e (subst (λ v. Counted k (count (of_user v) rs') (count (past_user v) rs') o) same own)
      | inr e ↦ rw (e, (others v e).0, (others v e).1) (h.users v)
    ];
  }

pub swapped :
    (u v : ℕ) (p q : Phase) (b a : List Request)
    → (u == v) ≡ false
    → (count (of_user v) (b ++ at u p ∷ a) ≡ count (of_user v) (b ++ at u q ∷ a))
      × (count (past_user v) (b ++ at u p ∷ a) ≡ count (past_user v) (b ++ at u q ∷ a))
swapped u v p q b a e =
    rw
      (
        count-at (of_user v) b (at u p) a,
        count-at (of_user v) b (at u q) a,
        count-at (past_user v) b (at u p) a,
        count-at (past_user v) b (at u q) a,
        e,
      )
      (refl, refl)

pub dropped :
    (u v : ℕ) (p : Phase) (b a : List Request)
    → (u == v) ≡ false
    → (count (of_user v) (b ++ a) ≡ count (of_user v) (b ++ at u p ∷ a))
      × (count (past_user v) (b ++ a) ≡ count (past_user v) (b ++ at u p ∷ a))
dropped u v p b a e =
    rw
      (
        count-at (of_user v) b (at u p) a,
        count-at (past_user v) b (at u p) a,
        count-append (of_user v) b a,
        count-append (past_user v) b a,
        e,
      )
      (omega arith, omega arith)

pub of_mine :
    (u : ℕ) (p : Phase) (b a : List Request)
    → count (of_user u) (b ++ at u p ∷ a) ≡ 1 + count (of_user u) (b ++ a)
of_mine u p b a =
    rw (count-at (of_user u) b (at u p) a, count-append (of_user u) b a, ==_refl u) (omega arith)

pub past_waiting :
    (u : ℕ) (b a : List Request)
    → count (past_user u) (b ++ at u waiting ∷ a) ≡ count (past_user u) (b ++ a)
past_waiting u b a =
    rw (count-at (past_user u) b (at u waiting) a, count-append (past_user u) b a, ==_refl u)
      (omega arith)

pub past_beyond :
    (u : ℕ) (p : Phase) (b a : List Request)
    → is_waiting p ≡ false
    → count (past_user u) (b ++ at u p ∷ a) ≡ 1 + count (past_user u) (b ++ a)
past_beyond u p b a e =
    rw (count-at (past_user u) b (at u p) a, count-append (past_user u) b a, ==_refl u, e)
      (omega arith)

pub holds_mine :
    (u : ℕ) (p : Phase) (b a : List Request)
    → count holds (b ++ at u p ∷ a) ≡ (if is_holding p then 1 else 0) + count holds (b ++ a)
holds_mine u p b a = rw (count-at holds b (at u p) a, count-append holds b a) (omega arith)

pub beyond_swapped :
    (u v : ℕ) (b a : List Request)
    → (count (of_user v) (b ++ at u holding ∷ a) ≡ count (of_user v) (b ++ at u admitted ∷ a))
      × (count (past_user v) (b ++ at u holding ∷ a) ≡ count (past_user v) (b ++ at u admitted ∷ a))
beyond_swapped u v b a =
    rw
      (
        count-at (of_user v) b (at u holding) a,
        count-at (of_user v) b (at u admitted) a,
        count-at (past_user v) b (at u holding) a,
        count-at (past_user v) b (at u admitted) a,
      )
      (refl, refl)
