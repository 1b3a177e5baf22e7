-- ===== src/Upload/Slots.antt =====
-- `UploadSlots` of apps/backend/app/uploads.py. A semaphore is the number of its free permits; a request
-- that finds none waits, and the interleavings of the requests are the steps of a relation. The two
-- limits are the constructor's arguments.
use eap.Prelude.{ℕ, ◌+◌, ◌-◌, ◌≡◌, ◌==◌, if◌then◌else◌, Option, none, some, List, [], ◌∷◌, ◌++◌}

-- `_UserSlot`: the free permits of a user, and the requests that hold or await one
pub record UserSlot : Type 0 where
  pub permits : ℕ
  pub requests : ℕ

pub record Slots : Type 0 where
  pub free : ℕ
  pub users : ℕ → Option UserSlot

-- the dictionary with one key written or deleted
abbrev pub set_user : ℕ → Option UserSlot → Slots → Slots
set_user u slot s = record s { users = λ v. if u == v then slot else s.users v }

module _ (max_slots per_user_slots : ℕ) where
  abbrev pub created : Slots
  created = record { free = max_slots; users = λ u. none }

  abbrev pub slot_of : Option UserSlot → UserSlot
  slot_of none = record { permits = per_user_slots; requests = 0 }
  slot_of (some slot) = slot

  -- the start of `_acquire`
  unfoldable pub enter : ℕ → Slots → Slots
  enter u s =
      let slot = slot_of (s.users u) in
      set_user u (some (record slot { requests = slot.requests + 1 })) s

-- a permit of the user's semaphore, if one is free
abbrev pub taken : UserSlot → Option UserSlot
taken slot = if slot.permits == 0 then none else some (record slot { permits = slot.permits - 1 })

abbrev pub stored : ℕ → Slots → Option UserSlot → Option Slots
stored u s none = none
stored u s (some slot) = some (set_user u (some slot) s)

abbrev pub take_permit : ℕ → Slots → Option UserSlot → Option Slots
take_permit u s none = none
take_permit u s (some slot) = stored u s (taken slot)

-- `slot.semaphore.acquire()`; `none` is a request that waits
unfoldable pub acquire_user : ℕ → Slots → Option Slots
acquire_user u s = take_permit u s (s.users u)

-- `self._free.acquire()`
unfoldable pub acquire_free : Slots → Option Slots
acquire_free s = if s.free == 0 then none else some (record s { free = s.free - 1 })

abbrev pub given_back : Option UserSlot → Option UserSlot
given_back none = none
given_back (some slot) = some (record slot { permits = slot.permits + 1 })

-- `slot.semaphore.release()`
unfoldable pub release_user : ℕ → Slots → Slots
release_user u s = set_user u (given_back (s.users u)) s

abbrev pub left : Option UserSlot → Option UserSlot
left none = none
left (some slot) =
    if slot.requests - 1 == 0 then none else some (record slot { requests = slot.requests - 1 })

-- `_leave`
unfoldable pub leave : ℕ → Slots → Slots
leave u s = set_user u (left (s.users u)) s

-- `_release`
unfoldable pub release : ℕ → Slots → Slots
unfolding leave release_user
release u s = leave u (release_user u (record s { free = s.free + 1 }))

-- where a request stands: it waits for its user's permit, or for one of the process, or holds both
pub data Phase : Type 0 where
  waiting admitted holding : Phase

pub record Request : Type 0 where
  pub user : ℕ
  pub phase : Phase

pub record State : Type 0 where
  pub slots : Slots
  pub requests : List Request

abbrev pub at : ℕ → Phase → Request
at u p = record { user = u; phase = p }

-- One step of one of the requests. A waiting request gives up at its deadline or when it is cancelled.
pub data Step (max_slots per_user_slots : ℕ) : State → State → Type 0 where
  arrive :
      (u : ℕ) (s : Slots) (rs : List Request)
      → Step max_slots per_user_slots
          (record { slots = s; requests = rs })
          (record { slots = enter max_slots per_user_slots u s; requests = at u waiting ∷ rs })
  admit :
      (u : ℕ) (s s' : Slots) (before after : List Request)
      → acquire_user u s ≡ some s'
      → Step max_slots per_user_slots
          (record { slots = s; requests = before ++ at u waiting ∷ after })
          (record { slots = s'; requests = before ++ at u admitted ∷ after })
  hold :
      (u : ℕ) (s s' : Slots) (before after : List Request)
      → acquire_free s ≡ some s'
      → Step max_slots per_user_slots
          (record { slots = s; requests = before ++ at u admitted ∷ after })
          (record { slots = s'; requests = before ++ at u holding ∷ after })
  give_up :
      (u : ℕ) (s : Slots) (before after : List Request)
      → Step max_slots per_user_slots
          (record { slots = s; requests = before ++ at u waiting ∷ after })
          (record { slots = leave u s; requests = before ++ after })
  fall_back :
      (u : ℕ) (s : Slots) (before after : List Request)
      → Step max_slots per_user_slots
          (record { slots = s; requests = before ++ at u admitted ∷ after })
          (record { slots = leave u (release_user u s); requests = before ++ after })
  finish :
      (u : ℕ) (s : Slots) (before after : List Request)
      → Step max_slots per_user_slots
          (record { slots = s; requests = before ++ at u holding ∷ after })
          (record { slots = release u s; requests = before ++ after })

-- several steps
pub data Steps (max_slots per_user_slots : ℕ) : State → State → Type 0 where
  done : {s : State} → Steps max_slots per_user_slots s s
  then_step :
      {s t u : State}
      → Steps max_slots per_user_slots s t
      → Step max_slots per_user_slots t u
      → Steps max_slots per_user_slots s u

abbrev pub idle : ℕ → ℕ → State
idle max_slots per_user_slots = record { slots = created max_slots per_user_slots; requests = [] }
