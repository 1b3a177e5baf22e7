-- ===== src/Task/Lease.antt =====
-- `ExecutionLease` of apps/backend/app/services/task_lease.py on one key of the store, which is the key
-- of one dispatch record. The two scripts run as one step in the store; instants are seconds, and a
-- key is gone once its time to live has passed. A call that fails with a `RedisError` leaves the key.
pub mod Exclusive
use eap.Prelude.{
  ℕ, ◌+◌, ◌≡◌, refl, Bool, true, false, ◌==◌, ltb, if◌then◌else◌, Option, none, some, List, [], ◌∷◌,
}

-- the value of the key, and the instant at which it expires
pub record Held : Type 0 where
  pub token : ℕ
  pub expiry : ℕ

abbrev pub alive : (now : ℕ) → Option Held → Option Held
alive now none = none
alive now (some h) = if ltb now h.expiry then some h else none

abbrev pub set_if_free : (token expiry : ℕ) → Option Held → Bool × Option Held
set_if_free token expiry none = (true, some (record { token = token; expiry = expiry }))
set_if_free token expiry (some h) = (false, some h)

-- `acquire`: `SET key token NX EX ttl`
unfoldable pub acquire : (token ttl now : ℕ) → Option Held → Bool × Option Held
acquire token ttl now key = set_if_free token (now + ttl) (alive now key)

abbrev pub extend : (token expiry : ℕ) → Option Held → Bool × Option Held
extend token expiry none = (false, none)
extend token expiry (some h) =
    if h.token == token then (true, some (record h { expiry = expiry })) else (false, some h)

-- `renew`, by `_RENEW_SCRIPT`
unfoldable pub renew : (token ttl now : ℕ) → Option Held → Bool × Option Held
renew token ttl now key = extend token (now + ttl) (alive now key)

abbrev drop : (token : ℕ) → Option Held → Option Held
drop token none = none
drop token (some h) = if h.token == token then none else some h

-- `release`, by `_RELEASE_SCRIPT`
unfoldable pub release : (token now : ℕ) → Option Held → Option Held
release token now key = drop token (alive now key)

-- what a worker does to the key
pub data Call : Type 0 where
  acquiring renewing releasing : Call

-- a call with the worker's token and the instant at which the store runs it
pub record Request : Type 0 where
  pub call : Call
  pub token : ℕ
  pub now : ℕ

-- whether the worker has the lease afterwards, as far as the call tells, and the key
unfoldable pub perform : (ttl : ℕ) → Call → (token now : ℕ) → Option Held → Bool × Option Held
unfolding acquire renew release
perform ttl acquiring token now key = acquire token ttl now key
perform ttl renewing token now key = renew token ttl now key
perform ttl releasing token now key = (false, release token now key)

-- the answers to calls, and the key after them
unfoldable pub perform_all : (ttl : ℕ) → List Request → Option Held → List Bool × Option Held
unfolding perform
perform_all ttl [] key = ([], key)
perform_all ttl (r ∷ rs) key =
    let (answer, after) = perform ttl r.call r.token r.now key in
    let (answers, last) = perform_all ttl rs after in (answer ∷ answers, last)
