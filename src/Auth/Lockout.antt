-- ===== src/Auth/Lockout.antt =====
-- The login lockout of apps/backend/app/auth/login_lockout.py: `InMemoryLoginAttempts`, and
-- `RedisLoginAttempts` around it. Instants are whole seconds. What a Redis command answers is an
-- argument of the operation that sends it; `none` is a `RedisError`.
pub mod Locks
use eap.Prelude.{
  ℕ, zero, suc, ◌+◌, String, Bool, true, false, not, ◌&&◌, Option, none, some, ltb, leb, ◌==◌,
  if◌then◌else◌,
}
use eap.Prelude.Map.{Map, empty, put, remove, retain}

-- `MAX_FAILURES` and `LOCK_SECONDS`, the defaults of the two limits
abbrev pub max_failures : ℕ
max_failures = 5

abbrev pub lock_seconds : ℕ
lock_seconds = 900

abbrev pub sweep_interval_seconds : ℕ
sweep_interval_seconds = 60

-- a failure count with the end of its window
pub record Window : Type 0 where
  pub failures : ℕ
  pub expiry : ℕ

pub record Attempts : Type 0 where
  pub failures : Map Window
  pub locks : Map ℕ
  pub last_sweep : ℕ

abbrev pub fresh : Attempts
fresh = record { failures = empty; locks = empty; last_sweep = 0 }

abbrev is_live : ℕ → ℕ → Bool
is_live now expiry = ltb now expiry

unfoldable pub sweep : ℕ → Attempts → Attempts
sweep now s = if ltb now (s.last_sweep + sweep_interval_seconds) then s else record {
  failures = retain (λ w. is_live now w.expiry) s.failures;
  locks = retain (is_live now) s.locks;
  last_sweep = now;
}

unfoldable pub is_locked : ℕ → String → Attempts → Bool × Attempts
is_locked now identifier s = elim (s.locks identifier) [
  | none ↦ (false, s)
  | some expiry ↦
      if leb expiry now then (false, record s { locks = remove identifier s.locks }) else (true, s)
]

abbrev pub failure_count : Option Window → ℕ
failure_count none = 0
failure_count (some w) = w.failures

-- the new count of the identifier, once the maps were swept
unfoldable pub count_failure : ℕ → String → ℕ → Attempts → Attempts
count_failure now identifier n s =
    if leb max_failures n
    then record s {
      failures = remove identifier s.failures;
      locks = put identifier (now + lock_seconds) s.locks;
    }
    else record s {
      failures = put identifier (record { failures = n; expiry = now + lock_seconds }) s.failures;
    }

unfoldable pub record_failure : ℕ → String → Attempts → Attempts
record_failure now identifier s =
    let swept = sweep now s in
    count_failure now identifier (failure_count (swept.failures identifier) + 1) swept

unfoldable pub clear : String → Attempts → Attempts
clear identifier s = record s {
  failures = remove identifier s.failures;
  locks = remove identifier s.locks;
}

abbrev pub recovery_retry_seconds : ℕ
recovery_retry_seconds = 30

-- `RedisLoginAttempts`: the fallback and the cooldown after a failed command
pub record Shared : Type 0 where
  pub has_redis : Bool
  pub fallback : Attempts
  pub unavailable : Bool
  pub failed_at : ℕ

unfoldable pub degraded : ℕ → Shared → Bool
degraded now s = s.unavailable && ltb now (s.failed_at + recovery_retry_seconds)

abbrev pub mark_unavailable : ℕ → Shared → Shared
mark_unavailable now s = record s { unavailable = true; failed_at = now }

abbrev pub mark_recovered : Shared → Shared
mark_recovered s = record s { unavailable = false; failed_at = 0 }

abbrev local_is_locked : ℕ → String → Shared → Bool × Shared
local_is_locked now identifier s =
    let (locked, fallback) = is_locked now identifier s.fallback in
    (locked, record s { fallback = fallback })

abbrev local_record : ℕ → String → Shared → Shared
local_record now identifier s = record s { fallback = record_failure now identifier s.fallback }

-- `reply` is whether Redis holds the lock key, and `none` if the command failed
unfoldable pub shared_is_locked : ℕ → Option Bool → String → Shared → Bool × Shared
shared_is_locked now reply identifier s =
    if not s.has_redis
    then local_is_locked now identifier s
    else if degraded now s
    then local_is_locked now identifier s
    else elim reply [
      | none ↦ local_is_locked now identifier (mark_unavailable now s)
      | some locked ↦ (locked, mark_recovered s)
    ]

-- `sent` is whether the script ran
unfoldable pub shared_record_failure : ℕ → Bool → String → Shared → Shared
shared_record_failure now sent identifier s =
    if not s.has_redis
    then local_record now identifier s
    else if degraded now s
    then local_record now identifier s
    else if sent
    then mark_recovered s
    else local_record now identifier (mark_unavailable now s)

-- the delete is tried inside the cooldown too, and the fallback is cleared in any case
unfoldable pub shared_clear : ℕ → Bool → String → Shared → Shared
shared_clear now sent identifier s =
    let told =
      if s.has_redis then (if sent then mark_recovered s else mark_unavailable now s) else s in
    record told { fallback = clear identifier s.fallback }
