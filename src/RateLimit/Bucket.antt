-- ===== src/RateLimit/Bucket.antt =====
-- `InMemoryTokenBucket` of apps/backend/app/rate_limit.py. Instants are microseconds of the monotonic
-- clock. A rule refills `refill` tokens in `period` microseconds, and amounts of tokens are counted
-- in parts of which `period` make one token, so that what the source computes with floating-point
-- numbers is exact here: the model does not show what rounding adds or takes at the instant when a
-- token is just refilled.
use eap.Prelude.{
  ℕ, ◌+◌, ◌-◌, ◌*◌, String, Bool, true, false, not, Option, none, some, ltb, leb, if◌then◌else◌,
}
use eap.Prelude.Map.{Map, empty, put, retain}

-- the capacity and the refill rate of a bucket
pub record Limit : Type 0 where
  pub capacity : ℕ
  pub refill : ℕ
  pub period : ℕ

-- a full bucket
abbrev pub full : Limit → ℕ
full l = l.capacity * l.period

-- `(tokens, last_refill_monotonic, idle_seconds)`; the idle time is `full l / l.refill`, which is
-- infinite for a bucket that is never refilled
pub record Entry : Type 0 where
  pub tokens : ℕ
  pub last : ℕ
  pub limit : Limit

pub record Buckets : Type 0 where
  pub entries : Map Entry
  pub last_sweep : ℕ

abbrev pub opened : Buckets
opened = record { entries = empty; last_sweep = 0 }

-- `_SWEEP_INTERVAL_SECONDS`
abbrev pub sweep_interval : ℕ
sweep_interval = 60 * 1000000

-- `now - last > idle_seconds`
abbrev pub is_idle : ℕ → Entry → Bool
is_idle now e = ltb (full e.limit) ((now - e.last) * e.limit.refill)

-- `_sweep`
unfoldable pub sweep : ℕ → Buckets → Buckets
sweep now b =
    if ltb (now - b.last_sweep) sweep_interval
    then b
    else record { entries = retain (λ e. not (is_idle now e)) b.entries; last_sweep = now }

abbrev pub min : ℕ → ℕ → ℕ
min a b = if leb a b then a else b

-- what the bucket holds after `elapsed` more
abbrev pub refilled : (l : Limit) (tokens elapsed : ℕ) → ℕ
refilled l tokens elapsed = min (full l) (tokens + elapsed * l.refill)

abbrev stored : (l : Limit) (key : String) (tokens now : ℕ) → Buckets → Buckets
stored l key tokens now b = record b {
  entries = put key (record { tokens = tokens; last = now; limit = l }) b.entries;
}

abbrev pub take_one : (l : Limit) (key : String) (now tokens : ℕ) → Buckets → Bool × Buckets
take_one l key now tokens b =
    if ltb tokens l.period
    then (false, stored l key tokens now b)
    else (true, stored l key (tokens - l.period) now b)

abbrev pub serve : (l : Limit) (key : String) (now : ℕ) → Option Entry → Buckets → Bool × Buckets
serve l key now none b = (true, stored l key (full l - l.period) now b)
serve l key now (some e) b = take_one l key now (refilled l e.tokens (now - e.last)) b

-- `acquire`
unfoldable pub acquire : (l : Limit) (key : String) (now : ℕ) → Buckets → Bool × Buckets
unfolding sweep
acquire l key now b = let swept = sweep now b in serve l key now (swept.entries key) swept
