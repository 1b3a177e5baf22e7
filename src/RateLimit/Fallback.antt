-- ===== src/RateLimit/Fallback.antt =====
-- `RedisTokenBucket` of apps/backend/app/rate_limit.py: the shared bucket in Redis, and the bucket of
-- the process while Redis is out of reach. What the script in Redis answers is an argument; `none` is
-- a `RedisError`.
use eap.Prelude.{
  ℕ, ◌-◌, ◌*◌, ◌≡◌, refl, String, Bool, true, false, ◌&&◌, Option, none, some, ltb, if◌then◌else◌,
}
use eap.RateLimit.Bucket.{Limit, Buckets, opened, sweep, acquire}

pub record Limiter : Type 0 where
  pub fallback : Buckets
  pub unavailable : Bool
  pub failed_at : ℕ

abbrev pub connected : Limiter
connected = record { fallback = opened; unavailable = false; failed_at = 0 }

-- `RECOVERY_RETRY_SECONDS`
abbrev pub recovery_retry : ℕ
recovery_retry = 30 * 1000000

-- the instants at which a request reads the clock: before it asks Redis, when Redis has failed, and in
-- the fallback
pub record Clock : Type 0 where
  pub asked : ℕ
  pub failed : ℕ
  pub fell_back : ℕ

abbrev fall_back : Limit → String → ℕ → Limiter → Bool × Limiter
fall_back l key now s =
    let answer = acquire l key now s.fallback in (answer.0, record s { fallback = answer.1 })

unfoldable pub acquire_shared :
    Limit → (key : String) → Clock → (reply : Option Bool) → Limiter → Bool × Limiter
unfolding acquire
acquire_shared l key c reply s =
    if s.unavailable && ltb (c.asked - s.failed_at) recovery_retry
    then fall_back l key c.fell_back s
    else elim reply [
      | none ↦ fall_back l key c.fell_back (record s { unavailable = true; failed_at = c.failed })
      | some granted ↦ (granted, record s { unavailable = false; failed_at = 0 })
    ]

abbrev one : Limit
one = record { capacity = 1; refill = 1; period = 1000000 }

abbrev at_once : Clock
at_once = record { asked = 5; failed = 5; fell_back = 5 }

-- Redis fails, and is not asked again at once
test_cooldown :
    (acquire_shared one "ann" at_once
      (some true)
      (acquire_shared one "ann" at_once none connected).1).0
    ≡ false
unfolding acquire_shared acquire sweep
test_cooldown = refl
