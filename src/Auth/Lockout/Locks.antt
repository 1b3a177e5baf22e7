-- ===== src/Auth/Lockout/Locks.antt =====
-- When the in-memory counter locks an identifier, and for how long.
use eap.Prelude.{ℕ, ◌+◌, ◌<◌, ◌≤◌, ◌≡◌, String, true, false, none, some, arith, str_eq}
use text.Mathlib.TextPositions.{eq_refl}
use eap.Auth.Lockout.{Attempts, sweep, is_locked, count_failure, record_failure}

-- an entry whose window is still open survives a sweep
sweep-failures :
    (now : ℕ) (i : String) (n expiry : ℕ) (s : Attempts)
    → s.failures i ≡ some (record { failures = n; expiry = expiry })
    → now < expiry
    → (sweep now s).failures i ≡ some (record { failures = n; expiry = expiry })
unfolding sweep
sweep-failures now i n expiry s h live = ground arith

-- a failure inside the open window of `n` earlier ones, when that makes fewer than five
next_failure :
    (now : ℕ) (i : String) (n expiry : ℕ) (s : Attempts)
    → s.failures i ≡ some (record { failures = n; expiry = expiry })
    → now < expiry
    → n < 4
    → (record_failure now i s).failures i ≡ some (record { failures = n + 1; expiry = now + 900 })
unfolding record_failure count_failure
next_failure now i n expiry s h live few =
    ground (arith, sweep-failures now i n expiry s, eq_refl i)

first_failure :
    (now : ℕ) (i : String) (s : Attempts)
    → s.failures i ≡ none
    → (record_failure now i s).failures i ≡ some (record { failures = 1; expiry = now + 900 })
unfolding record_failure count_failure sweep
first_failure now i s h = ground (arith, eq_refl i)

fifth_failure :
    (now : ℕ) (i : String) (expiry : ℕ) (s : Attempts)
    → s.failures i ≡ some (record { failures = 4; expiry = expiry })
    → now < expiry
    → (record_failure now i s).locks i ≡ some (now + 900)
unfolding record_failure count_failure
fifth_failure now i expiry s h live = ground (arith, sweep-failures now i 4 expiry s, eq_refl i)

lock_holds :
    (now : ℕ) (i : String) (expiry : ℕ) (s : Attempts)
    → s.locks i ≡ some expiry
    → now < expiry
    → (is_locked now i s).0 ≡ true
unfolding is_locked
lock_holds now i expiry s h live = ground arith

-- Five failures, each less than 900 seconds after the one before, lock an identifier that had no
-- count: it is answered as locked at every instant less than 900 seconds after the fifth.
pub five_failures_lock :
    (i : String) (s : Attempts) (t1 t2 t3 t4 t5 now : ℕ)
    → s.failures i ≡ none
    → t2 < t1 + 900
    → t3 < t2 + 900
    → t4 < t3 + 900
    → t5 < t4 + 900
    → now < t5 + 900
    → (is_locked now i (
        record_failure t5 i (
          record_failure t4 i
            (record_failure t3 i (record_failure t2 i (record_failure t1 i s)))))).0
      ≡ true
five_failures_lock i s t1 t2 t3 t4 t5 now h h2 h3 h4 h5 k =
    let s1 = record_failure t1 i s in
    let s2 = record_failure t2 i s1 in
    let s3 = record_failure t3 i s2 in
    let s4 = record_failure t4 i s3 in
    let e1 : s1.failures i ≡ some (record { failures = 1; expiry = t1 + 900 }) =
      first_failure t1 i s h in
    let e2 : s2.failures i ≡ some (record { failures = 2; expiry = t2 + 900 }) =
      next_failure t2 i 1 (t1 + 900) s1 e1 h2 (omega arith) in
    let e3 : s3.failures i ≡ some (record { failures = 3; expiry = t3 + 900 }) =
      next_failure t3 i 2 (t2 + 900) s2 e2 h3 (omega arith) in
    let e4 : s4.failures i ≡ some (record { failures = 4; expiry = t4 + 900 }) =
      next_failure t4 i 3 (t3 + 900) s3 e3 h4 (omega arith) in
    lock_holds now i (t5 + 900) (record_failure t5 i s4) (fifth_failure t5 i (t4 + 900) s4 e4 h5) k

-- The answer for one identifier does not depend on the failures of another: a failure counted for
-- `i` leaves what `is_locked` answers for `j` at any later instant as it was.
pub is_locked-record_failure :
    (i j : String) (t now : ℕ) (s : Attempts)
    → str_eq i j ≡ false
    → t ≤ now
    → (is_locked now j (record_failure t i s)).0 ≡ (is_locked now j s).0
unfolding is_locked record_failure count_failure sweep
is_locked-record_failure i j t now s h k = ground arith
