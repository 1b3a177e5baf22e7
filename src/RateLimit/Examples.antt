-- ===== src/RateLimit/Examples.antt =====
-- A bucket of two tokens that refills one in a minute, and the tests.
use eap.Prelude.{ℕ, ◌+◌, ◌-◌, ◌*◌, ◌≤◌, ◌≡◌, refl, String, true, false, List, [], ◌∷◌, arith}
use eap.RateLimit.Bucket.{Limit, full, opened, sweep, acquire}
use eap.RateLimit.Levels.{Request, InOrder, answers}
use eap.RateLimit.Bounds.{run, granted_to, answers_bound}

abbrev two_a_minute : String → Limit
two_a_minute key = record { capacity = 2; refill = 1; period = 60000000 }

abbrev at_second : ℕ → Request
at_second n = record { key = "ann"; now = n * 1000000 }

-- three at once, one after half a minute, one after a minute, and one after the bucket was dropped
abbrev requests : List Request
requests =
    at_second 1 ∷ at_second 1 ∷ at_second 1 ∷ at_second 31 ∷ at_second 61 ∷ at_second 400 ∷ []

test_answers : answers two_a_minute requests opened ≡ true ∷ true ∷ false ∷ false ∷ true ∷ true ∷ []
unfolding answers acquire sweep
test_answers = refl

one_at_least : (j : String) → 1 ≤ (two_a_minute j).capacity
one_at_least j = omega arith

in_order : InOrder 0 requests
in_order =
    (omega arith, (omega arith, (omega arith, (omega arith, (omega arith, (omega arith, tt))))))

abbrev later : List Request
later = at_second 410 ∷ at_second 420 ∷ []

answers_bound_example :
    granted_to "ann" later (answers two_a_minute later (run two_a_minute requests opened))
      * (two_a_minute "ann").period
    ≤ full (two_a_minute "ann") + (430000000 - 405000000) * (two_a_minute "ann").refill
answers_bound_example =
    answers_bound two_a_minute requests later "ann" 405000000 430000000 one_at_least in_order
      (omega arith, (omega arith, (omega arith, (omega arith, (omega arith, (omega arith, tt))))))
      (omega arith, (omega arith, tt)) (omega arith, (omega arith, tt)) (omega arith)
