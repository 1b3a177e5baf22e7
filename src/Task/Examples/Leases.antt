-- ===== src/Task/Examples/Leases.antt =====
-- A lease of sixty seconds that one worker holds and another asks for.
use eap.Prelude.{◌≡◌, refl, true, false, none, List, [], ◌∷◌, map, arith}
use eap.Task.Lease.{acquire, renew, acquiring, releasing, Request, perform, perform_all}
use eap.Task.Lease.Exclusive.{lease_exclusive}

abbrev other_calls : List Request
other_calls =
    record { call = acquiring; token = 2; now = 120 }
    ∷ record { call = releasing; token = 2; now = 150 }
    ∷ []

free_key : (perform 60 acquiring 1 100 none).0 ≡ true
unfolding perform acquire
free_key = refl

lease_exclusive_example :
    ((perform_all 60 other_calls (perform 60 acquiring 1 100 none).1).0
      ≡ map (λ r. false) other_calls)
    × ((renew 1 60 159 (perform_all 60 other_calls (perform 60 acquiring 1 100 none).1).1).0 ≡ true)
lease_exclusive_example =
    lease_exclusive 60 acquiring 1 100 none other_calls 159 free_key
      ((refl, omega arith), ((refl, omega arith), tt)) (omega arith)

-- once it has expired, the next worker takes it
test_take_over : (acquire 2 60 160 (perform 60 acquiring 1 100 none).1).0 ≡ true
unfolding acquire perform
test_take_over = refl
