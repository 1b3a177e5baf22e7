-- ===== src/Tool/Examples.antt =====
-- The theorems about the tool proxy at concrete inputs.
use eap.Prelude.{
  ℕ, zero, suc, ◌≡◌, refl, true, false, List, [], ◌∷◌, arith, str_eq, Bool-cases, inl, inr,
}
use eap.Prelude.Map.{empty, put}
use eap.Errors.{err, app_error, tool_not_configured}
use eap.Json.{Json, null}
use eap.Tool.Proxy.{Breaker, circuit_open, answered, aborted, Request, calls, execute}
use eap.Tool.Proxy.Calls.{Stopped, calls-Stopped}
use eap.Tool.Proxy.Tally.{Ending, good, bad}
use eap.Tool.Proxy.Breakers.{Sound, AllSound, aborted_trial_locks_out}

abbrev same_body : Json → Json
same_body j = j

-- one bad gateway, then an answer
abbrev flaky : ℕ → Request
flaky zero = record { reply = answered 503 null; duration_ms = 400 }
flaky (suc k) = record { reply = answered 200 null; duration_ms = 300 }

flaky_attempts : (calls 1000 2 0 flaky).attempts ≡ 2
unfolding calls
flaky_attempts = refl

calls-Stopped_example : Stopped 2 0 flaky (calls 1000 2 0 flaky)
calls-Stopped_example = calls-Stopped 1000 2 0 flaky

abbrev tripped : Breaker
tripped = record { failures = 5; opened_at = 100; is_open = true; half_open = false }

abbrev on_trial : Breaker
on_trial = record { failures = 5; opened_at = 100; is_open = true; half_open = true }

put-Sound : (b : Breaker) → Sound b → AllSound (put "mail" b empty)
put-Sound b s j = elim (Bool-cases (str_eq "mail" j)) [ inl e ↦ rw e s | inr e ↦ rw e tt ]

tripped-AllSound : AllSound (put "mail" tripped empty)
tripped-AllSound = put-Sound tripped (record { open_iff = refl; half_open_only = λ h. refl })

trial-AllSound : AllSound (put "mail" on_trial empty)
trial-AllSound = put-Sound on_trial (record { open_iff = refl; half_open_only = λ h. refl })

-- five calls of the tool ended badly, after a good one
abbrev history : List Ending
history =
    bad "mail" ∷ bad "mail" ∷ bad "mail" ∷ bad "mail" ∷ bad "mail" ∷ good "mail" ∷ bad "mail" ∷ []

abbrev no_endpoint : ℕ → Request
no_endpoint k = record { reply = aborted (app_error 422 tool_not_configured); duration_ms = 0 }

aborted_trial_locks_out_example :
    execute same_body 9999 9999 "mail" 2 1000 flaky
      (λ cs. cs)
      (execute same_body 170 171 "mail" 2 1000 no_endpoint (λ cs. cs) (put "mail" tripped empty)).1
    ≡ (
      err circuit_open,
      (execute same_body 170 171 "mail" 2 1000 no_endpoint (λ cs. cs) (put "mail" tripped empty)).1,
    )
aborted_trial_locks_out_example =
    aborted_trial_locks_out same_body 170 171 9999 9999 "mail" 2 1000 2 1000 no_endpoint flaky
      (λ cs. cs) (put "mail" tripped empty)
      (execute same_body 170 171 "mail" 2 1000 no_endpoint (λ cs. cs) (put "mail" tripped empty)).1
      tripped (app_error 422 tool_not_configured) tripped-AllSound refl refl refl (omega arith) refl
      refl
