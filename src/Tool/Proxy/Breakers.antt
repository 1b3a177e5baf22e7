-- ===== src/Tool/Proxy/Breakers.antt =====
-- When the circuit breaker of a tool is open, and whom it admits.
use eap.Prelude.{
  ℕ, zero, suc, ◌+◌, ◌≤◌, ◌≡◌, refl, String, Bool, true, false, Option, none, some, arith, ltb, leb,
  str_eq, Bool-cases, Option-cases, inl, inr, ap, subst, sym,
}
use text.Mathlib.TextPositions.{eq_refl}
use eap.Prelude.Map.{put, remove}
use eap.Errors.{Result, Result-cases, ok, err, AppError}
use eap.Json.{Json}
use eap.Tool.Proxy.{
  Breaker, Breakers, circuit_open, guard_open, raise_if_circuit_open, or_new, failed_once,
  record_failure, record_success, aborted, Request, Verdict, succeeded, gave_up, raised, Run, calls,
  settle, execute,
}

-- A breaker is open just when five failures were counted since the last success, and only an open
-- one is half-open.
pub record Sound (b : Breaker) : Type 0 where
  pub open_iff : b.is_open ≡ leb 5 b.failures
  pub half_open_only : b.half_open ≡ true → b.is_open ≡ true

abbrev pub SoundEntry : Option Breaker → Type 0
SoundEntry none = Unit
SoundEntry (some b) = Sound b

abbrev pub AllSound : Breakers → Type 0
AllSound bs = (i : String) → SoundEntry (bs i)

put-AllSound :
    (i : String) (b : Breaker) (bs : Breakers) → Sound b → AllSound bs → AllSound (put i b bs)
put-AllSound i b bs s all j = elim (Bool-cases (str_eq i j)) [
  | inl e ↦ rw e s
  | inr e ↦ rw e (all j)
]

remove-AllSound : (i : String) (bs : Breakers) → AllSound bs → AllSound (remove i bs)
remove-AllSound i bs all j = elim (Bool-cases (str_eq i j)) [
  | inl e ↦ rw e tt
  | inr e ↦ rw e (all j)
]

failed_once-Sound : (now : ℕ) (b : Breaker) → Sound b → Sound (failed_once now b)
unfolding failed_once
failed_once-Sound now b s =
    let p = s.open_iff in
    elim (Bool-cases (leb 5 (b.failures + 1))) [
      | inl e ↦ rw (e, failed_once) record { open_iff = ground arith; half_open_only = λ h. refl }
      | inr e ↦
          rw (e, failed_once) record { open_iff = ground arith; half_open_only = λ h. ground arith }
    ]

entry-Sound : (o : Option Breaker) → SoundEntry o → Sound (or_new o)
entry-Sound none s = record { open_iff = ground arith; half_open_only = λ h. ground arith }
entry-Sound (some b) s = s

record_failure-AllSound :
    (now : ℕ) (i : String) (bs : Breakers) → AllSound bs → AllSound (record_failure now i bs)
unfolding record_failure
record_failure-AllSound now i bs all =
    put-AllSound i (failed_once now (or_new (bs i))) bs
      (failed_once-Sound now (or_new (bs i)) (entry-Sound (bs i) (all i))) all

guard_open-AllSound :
    (o : Bool) (now : ℕ) (i : String) (b : Breaker) (bs : Breakers)
    → b.is_open ≡ o
    → Sound b
    → AllSound bs
    → AllSound (guard_open o now i b bs).1
unfolding guard_open
guard_open-AllSound false now i b bs o s all = all
guard_open-AllSound true now i b bs o s all = elim (Bool-cases (ltb now (b.opened_at + 60))) [
  | inl k ↦ rw (k, guard_open) all
  | inr k ↦
      rw (k, guard_open)
        (elim (Bool-cases b.half_open) [
          | inl m ↦ rw (m, guard_open) all
          | inr m ↦
              rw (m, guard_open)
                (put-AllSound i (record b { half_open = true }) bs
                  (record { open_iff = s.open_iff; half_open_only = λ _. o }) all)
        ])
]

guard-AllSound :
    (now : ℕ) (i : String) (bs : Breakers)
    → AllSound bs
    → AllSound (raise_if_circuit_open now i bs).1
unfolding raise_if_circuit_open
guard-AllSound now i bs all = elim (Option-cases (bs i)) [
  | inl e ↦ rw (e, raise_if_circuit_open) all
  | inr (b, e) ↦
      rw (e, raise_if_circuit_open)
        (guard_open-AllSound b.is_open now i b bs refl (rw (e, SoundEntry) at (all i)) all)
]

settle-AllSound :
    (v : Verdict) (mask : Json → Json) (now : ℕ) (i : String) (run : Run) (bs : Breakers)
    → AllSound bs
    → AllSound (settle v mask now i run bs).1
unfolding settle record_success
settle-AllSound (succeeded code body) mask now i run bs all = remove-AllSound i bs all
settle-AllSound gave_up mask now i run bs all = record_failure-AllSound now i bs all
settle-AllSound (raised e) mask now i run bs all = all

-- An execution keeps every breaker sound, if the other calls meanwhile do: open just when five
-- failures of its tool were counted since the last success, and half-open only while open.
pub execute-AllSound :
    (mask : Json → Json) (now later : ℕ) (i : String) (retries base : ℕ) (requests : ℕ → Request)
    (between : Breakers → Breakers) (bs : Breakers)
    → ((cs : Breakers) → AllSound cs → AllSound (between cs))
    → AllSound bs
    → AllSound (execute mask now later i retries base requests between bs).1
unfolding execute
execute-AllSound mask now later i retries base requests between bs keeps all =
    let entered = guard-AllSound now i bs all in
    elim (Result-cases (raise_if_circuit_open now i bs).0) [
      | inl (x, e) ↦ rw (e, execute) entered
      | inr e ↦
          rw (e, execute)
            (settle-AllSound (calls base retries 0 requests).verdict mask later i
              (calls base retries 0 requests) (between (raise_if_circuit_open now i bs).1)
              (keeps (raise_if_circuit_open now i bs).1 entered))
    ]

-- While the trial call of a half-open breaker is out, and for ever if it is never settled, every
-- other execution of the tool is refused with 503 TOOL_CIRCUIT_OPEN at any instant, and changes
-- nothing, if the breakers are sound.
pub half_open_refuses :
    (mask : Json → Json) (now later : ℕ) (i : String) (retries base : ℕ) (requests : ℕ → Request)
    (between : Breakers → Breakers) (bs : Breakers) (b : Breaker)
    → AllSound bs
    → bs i ≡ some b
    → b.half_open ≡ true
    → execute mask now later i retries base requests between bs ≡ (err circuit_open, bs)
unfolding execute raise_if_circuit_open guard_open
half_open_refuses mask now later i retries base requests between bs b all e h =
    rw (refused, execute)
      (ap (λ cs. (err circuit_open, cs)) (ap (λ (z : Result (Unit {0}) × Breakers). z.1) refused))
  where
    refused : raise_if_circuit_open now i bs ≡ (err circuit_open, bs)
    refused = rw (e, raise_if_circuit_open) (ground (arith, rw e at (all i), h))

-- the call that finds a breaker open, its recovery time over and no trial out
trial_admitted :
    (now : ℕ) (i : String) (bs : Breakers) (b : Breaker)
    → bs i ≡ some b
    → b.is_open ≡ true
    → b.half_open ≡ false
    → b.opened_at + 60 ≤ now
    → raise_if_circuit_open now i bs ≡ (ok tt, put i (record b { half_open = true }) bs)
unfolding raise_if_circuit_open guard_open
trial_admitted now i bs b e o n k = rw (e, raise_if_circuit_open) (ground (arith, o, n, k))

aborted_at_once :
    (base retries : ℕ) (requests : ℕ → Request) (e : AppError)
    → (requests 0).reply ≡ aborted e
    → (calls base retries 0 requests).verdict ≡ raised e
unfolding calls
aborted_at_once base zero requests e h = rw h refl
aborted_at_once base (suc left) requests e h = rw h refl

aborted_trial_sticks :
    (mask : Json → Json) (now later : ℕ) (i : String) (retries base : ℕ) (requests : ℕ → Request)
    (bs : Breakers) (b : Breaker) (e : AppError)
    → bs i ≡ some b
    → b.is_open ≡ true
    → b.half_open ≡ false
    → b.opened_at + 60 ≤ now
    → (requests 0).reply ≡ aborted e
    → (execute mask now later i retries base requests (λ cs. cs) bs).1 i
      ≡ some (record b { half_open = true })
unfolding execute settle
aborted_trial_sticks mask now later i retries base requests bs b e h o n k x =
    rw (trial_admitted now i bs b h o n k, execute)
      (rw (aborted_at_once base retries requests e x, settle) (ground (arith, eq_refl i)))

-- Let a breaker be open, its recovery time over and no trial out, among sound breakers. If the trial
-- call is aborted at its first request, as a cancelled one is, and no other call ran meanwhile, every
-- later execution of the tool, at any instant, is refused with 503 TOOL_CIRCUIT_OPEN and changes
-- nothing.
pub aborted_trial_locks_out :
    (mask : Json → Json) (now later now' later' : ℕ) (i : String) (retries base retries' base' : ℕ)
    (requests requests' : ℕ → Request) (between : Breakers → Breakers) (bs after : Breakers)
    (b : Breaker) (e : AppError)
    → AllSound bs
    → bs i ≡ some b
    → b.is_open ≡ true
    → b.half_open ≡ false
    → b.opened_at + 60 ≤ now
    → (requests 0).reply ≡ aborted e
    → after ≡ (execute mask now later i retries base requests (λ cs. cs) bs).1
    → execute mask now' later' i retries' base' requests' between after ≡ (err circuit_open, after)
aborted_trial_locks_out mask now later now' later' i retries base retries' base' requests requests'
      between bs after b e all h o n k x same =
    half_open_refuses mask now' later' i retries' base' requests' between after
      (record b { half_open = true })
      (subst AllSound (sym same)
        (execute-AllSound mask now later i retries base requests (λ cs. cs) bs (λ _ p. p) all))
      (rw same (aborted_trial_sticks mask now later i retries base requests bs b e h o n k x)) refl
