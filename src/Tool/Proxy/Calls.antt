-- ===== src/Tool/Proxy/Calls.antt =====
-- The retry loop: how many requests it sends, and which one decides.
use eap.Prelude.{
  ℕ, zero, suc, ◌+◌, ◌≤◌, ◌<◌, ◌≡◌, refl, true, false, arith, Bool-cases, ap, inl, inr,
}
use eap.Tool.Proxy.{Request, Run, retries_on, verdict_of, calls}

-- What a run of the loop from the attempt `k` did: it stopped after `attempts` requests, all but the
-- last were worth another attempt, and either the last was not, or no retry was left.
pub record Stopped (left k : ℕ) (requests : ℕ → Request) (run : Run) : Type 0 where
  pub last : ℕ
  pub counted : run.attempts ≡ suc last
  pub bounded : last ≤ left
  pub retried : (j : ℕ) → j < last → retries_on (requests (k + j)).reply ≡ true
  pub stopped : last < left → retries_on (requests (k + last)).reply ≡ false
  pub decided : run.verdict ≡ verdict_of (requests (k + last)).reply

plus_zero : (k : ℕ) → k + 0 ≡ k
plus_zero k = omega arith

plus_suc : (k j : ℕ) → k + suc j ≡ suc k + j
plus_suc k j = omega arith

again :
    {run : Run} (k left : ℕ) (requests : ℕ → Request) (rest : Stopped left (suc k) requests run)
    → retries_on (requests k).reply ≡ true
    → (j : ℕ) → j < suc rest.last
    → retries_on (requests (k + j)).reply ≡ true
again k left requests rest e zero h = rw (plus_zero k) e
again k left requests rest e (suc j) h = rw (plus_suc k j) (rest.retried j (omega arith))

-- A run of the loop sends at most one request more than its retries; each but the last failed in a
-- way worth another attempt, the last decides the outcome, and it ends early only at an answer that
-- is not.
pub calls-Stopped :
    (base left k : ℕ) (requests : ℕ → Request)
    → Stopped left k requests (calls base left k requests)
unfolding calls
calls-Stopped base zero k requests = record {
  last = 0;
  counted = refl;
  bounded = omega arith;
  retried = λ j h. absurd (omega arith);
  stopped = λ h. absurd (omega arith);
  decided = rw (plus_zero k) refl;
}
calls-Stopped base (suc left) k requests =
    let rest = calls-Stopped base left (suc k) requests in
    elim (Bool-cases (retries_on (requests k).reply)) [
      | inl e ↦
          rw (e, calls)
            record {
              last = suc rest.last;
              counted = ap suc rest.counted;
              bounded = omega (arith, rest.bounded);
              retried = again k left requests rest e;
              stopped = λ h. rw (plus_suc k rest.last) (rest.stopped (omega arith));
              decided = rw (plus_suc k rest.last) rest.decided;
            }
      | inr e ↦
          rw (e, calls)
            record {
              last = 0;
              counted = refl;
              bounded = omega arith;
              retried = λ j h. absurd (omega arith);
              stopped = λ h. rw (plus_zero k) e;
              decided = rw (plus_zero k) refl;
            }
    ]
