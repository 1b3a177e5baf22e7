-- ===== src/Task/Service/Guards.antt =====
-- What the guards of `transition` and `retry` let through.
use eap.Prelude.{ℕ, ◌<◌, ◌≡◌, true, false, [], ◌∷◌, arith}
use eap.Errors.{ok}
use eap.Task.Model.{Status, approved, rejected, failed, cancelled, status_eq→≡, is_in, Task}
use eap.Task.Machine.{valid_transitions}
use eap.Task.Service.{Actor, check_transition, check_retry, is_owner_or_admin, is_expired}

-- What a permitted request satisfies.
pub record IsPermitted (now : ℕ) (to_status : Status) (actor : Actor) (task : Task) : Type 0 where
  pub listed : is_in to_status (valid_transitions task.status) ≡ true
  pub in_time : to_status ≡ approved → is_expired now task ≡ false
  pub authorised :
      is_in to_status (approved ∷ rejected ∷ cancelled ∷ []) ≡ true
      → is_owner_or_admin task actor ≡ true

pub check_transition-IsPermitted :
    (now : ℕ) (to_status : Status) (actor : Actor) (task : Task)
    → check_transition now to_status actor task ≡ ok tt
    → IsPermitted now to_status actor task
unfolding check_transition
check_transition-IsPermitted now to_status actor task h = record {
  listed = ground arith;
  in_time = λ e. ground arith;
  authorised = λ e. ground arith;
}

pub check_retry-ok :
    (actor : Actor) (task : Task)
    → check_retry actor task ≡ ok tt
    → (is_owner_or_admin task actor ≡ true)
      × (task.status ≡ failed)
      × (task.retry_count < task.max_retries)
unfolding check_retry
check_retry-ok actor task h =
    (ground arith, status_eq→≡ task.status failed (ground arith), ground arith)
