-- ===== src/Task/Examples/Scans.antt =====
-- The theorems about the scans and the approval gate at concrete inputs.
use eap.Prelude.{◌≡◌, refl, true, none, some, [], ◌∷◌, arith, if◌then◌else◌, ◌&&◌}
use eap.Prelude.Table.{take, find, count, select}
use eap.Errors.{Result, ok}
use eap.Json.{Json, null}
use eap.Tool.Model.{Tool}
use eap.Tool.Judgement.{requires_approval}
use eap.Task.Model.{pending, OutboxEvent, World, has_id}
use eap.Task.Expiry.{is_overdue, retired, expire_overdue_approvals}
use eap.Task.Expiry.Exact.{expire_exact}
use eap.Task.Reconcile.{is_lost, reconcile_undelivered}
use eap.Task.Reconcile.Exact.{has_key, delivered, reconcile_exact}
use eap.Task.Rescue.{Outside, rescue_candidates, rescue_stuck_dispatches}
use eap.Task.Rescue.Exact.{is_ready, after, rescue_exact}
use eap.Task.Approval.{Execution, success, Requester, approval_task, request_approval, execute}
use eap.Task.Approval.Gate.{HeldBack, risky_call-HeldBack}
use eap.Task.Service.{Actor}
use eap.Task.Examples.{row, mail, lost, office}

expire_exact_example :
    find (has_id 1) (expire_overdue_approvals 100 (λ w. w) office).tasks
    ≡ some (if is_overdue 100 (row 1 pending) then retired (row 1 pending) else row 1 pending)
unfolding find count select is_overdue
expire_exact_example =
    expire_exact 100 1 (row 1 pending) office (record { unique = refl; row = refl }) (omega arith)

reconcile_exact_example :
    find (has_key 50) (reconcile_undelivered 60 (λ e. true) office).outbox
    ≡ some (if true && is_lost 60 lost then delivered 60 (λ e. true) lost else lost)
unfolding find count select is_lost
reconcile_exact_example =
    reconcile_exact 60 (λ e. true) 50 lost office (record { unique = refl; row = refl })
      (omega arith)

abbrev answer : Tool → Json → Result Execution
answer tool params = ok (success 200 null 5)

abbrev requester : Requester
requester = record { id = 7; tenant_id = 1 }

abbrev asker : Actor
asker = record { id = 7; role = "user" }

risky_call-HeldBack_example :
    HeldBack 60 9 90000 asker office
      (execute answer 60 9 mail null requester office).0
      (execute answer 60 9 mail null requester office).1
      (approval_task 60 9 mail null requester)
unfolding count select is_overdue execute request_approval requires_approval
risky_call-HeldBack_example =
    risky_call-HeldBack answer 60 9 90000 mail null requester asker office refl refl refl refl
      (omega arith)

-- a dispatch whose worker died
abbrev stuck : OutboxEvent
stuck = record lost { delivered_at = some 30 }

abbrev stalled : World
stalled = record office { outbox = stuck ∷ [] }

abbrev reachable : Outside
reachable = record { parse_int = λ t. none; sets_marker = λ e. true; takes = λ e. true }

rescue_exact_example :
    rescue_stuck_dispatches reachable 96 stalled
    ≡ after
        (take 100
          (select (is_ready reachable 96 stalled) (take 1000 (rescue_candidates 96 stalled))))
        0
        stalled
rescue_exact_example = rescue_exact reachable 96 stalled
