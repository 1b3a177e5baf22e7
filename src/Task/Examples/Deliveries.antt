-- ===== src/Task/Examples/Deliveries.antt =====
-- The theorem about a delivery and the upstream of its tool at a concrete input.
use eap.Prelude.{ℕ, zero, suc, String, refl}
use eap.Prelude.Table.{find, count}
use eap.Prelude.Map.{empty}
use eap.Errors.{AppError}
use eap.Json.{Json, null}
use eap.Tool.Proxy.{answered, Request, calls, execute, settle}
use eap.Task.Model.{approved}
use eap.Task.Worker.{returned, Delivery, process}
use eap.Task.Worker.Upstream.{Delivered, process_delivers}
use eap.Task.Examples.{row, mail, mail_enabled, office, job, delivery}

abbrev same_body : Json → Json
same_body j = j

abbrev text : AppError → String
text e = "error"

-- a gateway that is down once, then an answer
abbrev flaky : ℕ → Request
flaky zero = record { reply = answered 503 null; duration_ms = 400 }
flaky (suc k) = record { reply = answered 200 null; duration_ms = 300 }

abbrev slow_delivery : Delivery
slow_delivery = record delivery { call_end = returned 200 null 1700 }

process_delivers_example :
    Delivered text same_body 70 2 1000 flaky
      (row 2 approved)
      (process slow_delivery (job 2) office)
      2
unfolding find count calls execute settle
process_delivers_example =
    process_delivers text same_body 10 12 2 1000 flaky (λ cs. cs) empty slow_delivery (job 2)
      (row 2 approved) mail office
      (record { acquired = refl; kept = refl; before_start = λ w. refl; before_record = λ w. refl })
      (record { unique = refl; row = refl }) refl refl refl mail_enabled refl refl
