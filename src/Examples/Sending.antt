-- ===== src/Examples/Sending.antt =====
-- Runs of the delivery theorems on the demo service.

use stattii.Base.{All, [], find_first, none, refl, select, some, ◌∷◌, ◌≡◌}
use stattii.Deliveries.{
  OutboxAttempt, OutboxResult, attempt_of, book, collect_outbox_locked, deliver_due, failed_row,
  is_item, mark, propagation, prune_outbox_locked, record_deliveries,
}
use stattii.Deliveries.Accounting.{Reports, propagation-Reports}
use stattii.Deliveries.Balance.{deliver_due-marks}
use stattii.Deliveries.EndToEnd.{Reported, cancel_locked-Reported}
use stattii.Deliveries.Outcomes.{book-find}
use stattii.Deliveries.Retention.{prune-undelivered, prune_pages, undelivered}
use stattii.Deliveries.Selection.{Eligible, collect-Eligible}
use stattii.Deliveries.Standing.{record_deliveries-Stands}
use stattii.Examples.Fixtures.{
  arrived_row, called_off, demo, demo-NamedTxns, demo_cfg, demo_env, demo_tables, failing, meeting,
  waiting,
}
use stattii.Lifecycle.{cancel_locked}
use stattii.Model.{Via}
use stattii.Redaction.{plain, redact_delivery_err}
use stattii.Scheduler.Spared.{AllSpared}
use stattii.Service.{Service}
use stattii.Ticks.{tick}
use stattii.Ticks.Willing.{tick-AllSpared}

abbrev attempt : OutboxAttempt
attempt = attempt_of waiting

abbrev refused : OutboxResult
refused = record { attempt = attempt; error = some (plain "no such mailbox") }

propagation-Reports_example : Reports (some called_off) demo (propagation "ev2" demo)
propagation-Reports_example = propagation-Reports "ev2" demo

record_deliveries-Stands_example :
    find_first (is_item "ob2") (record_deliveries 100 (refused ∷ []) failing).outbox
    ≡ some arrived_row
record_deliveries-Stands_example =
    record_deliveries-Stands "ob2" arrived_row refl 100 (refused ∷ []) failing refl

book-find_example :
    find_first (is_item "ob1") (book 100 refused demo).1.outbox
    ≡ some (failed_row demo_cfg 100 attempt "no such mailbox" waiting)
unfolding redact_delivery_err
book-find_example = book-find 100 refused demo waiting refl refl

collect-Eligible_example :
    All (Eligible demo_cfg 100 none demo.outbox []) (collect_outbox_locked 100 none demo).0.0
collect-Eligible_example = collect-Eligible 100 none demo

deliver_due-marks_example :
    mark "email" (deliver_due 100 none (λ a. some (plain "busy")) demo).process.sending_to ≡ 0
deliver_due-marks_example = deliver_due-marks 100 none (λ a. some (plain "busy")) demo "email"

prune-undelivered_example :
    select undelivered (prune_outbox_locked 5000 demo).1.outbox
    ≡ waiting ∷ select undelivered (prune_pages 5000 demo)
prune-undelivered_example = prune-undelivered 5000 demo

-- The deadline of the meeting has passed, and it opted in to the switch; every send fails.
abbrev at_deadline : Service
at_deadline = record demo { ctx = record { env = demo_env; cfg = demo_cfg; now = 990 } }

tick-AllSpared_example :
    AllSpared demo_tables.events (tick 990 (λ a. some (plain "busy")) at_deadline).tables.events
tick-AllSpared_example = tick-AllSpared 990 (λ a. some (plain "busy")) at_deadline demo-NamedTxns

-- The meeting is cancelled with an empty outbox.
cancel_locked-Reported_example :
    Reported "ev1" (cancel_locked "ev1" "p1" "ill" Via.portal (record demo { outbox = [] }))
cancel_locked-Reported_example =
    cancel_locked-Reported "ev1" "p1" "ill" Via.portal (record demo { outbox = [] }) meeting
      demo-NamedTxns (λ n. refl) refl refl
