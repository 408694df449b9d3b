-- ===== src/Views/Testing.antt =====
-- SendTest of internal/core/views.go: a message to every channel of a person, sent at once.

use stattii.Base.{
  List, Option, Result, String, [], concat, err, if◌then◌else◌, length, message, none, not_found,
  ok, select, some, ℕ, ◌∷◌,
}
use stattii.Deliveries.{
  OutboxAttempt, collect_outbox_locked, deliver, in_selection, record_deliveries,
}
use stattii.Model.{OutboxItem, Person, Purpose, person, reachable}
use stattii.Redaction.{SendError, shown_outbox}
use stattii.Service.{
  Service, audit_locked, enqueue_to_person_locked, mail, number, save_locked, text,
}

abbrev pub test_message : OutboxItem
test_message =
    mail Purpose.test "" "" "stattii test message"
      "This is a test message from stattii — delivery to you works.\nNothing to do, nothing to click."

-- enqueueTest, for a person who can be reached: the ids, what is to be sent, and the service.
unfoldable pub queue_test : Person → Service → (List String × List OutboxAttempt) × Service
unfolding enqueue_to_person_locked collect_outbox_locked
queue_test p w =
    let (ids, w1) = enqueue_to_person_locked p test_message w in
    let w2 =
      audit_locked "test.sent"
        (("person_id", text p.id) ∷ ("channels", number (length p.channels)) ∷ []) w1 in
    let (picked, w3) = collect_outbox_locked w.now (some ids) w2 in
    ((ids, picked.0), save_locked w3)

unfoldable pub enqueue_test :
    Option Person → Service → Result (List String × List OutboxAttempt) × Service
unfolding queue_test
enqueue_test none w = (err not_found, w)
enqueue_test (some p) w =
    if reachable p
    then (let (r, w1) = queue_test p w in (ok r, w1))
    else (err (message (concat (p.name ∷ " has no channels to test" ∷ []))), w)

unfoldable pub finish_test :
    (OutboxAttempt → Option SendError)
    → ℕ
    → Result (List String × List OutboxAttempt) × Service
    → Result (List OutboxItem) × Service
unfolding deliver record_deliveries
finish_test send now (err x, w) = (err x, w)
finish_test send now (ok (ids, attempts), w) =
    let w1 = record_deliveries now (deliver send attempts) w in
    (ok (shown_outbox w1.env (select (in_selection (some ids)) w1.outbox)), w1)

-- SendTest
unfoldable pub send_test :
    String → (OutboxAttempt → Option SendError) → Service → Result (List OutboxItem) × Service
unfolding enqueue_test finish_test
send_test person_id send w = finish_test send w.now (enqueue_test (person w.tables person_id) w)
