-- ===== src/Examples/Runs.antt =====
-- Tests: the operations evaluated on the demo service.

use stattii.Base.{false, find_first, is_space, none, ok, refl, some, true, ◌≡◌}
use stattii.Deliveries.{
  OutboxResult, PropagationStatus, attempt_of, book, book_outcome, book_success, delivered_row,
  is_item, propagation,
}
use stattii.Examples.Fixtures.{demo, failing, meeting, waiting}
use stattii.Lifecycle.{
  clean_reason, fan_out_locked, notice, send_broadcasts, send_guests, send_people,
}
use stattii.Links.{is_private_chat_id}
use stattii.Model.{assignees, cancellation}
use stattii.Service.{
  audit_fuel, audit_locked, audited, enqueue_locked, enqueue_to_person_locked, new_id, note_with,
  notify_target, notify_with, set_bit, stamp,
}

-- The send of the waiting notice succeeded.
abbrev sent_result : OutboxResult
sent_result = record { attempt = attempt_of waiting; error = none }

-- A delivery over a healthy store is booked on its row.
booked_delivery :
    find_first (is_item "ob1") (book 100 sent_result demo).1.outbox
    ≡ some (delivered_row 100 (attempt_of waiting) waiting)
unfolding book book_outcome book_success audit_locked audit_fuel audited
booked_delivery = refl

-- Where the audit line of a delivery begins a failure episode, the delivery is lost: the row stays
-- undelivered, and the next pass sends the message again.
lost_delivery : find_first (is_item "ob1") (book 100 sent_result failing).1.outbox ≡ some waiting
unfolding book book_outcome book_success audit_locked audit_fuel audited note_with set_bit
    notify_with notify_target enqueue_locked new_id stamp
lost_delivery = refl

-- A typed reason becomes one line.
cut_reason : clean_reason " two   words " ≡ "two words"
unfolding clean_reason is_space
cut_reason = refl

-- A cancellation of the meeting reaches the list, both of Ada's channels and the guest.
told_four : (fan_out_locked meeting cancellation "off" "off" demo).0 ≡ 4
unfolding fan_out_locked notice send_broadcasts send_people send_guests assignees enqueue_locked
    enqueue_to_person_locked
told_four = refl

-- A private chat id is a positive decimal; a group or an alias is not.
private_chats :
    (is_private_chat_id "42" ≡ true)
    × (is_private_chat_id "-42" ≡ false)
    × (is_private_chat_id "@ops" ≡ false)
unfolding is_private_chat_id
private_chats = (refl, refl, refl)

-- The report on the cancelled event: one of two notices is delivered.
reported :
    (ps : PropagationStatus) × (propagation "ev2" demo ≡ ok ps)
    × (ps.total ≡ 2)
    × (ps.delivered ≡ 1)
    × (ps.complete ≡ false)
unfolding propagation
reported = (_, refl, refl, refl, refl)
