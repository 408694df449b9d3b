-- ===== src/Deliveries/Booking.antt =====
-- recordDeliveries of internal/core/outbox.go and RetryOutbox of views.go.

use stattii.Base.{
  Bool, List, Option, Result, String, [], err, false, find_first, if◌then◌else◌, length, ltb,
  message, min, none, not, not_found, ok, some, true, update_first, ℕ, ◌&&◌, ◌*◌, ◌++◌, ◌+◌, ◌-◌,
  ◌==◌, ◌^◌, ◌||◌, ◌∷◌,
}
use stattii.Deliveries.Marks.{drop_mark, is_marked, lower_mark, mark, recipient_key, set_mark}
use stattii.Deliveries.Passes.{OutboxAttempt, collect_outbox_locked}
use stattii.Model.{OutboxItem, is_delivered}
use stattii.Redaction.{SendError, redact_address, redact_delivery_err, shown_item}
use stattii.Service.{
  Config, Env, Fields, Service, a_purpose, audit_locked, number, save_locked, text,
}

-- outboxResult: an attempt, and the error that its send came back with.
pub record OutboxResult : Type 0 where
  pub attempt : OutboxAttempt
  pub error : Option SendError

abbrev pub is_item : String → OutboxItem → Bool
is_item id o = o.id == id

abbrev pub put_item : OutboxItem → Service → Service
put_item o w = record w { outbox = update_first (is_item o.id) (λ _. o) w.outbox }

abbrev pub outcome_fields : Env → OutboxAttempt → Fields
outcome_fields env a =
    ("outbox_id", text a.id)
    ∷ ("event_id", text a.event_id)
    ∷ ("purpose", a_purpose a.purpose)
    ∷ ("kind", text a.kind)
    ∷ ("to", text (redact_address env a.kind a.to))
    ∷ ("attempts", number (a.attempts + 1))
    ∷ []

-- `RetryDelay * 1<<min(Attempts-1, 4)`
abbrev pub backoff : Config → ℕ → ℕ
backoff cfg attempts = cfg.retry_delay * 2 ^ min (attempts - 1) 4

abbrev pub delivered_row : ℕ → OutboxAttempt → OutboxItem → OutboxItem
delivered_row now a o = record o { attempts = a.attempts + 1; delivered_at = now; last_error = "" }

abbrev pub failed_row : Config → ℕ → OutboxAttempt → String → OutboxItem → OutboxItem
failed_row cfg now a error o = record o {
  attempts = a.attempts + 1;
  last_error = error;
  next_attempt = now + backoff cfg (a.attempts + 1);
}

-- Whether a pointer into the outbox of `before` still points into that of `after`: an append in
-- between may have moved the rows to a new array, and a write through it is then lost.
abbrev pub is_held : Service → Service → Bool
is_held before after = not (
    ltb (length before.outbox) (length after.outbox)
    && after.env.reallocates (length before.outbox))

abbrev pub write_item : Bool → OutboxItem → Service → Service
write_item held o w = if held then put_item o w else w

unfoldable pub book_success :
    ℕ → OutboxAttempt → Bool → Option OutboxItem → Service → Bool × Service
book_success now a held none w = (false, w)
book_success now a held (some o) w =
    if is_delivered o then (false, w) else (true, write_item held (delivered_row now a o) w)

unfoldable pub book_failure :
    ℕ → OutboxAttempt → Bool → String → Bool → Option OutboxItem → Service → Bool × Service
book_failure now a rearmed error held none w = (false, w)
book_failure now a rearmed error held (some o) w =
    if is_delivered o || rearmed
    then (false, w)
    else (true, write_item held (failed_row w.cfg now a error o) w)

-- The pointer to the row is taken before the outcome is audited.
unfoldable pub book_outcome :
    ℕ → OutboxAttempt → Bool → Option SendError → Option OutboxItem → Service → Bool × Service
unfolding book_success book_failure
book_outcome now a rearmed none found w =
    let w1 = audit_locked "delivery.ok" (outcome_fields w.env a) w in
    book_success now a (is_held w w1) found w1
book_outcome now a rearmed (some e) found w =
    let error = redact_delivery_err w.env a.kind a.to e in
    let fields = outcome_fields w.env a ++ ("error", text error) ∷ [] in
    let w1 = audit_locked "delivery.fail" fields w in
    book_failure now a rearmed error (is_held w w1) found w1

abbrev pub settle : OutboxAttempt → Service → Service
settle a w = record w {
  process = record w.process {
    sending = drop_mark a.id w.process.sending;
    sending_to = lower_mark (recipient_key a.kind a.to) w.process.sending_to;
  };
}

abbrev pub was_rearmed : OutboxAttempt → Service → Bool
was_rearmed a w = ltb 0 (mark a.id w.process.sending)

unfoldable pub book : ℕ → OutboxResult → Service → Bool × Service
unfolding book_outcome
book now r w =
    book_outcome now r.attempt (was_rearmed r.attempt w) r.error
      (find_first (is_item r.attempt.id) w.outbox) (settle r.attempt w)

unfoldable pub book_all : ℕ → List OutboxResult → Bool → Service → Bool × Service
unfolding book
book_all now [] changed w = (changed, w)
book_all now (r ∷ rest) changed w =
    let (hit, w1) = book now r w in book_all now rest (changed || hit) w1

-- `if book := s.now(); book.After(now) { now = book }`
abbrev pub booking_clock : ℕ → Service → ℕ
booking_clock now w = if ltb now w.now then w.now else now

-- recordDeliveries
unfoldable pub record_deliveries : ℕ → List OutboxResult → Service → Service
unfolding book_all
record_deliveries now [] w = w
record_deliveries now (r ∷ rest) w =
    let (changed, w1) = book_all (booking_clock now w) (r ∷ rest) false w in
    if changed then save_locked w1 else w1

abbrev pub count_rearm : String → Service → Service
count_rearm id w =
    if is_marked id w.process.sending
    then record w {
      process = record w.process {
        sending = set_mark id (mark id w.process.sending + 1) w.process.sending;
      };
    }
    else w

unfoldable pub retry_found : String → Option OutboxItem → Service → Result OutboxItem × Service
retry_found id none w = (err not_found, w)
retry_found id (some o) w =
    if is_delivered o
    then (err (message "already delivered — nothing to retry"), w)
    else (let o' = record o { attempts = 0; next_attempt = w.now } in
        let w1 = count_rearm id (put_item o' w) in
        let w2 = save_locked (audit_locked "outbox.retry" (("outbox_id", text id) ∷ []) w1) in
        (ok (shown_item w2.env o'), w2))

-- RetryOutbox
unfoldable pub retry_outbox : String → Service → Result OutboxItem × Service
unfolding retry_found
retry_outbox id w = retry_found id (find_first (is_item id) w.outbox) w

-- deliver: `send` is Service.send, the channel's answer or its panic.
unfoldable pub deliver : (OutboxAttempt → Option SendError) → List OutboxAttempt → List OutboxResult
deliver send [] = []
deliver send (a ∷ rest) = record { attempt = a; error = send a } ∷ deliver send rest

-- The delivery half of Tick and SendTest: collect, send without the lock, book.
unfoldable pub deliver_due :
    ℕ → Option (List String) → (OutboxAttempt → Option SendError) → Service → Service
unfolding collect_outbox_locked deliver record_deliveries
deliver_due now only send w =
    let ((attempts, changed), w1) = collect_outbox_locked now only w in
    record_deliveries now (deliver send attempts) w1
