-- ===== src/Ticks/Sending.antt =====
-- Collecting, booking and pruning the outbox leave the events alone.

use stattii.Base.{
  Bool, Bool-cases, List, Option, String, [], count_where, eqb, false, find_first, if◌then◌else◌,
  inl, inr, none, refl, reject, some, true, ℕ, ◌++◌, ◌-◌, ◌||◌, ◌∷◌,
}
use stattii.Deliveries.{
  OutboxAttempt, OutboxResult, book, book_all, book_failure, book_outcome, book_success,
  booking_clock, collect_outbox_locked, collect_rows, delivered_row, failed_row, is_held, is_item,
  new_pass, outcome_fields, page_all, prunable, prune_outbox_locked, record_deliveries, settle,
  was_rearmed, write_item,
}
use stattii.Model.{OutboxItem, is_delivered}
use stattii.Redaction.{SendError, redact_delivery_err}
use stattii.Service.{Service, audit_locked, moment, notify_admin_locked, number, text}
use stattii.Service.Frame.{Emits-if, Emits-refl, audit-Emits, notify-Emits, save-Emits}
use stattii.Ticks.Asking.{SameEvents, SameEvents-Emits, SameEvents-trans}

page_all-SameEvents :
    (pages : List (String × String)) (w : Service) → SameEvents w (page_all pages w)
unfolding page_all
page_all-SameEvents [] w = (refl, refl)
page_all-SameEvents ((subject, body) ∷ rest) w =
    SameEvents-trans w (notify_admin_locked subject body w) (page_all ((subject, body) ∷ rest) w)
      (SameEvents-Emits w (notify_admin_locked subject body w) (notify-Emits subject body w))
      (page_all-SameEvents rest (notify_admin_locked subject body w))

pub collect-SameEvents :
    (now : ℕ) (only : Option (List String)) (w : Service)
    → SameEvents w (collect_outbox_locked now only w).1
unfolding collect_outbox_locked
collect-SameEvents now only w =
    let r = collect_rows w.ctx now only w.outbox (new_pass w) in
    let w1 = record w {
      outbox = r.0;
      process = record w.process { sending = r.1.sending; sending_to = r.1.sending_to };
    } in
    page_all-SameEvents r.1.escalations w1

pub prune-SameEvents : (now : ℕ) (w : Service) → SameEvents w (prune_outbox_locked now w).1
unfolding prune_outbox_locked
prune-SameEvents now w =
    let n = count_where (prunable now w) w.outbox in
    let w1 = record w { outbox = reject (prunable now w) w.outbox } in
    let fields = ("count", number n) ∷ ("cutoff", moment (now - w.cfg.outbox_retention)) ∷ [] in
    let w2 = audit_locked "outbox.pruned" fields w1 in
    elim (Bool-cases (eqb n 0)) [
      | inl e ↦ rw (e, prune_outbox_locked) (refl, refl)
      | inr e ↦
          rw (e, prune_outbox_locked)
            (SameEvents-Emits w1 w2 (audit-Emits "outbox.pruned" fields w1))
    ]

write_item-SameEvents :
    (write : Bool) (held : Bool) (o : OutboxItem) (w : Service)
    → SameEvents w (if write then w else write_item held o w)
write_item-SameEvents true held o w = (refl, refl)
write_item-SameEvents false true o w = (refl, refl)
write_item-SameEvents false false o w = (refl, refl)

book_success-SameEvents :
    (now : ℕ) (a : OutboxAttempt) (held : Bool) (found : Option OutboxItem) (w : Service)
    → SameEvents w (book_success now a held found w).1
unfolding book_success
book_success-SameEvents now a held none w = (refl, refl)
book_success-SameEvents now a held (some o) w = elim (Bool-cases (is_delivered o)) [
  | inl d ↦ rw (d, book_success) (refl, refl)
  | inr d ↦ rw (d, book_success) (write_item-SameEvents false held (delivered_row now a o) w)
]

book_failure-SameEvents :
    (now : ℕ) (a : OutboxAttempt) (rearmed : Bool) (error : String) (held : Bool)
    (found : Option OutboxItem) (w : Service)
    → SameEvents w (book_failure now a rearmed error held found w).1
unfolding book_failure
book_failure-SameEvents now a rearmed error held none w = (refl, refl)
book_failure-SameEvents now a rearmed error held (some o) w =
    elim (Bool-cases (is_delivered o || rearmed)) [
      | inl d ↦ rw (d, book_failure) (refl, refl)
      | inr d ↦
          rw (d, book_failure) (write_item-SameEvents false held (failed_row w.cfg now a error o) w)
    ]

book_outcome-SameEvents :
    (now : ℕ) (a : OutboxAttempt) (rearmed : Bool) (e : Option SendError)
    (found : Option OutboxItem) (w : Service)
    → SameEvents w (book_outcome now a rearmed e found w).1
unfolding book_outcome
book_outcome-SameEvents now a rearmed none found w =
    let w1 = audit_locked "delivery.ok" (outcome_fields w.env a) w in
    SameEvents-trans w w1 (book_success now a (is_held w w1) found w1).1
      (SameEvents-Emits w w1 (audit-Emits "delivery.ok" (outcome_fields w.env a) w))
      (book_success-SameEvents now a (is_held w w1) found w1)
book_outcome-SameEvents now a rearmed (some e) found w =
    let error = redact_delivery_err w.env a.kind a.to e in
    let w1 =
      audit_locked "delivery.fail" (outcome_fields w.env a ++ ("error", text error) ∷ []) w in
    SameEvents-trans w w1 (book_failure now a rearmed error (is_held w w1) found w1).1
      (SameEvents-Emits w w1
        (audit-Emits "delivery.fail" (outcome_fields w.env a ++ ("error", text error) ∷ []) w))
      (book_failure-SameEvents now a rearmed error (is_held w w1) found w1)

book_all-SameEvents :
    (now : ℕ) (rs : List OutboxResult) (changed : Bool) (w : Service)
    → SameEvents w (book_all now rs changed w).1
unfolding book_all book
book_all-SameEvents now [] changed w = (refl, refl)
book_all-SameEvents now (r ∷ rest) changed w =
    let b = book now r w in
    SameEvents-trans w b.1 (book_all now rest (changed || b.0) b.1).1
      (book_outcome-SameEvents now r.attempt (was_rearmed r.attempt w) r.error
        (find_first (is_item r.attempt.id) w.outbox) (settle r.attempt w))
      (book_all-SameEvents now rest (changed || b.0) b.1)

pub record_deliveries-SameEvents :
    (now : ℕ) (rs : List OutboxResult) (w : Service) → SameEvents w (record_deliveries now rs w)
unfolding record_deliveries
record_deliveries-SameEvents now [] w = (refl, refl)
record_deliveries-SameEvents now (r ∷ rest) w =
    let b = book_all (booking_clock now w) (r ∷ rest) false w in
    SameEvents-trans w b.1 (record_deliveries now (r ∷ rest) w)
      (book_all-SameEvents (booking_clock now w) (r ∷ rest) false w)
      (SameEvents-Emits b.1 (record_deliveries now (r ∷ rest) w)
        (Emits-if b.0 (save-Emits b.1) (Emits-refl b.1)))
