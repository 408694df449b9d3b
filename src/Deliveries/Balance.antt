-- ===== src/Deliveries/Balance.antt =====
-- The marks of the sends that are out are taken down again when their results are booked.

use stattii.Base.{
  Bool, Bool-cases, List, Option, String, [], ap, arith, count_where, count_where-append, eq_iff,
  false, find_first, if◌then◌else◌, inl, inr, leb, none, refl, some, sym, true, ℕ, ◌++◌, ◌+◌, ◌-◌,
  ◌==◌, ◌||◌, ◌∙◌, ◌∷◌, ◌≡◌,
}
use stattii.Deliveries.Booking.{
  OutboxResult, book, book_all, book_failure, book_outcome, book_success, booking_clock, deliver,
  deliver_due, is_item, outcome_fields, record_deliveries, settle, was_rearmed,
}
use stattii.Deliveries.Marks.{drop_mark, lower_mark, mark, mark-set_mark, recipient_key, same_key}
use stattii.Deliveries.Passes.{
  OutboxAttempt, Pass, attempt_of, collect_outbox_locked, collect_row, collect_rows, escalate_row,
  is_stuck, new_pass, page_all, take_row, takes, who_of,
}
use stattii.Model.{OutboxItem, is_delivered}
use stattii.Redaction.{SendError, redact_delivery_err}
use stattii.Service.{Context, Process, Service, notify_admin_locked, text}
use stattii.Service.Frame.{Emits-refl, Emits-if, audit-Emits, notify-Emits, save-Emits}

abbrev pub is_to : String → OutboxAttempt → Bool
is_to who a = recipient_key a.kind a.to == who

mark-drop_mark :
    (key q : String) (m : List (String × ℕ))
    → mark q (drop_mark key m) ≡ (if key == q then 0 else mark q m)
mark-drop_mark key q [] = elim (Bool-cases (key == q)) [ inl e ↦ rw e refl | inr e ↦ rw e refl ]
mark-drop_mark key q ((k, v) ∷ rest) = elim (Bool-cases (k == key)) [
  | inl e ↦
      rw (e, (eq_iff k key).0 e)
        (elim (Bool-cases (key == q)) [
          | inl f ↦ mark-drop_mark key q rest ∙ rw f refl
          | inr f ↦ mark-drop_mark key q rest ∙ rw f refl
        ])
  | inr e ↦ rw e (elim (Bool-cases (key == q)) [
    | inl f ↦
        rw (f, mark-drop_mark key q rest)
          (elim (Bool-cases (k == q)) [
            | inl g ↦ absurd (let bad = same_key k q key g f in cc)
            | inr g ↦ rw (g, f) refl
          ])
    | inr f ↦ rw (f, mark-drop_mark key q rest) (rw f refl)
  ])
]

mark-lower_mark :
    (key q : String) (m : List (String × ℕ))
    → mark q (lower_mark key m) ≡ mark q m - (if key == q then 1 else 0)
mark-lower_mark key q m = elim (Bool-cases (leb (mark key m) 1)) [
  | inl e ↦ rw e (
      mark-drop_mark key q m ∙ elim (Bool-cases (key == q)) [
        | inl f ↦ rw (f, sym ((eq_iff key q).0 f)) (ground (arith, e))
        | inr f ↦ rw f (omega arith)
      ])
  | inr e ↦ rw e (
      mark-set_mark key q (mark key m - 1) m ∙ elim (Bool-cases (key == q)) [
        | inl f ↦ rw (f, sym ((eq_iff key q).0 f)) (omega arith)
        | inr f ↦ rw f (omega arith)
      ])
]

module _ (who : String) where
  abbrev Level : ℕ → Pass → Type 0
  Level n p = mark who p.sending_to ≡ n + count_where (is_to who) p.attempts

  take_row-Level : (n : ℕ) (o : OutboxItem) (p : Pass) → Level n p → Level n (take_row o p)
  unfolding take_row
  take_row-Level n o p h = elim (Bool-cases (who_of o == who)) [
    | inl e ↦
        mark-set_mark (who_of o) who (mark (who_of o) p.sending_to + 1) p.sending_to
        ∙ rw (e, count_where-append (is_to who) p.attempts (attempt_of o ∷ []))
            (rw (e, (eq_iff (who_of o) who).0 e) (omega (arith, h)))
    | inr e ↦
        mark-set_mark (who_of o) who (mark (who_of o) p.sending_to + 1) p.sending_to
        ∙ rw (e, count_where-append (is_to who) p.attempts (attempt_of o ∷ []))
            (rw e (omega (arith, h)))
  ]

  Level-if : (b : Bool) (n : ℕ) (p q : Pass) → Level n q → Level n p → Level n (if b then q else p)
  Level-if true n p q h f = h
  Level-if false n p q h f = f

  module _ (c : Context) (now : ℕ) (only : Option (List String)) where
    escalate_row-Level :
        (n : ℕ) (o : OutboxItem) (p : Pass) → Level n p → Level n (escalate_row c now o p).1
    unfolding escalate_row
    escalate_row-Level n o p h = elim (Bool-cases (is_stuck c.cfg now o)) [
      | inl e ↦ rw (e, escalate_row) h
      | inr e ↦ rw (e, escalate_row) h
    ]

    collect_row-Level :
        (n : ℕ) (o : OutboxItem) (p : Pass) → Level n p → Level n (collect_row c now only o p).1
    unfolding collect_row
    collect_row-Level n o p h = elim (Bool-cases (is_delivered o)) [
      | inl d ↦ rw (d, collect_row) h
      | inr d ↦
          rw (d, collect_row)
            (let r = escalate_row c now o p in
              let g = escalate_row-Level n o p h in
              Level-if (takes c.cfg now only r.0 r.1) n r.1 (take_row r.0 r.1)
                (take_row-Level n r.0 r.1 g) g)
    ]

    collect_rows-Level :
        (n : ℕ) (os : List OutboxItem) (p : Pass)
        → Level n p
        → Level n (collect_rows c now only os p).1
    unfolding collect_rows
    collect_rows-Level n [] p h = h
    collect_rows-Level n (o ∷ os) p h = collect_rows-Level n os _ (collect_row-Level n o p h)

page_all-process :
    (pages : List (String × String)) (w : Service) → (page_all pages w).process ≡ w.process
unfolding page_all
page_all-process [] w = refl
page_all-process ((subject, body) ∷ rest) w =
    page_all-process rest (notify_admin_locked subject body w)
    ∙ (notify-Emits subject body w).process

-- A pass raises a recipient's mark by the number of its attempts to that recipient.
collect-marks :
    (now : ℕ) (only : Option (List String)) (w : Service) (who : String)
    → mark who (collect_outbox_locked now only w).1.process.sending_to
      ≡ mark who w.process.sending_to
        + count_where (is_to who) (collect_outbox_locked now only w).0.0
unfolding collect_outbox_locked
collect-marks now only w who =
    let r = collect_rows w.ctx now only w.outbox (new_pass w) in
    let w1 = record w {
      outbox = r.0;
      process = record w.process { sending = r.1.sending; sending_to = r.1.sending_to };
    } in
    ap (λ (p : Process). mark who p.sending_to) (page_all-process r.1.escalations w1)
    ∙ collect_rows-Level who w.ctx now only (mark who w.process.sending_to) w.outbox (new_pass w)
        (omega arith)

book_success-process :
    (now : ℕ) (a : OutboxAttempt) (held : Bool) (found : Option OutboxItem) (w : Service)
    → (book_success now a held found w).1.process ≡ w.process
unfolding book_success
book_success-process now a held none w = refl
book_success-process now a true (some o) w = elim (Bool-cases (is_delivered o)) [
  | inl d ↦ rw (d, book_success) refl
  | inr d ↦ rw (d, book_success) refl
]
book_success-process now a false (some o) w = elim (Bool-cases (is_delivered o)) [
  | inl d ↦ rw (d, book_success) refl
  | inr d ↦ rw (d, book_success) refl
]

book_failure-process :
    (now : ℕ) (a : OutboxAttempt) (rearmed : Bool) (error : String) (held : Bool)
    (found : Option OutboxItem) (w : Service)
    → (book_failure now a rearmed error held found w).1.process ≡ w.process
unfolding book_failure
book_failure-process now a rearmed error held none w = refl
book_failure-process now a rearmed error true (some o) w =
    elim (Bool-cases (is_delivered o || rearmed)) [
      | inl d ↦ rw (d, book_failure) refl
      | inr d ↦ rw (d, book_failure) refl
    ]
book_failure-process now a rearmed error false (some o) w =
    elim (Bool-cases (is_delivered o || rearmed)) [
      | inl d ↦ rw (d, book_failure) refl
      | inr d ↦ rw (d, book_failure) refl
    ]

book_outcome-process :
    (now : ℕ) (a : OutboxAttempt) (rearmed : Bool) (e : Option SendError)
    (found : Option OutboxItem) (w : Service)
    → (book_outcome now a rearmed e found w).1.process ≡ w.process
unfolding book_outcome
book_outcome-process now a rearmed none found w =
    book_success-process now a _ found _
    ∙ (audit-Emits "delivery.ok" (outcome_fields w.env a) w).process
book_outcome-process now a rearmed (some e) found w =
    let error = redact_delivery_err w.env a.kind a.to e in
    book_failure-process now a rearmed error _ found _
    ∙ (audit-Emits "delivery.fail" (outcome_fields w.env a ++ ("error", text error) ∷ []) w).process

book-marks :
    (now : ℕ) (r : OutboxResult) (w : Service) (who : String)
    → mark who (book now r w).1.process.sending_to
      ≡ mark who w.process.sending_to - (if is_to who r.attempt then 1 else 0)
unfolding book
book-marks now r w who =
    ap (λ (p : Process). mark who p.sending_to)
      (book_outcome-process now r.attempt (was_rearmed r.attempt w) r.error
        (find_first (is_item r.attempt.id) w.outbox) (settle r.attempt w))
    ∙ mark-lower_mark (recipient_key r.attempt.kind r.attempt.to) who w.process.sending_to

book_all-marks :
    (now : ℕ) (send : OutboxAttempt → Option SendError) (picked : List OutboxAttempt)
    (changed : Bool) (w : Service) (who : String)
    → mark who (book_all now (deliver send picked) changed w).1.process.sending_to
      ≡ mark who w.process.sending_to - count_where (is_to who) picked
unfolding book_all deliver
book_all-marks now send [] changed w who = omega arith
book_all-marks now send (a ∷ picked) changed w who =
    let r : OutboxResult = record { attempt = a; error = send a } in
    let b = book now r w in
    let rest = book_all-marks now send picked (changed || b.0) b.1 who in
    let here = book-marks now r w who in ground (arith, rest, here)

record_deliveries-marks :
    (now : ℕ) (send : OutboxAttempt → Option SendError) (picked : List OutboxAttempt) (w : Service)
    (who : String)
    → mark who (record_deliveries now (deliver send picked) w).process.sending_to
      ≡ mark who w.process.sending_to - count_where (is_to who) picked
unfolding record_deliveries deliver
record_deliveries-marks now send [] w who = omega arith
record_deliveries-marks now send (a ∷ picked) w who =
    let b = book_all (booking_clock now w) (deliver send (a ∷ picked)) false w in
    ap (λ (p : Process). mark who p.sending_to)
      (Emits-if b.0 (save-Emits b.1) (Emits-refl b.1)).process
    ∙ book_all-marks (booking_clock now w) send (a ∷ picked) false w who

-- A pass that has booked its results leaves every recipient's mark as it found it, whatever the
-- sends came back with, so no recipient stays locked out.
pub deliver_due-marks :
    (now : ℕ) (only : Option (List String)) (send : OutboxAttempt → Option SendError) (w : Service)
    (who : String)
    → mark who (deliver_due now only send w).process.sending_to ≡ mark who w.process.sending_to
unfolding deliver_due
deliver_due-marks now only send w who =
    let c = collect_outbox_locked now only w in
    let booked = record_deliveries-marks now send c.0.0 c.1 who in
    let raised = collect-marks now only w who in omega (arith, booked, raised)
