-- ===== src/Deliveries/Outcomes.antt =====
-- What recordDeliveries does to a row, and what it never does.

use stattii.Base.{
  Bool, Bool-cases, List, Option, String, [], ap, append-nil, arith, eq_iff, eqb, find_first,
  find_first-holds, find_first-update_first, if◌then◌else◌, inl, inr, length, min, none, refl, some,
  subst, sym, true, update_first, ℕ, ◌*◌, ◌++◌, ◌+◌, ◌-◌, ◌||◌, ◌∙◌, ◌∷◌, ◌≡◌,
}
use stattii.Deliveries.Booking.{
  OutboxResult, backoff, book, book_failure, book_outcome, book_success, delivered_row, failed_row,
  is_held, is_item, outcome_fields, settle, was_rearmed,
}
use stattii.Deliveries.Passes.{OutboxAttempt}
use stattii.Model.{OutboxItem, is_delivered}
use stattii.Redaction.{SendError, redact_delivery_err}
use stattii.Service.{Config, Context, Env, Fields, Service, audit_locked, text}
use stattii.Service.Frame.{audit-Emits}
use stattii.Service.Health.Episodes.{outbox-audit}

-- How many retry delays a row waits after a failure, by the failures before it: one after the
-- first, twice as many after each further one, and sixteen from the fifth on.
abbrev pub delays : ℕ → ℕ
delays n =
    if eqb n 0 then 1 else if eqb n 1 then 2 else if eqb n 2 then 4 else if eqb n 3 then 8 else 16

backoff-at :
    (cfg : Config) (n k : ℕ)
    → n ≡ k
    → backoff cfg (k + 1) ≡ cfg.retry_delay * delays k
    → backoff cfg (n + 1) ≡ cfg.retry_delay * delays n
backoff-at cfg n k h = subst (λ m. backoff cfg (m + 1) ≡ cfg.retry_delay * delays m) (sym h)

backoff-delays : (cfg : Config) (n : ℕ) → backoff cfg (n + 1) ≡ cfg.retry_delay * delays n
backoff-delays cfg n = elim (Bool-cases (eqb n 0)) [
  | inl e ↦ backoff-at cfg n 0 (ground (arith, e)) refl
  | inr e0 ↦ elim (Bool-cases (eqb n 1)) [
    | inl e ↦ backoff-at cfg n 1 (ground (arith, e)) refl
    | inr e1 ↦ elim (Bool-cases (eqb n 2)) [
      | inl e ↦ backoff-at cfg n 2 (ground (arith, e)) refl
      | inr e2 ↦ elim (Bool-cases (eqb n 3)) [
        | inl e ↦ backoff-at cfg n 3 (ground (arith, e)) refl
        | inr e3 ↦
            let m : min (n + 1 - 1) 4 ≡ 4 = ground (arith, e0, e1, e2, e3) in
            rw (m, e0, e1, e2, e3) refl
      ]
    ]
  ]
]

-- The row after its result is booked: its time of delivery, its attempts, its error and its next
-- attempt are what can change.
abbrev pub booked :
    Config → ℕ → Env → OutboxAttempt → Bool → Option SendError → OutboxItem → OutboxItem
booked cfg now env a rearmed none o =
    if is_delivered o
    then o
    else record o { attempts = a.attempts + 1; delivered_at = now; last_error = "" }
booked cfg now env a rearmed (some e) o = if is_delivered o || rearmed then o else record o {
  attempts = a.attempts + 1;
  last_error = redact_delivery_err env a.kind a.to e;
  next_attempt = now + cfg.retry_delay * delays a.attempts;
}

find_first-put :
    (id : String) (o o' : OutboxItem) (os : List OutboxItem)
    → find_first (is_item id) os ≡ some o
    → o'.id ≡ o.id
    → find_first (is_item id) (update_first (is_item o'.id) (λ _. o') os) ≡ some o'
find_first-put id o o' os h k =
    let hit = (eq_iff o.id id).0 (find_first-holds (is_item id) os h) in
    subst (λ i. find_first (is_item id) (update_first (is_item i) (λ _. o') os) ≡ some o')
      (sym (k ∙ hit))
      (find_first-update_first (is_item id) (λ _. o') os h ((eq_iff o'.id id).1 (k ∙ hit)))

pub find_first-append :
    (p : OutboxItem → Bool) (os more : List OutboxItem) (o : OutboxItem)
    → find_first p os ≡ some o
    → find_first p (os ++ more) ≡ some o
find_first-append p [] more o h = absurd (cc)
find_first-append p (k ∷ os) more o h = elim (Bool-cases (p k)) [
  | inl e ↦ rw e (rw e at h)
  | inr e ↦ rw e (find_first-append p os more o (rw e at h))
]

-- A line of the audit log leaves every row that is there, whatever pages it adds.
pub audit-find :
    (kind : String) (fields : Fields) (id : String) (w : Service) (o : OutboxItem)
    → find_first (is_item id) w.outbox ≡ some o
    → find_first (is_item id) (audit_locked kind fields w).outbox ≡ some o
audit-find kind fields id w o h =
    let a = audit-Emits kind fields w in
    subst (λ os. find_first (is_item id) os ≡ some o) (sym a.outbox)
      (find_first-append (is_item id) w.outbox a.sent o h)

-- An audit line that is written adds no page, so that a pointer into the outbox stays valid.
audit-held :
    (kind : String) (fields : Fields) (w : Service)
    → w.env.audit_result w.audits ≡ none
    → is_held w (audit_locked kind fields w) ≡ true
audit-held kind fields w h =
    let quiet = rw h at (outbox-audit kind fields w) in
    let same = ap length (quiet ∙ append-nil w.outbox) in ground (arith, same)

book_success-find :
    (now : ℕ) (a : OutboxAttempt) (o : OutboxItem) (w : Service)
    → find_first (is_item a.id) w.outbox ≡ some o
    → find_first (is_item a.id) (book_success now a true (some o) w).1.outbox
      ≡ some (if is_delivered o then o else delivered_row now a o)
unfolding book_success
book_success-find now a o w h = elim (Bool-cases (is_delivered o)) [
  | inl d ↦ rw (d, book_success) h
  | inr d ↦ rw (d, book_success) (find_first-put a.id o (delivered_row now a o) w.outbox h refl)
]

book_failure-find :
    (now : ℕ) (a : OutboxAttempt) (rearmed : Bool) (error : String) (o : OutboxItem) (w : Service)
    → find_first (is_item a.id) w.outbox ≡ some o
    → find_first (is_item a.id) (book_failure now a rearmed error true (some o) w).1.outbox
      ≡ some (if is_delivered o || rearmed then o else failed_row w.cfg now a error o)
unfolding book_failure
book_failure-find now a rearmed error o w h = elim (Bool-cases (is_delivered o || rearmed)) [
  | inl d ↦ rw (d, book_failure) h
  | inr d ↦
      rw (d, book_failure) (find_first-put a.id o (failed_row w.cfg now a error o) w.outbox h refl)
]

book_outcome-find :
    (now : ℕ) (a : OutboxAttempt) (rearmed : Bool) (e : Option SendError) (o : OutboxItem)
    (w : Service)
    → w.env.audit_result w.audits ≡ none
    → find_first (is_item a.id) w.outbox ≡ some o
    → find_first (is_item a.id) (book_outcome now a rearmed e (some o) w).1.outbox
      ≡ some (booked w.cfg now w.env a rearmed e o)
unfolding book_outcome
book_outcome-find now a rearmed none o w fine h =
    let fields = outcome_fields w.env a in
    let w1 = audit_locked "delivery.ok" fields w in
    rw (audit-held "delivery.ok" fields w fine)
      (book_success-find now a o w1 (audit-find "delivery.ok" fields a.id w o h))
book_outcome-find now a rearmed (some e) o w fine h =
    let error = redact_delivery_err w.env a.kind a.to e in
    let fields = outcome_fields w.env a ++ ("error", text error) ∷ [] in
    let w1 = audit_locked "delivery.fail" fields w in
    rw (audit-held "delivery.fail" fields w fine) (
      book_failure-find now a rearmed error o w1 (audit-find "delivery.fail" fields a.id w o h)
      ∙ ap {A = Context}
          (λ c. some (if is_delivered o || rearmed then o else failed_row c.cfg now a error o))
          (audit-Emits "delivery.fail" fields w).ctx
      ∙ ap {A = ℕ}
          (λ wait. some (
            if is_delivered o || rearmed then o else record o {
              attempts = a.attempts + 1;
              last_error = error;
              next_attempt = now + wait;
            }))
          (backoff-delays w.cfg a.attempts))

-- Booking a result whose audit line is written leaves the row as its outcome says: a delivered row
-- and, after a failure, a row that was re-armed while the send was out stay; otherwise a success
-- marks it delivered and a failure counts the attempt, keeps the redacted error and backs off.
pub book-find :
    (now : ℕ) (r : OutboxResult) (w : Service) (o : OutboxItem)
    → w.env.audit_result w.audits ≡ none
    → find_first (is_item r.attempt.id) w.outbox ≡ some o
    → find_first (is_item r.attempt.id) (book now r w).1.outbox
      ≡ some (booked w.cfg now w.env r.attempt (was_rearmed r.attempt w) r.error o)
unfolding book
book-find now r w o fine h =
    let a = r.attempt in
    subst
      (λ found.
        find_first (is_item a.id)
          (book_outcome now a (was_rearmed a w) r.error found (settle a w)).1.outbox
        ≡ some (booked w.cfg now w.env a (was_rearmed a w) r.error o))
      (sym h) (book_outcome-find now a (was_rearmed a w) r.error o (settle a w) fine h)
