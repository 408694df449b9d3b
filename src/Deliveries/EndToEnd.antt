-- ===== src/Deliveries/EndToEnd.antt =====
-- From the cancellation to its report: Propagation counts exactly the messages that cancelLocked
-- says it sent.

use stattii.Base.{
  Bool, Bool-cases, List, Result, String, [], ap, ap₂, arith, count_where, count_where-append,
  eq_iff, false, find_first, find_first-holds, find_first-update_first, inl, inr, length, ok, refl,
  some, subst, sym, update_first, ℕ, ◌&&◌, ◌+◌, ◌==◌, ◌∙◌, ◌∷◌, ◌≡◌, ◌≢◌,
}
use stattii.Deliveries.Accounting.{Reports, propagation-Reports}
use stattii.Deliveries.Reports.{PropagationStatus, in_last_fan_out, propagation}
use stattii.Lifecycle.{cancel_locked, cancelled_row, clean_reason, notice}
use stattii.Lifecycle.Branches.{CancelOutcome, CancelsRow, cancel_locked-outcome}
use stattii.Lifecycle.Letters.{is_about, letters-count, owed-AllOf}
use stattii.Lifecycle.Propagation.{letter_of}
use stattii.Lifecycle.Recipients.{in_txn, owed}
use stattii.Lifecycle.Transactions.{NamedTxns, Transaction}
use stattii.Model.{
  Event, OutboxItem, Purpose, Response, Tables, Via, cancellation, event, has_id, is_cancelled,
}
use stattii.Service.{Service}

-- No row carries a transaction id that is still to be drawn.
abbrev pub FreshTxns : Service → Type 0
FreshTxns w = (n : ℕ) → count_where (in_txn (w.env.new_id "tx" n)) w.outbox ≡ 0

count_where-both :
    (p q : OutboxItem → Bool) (os : List OutboxItem)
    → count_where q os ≡ 0
    → count_where (λ o. p o && q o) os ≡ 0
count_where-both p q [] h = refl
count_where-both p q (o ∷ os) h = elim (Bool-cases (q o)) [
  | inl e ↦ absurd (let bad = rw e at h in ground (arith, bad))
  | inr e ↦ rw e (ground (arith, count_where-both p q os (rw e at h)))
]

count_where-same :
    (p q : OutboxItem → Bool) (os : List OutboxItem)
    → ((o : OutboxItem) → p o ≡ q o)
    → count_where p os ≡ count_where q os
count_where-same p q [] h = refl
count_where-same p q (o ∷ os) h = rw (h o) (ground (arith, count_where-same p q os h))

in_last-named :
    (row : Event) (txn : String) (o : OutboxItem)
    → row.fan_out_txn_id ≡ txn
    → (txn == "") ≡ false
    → in_last_fan_out row o ≡ (is_about row.id o && in_txn txn o)
in_last-named row txn o h k = elim (Bool-cases (o.event_id == row.id)) [
  | inl e ↦ rw (e, h, k) refl
  | inr e ↦ rw e refl
]

named_txn : (txn : String) → txn ≢ "" → (txn == "") ≡ false
named_txn txn h = elim (Bool-cases (txn == "")) [
  | inl e ↦ absurd (h ((eq_iff txn "").0 e))
  | inr e ↦ e
]

-- The rows of the transaction in the outbox after it.
Transaction-count :
    (e1 : Event) (purpose : Purpose) (subject body : String) (responses : List Response)
    (w : Service) (row : Event) (after : Service)
    → FreshTxns w
    → Transaction e1 purpose subject body responses w row after
    → count_where (in_last_fan_out row) after.outbox ≡ row.fan_out_count
unfolding notice
Transaction-count e1 purpose subject body responses w row after fresh t =
    let id_same : row.id ≡ e1.id = ap (λ (x : Event). x.id) t.recorded in
    let item = letter_of e1 purpose t.txn subject body in
    let due = owed w.env.to_lower item e1.id w.tables in
    let about : count_where (is_about e1.id) due ≡ length due =
      owed-AllOf e1.id item (λ kind to. refl) w.env.to_lower w.tables in
    let none_before : 0 + length due ≡ length due = omega arith in
    let mine =
      letters-count e1.id t.txn t.sent
        (subst (λ os. count_where (is_about e1.id) os ≡ length os) (sym t.messages) about) in
    let old =
      count_where-both (is_about e1.id) (in_txn t.txn) w.outbox
        (subst (λ x. count_where (in_txn x) w.outbox ≡ 0) (sym t.minted) (fresh t.drawn_at)) in
    count_where-same (in_last_fan_out row) (λ o. is_about e1.id o && in_txn t.txn o) after.outbox
      (λ o.
        in_last-named row t.txn o (ap (λ (x : Event). x.fan_out_txn_id) t.recorded)
          (named_txn t.txn t.named)
        ∙ ap (λ i. is_about i o && in_txn t.txn o) id_same)
    ∙ ap (count_where (λ o. is_about e1.id o && in_txn t.txn o)) t.outbox
    ∙ count_where-append (λ o. is_about e1.id o && in_txn t.txn o) w.outbox t.sent
    ∙ ap₂ (λ a b. a + b) old (mine ∙ ap length t.messages)
    ∙ none_before
    ∙ sym (ap (λ (x : Event). x.fan_out_count) t.recorded)

-- The event's row after the transaction is the one that the lookup finds.
Transaction-find :
    (id : String) (e e1 : Event) (purpose : Purpose) (subject body : String)
    (responses : List Response) (w : Service) (row : Event) (after : Service)
    → event w.tables id ≡ some e
    → e1.id ≡ e.id
    → Transaction e1 purpose subject body responses w row after
    → event after.tables id ≡ some row
Transaction-find id e e1 purpose subject body responses w row after found same t =
    let here : e.id ≡ id =
      (eq_iff e.id id).0 (find_first-holds (has_id id) w.tables.events found) in
    let named : row.id ≡ id = ap (λ (x : Event). x.id) t.recorded ∙ same ∙ here in
    ap (λ (s : Tables). event s id) t.tables
    ∙ subst
        (λ i.
          find_first (has_id id) (update_first (has_id i) (λ _. row) w.tables.events) ≡ some row)
        (sym named)
        (find_first-update_first (has_id id) (λ _. row) w.tables.events found
          ((eq_iff row.id id).1 named))

-- What the report says of the row that a transaction recorded.
abbrev pub Reported : String → Result Event × Service → Type 0
Reported id r =
    (row : Event) × (ps : PropagationStatus) × (r.0 ≡ ok row)
    × (propagation id r.1 ≡ ok ps)
    × (ps.total ≡ row.fan_out_count)

Reports-total :
    (id : String) (row : Event) (after : Service) (r : Result PropagationStatus)
    → event after.tables id ≡ some row
    → Reports (event after.tables id) after r
    → (ps : PropagationStatus) × (r ≡ ok ps)
      × (ps.total ≡ count_where (in_last_fan_out row) after.outbox)
Reports-total id row after r found h =
    let report = subst (λ o. Reports o after r) found h in (report.0, report.1, report.2.total)

-- Where no transaction id is empty and none that is still to be drawn is in the outbox, cancelling
-- an event that is known and not cancelled succeeds and is reported in full: the transaction that
-- Propagation then reports has as many rows as the cancelled row says were enqueued.
pub cancel_locked-Reported :
    (id person_id reason : String) (via : Via) (w : Service) (e : Event)
    → NamedTxns w.env
    → FreshTxns w
    → event w.tables id ≡ some e
    → is_cancelled e.status ≡ false
    → Reported id (cancel_locked id person_id reason via w)
unfolding cancelled_row
cancel_locked-Reported id person_id reason via w e named fresh found live =
    let r = cancel_locked id person_id reason via w in
    let o1 =
      subst (λ f. CancelOutcome f person_id reason via w r) found
        (cancel_locked-outcome id person_id reason via w named) in
    let o2 = subst (λ b. CancelsRow b e person_id reason via w r) live o1 in
    let row = o2.0 in
    let t = o2.3 in
    let at_row =
      Transaction-find id e (cancelled_row e (clean_reason reason) w.now) cancellation _ _ _ w row
        r.1 found refl t in
    let report =
      Reports-total id row r.1 (propagation id r.1) at_row (propagation-Reports id r.1) in
    (
      row,
      report.0,
      o2.1,
      report.1,
      report.2
          ∙ Transaction-count (cancelled_row e (clean_reason reason) w.now) cancellation _ _ _ w row
              r.1 fresh t,
    )
