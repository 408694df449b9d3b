-- ===== src/Deliveries/Standing.antt =====
-- What recordDeliveries never does: take back a proof of delivery.

use stattii.Base.{
  Bool, Bool-cases, List, Option, String, [], arith, eq_iff, false, find_first, find_first-holds,
  if◌then◌else◌, inl, inr, none, refl, some, subst, sym, true, update_first, ℕ, ◌++◌, ◌==◌, ◌||◌,
  ◌∙◌, ◌∷◌, ◌≡◌,
}
use stattii.Deliveries.Booking.{
  OutboxResult, book, book_all, book_failure, book_outcome, book_success, booking_clock,
  delivered_row, failed_row, is_item, outcome_fields, record_deliveries, settle, was_rearmed,
  write_item,
}
use stattii.Deliveries.Outcomes.{audit-find, find_first-append}
use stattii.Deliveries.Passes.{OutboxAttempt}
use stattii.Model.{OutboxItem, is_delivered}
use stattii.Redaction.{SendError, redact_delivery_err}
use stattii.Service.{Service, save_locked, text}
use stattii.Service.Frame.{save-Emits}

-- A write to one row is not seen by a search for another.
find_first-unmoved :
    (id key : String) (o' : OutboxItem) (os : List OutboxItem)
    → (key == id) ≡ false
    → o'.id ≡ key
    → find_first (is_item id) (update_first (is_item key) (λ _. o') os) ≡ find_first (is_item id) os
find_first-unmoved id key o' [] h k = refl
find_first-unmoved id key o' (o ∷ os) h k = elim (Bool-cases (o.id == key)) [
  | inl e ↦ rw (e, k, (eq_iff o.id key).0 e, h) refl
  | inr e ↦ rw (e, find_first-unmoved id key o' os h k) refl
]

some_item : (x y : OutboxItem) → some x ≡ some y → x ≡ y
some_item x y q = cc

module _ (id : String) (o : OutboxItem) (done : is_delivered o ≡ true) where
  abbrev Stands : Service → Type 0
  Stands w = find_first (is_item id) w.outbox ≡ some o

  -- The row that stands is not an undelivered one.
  not_same :
      (key : String) (f : OutboxItem) (before : Service)
      → Stands before
      → find_first (is_item key) before.outbox ≡ some f
      → is_delivered f ≡ false
      → (key == id) ≡ true
      → ⊥
  not_same key f before s h d e =
      let at_id =
        subst (λ i. find_first (is_item i) before.outbox ≡ some f) ((eq_iff key id).0 e) h in
      let same = some_item f o (sym at_id ∙ s) in
      let bad = subst (λ x. is_delivered x ≡ false) same d in cc

  write_item-Stands :
      (held : Bool) (key : String) (f f' : OutboxItem) (before w : Service)
      → Stands before
      → find_first (is_item key) before.outbox ≡ some f
      → is_delivered f ≡ false
      → f'.id ≡ f.id
      → Stands w
      → Stands (write_item held f' w)
  write_item-Stands false key f f' before w s h d k t = t
  write_item-Stands true key f f' before w s h d k t = elim (Bool-cases (key == id)) [
    | inl e ↦ absurd (not_same key f before s h d e)
    | inr e ↦
        let named = (eq_iff f.id key).0 (find_first-holds (is_item key) before.outbox h) in
        subst (λ i. find_first (is_item id) (update_first (is_item i) (λ _. f') w.outbox) ≡ some o)
          (sym (k ∙ named)) (find_first-unmoved id key f' w.outbox e (k ∙ named) ∙ t)
  ]

  book_success-Stands :
      (now : ℕ) (a : OutboxAttempt) (held : Bool) (found : Option OutboxItem) (before w : Service)
      → find_first (is_item a.id) before.outbox ≡ found
      → Stands before
      → Stands w
      → Stands (book_success now a held found w).1
  unfolding book_success
  book_success-Stands now a held none before w h s t = t
  book_success-Stands now a held (some f) before w h s t = elim (Bool-cases (is_delivered f)) [
    | inl d ↦ rw (d, book_success) t
    | inr d ↦
        rw (d, book_success)
          (write_item-Stands held a.id f (delivered_row now a f) before w s h d refl t)
  ]

  book_failure-Stands :
      (now : ℕ) (a : OutboxAttempt) (rearmed : Bool) (error : String) (held : Bool)
      (found : Option OutboxItem) (before w : Service)
      → find_first (is_item a.id) before.outbox ≡ found
      → Stands before
      → Stands w
      → Stands (book_failure now a rearmed error held found w).1
  unfolding book_failure
  book_failure-Stands now a rearmed error held none before w h s t = t
  book_failure-Stands now a rearmed error held (some f) before w h s t =
      elim (Bool-cases (is_delivered f || rearmed)) [
        | inl d ↦ rw (d, book_failure) t
        | inr d ↦
            rw (d, book_failure)
              (write_item-Stands held a.id f (failed_row w.cfg now a error f) before w s h
                (ground (arith, d)) refl t)
      ]

  book_outcome-Stands :
      (now : ℕ) (a : OutboxAttempt) (rearmed : Bool) (e : Option SendError)
      (found : Option OutboxItem) (w : Service)
      → find_first (is_item a.id) w.outbox ≡ found
      → Stands w
      → Stands (book_outcome now a rearmed e found w).1
  unfolding book_outcome
  book_outcome-Stands now a rearmed none found w h s =
      book_success-Stands now a _ found w _ h s
        (audit-find "delivery.ok" (outcome_fields w.env a) id w o s)
  book_outcome-Stands now a rearmed (some e) found w h s =
      let error = redact_delivery_err w.env a.kind a.to e in
      let fields = outcome_fields w.env a ++ ("error", text error) ∷ [] in
      book_failure-Stands now a rearmed error _ found w _ h s
        (audit-find "delivery.fail" fields id w o s)

  book_all-Stands :
      (now : ℕ) (rs : List OutboxResult) (changed : Bool) (w : Service)
      → Stands w
      → Stands (book_all now rs changed w).1
  unfolding book_all book
  book_all-Stands now [] changed w s = s
  book_all-Stands now (r ∷ rs) changed w s = book_all-Stands now rs _ _ (
      book_outcome-Stands now r.attempt (was_rearmed r.attempt w) r.error _ (settle r.attempt w)
        refl s)

  save-Stands : (w : Service) → Stands w → Stands (save_locked w)
  save-Stands w s =
      let a = save-Emits w in
      subst (λ os. find_first (is_item id) os ≡ some o) (sym a.outbox)
        (find_first-append (is_item id) w.outbox a.sent o s)

  Stands-if : (b : Bool) (v w : Service) → Stands v → Stands w → Stands (if b then v else w)
  Stands-if true v w s t = s
  Stands-if false v w s t = t

  -- Whatever the results and whatever the store answers, the proof of a delivery stands: a
  -- delivered row is still there, unchanged, after any booking.
  pub record_deliveries-Stands :
      (now : ℕ) (rs : List OutboxResult) (w : Service)
      → find_first (is_item id) w.outbox ≡ some o
      → find_first (is_item id) (record_deliveries now rs w).outbox ≡ some o
  unfolding record_deliveries
  record_deliveries-Stands now [] w s = s
  record_deliveries-Stands now (r ∷ rs) w s =
      let b = book_all (booking_clock now w) (r ∷ rs) false w in
      let t = book_all-Stands (booking_clock now w) (r ∷ rs) false w s in
      Stands-if b.0 (save_locked b.1) b.1 (save-Stands b.1 t) t
