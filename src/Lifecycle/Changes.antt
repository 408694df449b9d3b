-- ===== src/Lifecycle/Changes.antt =====
-- cancelLocked of internal/core/service.go, with cleanReason.

use stattii.Base.{
  List, Option, Result, String, [], already_cancelled, concat, err, if◌then◌else◌, length, ltb,
  none, not, not_found, of_chars, ok, one_line, some, suc, zero, ℕ, ◌==◌, ◌∷◌,
}
use stattii.Lifecycle.Creation.{record_response}
use stattii.Lifecycle.FanOut.{fan_out_locked, nobody_told_locked, put_event}
use stattii.Model.{
  ActionKind, Event, Person, Tables, Via, cancellation, cancelled, event, is_cancelled, is_deadline,
  person,
}
use stattii.Service.{
  Context, Service, a_via, audit_locked, fire_webhooks_locked, of_event, text, when,
}

abbrev pub max_reason : ℕ
max_reason = 280

abbrev pub take {ℓ} : {A : Type ℓ} → ℕ → List A → List A
take zero xs = []
take (suc n) [] = []
take (suc n) (x ∷ xs) = x ∷ take n xs

-- cleanReason
unfoldable pub clean_reason : String → String
unfolding one_line
clean_reason s =
    let line = one_line s in
    of_chars (if ltb max_reason (length line) then take max_reason line else line)

unfoldable pub person_name : Option Person → String
person_name none = "the organizer"
person_name (some p) = p.name

-- Who cancelled: a name or "the organizer".
unfoldable pub canceller : String → Tables → String
unfolding person_name
canceller person_id t =
    if person_id == "" then "the organizer" else person_name (person t person_id)

unfoldable pub cancel_body : Event → String → String → Context → String
cancel_body e by reason c = concat (
    e.title
    ∷ " on "
    ∷ when c e.starts_at
    ∷ " is CANCELLED.\nCancelled by "
    ∷ by
    ∷ "."
    ∷ (if reason == "" then "" else concat ("\nReason: " ∷ reason ∷ []))
    ∷ [])

unfoldable pub cancelled_row : Event → String → ℕ → Event
cancelled_row e reason now = record e {
  status = cancelled;
  cancel_reason = reason;
  cancelled_at = now;
  seq = suc e.seq;
}

-- The row, the answer and the audit line of a cancellation.
unfoldable pub cancel_flip : Event → String → String → Via → Service → Service
unfolding cancelled_row put_event record_response
cancel_flip e person_id reason via w =
    audit_locked "event.cancelled"
      (("event_id", text e.id)
        ∷ ("actor", text (if person_id == "" then "admin" else person_id))
        ∷ ("reason", text reason)
        ∷ ("via", a_via via)
        ∷ [])
      (record_response e.id person_id ActionKind.cancel via
        (put_event (cancelled_row e reason w.now) w))

unfoldable pub cancel_live : Event → String → String → Via → Service → Event × Service
unfolding cancel_flip canceller cancel_body
cancel_live e person_id typed via w =
    let reason = clean_reason typed in
    let e1 = cancelled_row e reason w.now in
    let w1 = cancel_flip e person_id reason via w in
    let (n, e2, w2) =
      fan_out_locked e1 cancellation (concat ("CANCELLED: " ∷ e1.title ∷ []))
        (cancel_body e1 (canceller person_id w1.tables) reason w1.ctx) w1 in
    let w3 = fire_webhooks_locked "event.cancelled" (of_event e2) w2 in
    (e2, nobody_told_locked e2 cancellation n (not (is_deadline via)) w3)

unfoldable pub cancel_found :
    String → String → Via → Option Event → Service → Result Event × Service
unfolding cancel_live
cancel_found person_id reason via none w = (err not_found, w)
cancel_found person_id reason via (some e) w =
    if is_cancelled e.status
    then (err already_cancelled, w)
    else (let (e', w') = cancel_live e person_id reason via w in (ok e', w'))

-- cancelLocked
unfoldable pub cancel_locked : String → String → String → Via → Service → Result Event × Service
unfolding cancel_found
cancel_locked event_id person_id reason via w =
    cancel_found person_id reason via (event w.tables event_id) w
