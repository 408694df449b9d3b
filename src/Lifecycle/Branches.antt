-- ===== src/Lifecycle/Branches.antt =====
-- Every branch of cancelLocked and moveLocked, and what a second call meets.

use stattii.Base.{
  Bool, Option, Result, String, [], already_cancelled, concat, err, false, if◌then◌else◌, ltb,
  message, none, not, not_found, ok, refl, some, true, ℕ, ◌&&◌, ◌∷◌, ◌≡◌,
}
use stattii.Lifecycle.Changes.{
  cancel_body, cancel_found, cancel_live, cancel_locked, cancelled_row, canceller, clean_reason,
}
use stattii.Lifecycle.Fields.{Cancelled, Moved, cancelled_row-Cancelled, moved_row-Moved}
use stattii.Lifecycle.Flips.{answered, cancel_live-Transaction, move_live-Transaction}
use stattii.Lifecycle.Moves.{move_body, move_found, move_live, move_locked, moved_row}
use stattii.Lifecycle.Transactions.{NamedTxns, Transaction}
use stattii.Model.{ActionKind, Event, Via, cancellation, event, is_cancelled, is_zero, moved}
use stattii.Service.{Service}

-- What cancelLocked owes on a row that is there, by whether it is cancelled already.
abbrev pub CancelsRow :
    Bool → Event → String → String → Via → Service → Result Event × Service → Type 0
CancelsRow true e person_id reason via w r = r ≡ (err already_cancelled, w)
CancelsRow false e person_id reason via w r =
    (row : Event) × (r.0 ≡ ok row)
    × Cancelled e (clean_reason reason) w.now row
    × Transaction (cancelled_row e (clean_reason reason) w.now) cancellation
        (concat ("CANCELLED: " ∷ e.title ∷ []))
        (cancel_body (cancelled_row e (clean_reason reason) w.now) (canceller person_id w.tables)
          (clean_reason reason) w.ctx)
        (answered e.id person_id ActionKind.cancel via w.now w.tables.responses) w row r.1

abbrev pub CancelOutcome :
    Option Event → String → String → Via → Service → Result Event × Service → Type 0
CancelOutcome none person_id reason via w r = r ≡ (err not_found, w)
CancelOutcome (some e) person_id reason via w r =
    CancelsRow (is_cancelled e.status) e person_id reason via w r

cancel_row-outcome :
    (done : Bool) (e : Event) (person_id reason : String) (via : Via) (w : Service)
    → NamedTxns w.env
    → CancelsRow done e person_id reason via w (
        if done
        then (err already_cancelled, w)
        else (let (e', w') = cancel_live e person_id reason via w in (ok e', w')))
unfolding cancelled_row
cancel_row-outcome true e person_id reason via w named = refl
cancel_row-outcome false e person_id reason via w named =
    let t = cancel_live-Transaction w e person_id reason via named in
    (
      (cancel_live e person_id reason via w).0,
      refl,
      cancelled_row-Cancelled e _ (clean_reason reason) w.now _ _ _ t.recorded,
      t,
    )

cancel_found-outcome :
    (found : Option Event) (person_id reason : String) (via : Via) (w : Service)
    → NamedTxns w.env
    → CancelOutcome found person_id reason via w (cancel_found person_id reason via found w)
unfolding cancel_found
cancel_found-outcome none person_id reason via w named = refl
cancel_found-outcome (some e) person_id reason via w named =
    cancel_row-outcome (is_cancelled e.status) e person_id reason via w named

pub cancel_locked-outcome :
    (event_id person_id reason : String) (via : Via) (w : Service)
    → NamedTxns w.env
    → CancelOutcome
        (event w.tables event_id)
        person_id
        reason
        via
        w
        (cancel_locked event_id person_id reason via w)
unfolding cancel_locked
cancel_locked-outcome event_id person_id reason via w named =
    cancel_found-outcome (event w.tables event_id) person_id reason via w named

-- What moveLocked owes, by the same cases, after its two checks of the times.
abbrev pub MovesRow : Bool → Event → ℕ → ℕ → String → Service → Result Event × Service → Type 0
MovesRow true e start end note w r = r ≡ (err already_cancelled, w)
MovesRow false e start end note w r =
    (row : Event) × (r.0 ≡ ok row)
    × Moved e start end note row
    × Transaction (moved_row e start end note) moved (concat ("MOVED: " ∷ e.title ∷ []))
        (move_body (moved_row e start end note) e.starts_at start end w.ctx) w.tables.responses w
        row r.1

abbrev pub MoveFound : Option Event → ℕ → ℕ → String → Service → Result Event × Service → Type 0
MoveFound none start end note w r = r ≡ (err not_found, w)
MoveFound (some e) start end note w r = MovesRow (is_cancelled e.status) e start end note w r

abbrev pub MoveOutcome :
    Bool → Bool → Option Event → ℕ → ℕ → String → Service → Result Event × Service → Type 0
MoveOutcome true backwards found start end note w r =
    r ≡ (err (message "starts_at is required for a move"), w)
MoveOutcome false true found start end note w r =
    r ≡ (err (message "ends_at is before starts_at"), w)
MoveOutcome false false found start end note w r = MoveFound found start end note w r

move_row-outcome :
    (done : Bool) (e : Event) (start end : ℕ) (note actor : String) (w : Service)
    → NamedTxns w.env
    → MovesRow done e start end note w (
        if done
        then (err already_cancelled, w)
        else (let (e', w') = move_live e start end note actor w in (ok e', w')))
unfolding moved_row
move_row-outcome true e start end note actor w named = refl
move_row-outcome false e start end note actor w named =
    let t = move_live-Transaction w e start end note actor named in
    (
      (move_live e start end note actor w).0,
      refl,
      moved_row-Moved e _ start end note _ _ _ t.recorded,
      t,
    )

move_found-outcome :
    (found : Option Event) (start end : ℕ) (note actor : String) (w : Service)
    → NamedTxns w.env
    → MoveFound found start end note w (move_found start end note actor found w)
unfolding move_found
move_found-outcome none start end note actor w named = refl
move_found-outcome (some e) start end note actor w named =
    move_row-outcome (is_cancelled e.status) e start end note actor w named

move_checks-outcome :
    (zero_start backwards : Bool) (found : Option Event) (start end : ℕ) (note actor : String)
    (w : Service)
    → NamedTxns w.env
    → MoveOutcome zero_start backwards found start end note w (
        if zero_start
        then (err (message "starts_at is required for a move"), w)
        else if backwards
        then (err (message "ends_at is before starts_at"), w)
        else move_found start end note actor found w)
move_checks-outcome true backwards found start end note actor w named = refl
move_checks-outcome false true found start end note actor w named = refl
move_checks-outcome false false found start end note actor w named =
    move_found-outcome found start end note actor w named

-- Where no transaction id is empty, moveLocked refuses a zero start, an end before the start, a
-- missing and a cancelled event without any effect. Otherwise the row is scheduled at the new times
-- with the next sequence number and the four marks of the confirmation cycle cleared, an empty note
-- keeps the old one, all else is kept, and the call is one propagation transaction.
pub move_locked-outcome :
    (event_id : String) (start end : ℕ) (note actor : String) (w : Service)
    → NamedTxns w.env
    → MoveOutcome
        (is_zero start)
        (not (is_zero end) && ltb end start)
        (event w.tables event_id)
        start
        end
        note
        w
        (move_locked event_id start end note actor w)
unfolding move_locked
move_locked-outcome event_id start end note actor w named =
    move_checks-outcome (is_zero start) (not (is_zero end) && ltb end start)
      (event w.tables event_id) start end note actor w named
