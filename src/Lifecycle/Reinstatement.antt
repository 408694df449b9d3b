-- ===== src/Lifecycle/Reinstatement.antt =====
-- Every branch of ReinstateEvent of internal/core/service.go.

use stattii.Base.{
  Bool, Option, Result, String, [], concat, err, false, if◌then◌else◌, message, none, not_found, ok,
  refl, some, true, ◌∷◌, ◌≡◌,
}
use stattii.Lifecycle.Fields.{Reinstated}
use stattii.Lifecycle.Flips.{reinstate_live-Transaction}
use stattii.Lifecycle.Moves.{reinstate_body, reinstate_live, reinstated_row}
use stattii.Lifecycle.Operations.{reinstate_event, reinstate_found}
use stattii.Lifecycle.Transactions.{NamedTxns, Transaction}
use stattii.Model.{Event, event, is_cancelled, reinstated}
use stattii.Service.{Service, save_locked}

-- What ReinstateEvent owes on a row that is there, by whether it is cancelled.
abbrev pub ReinstatesRow : Bool → Event → Service → Result Event × Service → Type 0
ReinstatesRow false e w r = r ≡ (err (message "event is not cancelled"), w)
ReinstatesRow true e w r =
    (row : Event) × (v : Service) × (r ≡ (ok row, save_locked v))
    × Reinstated e row
    × Transaction (reinstated_row e) reinstated (concat ("REINSTATED: " ∷ e.title ∷ []))
        (reinstate_body (reinstated_row e) w.ctx) w.tables.responses w row v

abbrev pub ReinstateOutcome : Option Event → Service → Result Event × Service → Type 0
ReinstateOutcome none w r = r ≡ (err not_found, w)
ReinstateOutcome (some e) w r = ReinstatesRow (is_cancelled e.status) e w r

reinstate_row-outcome :
    (off : Bool) (e : Event) (actor : String) (w : Service)
    → NamedTxns w.env
    → ReinstatesRow off e w (
        if off
        then (let (e', w') = reinstate_live e actor w in (ok e', save_locked w'))
        else (err (message "event is not cancelled"), w))
unfolding reinstated_row
reinstate_row-outcome false e actor w named = refl
reinstate_row-outcome true e actor w named =
    let r = reinstate_live e actor w in
    let t = reinstate_live-Transaction w e actor named in (r.0, r.1, refl, t.0, t.1)

reinstate_found-outcome :
    (found : Option Event) (actor : String) (w : Service)
    → NamedTxns w.env
    → ReinstateOutcome found w (reinstate_found actor found w)
unfolding reinstate_found
reinstate_found-outcome none actor w named = refl
reinstate_found-outcome (some e) actor w named =
    reinstate_row-outcome (is_cancelled e.status) e actor w named

-- Where no transaction id is empty, ReinstateEvent answers a missing event and one that is not
-- cancelled with an error and without any effect. Otherwise the row is scheduled at its old times,
-- with no reason and no time of cancellation, the next sequence number and the four marks of the
-- confirmation cycle cleared, all else is kept, and the call is one propagation transaction that
-- is then saved.
pub reinstate_event-outcome :
    (event_id actor : String) (w : Service)
    → NamedTxns w.env
    → ReinstateOutcome (event w.tables event_id) w (reinstate_event event_id actor w)
unfolding reinstate_event
reinstate_event-outcome event_id actor w named =
    reinstate_found-outcome (event w.tables event_id) actor w named
