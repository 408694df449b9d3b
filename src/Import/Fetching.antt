-- ===== src/Import/Fetching.antt =====
-- An automatic fetch of internal/core/scheduler.go, from the HTTP answer to the bookkeeping.

use stattii.Base.{Option, Result, String, err, none, ok, refl, some, ◌++◌, ◌+◌, ◌-◌, ◌>>=◌, ◌≡◌}
use stattii.Import.Fetch.{
  FetchAnswer, fetch_address, fetch_calendar, fetched_body, one_day, sync_body, sync_expanded,
}
use stattii.Import.Standing.{AllHeld}
use stattii.Import.Untouched.{sync_calendar-AllHeld}
use stattii.Lifecycle.Transactions.{NamedTxns}
use stattii.Model.{ImportReport}
use stattii.Recurrence.{Std, parse_feed}
use stattii.Recurrence.Window.{expand-Settled}
use stattii.Service.{Service}

-- A fetch ended, and its service holds every event of the one before.
abbrev pub Fetched : Service → Option (Result ImportReport × Service) → Type 0
Fetched w none = ⊥
Fetched w (some (err x, v)) = v ≡ w
Fetched w (some (ok rep, v)) = AllHeld w.tables.events v.tables.events

sync_body-Fetched :
    (std : Std) (body : Result String) (w : Service)
    → NamedTxns w.env
    → Fetched w (sync_body std body w)
unfolding sync_body
sync_body-Fetched std (err x) w named = refl
sync_body-Fetched std (ok raw) w named =
    let parsed = parse_feed std raw in
    let until = w.now + w.cfg.calendar_window in
    let (r, found, window, size) = expand-Settled std parsed.0 (w.now - one_day) until in
    rw (found, sync_expanded) (sync_calendar-AllHeld r.0 (parsed.1 ++ r.1) until w named)

-- FetchCalendar ends whatever the client answers and whatever the feed says. An error leaves the
-- service as it was; otherwise no event is lost, none is cancelled and none revived, and every event
-- keeps its id, its note and its choice of what silence means. Ids of transactions are assumed not
-- to be empty.
pub fetch_calendar-Fetched :
    (std : Std) (client : String → FetchAnswer) (w : Service)
    → NamedTxns w.env
    → Fetched w (fetch_calendar std client w)
unfolding fetch_calendar
fetch_calendar-Fetched std client w named =
    sync_body-Fetched std
      (fetch_address w.cfg.calendar_source >>= (λ url. fetched_body w.env (client url))) w named
