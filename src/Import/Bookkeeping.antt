-- ===== src/Import/Bookkeeping.antt =====
-- noteImportResultLocked, LastImport, VanishedEvents and AssignSeries of internal/core/import.go.

use stattii.Base.{
  Bool, List, Option, Result, String, [], any_of, concat, err, false, if◌then◌else◌, ltb, map,
  message, none, not, not_found, ok, select, some, sort_by, true, ℕ, ◌&&◌, ◌++◌, ◌+◌, ◌==◌, ◌∷◌,
}
use stattii.Links.{event_expiry, is_none}
use stattii.Model.{Event, ImportReport, SeriesAssignment, is_cancelled, is_zero, person}
use stattii.Redaction.{redact_urls}
use stattii.Service.{Service, audit_locked, notify_admin_locked, number, save_locked, text}
use stattii.Staffing.{assign_locked, is_series_row}

-- noteImportResultLocked; `ended` says that the context is over, and `failure` is the error's text.
unfoldable pub note_import_result_locked : Bool → Option String → Service → Bool × Service
unfolding redact_urls
note_import_result_locked true failure w = (false, w)
note_import_result_locked false (some error) w =
    let shown = redact_urls w.env error in
    let w1 = audit_locked "import.failed" (("error", text shown) ∷ []) w in
    if w1.process.import_failed then (false, w1) else (
      true,
      notify_admin_locked "Calendar fetch failing"
          (concat (
            "The automatic calendar fetch failed: " ∷ shown
            ∷ "\n\nEvents keep their last imported state — nothing is cancelled by this. "
            ∷ "Check the source URL and the network; this pages again only after a recovery." ∷ []))
          (record w1 { process = record w1.process { import_failed = true } }),
    )
note_import_result_locked false none w = if not w.process.import_failed then (false, w) else (
  true,
  notify_admin_locked "Calendar fetch recovered" "The automatic calendar fetch works again." (
      audit_locked "import.recovered" []
        (record w { process = record w.process { import_failed = false } })),
)

-- LastImport
abbrev pub last_import_of : Service → Option ImportReport
last_import_of w = w.tables.last_import

abbrev pub is_open_decision : ℕ → Event → Bool
is_open_decision now e =
    not (is_zero e.vanished_at) && not (is_cancelled e.status) && not (ltb (event_expiry e) now)

-- VanishedEvents; the order of events that start together is not fixed by the source.
unfoldable pub vanished_events : Service → List Event
unfolding sort_by
vanished_events w = sort_by (λ e. e.starts_at) (select (is_open_decision w.now) w.tables.events)

-- A row of the series table with a new role.
abbrev pub set_role : String → String → String → List SeriesAssignment → List SeriesAssignment
set_role uid person_id role rows =
    map (λ s. if is_series_row uid person_id s then record s { role = role } else s) rows

abbrev pub put_series : String → String → String → List SeriesAssignment → List SeriesAssignment
put_series uid person_id role rows =
    if any_of (is_series_row uid person_id) rows
    then set_role uid person_id role rows
    else rows ++ record { source_uid = uid; person_id = person_id; role = role } ∷ []

-- An event of the series that takes the assignment, the past ones too.
abbrev pub takes_series : String → Event → Bool
takes_series uid e = e.source_uid == uid && not (is_cancelled e.status)

unfoldable pub assign_event : String → String → String → Event → Service → Bool × Service
unfolding assign_locked
assign_event uid person_id role e w =
    if takes_series uid e then assign_locked e.id person_id role w else (false, w)

unfoldable pub assign_each : String → String → String → List Event → ℕ → Service → ℕ × Service
unfolding assign_event
assign_each uid person_id role [] n w = (n, w)
assign_each uid person_id role (e ∷ rest) n w =
    let (added, w1) = assign_event uid person_id role e w in
    assign_each uid person_id role rest (if added then n + 1 else n) w1

-- AssignSeries; the id that its error wraps is not modelled.
unfoldable pub assign_series : String → String → String → Service → Result ℕ × Service
unfolding assign_each
assign_series uid person_id role w =
    if uid == ""
    then (err (message "missing source_uid"), w)
    else if is_none (person w.tables person_id)
    then (err not_found, w)
    else (let w1 = record w {
      tables = record w.tables {
        series_assignments = put_series uid person_id role w.tables.series_assignments;
      };
    } in
        let (n, w2) = assign_each uid person_id role w1.tables.events 0 w1 in
        (
          ok n,
          save_locked (
              audit_locked "series.assigned"
                (("source_uid", text uid)
                  ∷ ("person_id", text person_id)
                  ∷ ("role", text role)
                  ∷ ("events", number n)
                  ∷ [])
                w2),
        ))
