-- ===== src/Import/Occurrences.antt =====
-- The occurrences of SyncCalendar of internal/core/import.go, one by one. An occurrence finds its
-- event by the source key; the report is threaded beside the service.

use stattii.Base.{
  Bool, List, Option, Result, String, [], concat, eqb, err, error_message, false, find_first,
  if◌then◌else◌, none, not, ok, some, suc, update_first, ℕ, ◌&&◌, ◌++◌, ◌+◌, ◌==◌, ◌||◌, ◌∷◌,
}
use stattii.Lifecycle.{create_locked, map_events, move_locked}
use stattii.Links.{is_none}
use stattii.Model.{
  Event, EventInput, IfUnconfirmed, ImportReport, Occurrence, SeriesAssignment, Skipped,
  is_cancelled, is_zero, person,
}
use stattii.Service.{Fields, Service, audit_locked, moment, text}
use stattii.Staffing.{assign_locked}

abbrev pub has_source_key : String → Event → Bool
has_source_key key e = e.source_key == key

-- eventBySourceKeyLocked
abbrev pub event_by_source_key : String → Service → Option Event
event_by_source_key key w = find_first (has_source_key key) w.tables.events

abbrev pub empty_report : ℕ → ImportReport
empty_report now = record {
  fetched_at = now;
  created = 0;
  moved = 0;
  updated = 0;
  unchanged = 0;
  vanished = [];
  conflicts = [];
  skipped = [];
  silent = [];
  suspect = false;
}

abbrev pub skip_label : Skipped → String
skip_label sk = concat ((if sk.summary == "" then sk.uid else sk.summary) ∷ ": " ∷ sk.reason ∷ [])

abbrev pub title_of : Occurrence → String
title_of o = if o.summary == "" then "(untitled)" else o.summary

unfoldable pub import_input : Occurrence → EventInput
import_input o = record {
  title = title_of o;
  location = o.location;
  note = "";
  starts_at = o.start;
  ends_at = o.finish;
  if_unconfirmed = IfUnconfirmed.unset;
  source_uid = o.uid;
  source_key = o.key;
}

-- The people of the series, on a new event.
unfoldable pub inherit_series : String → String → List SeriesAssignment → Service → Service
unfolding assign_locked
inherit_series uid event_id [] w = w
inherit_series uid event_id (sa ∷ rest) w = inherit_series uid event_id rest (
    if sa.source_uid == uid && not (is_none (person w.tables sa.person_id))
    then (assign_locked event_id sa.person_id sa.role w).1
    else w)

unfoldable pub import_new : Occurrence → ImportReport → Service → ImportReport × Service
unfolding import_input inherit_series create_locked
import_new o rep w =
    let (ne, w1) = create_locked (import_input o) "import" w in
    (
      record rep { created = rep.created + 1 },
      inherit_series o.uid ne.id w1.tables.series_assignments w1,
    )

unfoldable pub import_cancelled : Event → Occurrence → ImportReport → Service → ImportReport
import_cancelled e o rep w = if eqb e.starts_at o.start then rep else record rep {
  conflicts =
      rep.conflicts
      ++ concat (
          e.title
          ∷ " ("
          ∷ w.env.format_time "02 Jan 15:04" o.start
          ∷ "): cancelled here but moved in the source"
          ∷ [])
        ∷ [];
}

-- A write through a pointer to the first row that fits.
unfoldable pub write_row : (Event → Bool) → (Event → Event) → Service → Service
unfolding map_events
write_row p f w = map_events (update_first p f) w

abbrev pub unmarked : Event → Event
unmarked e = record e { vanished_at = 0 }

-- The event is back in the feed.
unfoldable pub reappear : Event → Service → Event × Service
unfolding write_row
reappear e w = if is_zero e.vanished_at then (e, w) else (
  unmarked e,
  audit_locked "import.reappeared" (("event_id", text e.id) ∷ ("title", text e.title) ∷ [])
      (write_row (has_source_key e.source_key) unmarked w),
)

abbrev pub retitled : Occurrence → Event → Event
retitled o e = record e { title = title_of o; location = o.location }

unfoldable pub import_moved :
    Event → Occurrence → ImportReport → Result Event × Service → ImportReport × Service
unfolding write_row error_message
import_moved e o rep (err x, w) = (
  record rep {
    conflicts = rep.conflicts ++ concat (e.title ∷ ": move failed: " ∷ error_message x ∷ []) ∷ [];
  },
  w,
)
import_moved e o rep (ok row, w) =
    let e1 = retitled o row in
    (
      record rep {
        moved = rep.moved + 1;
        silent =
            if eqb row.fan_out_count 0
            then rep.silent
              ++ concat (
                  e1.title
                  ∷ " (now "
                  ∷ w.env.format_time "Mon, 02 Jan 15:04" e1.starts_at
                  ∷ ")"
                  ∷ [])
                ∷ []
            else rep.silent;
      },
      write_row (has_source_key o.key) (retitled o) w,
    )

abbrev pub refreshed : Occurrence → Event → Event
refreshed o e = record (retitled o e) { ends_at = o.finish; seq = suc e.seq }

unfoldable pub import_quiet :
    Event → Fields → Occurrence → ImportReport → Service → ImportReport × Service
unfolding write_row
import_quiet e ends o rep w = (
  record rep { updated = rep.updated + 1 },
  audit_locked "import.updated" (("event_id", text e.id) ∷ ("title", text (title_of o)) ∷ ends)
      (write_row (has_source_key o.key) (refreshed o) w),
)

-- An occurrence of a live event.
unfoldable pub import_live : Event → Occurrence → ImportReport → Service → ImportReport × Service
unfolding import_moved import_quiet move_locked
import_live e o rep w =
    if not (eqb e.starts_at o.start)
    then import_moved e o rep (move_locked e.id o.start o.finish "" "import" w)
    else if not (eqb e.ends_at o.finish)
    then import_quiet e (("ends_at", moment o.finish) ∷ []) o rep w
    else if not (e.title == title_of o) || not (e.location == o.location)
    then import_quiet e [] o rep w
    else (record rep { unchanged = rep.unchanged + 1 }, w)

unfoldable pub import_found :
    Option Event → Occurrence → ImportReport → Service → ImportReport × Service
unfolding import_new import_cancelled reappear import_live
import_found none o rep w = import_new o rep w
import_found (some e) o rep w =
    if is_cancelled e.status
    then (import_cancelled e o rep w, w)
    else (let (e1, w1) = reappear e w in import_live e1 o rep w1)

unfoldable pub import_each : List Occurrence → ImportReport → Service → ImportReport × Service
unfolding import_found
import_each [] rep w = (rep, w)
import_each (o ∷ rest) rep w =
    let (rep1, w1) = import_found (event_by_source_key o.key w) o rep w in import_each rest rep1 w1
