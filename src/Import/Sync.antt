-- ===== src/Import/Sync.antt =====
-- SyncCalendar of internal/core/import.go: the occurrences, the vanished check and the pages.

use stattii.Base.{
  Bool, List, String, [], any_of, concat, false, if◌then◌else◌, join, length, ltb, map, not, some,
  true, ℕ, ◌&&◌, ◌++◌, ◌==◌, ◌∷◌,
}
use stattii.Import.Asking.{page_gone}
use stattii.Import.Occurrences.{empty_report, import_each, skip_label, write_row}
use stattii.Model.{Event, ImportReport, Occurrence, Skipped, has_id, is_cancelled, is_zero}
use stattii.Service.{Service, audit_locked, notify_admin_locked, number, save_locked, text}

-- An imported event that this fetch should have shown, and did not.
abbrev pub is_missed : List Occurrence → ℕ → ℕ → Event → Bool
is_missed occs now until e =
    not (e.source_key == "")
    && not (any_of (λ o. o.key == e.source_key) occs)
    && not (is_cancelled e.status)
    && not (ltb e.starts_at now)
    && not (ltb until e.starts_at)

abbrev pub no_occurrences : List Occurrence → Bool
no_occurrences [] = true
no_occurrences _ = false

abbrev pub marked : ℕ → Event → Event
marked at e = record e { vanished_at = at }

-- The marker, on the first fetch that misses the event.
unfoldable pub mark_vanished : ℕ → Event → List Event → Service → List Event × Service
unfolding write_row
mark_vanished at e gone_events w =
    if is_zero e.vanished_at
    then (gone_events ++ marked at e ∷ [], write_row (has_id e.id) (marked at) w)
    else (gone_events, w)

-- One event of the vanished check.
unfoldable pub miss_event :
    Event → ImportReport → List Event → Service → ImportReport × List Event × Service
unfolding mark_vanished
miss_event e rep gone_events w =
    let rep1 = record rep {
      vanished =
          rep.vanished
          ++ concat (e.title ∷ " (" ∷ w.env.format_time "Mon, 02 Jan 15:04" e.starts_at ∷ ")" ∷ [])
            ∷ [];
    } in
    let w1 =
      audit_locked "import.vanished" (("event_id", text e.id) ∷ ("title", text e.title) ∷ []) w in
    let (gone1, w2) = mark_vanished rep.fetched_at e gone_events w1 in (rep1, gone1, w2)

unfoldable pub sweep_event :
    List Occurrence
    → ℕ
    → Event
    → ImportReport
    → List Event
    → Service
    → ImportReport × List Event × Service
unfolding miss_event
sweep_event occs until e rep gone_events w =
    if is_missed occs w.now until e then miss_event e rep gone_events w else (rep, gone_events, w)

unfoldable pub suspect_feed : ImportReport → Service → ImportReport × Service
suspect_feed rep w = (
  record rep {
    suspect = true;
    skipped =
        rep.skipped
        ++ "feed returned zero occurrences while imported events exist — vanished check skipped"
          ∷ [];
  },
  audit_locked "import.suspect" (("reason", text "zero occurrences") ∷ []) w,
)

-- The vanished check, over the events as they stand after the occurrences.
unfoldable pub sweep_vanished :
    List Occurrence
    → ℕ
    → List Event
    → ImportReport
    → List Event
    → Service
    → ImportReport × List Event × Service
unfolding sweep_event suspect_feed
sweep_vanished occs until [] rep gone_events w = (rep, gone_events, w)
sweep_vanished occs until (e ∷ rest) rep gone_events w =
    let (rep1, gone1, w1) = sweep_event occs until e rep gone_events w in
    let next = sweep_vanished occs until rest rep1 gone1 w1 in
    if is_missed occs w.now until e && no_occurrences occs
    then (let (rep2, w2) = suspect_feed rep w in (rep2, gone_events, w2))
    else next

unfoldable pub page_silent : List String → Service → Service
page_silent [] w = w
page_silent (s ∷ rest) w =
    notify_admin_locked
      (concat (
        "Moved but nobody was told: " ∷ w.env.format_number (length (s ∷ rest)) ∷ " event(s)" ∷ []))
      (concat (
        "The calendar source moved these events and stattii ran the move transaction, but the MOVED notice reached nobody "
        ∷ "(no broadcast target, no reachable responsible, no guest with an address):\n- "
        ∷ join "\n- " (s ∷ rest)
        ∷ "\nTell people by hand, then add a broadcast target or give the responsible people a channel."
        ∷ []))
      w

-- The end of a fetch: the audit line, the report in the state, the save.
unfoldable pub finish_import : ImportReport → Service → ImportReport × Service
finish_import rep w =
    let w1 =
      audit_locked "import.done"
        (("created", number rep.created)
          ∷ ("moved", number rep.moved)
          ∷ ("updated", number rep.updated)
          ∷ ("unchanged", number rep.unchanged)
          ∷ ("vanished", number (length rep.vanished))
          ∷ ("conflicts", number (length rep.conflicts))
          ∷ ("skipped", number (length rep.skipped))
          ∷ ("silent", number (length rep.silent))
          ∷ [])
        w in
    (rep, save_locked (record w1 { tables = record w1.tables { last_import = some rep } }))

-- SyncCalendar
unfoldable pub sync_calendar : List Occurrence → List Skipped → ℕ → Service → ImportReport × Service
unfolding import_each sweep_vanished page_gone page_silent finish_import
sync_calendar occs skips until w =
    let rep = record (empty_report w.now) { skipped = map skip_label skips } in
    let (rep1, w1) = import_each occs rep w in
    let (rep2, gone_events, w2) = sweep_vanished occs until w1.tables.events rep1 [] w1 in
    finish_import rep2 (page_silent rep2.silent (page_gone gone_events w2))
