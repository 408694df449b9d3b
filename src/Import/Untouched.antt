-- ===== src/Import/Untouched.antt =====
-- SyncCalendar never decides: no event is cancelled by a fetch, and none revived.

use stattii.Base.{
  Bool-cases, List, String, [], inl, inr, length, map, refl, some, ℕ, ◌&&◌, ◌+◌, ◌==◌, ◌∷◌,
}
use stattii.Import.Asking.{
  ask_vanished_each, ask_vanished_event, ask_vanished_locked, ask_vanished_people, page_gone,
  vanished_ask, vanished_header,
}
use stattii.Import.Held.{
  HeldBy, HeldBy-Emits, HeldBy-refl, HeldBy-trans, audit-HeldBy, marked-Held, notify-HeldBy,
  write_row-HeldBy,
}
use stattii.Import.Merging.{import_each-HeldBy}
use stattii.Import.Occurrences.{empty_report, import_each, skip_label}
use stattii.Import.Standing.{AllHeld, AllHeld-refl}
use stattii.Import.Sync.{
  finish_import, is_missed, mark_vanished, marked, miss_event, no_occurrences, page_silent,
  suspect_feed, sweep_event, sweep_vanished, sync_calendar,
}
use stattii.Lifecycle.Transactions.{NamedTxns}
use stattii.Links.{cancels, confirms, ensure_link, links_locked, pick_token}
use stattii.Model.{
  ActionKind, Event, ImportReport, Occurrence, Person, Skipped, assignees, has_id, is_zero,
}
use stattii.Scheduler.{no_people, reachable_of}
use stattii.Service.{
  Service, audit_locked, enqueue_to_person_locked, new_token, notify_admin_locked, number,
  save_locked, text,
}
use stattii.Service.Frame.{save-Emits}
use stattii.Service.Frame.Messages.{person-Emits}

mark_vanished-HeldBy :
    (at : ℕ) (e : Event) (gone_events : List Event) (w : Service)
    → HeldBy w (mark_vanished at e gone_events w).1
unfolding mark_vanished
mark_vanished-HeldBy at e gone_events w = elim (Bool-cases (is_zero e.vanished_at)) [
  | inl fresh ↦
      rw (fresh, mark_vanished) (write_row-HeldBy (has_id e.id) (marked at) w (marked-Held at))
  | inr known ↦ rw (known, mark_vanished) (HeldBy-refl w)
]

miss_event-HeldBy :
    (e : Event) (rep : ImportReport) (gone_events : List Event) (w : Service)
    → HeldBy w (miss_event e rep gone_events w).2
unfolding miss_event
miss_event-HeldBy e rep gone_events w =
    let w1 =
      audit_locked "import.vanished" (("event_id", text e.id) ∷ ("title", text e.title) ∷ []) w in
    HeldBy-trans w w1 (mark_vanished rep.fetched_at e gone_events w1).1
      (audit-HeldBy "import.vanished" _ w) (mark_vanished-HeldBy rep.fetched_at e gone_events w1)

sweep_event-HeldBy :
    (occs : List Occurrence) (until : ℕ) (e : Event) (rep : ImportReport) (gone_events : List Event)
    (w : Service)
    → HeldBy w (sweep_event occs until e rep gone_events w).2
unfolding sweep_event
sweep_event-HeldBy occs until e rep gone_events w =
    elim (Bool-cases (is_missed occs w.now until e)) [
      | inl missed ↦ rw (missed, sweep_event) (miss_event-HeldBy e rep gone_events w)
      | inr shown ↦ rw (shown, sweep_event) (HeldBy-refl w)
    ]

sweep_vanished-HeldBy :
    (occs : List Occurrence) (until : ℕ) (es : List Event) (rep : ImportReport)
    (gone_events : List Event) (w : Service)
    → HeldBy w (sweep_vanished occs until es rep gone_events w).2
unfolding sweep_vanished suspect_feed
sweep_vanished-HeldBy occs until [] rep gone_events w = HeldBy-refl w
sweep_vanished-HeldBy occs until (e ∷ rest) rep gone_events w =
    elim (Bool-cases (is_missed occs w.now until e && no_occurrences occs)) [
      | inl broken ↦ rw (broken, sweep_vanished) (audit-HeldBy "import.suspect" _ w)
      | inr fine ↦
          let r = sweep_event occs until e rep gone_events w in
          rw (fine, sweep_vanished)
            (HeldBy-trans w r.2 (sweep_vanished occs until rest r.0 r.1 r.2).2
              (sweep_event-HeldBy occs until e rep gone_events w)
              (sweep_vanished-HeldBy occs until rest r.0 r.1 r.2))
    ]

ensure_link-HeldBy :
    (event_id person_id : String) (action : ActionKind) (tok : String) (w : Service)
    → HeldBy w (ensure_link event_id person_id action tok w).1
unfolding ensure_link new_token
ensure_link-HeldBy event_id person_id action tok w = elim (Bool-cases (tok == "")) [
  | inl e ↦ rw (e, ensure_link) (refl, AllHeld-refl w.tables.events)
  | inr e ↦ rw (e, ensure_link) (HeldBy-refl w)
]

links_locked-HeldBy :
    (event_id person_id : String) (w : Service) → HeldBy w (links_locked event_id person_id w).1
unfolding links_locked
links_locked-HeldBy event_id person_id w =
    let c = pick_token (confirms event_id person_id) "" w.tables.links in
    let x = pick_token (cancels event_id person_id) "" w.tables.links in
    let w1 = (ensure_link event_id person_id ActionKind.confirm c w).1 in
    HeldBy-trans w w1 (ensure_link event_id person_id ActionKind.cancel x w1).1
      (ensure_link-HeldBy event_id person_id ActionKind.confirm c w)
      (ensure_link-HeldBy event_id person_id ActionKind.cancel x w1)

ask_vanished_people-HeldBy :
    (e : Event) (header : String) (ps : List Person) (w : Service)
    → HeldBy w (ask_vanished_people e header ps w)
unfolding ask_vanished_people vanished_ask
ask_vanished_people-HeldBy e header [] w = HeldBy-refl w
ask_vanished_people-HeldBy e header (p ∷ ps) w =
    let r = links_locked e.id p.id w in
    let item = vanished_ask e header r.0.0 r.0.1 r.1 in
    let w2 = (enqueue_to_person_locked p item r.1).1 in
    HeldBy-trans w r.1 (ask_vanished_people e header ps w2) (links_locked-HeldBy e.id p.id w) (
      HeldBy-trans r.1 w2 (ask_vanished_people e header ps w2)
        (HeldBy-Emits r.1 w2 (person-Emits p item r.1 refl))
        (ask_vanished_people-HeldBy e header ps w2))

ask_vanished_event-HeldBy : (e : Event) (w : Service) → HeldBy w (ask_vanished_event e w).1
unfolding ask_vanished_event
ask_vanished_event-HeldBy e w =
    let ps = reachable_of (assignees w.tables e.id) in
    elim (Bool-cases (no_people ps)) [
      | inl nobody ↦ rw (nobody, ask_vanished_event) (HeldBy-refl w)
      | inr somebody ↦
          let w1 = ask_vanished_people e (vanished_header e w) ps w in
          rw (somebody, ask_vanished_event)
            (HeldBy-trans w w1 (audit_locked "vanished.asked" _ w1)
              (ask_vanished_people-HeldBy e (vanished_header e w) ps w)
              (audit-HeldBy "vanished.asked" _ w1))
    ]

ask_vanished_each-HeldBy :
    (es : List Event) (asked : ℕ) (w : Service) → HeldBy w (ask_vanished_each es asked w).1
unfolding ask_vanished_each
ask_vanished_each-HeldBy [] asked w = HeldBy-refl w
ask_vanished_each-HeldBy (e ∷ rest) asked w =
    let r = ask_vanished_event e w in
    HeldBy-trans w r.1 (ask_vanished_each rest (asked + r.0) r.1).1 (ask_vanished_event-HeldBy e w)
      (ask_vanished_each-HeldBy rest (asked + r.0) r.1)

page_gone-HeldBy : (gs : List Event) (w : Service) → HeldBy w (page_gone gs w)
unfolding page_gone ask_vanished_locked
page_gone-HeldBy [] w = HeldBy-refl w
page_gone-HeldBy (g ∷ gs) w =
    let r = ask_vanished_each (g ∷ gs) 0 w in
    HeldBy-trans w r.1 (notify_admin_locked _ _ r.1) (ask_vanished_each-HeldBy (g ∷ gs) 0 w)
      (notify-HeldBy _ _ r.1)

page_silent-HeldBy : (lines : List String) (w : Service) → HeldBy w (page_silent lines w)
unfolding page_silent
page_silent-HeldBy [] w = HeldBy-refl w
page_silent-HeldBy (s ∷ rest) w = notify-HeldBy _ _ w

finish_import-HeldBy : (rep : ImportReport) (w : Service) → HeldBy w (finish_import rep w).1
unfolding finish_import
finish_import-HeldBy rep w =
    let w1 =
      audit_locked "import.done"
        (("created", number rep.created)
          ∷ ("moved", number rep.moved)
          ∷ ("updated", number rep.updated)
          ∷ ("unchanged", number rep.unchanged)
          ∷ ("vanished", number (length rep.vanished))
          ∷ ("conflicts", number (length rep.conflicts))
          ∷ ("skipped", number (length rep.skipped))
          ∷ ("silent", number (length rep.silent))
          ∷ [])
        w in
    let w2 : Service = record w1 { tables = record w1.tables { last_import = some rep } } in
    let kept : HeldBy w1 w2 = (refl, AllHeld-refl w1.tables.events) in
    HeldBy-trans w w1 (save_locked w2) (audit-HeldBy "import.done" _ w)
      (HeldBy-trans w1 w2 (save_locked w2) kept (HeldBy-Emits w2 (save_locked w2) (save-Emits w2)))

-- Where no transaction id is empty, a fetch, whatever the feed holds: no event is lost, none is
-- cancelled and none revived, every event keeps its id, its note and its choice of what silence
-- means, and what is new comes last and is not cancelled.
pub sync_calendar-AllHeld :
    (occs : List Occurrence) (skips : List Skipped) (until : ℕ) (w : Service)
    → NamedTxns w.env
    → AllHeld w.tables.events (sync_calendar occs skips until w).1.tables.events
unfolding sync_calendar
sync_calendar-AllHeld occs skips until w named =
    let rep : ImportReport = record (empty_report w.now) { skipped = map skip_label skips } in
    let a = import_each occs rep w in
    let b = sweep_vanished occs until a.1.tables.events a.0 [] a.1 in
    let c = page_gone b.1 b.2 in
    let d = page_silent b.0.silent c in
    (HeldBy-trans w a.1 (finish_import b.0 d).1 (import_each-HeldBy occs rep w named) (
      HeldBy-trans a.1 b.2 (finish_import b.0 d).1
        (sweep_vanished-HeldBy occs until a.1.tables.events a.0 [] a.1)
        (HeldBy-trans b.2 c (finish_import b.0 d).1 (page_gone-HeldBy b.1 b.2) (
          HeldBy-trans c d (finish_import b.0 d).1 (page_silent-HeldBy b.0.silent c)
            (finish_import-HeldBy b.0 d))))).1
