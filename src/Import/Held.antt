-- ===== src/Import/Held.antt =====
-- SyncCalendar never decides: what it does to the events, step by step.

use stattii.Base.{
  Bool, Bool-cases, List, String, [], any_of, inl, inr, not, refl, subst, suc, sym, ℕ, ◌&&◌, ◌++◌,
  ◌==◌, ◌∙◌, ◌∷◌, ◌≡◌,
}
use stattii.Import.Occurrences.{
  import_input, import_new, inherit_series, refreshed, retitled, unmarked, write_row,
}
use stattii.Import.Standing.{
  AllHeld, AllHeld-refl, AllHeld-trans, Held, append-AllHeld, update-AllHeld,
}
use stattii.Import.Sync.{marked}
use stattii.Lifecycle.{create_locked, map_events, new_event}
use stattii.Links.{is_none}
use stattii.Model.{
  Event, EventInput, ImportReport, Occurrence, OutboxItem, SeriesAssignment, Tables, person,
}
use stattii.Service.{
  Fields, Service, audit_locked, fire_webhooks_locked, moment, new_id, notify_admin_locked,
  of_event, text,
}
use stattii.Service.Frame.{Emits, audit-Emits, notify-Emits}
use stattii.Service.Frame.Messages.{fire-Emits}
use stattii.Staffing.{assign_locked, is_assignment}

-- A step that holds every row, under the same context.
abbrev pub HeldBy : Service → Service → Type 0
HeldBy w v = (v.ctx ≡ w.ctx) × AllHeld w.tables.events v.tables.events

pub HeldBy-refl : (w : Service) → HeldBy w w
HeldBy-refl w = (refl, AllHeld-refl w.tables.events)

pub HeldBy-trans : (u v w : Service) → HeldBy u v → HeldBy v w → HeldBy u w
HeldBy-trans u v w h k =
    (k.0 ∙ h.0, AllHeld-trans u.tables.events v.tables.events w.tables.events h.1 k.1)

pub HeldBy-Emits : {P : OutboxItem → Type 0} (w v : Service) → Emits P w v → HeldBy w v
HeldBy-Emits w v a = (
  a.ctx,
  subst (λ (t : Tables). AllHeld w.tables.events t.events) (sym a.tables)
      (AllHeld-refl w.tables.events),
)

pub audit-HeldBy :
    (kind : String) (fields : Fields) (w : Service) → HeldBy w (audit_locked kind fields w)
audit-HeldBy kind fields w = HeldBy-Emits w (audit_locked kind fields w) (audit-Emits kind fields w)

pub notify-HeldBy :
    (subject body : String) (w : Service) → HeldBy w (notify_admin_locked subject body w)
notify-HeldBy subject body w =
    HeldBy-Emits w (notify_admin_locked subject body w) (notify-Emits subject body w)

pub write_row-HeldBy :
    (p : Event → Bool) (f : Event → Event) (w : Service)
    → ((e : Event) → Held e (f e))
    → HeldBy w (write_row p f w)
unfolding write_row map_events
write_row-HeldBy p f w h = (refl, update-AllHeld p f w.tables.events h)

-- A write and its audit line.
pub write_audit-HeldBy :
    (p : Event → Bool) (f : Event → Event) (kind : String) (fields : Fields) (w : Service)
    → ((e : Event) → Held e (f e))
    → HeldBy w (audit_locked kind fields (write_row p f w))
write_audit-HeldBy p f kind fields w h =
    HeldBy-trans w (write_row p f w) (audit_locked kind fields (write_row p f w))
      (write_row-HeldBy p f w h) (audit-HeldBy kind fields (write_row p f w))

pub retitled-Held : (o : Occurrence) (e : Event) → Held e (retitled o e)
retitled-Held o e = record { id = refl; cancelled = refl; note = refl; if_unconfirmed = refl }

pub refreshed-Held : (o : Occurrence) (e : Event) → Held e (refreshed o e)
refreshed-Held o e = record { id = refl; cancelled = refl; note = refl; if_unconfirmed = refl }

pub unmarked-Held : (e : Event) → Held e (unmarked e)
unmarked-Held e = record { id = refl; cancelled = refl; note = refl; if_unconfirmed = refl }

pub marked-Held : (at : ℕ) (e : Event) → Held e (marked at e)
marked-Held at e = record { id = refl; cancelled = refl; note = refl; if_unconfirmed = refl }

-- The series' people on a new event.
assign_locked-HeldBy :
    (event_id person_id role : String) (w : Service)
    → HeldBy w (assign_locked event_id person_id role w).1
unfolding assign_locked
assign_locked-HeldBy event_id person_id role w =
    elim (Bool-cases (any_of (is_assignment event_id person_id) w.tables.assignments)) [
      | inl e ↦ rw (e, assign_locked) (HeldBy-refl w)
      | inr e ↦ rw (e, assign_locked) (audit-HeldBy "assigned" _ _)
    ]

inherit_series-HeldBy :
    (uid event_id : String) (rows : List SeriesAssignment) (w : Service)
    → HeldBy w (inherit_series uid event_id rows w)
unfolding inherit_series
inherit_series-HeldBy uid event_id [] w = HeldBy-refl w
inherit_series-HeldBy uid event_id (sa ∷ rest) w =
    elim (Bool-cases (sa.source_uid == uid && not (is_none (person w.tables sa.person_id)))) [
      | inl e ↦
          let w1 = (assign_locked event_id sa.person_id sa.role w).1 in
          rw (e, inherit_series)
            (HeldBy-trans w w1 (inherit_series uid event_id rest w1)
              (assign_locked-HeldBy event_id sa.person_id sa.role w)
              (inherit_series-HeldBy uid event_id rest w1))
      | inr e ↦ rw (e, inherit_series) (inherit_series-HeldBy uid event_id rest w)
    ]

create_locked-HeldBy :
    (i : EventInput) (actor : String) (w : Service) → HeldBy w (create_locked i actor w).1
unfolding create_locked new_id map_events new_event
create_locked-HeldBy i actor w =
    let e = new_event i (w.env.new_id "ev" w.drawn) w.now in
    let w1 : Service = record w {
      drawn = suc w.drawn;
      tables = record w.tables { events = w.tables.events ++ e ∷ [] };
    } in
    let w2 =
      audit_locked "event.created"
        (("event_id", text (w.env.new_id "ev" w.drawn))
          ∷ ("title", text i.title)
          ∷ ("starts_at", moment i.starts_at)
          ∷ ("actor", text actor)
          ∷ [])
        w1 in
    HeldBy-trans w w1 (fire_webhooks_locked "event.created" (of_event e) w2)
      (refl, append-AllHeld w.tables.events e refl)
      (HeldBy-trans w1 w2 (fire_webhooks_locked "event.created" (of_event e) w2)
        (audit-HeldBy "event.created" _ w1)
        (HeldBy-Emits w2 (fire_webhooks_locked "event.created" (of_event e) w2)
          (fire-Emits "event.created" (of_event e) w2)))

pub import_new-HeldBy :
    (o : Occurrence) (rep : ImportReport) (w : Service) → HeldBy w (import_new o rep w).1
unfolding import_new
import_new-HeldBy o rep w =
    let c = create_locked (import_input o) "import" w in
    HeldBy-trans w c.1 (inherit_series o.uid c.0.id c.1.tables.series_assignments c.1)
      (create_locked-HeldBy (import_input o) "import" w)
      (inherit_series-HeldBy o.uid c.0.id c.1.tables.series_assignments c.1)
