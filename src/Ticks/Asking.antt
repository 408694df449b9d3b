-- ===== src/Ticks/Asking.antt =====
-- The asks of a round leave the events alone, and its marks spare them.

use stattii.Base.{
  Bool-cases, List, String, [], ap, inl, inr, refl, some, subst, sym, update_first, ◌==◌, ◌∙◌, ◌∷◌,
  ◌≡◌,
}
use stattii.Lifecycle.{map_events, put_event}
use stattii.Links.{cancels, confirms, ensure_link, links_locked, pick_token}
use stattii.Model.{ActionKind, Event, OutboxItem, Person, Tables, event, has_id}
use stattii.Scheduler.{ask_each, ask_item, enqueue_ask_locked}
use stattii.Scheduler.OptIn.{SparedBy}
use stattii.Scheduler.Spared.{AllSpared, AllSpared-refl, Spared, update-AllSpared}
use stattii.Service.{Service, new_token}
use stattii.Service.Frame.{Emits}
use stattii.Service.Frame.Messages.{person-Emits}

-- A step that leaves the events alone, under the same context.
abbrev pub SameEvents : Service → Service → Type 0
SameEvents w v = (v.ctx ≡ w.ctx) × (v.tables.events ≡ w.tables.events)

pub SameEvents-trans : (u v w : Service) → SameEvents u v → SameEvents v w → SameEvents u w
SameEvents-trans u v w h k = (k.0 ∙ h.0, k.1 ∙ h.1)

pub SameEvents-Emits : {P : OutboxItem → Type 0} (w v : Service) → Emits P w v → SameEvents w v
SameEvents-Emits w v a = (a.ctx, ap (λ (t : Tables). t.events) a.tables)

pub SameEvents-SparedBy : (w v : Service) → SameEvents w v → SparedBy w v
SameEvents-SparedBy w v h =
    (h.0, subst (λ es. AllSpared w.tables.events es) (sym h.1) (AllSpared-refl w.tables.events))

ensure_link-SameEvents :
    (event_id person_id : String) (action : ActionKind) (tok : String) (w : Service)
    → SameEvents w (ensure_link event_id person_id action tok w).1
unfolding ensure_link new_token
ensure_link-SameEvents event_id person_id action tok w = elim (Bool-cases (tok == "")) [
  | inl e ↦ rw (e, ensure_link) (refl, refl)
  | inr e ↦ rw (e, ensure_link) (refl, refl)
]

links_locked-SameEvents :
    (event_id person_id : String) (w : Service) → SameEvents w (links_locked event_id person_id w).1
unfolding links_locked
links_locked-SameEvents event_id person_id w =
    let c = pick_token (confirms event_id person_id) "" w.tables.links in
    let x = pick_token (cancels event_id person_id) "" w.tables.links in
    let w1 = (ensure_link event_id person_id ActionKind.confirm c w).1 in
    SameEvents-trans w w1 (ensure_link event_id person_id ActionKind.cancel x w1).1
      (ensure_link-SameEvents event_id person_id ActionKind.confirm c w)
      (ensure_link-SameEvents event_id person_id ActionKind.cancel x w1)

enqueue_ask-SameEvents :
    (e : Event) (p : Person) (subject : String) (w : Service)
    → SameEvents w (enqueue_ask_locked e p subject w)
unfolding enqueue_ask_locked
enqueue_ask-SameEvents e p subject w =
    let r = links_locked e.id p.id w in
    SameEvents-trans w r.1 (enqueue_ask_locked e p subject w) (links_locked-SameEvents e.id p.id w)
      (SameEvents-Emits r.1 _
        (person-Emits p (ask_item e subject r.0.0 r.0.1 r.1) r.1 (unfold ask_item in refl)))

pub ask_each-SameEvents :
    (e : Event) (subject : String) (ps : List Person) (w : Service)
    → SameEvents w (ask_each e subject ps w)
unfolding ask_each
ask_each-SameEvents e subject [] w = (refl, refl)
ask_each-SameEvents e subject (p ∷ ps) w =
    let w1 = enqueue_ask_locked e p subject w in
    SameEvents-trans w w1 (ask_each e subject ps w1) (enqueue_ask-SameEvents e p subject w)
      (ask_each-SameEvents e subject ps w1)

-- The row that a step found is written after steps that left the events alone.
pub put_event-SparedBy :
    (e e' : Event) (w v : Service)
    → SameEvents w v
    → event w.tables e.id ≡ some e
    → e'.id ≡ e.id
    → Spared e e'
    → SparedBy w (put_event e' v)
unfolding put_event map_events
put_event-SparedBy e e' w v same found named spared =
    let es = w.tables.events in
    let written : AllSpared es (update_first (has_id e'.id) (λ _. e') es) =
      subst (λ i. AllSpared es (update_first (has_id i) (λ _. e') es)) (sym named)
        (update-AllSpared e.id e e' es found spared) in
    (
      same.0,
      subst (λ xs. AllSpared es (update_first (has_id e'.id) (λ _. e') xs)) (sym same.1) written,
    )
