-- ===== src/Deletion/Erasure.antt =====
-- What a deletion removes, what it leaves, and when it is refused.

use stattii.Base.{
  Bool, Bool-cases, List, Option, Result, String, [], ap, arith, count_where, count_where-reject,
  err, false, find_first, inl, inr, ltb, none, not_found, ok, refl, reject, some, subst, sym, ◌++◌,
  ◌==◌, ◌∷◌, ◌≡◌,
}
use stattii.Deletion.Defs.{
  delete_event, delete_found, dropped_with_event, erase_event, fan_out_in_flight_locked,
  purge_event, set_tables, still_on, would_return,
}
use stattii.Model.{
  ActionLink, Assignment, Event, Guest, InviteLink, OutboxItem, Proposal, Response, Tables, event,
  has_id,
}
use stattii.Service.{
  Fields, Payload, Service, audit_locked, fire_webhooks_locked, of_event, save_locked,
}
use stattii.Service.Frame.{Emits, Emits-trans, Emits-page, NoTxn, audit-Emits, save-Emits}
use stattii.Service.Frame.Messages.{fire-Emits}
use stattii.Service.Health.Durability.{Durable, save-Durable}

pub find_first-reject :
    {A : Type 0} (p : A → Bool) (xs : List A) → find_first p (reject p xs) ≡ none
find_first-reject p [] = refl
find_first-reject p (x ∷ xs) = elim (Bool-cases (p x)) [
  | inl e ↦ rw e (find_first-reject p xs)
  | inr e ↦ rw (e, find_first-reject p xs) (rw e refl)
]

-- No row names the event any more.
pub record NoTrace (id : String) (t : Tables) : Type 0 where
  pub event : event t id ≡ none
  pub assignments : count_where (λ (a : Assignment). a.event_id == id) t.assignments ≡ 0
  pub links : count_where (λ (l : ActionLink). l.event_id == id) t.links ≡ 0
  pub responses : count_where (λ (r : Response). r.event_id == id) t.responses ≡ 0
  pub proposals : count_where (λ (p : Proposal). p.event_id == id) t.proposals ≡ 0
  pub guests : count_where (λ (g : Guest). g.event_id == id) t.guests ≡ 0
  pub invites : count_where (λ (i : InviteLink). i.event_id == id) t.invites ≡ 0

purge_event-NoTrace : (id : String) (t : Tables) → NoTrace id (purge_event id t)
purge_event-NoTrace id t = record {
  event = find_first-reject (has_id id) t.events;
  assignments = count_where-reject _ t.assignments;
  links = count_where-reject _ t.links;
  responses = count_where-reject _ t.responses;
  proposals = count_where-reject _ t.proposals;
  guests = count_where-reject _ t.guests;
  invites = count_where-reject _ t.invites;
}

-- The effect of a deletion of an event: it was over or cancelled, none of its last notices was
-- moving, no row of any table names it, and the outbox keeps everything it had.
pub record EventErased (id : String) (e : Event) (w v : Service) : Type 0 where
  pub off : still_on w.now e ≡ false
  pub settled : fan_out_in_flight_locked e w ≡ 0
  pub gone : NoTrace id v.tables
  pub people : v.tables.people ≡ w.tables.people
  pub sent : List OutboxItem
  pub outbox : v.outbox ≡ w.outbox ++ sent
  pub kept : Durable v

pub emit_tail :
    (event : String) (payload : Payload) (kind : String) (fields : Fields) (w : Service)
    → Emits NoTxn w (save_locked (fire_webhooks_locked event payload (audit_locked kind fields w)))
emit_tail event payload kind fields w =
    Emits-trans (Emits-page (audit-Emits kind fields w))
      (Emits-trans (fire-Emits event payload _) (Emits-page (save-Emits _)))

erase_event-EventErased :
    (id : String) (e : Event) (w : Service)
    → still_on w.now e ≡ false
    → ltb 0 (fan_out_in_flight_locked e w) ≡ false
    → EventErased id e w (erase_event id e w)
unfolding erase_event
erase_event-EventErased id e w off still =
    let tail =
      emit_tail "event.deleted" (of_event e) "event.deleted" (dropped_with_event id e w.tables)
        (set_tables (purge_event id w.tables) w) in
    record {
      off = off;
      settled = ground (arith, still);
      gone = subst (NoTrace id) (sym tail.tables) (purge_event-NoTrace id w.tables);
      people = ap (λ t. t.people) tail.tables;
      sent = tail.sent;
      outbox = tail.outbox;
      kept = save-Durable _;
    }

abbrev pub EventDeletion : Option Event → String → Service → Result (Unit {0}) × Service → Type 0
EventDeletion none id w r = r ≡ (err not_found, w)
EventDeletion (some e) id w (ok _, v) = EventErased id e w v
EventDeletion (some e) id w (err _, v) = v ≡ w

delete_found-EventDeletion :
    (found : Option Event) (id : String) (w : Service)
    → EventDeletion found id w (delete_found id found w)
unfolding delete_found
delete_found-EventDeletion none id w = refl
delete_found-EventDeletion (some e) id w = elim (Bool-cases (still_on w.now e)) [
  | inl a ↦ rw (a, delete_found) refl
  | inr a ↦
      rw (a, delete_found)
        (elim (Bool-cases (would_return e)) [
          | inl b ↦ rw b refl
          | inr b ↦ rw b (elim (Bool-cases (ltb 0 (fan_out_in_flight_locked e w))) [
            | inl c ↦ rw c refl
            | inr c ↦ rw c (erase_event-EventErased id e w a c)
          ])
        ])
]

-- DeleteEvent on every branch: an unknown event is not found, a refusal has no effect, and an
-- event is only ever deleted when it is off and its last propagation has come to rest; then no
-- row names it any more, the outbox keeps what it had, and the deletion is durable.
pub delete_event-EventDeletion :
    (id : String) (w : Service) → EventDeletion (event w.tables id) id w (delete_event id w)
unfolding delete_event
delete_event-EventDeletion id w = delete_found-EventDeletion (event w.tables id) id w
