-- ===== src/Deletion/Persons.antt =====
-- What the deletion of a person removes, and the answers that it keeps.

use stattii.Base.{
  Bool, Bool-cases, List, Option, Result, String, [], ap, count_where, count_where-reject, err,
  false, inl, inr, ltb, none, not, not_found, ok, refl, some, ℕ, ◌&&◌, ◌++◌, ◌==◌, ◌∙◌, ◌∷◌, ◌≡◌,
}
use stattii.Deletion.Defs.{
  delete_person, delete_person_found, delete_person_open, dropped_with_person, erase_person,
  open_title, open_titles, purge_person, set_tables,
}
use stattii.Deletion.Erasure.{emit_tail, find_first-reject}
use stattii.Deliveries.{event_end}
use stattii.Model.{
  ActionLink, Assignment, Event, OutboxItem, Person, Tables, event, is_person, person,
}
use stattii.Service.{Service, of_fields, text}
use stattii.Service.Health.Durability.{Durable, save-Durable}

-- An assignment of the person to an event that is not over, cancelled or not.
abbrev pub is_ahead : ℕ → Option Event → Bool
is_ahead now none = false
is_ahead now (some e) = not (ltb (event_end e) now)

abbrev pub holds_open : ℕ → String → Tables → Assignment → Bool
holds_open now id t a = a.person_id == id && is_ahead now (event t a.event_id)

open_title-ahead :
    (now : ℕ) (found : Option Event) (titles : List String)
    → open_title now found titles ≡ []
    → (is_ahead now found ≡ false) × (titles ≡ [])
unfolding open_title
open_title-ahead now none titles h = (refl, h)
open_title-ahead now (some e) titles h = elim (Bool-cases (ltb (event_end e) now)) [
  | inl a ↦ (rw a refl, rw (a, open_title) at h)
  | inr a ↦ absurd (let bad = rw (a, open_title) at h in cc)
]

open_titles-none :
    (now : ℕ) (id : String) (t : Tables) (as' : List Assignment)
    → open_titles now id t as' ≡ []
    → count_where (holds_open now id t) as' ≡ 0
unfolding open_titles
open_titles-none now id t [] h = refl
open_titles-none now id t (a ∷ rest) h = elim (Bool-cases (a.person_id == id)) [
  | inl e ↦
      let both =
        open_title-ahead now (event t a.event_id) (open_titles now id t rest)
          (rw (e, open_titles) at h) in
      rw (e, both.0) (open_titles-none now id t rest both.1)
  | inr e ↦ rw e (open_titles-none now id t rest (rw (e, open_titles) at h))
]

-- The effect of a deletion of a person.
pub record PersonErased (id : String) (w v : Service) : Type 0 where
  pub unassigned : count_where (holds_open w.now id w.tables) w.tables.assignments ≡ 0
  pub gone : person v.tables id ≡ none
  pub assignments : count_where (λ (a : Assignment). a.person_id == id) v.tables.assignments ≡ 0
  pub links : count_where (λ (l : ActionLink). l.person_id == id) v.tables.links ≡ 0
  pub answers : v.tables.responses ≡ w.tables.responses
  pub events : v.tables.events ≡ w.tables.events
  pub sent : List OutboxItem
  pub outbox : v.outbox ≡ w.outbox ++ sent
  pub kept : Durable v

abbrev pub PersonDeletion : Option Person → String → Service → Result (Unit {0}) × Service → Type 0
PersonDeletion none id w r = r ≡ (err not_found, w)
PersonDeletion (some p) id w (ok _, v) = PersonErased id w v
PersonDeletion (some p) id w (err _, v) = v ≡ w

erase_person-PersonErased :
    (id : String) (p : Person) (w : Service)
    → open_titles w.now id w.tables w.tables.assignments ≡ []
    → PersonErased id w (erase_person id p w)
unfolding erase_person
erase_person-PersonErased id p w h =
    let tail =
      emit_tail "person.deleted" (of_fields (("id", text id) ∷ ("name", text p.name) ∷ []))
        "person.deleted" (dropped_with_person id p w.tables)
        (set_tables (purge_person id w.tables) w) in
    record {
      unassigned = open_titles-none w.now id w.tables w.tables.assignments h;
      gone = ap (λ t. person t id) tail.tables ∙ find_first-reject (is_person id) w.tables.people;
      assignments =
          ap (λ t. count_where (λ (a : Assignment). a.person_id == id) t.assignments) tail.tables
          ∙ count_where-reject _ w.tables.assignments;
      links =
          ap (λ t. count_where (λ (l : ActionLink). l.person_id == id) t.links) tail.tables
          ∙ count_where-reject _ w.tables.links;
      answers = ap (λ t. t.responses) tail.tables;
      events = ap (λ t. t.events) tail.tables;
      sent = tail.sent;
      outbox = tail.outbox;
      kept = save-Durable _;
    }

delete_person_open-PersonDeletion :
    (id : String) (p : Person) (titles : List String) (w : Service)
    → open_titles w.now id w.tables w.tables.assignments ≡ titles
    → PersonDeletion (some p) id w (delete_person_open id p titles w)
unfolding delete_person_open
delete_person_open-PersonDeletion id p [] w h = erase_person-PersonErased id p w h
delete_person_open-PersonDeletion id p (t ∷ ts) w h = refl

delete_person_found-PersonDeletion :
    (found : Option Person) (id : String) (w : Service)
    → PersonDeletion found id w (delete_person_found id found w)
unfolding delete_person_found
delete_person_found-PersonDeletion none id w = refl
delete_person_found-PersonDeletion (some p) id w =
    delete_person_open-PersonDeletion id p (open_titles w.now id w.tables w.tables.assignments) w
      refl

-- DeletePerson on every branch: an unknown person is not found, a refusal has no effect, and a
-- person is only ever deleted when no event that is not over has them assigned; then their
-- assignments and links are gone with them, every recorded answer stays, and so do the events.
pub delete_person-PersonDeletion :
    (id : String) (w : Service) → PersonDeletion (person w.tables id) id w (delete_person id w)
unfolding delete_person
delete_person-PersonDeletion id w = delete_person_found-PersonDeletion (person w.tables id) id w
