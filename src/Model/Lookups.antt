-- ===== src/Model/Lookups.antt =====
-- The lookups of `State` in core.go and invite.go, and the tests on one row.

use stattii.Base.{
  ℕ, String, Bool, ◌&&◌, not, Option, none, some, List, [], ◌∷◌, ◌==◌, eqb, if◌then◌else◌,
  find_first, any_of, select,
}
use stattii.Model.Rows.{Event, Address, Person, Assignment, Response, OutboxItem, Guest, Tables}

-- time.Time.IsZero
abbrev pub is_zero : ℕ → Bool
is_zero t = eqb t 0

-- Address.Usable
abbrev pub usable : Address → Bool
usable a = not (a.kind == "") && not (a.to == "")

-- Person.Reachable
abbrev pub reachable : Person → Bool
reachable p = any_of usable p.channels

-- OutboxItem.Delivered
abbrev pub is_delivered : OutboxItem → Bool
is_delivered o = not (is_zero o.delivered_at)

abbrev pub has_id : String → Event → Bool
has_id id e = e.id == id

-- State.Event
abbrev pub event : Tables → String → Option Event
event t id = find_first (has_id id) t.events

abbrev pub is_person : String → Person → Bool
is_person id p = p.id == id

-- State.Person
abbrev pub person : Tables → String → Option Person
person t id = find_first (is_person id) t.people

unfoldable pub push_found {ℓ} : {A : Type ℓ} → Option A → List A → List A
push_found none xs = xs
push_found (some x) xs = x ∷ xs

unfoldable pub assigned_people : Tables → String → List Assignment → List Person
unfolding push_found
assigned_people t event_id [] = []
assigned_people t event_id (a ∷ rest) =
    let found = assigned_people t event_id rest in
    if a.event_id == event_id then push_found (person t a.person_id) found else found

-- State.Assignees
unfoldable pub assignees : Tables → String → List Person
unfolding assigned_people
assignees t event_id = assigned_people t event_id t.assignments

unfoldable pub assigned_events : Tables → String → List Assignment → List Event
unfolding push_found
assigned_events t person_id [] = []
assigned_events t person_id (a ∷ rest) =
    let found = assigned_events t person_id rest in
    if a.person_id == person_id then push_found (event t a.event_id) found else found

-- State.EventsFor
unfoldable pub events_for : Tables → String → List Event
unfolding assigned_events
events_for t person_id = assigned_events t person_id t.assignments

abbrev pub is_response : String → String → Response → Bool
is_response event_id person_id r = r.event_id == event_id && r.person_id == person_id

-- State.ResponseFor: the loop runs from the end, so the last row wins.
abbrev pub last_where {ℓ} : {A : Type ℓ} → (A → Bool) → List A → Option A
last_where p [] = none
last_where p (x ∷ xs) = elim (last_where p xs) [
  | some y ↦ some y
  | none ↦ if p x then some x else none
]

abbrev pub response_for : Tables → String → String → Option Response
response_for t event_id person_id = last_where (is_response event_id person_id) t.responses

-- State.GuestsFor
abbrev pub guests_for : Tables → String → List Guest
guests_for t event_id = select (λ g. g.event_id == event_id) t.guests
