-- ===== src/Views/Glance.antt =====
-- Overview of internal/core/views.go.

use stattii.Base.{
  Bool, List, Option, String, [], count_where, find_last, if◌then◌else◌, length, ltb, map, none,
  not, some, sort_by, ℕ, ◌&&◌, ◌+◌, ◌==◌, ◌∷◌,
}
use stattii.Model.{
  Assignment, Event, OutboxItem, Person, Proposal, Response, TrustLevel, is_person, is_zero,
  reachable,
}
use stattii.Scheduler.{has_valid_channel}
use stattii.Service.{Config, OutboxState, Service, outbox_state}

-- A person on an event; the latest answer, where there is one.
pub record OverviewAssignee : Type 0 where
  pub person_id : String
  pub name : String
  pub role : String
  pub trust : TrustLevel
  pub is_reachable : Bool
  pub channel_problem : Bool
  pub latest : Option Response

pub record OverviewEvent : Type 0 where
  pub event : Event
  pub assignees : List OverviewAssignee
  pub reachable : ℕ

pub record OutboxSummary : Type 0 where
  pub delivered : ℕ
  pub pending : ℕ
  pub failed : ℕ

pub record Overview : Type 0 where
  pub events : List OverviewEvent
  pub outbox : OutboxSummary
  pub open_proposals : ℕ
  pub people : ℕ

abbrev pub time_of_answer : Option Response → ℕ
time_of_answer none = 0
time_of_answer (some r) = r.at

-- The answer of a person to an event with the latest time, the earlier one of equals.
unfoldable pub latest_answer : String → String → List Response → Option Response → Option Response
latest_answer event_id person_id [] found = found
latest_answer event_id person_id (r ∷ rest) found = latest_answer event_id person_id rest (
    if r.event_id == event_id && r.person_id == person_id && ltb (time_of_answer found) r.at
    then some r
    else found)

unfoldable pub overview_assignee : Service → Event → Assignment → Person → OverviewAssignee
unfolding latest_answer
overview_assignee w e a p = record {
  person_id = p.id;
  name = p.name;
  role = a.role;
  trust = p.trust;
  is_reachable = reachable p;
  channel_problem = reachable p && not (has_valid_channel w.env p);
  latest = latest_answer e.id p.id w.tables.responses none;
}

unfoldable pub push_assignee :
    Service → Event → Assignment → Option Person → List OverviewAssignee → List OverviewAssignee
unfolding overview_assignee
push_assignee w e a none rest = rest
push_assignee w e a (some p) rest = overview_assignee w e a p ∷ rest

-- The people of an event, as the index finds them: the last row of an id.
unfoldable pub overview_assignees : Service → Event → List Assignment → List OverviewAssignee
unfolding push_assignee
overview_assignees w e [] = []
overview_assignees w e (a ∷ rest) =
    let others = overview_assignees w e rest in
    if a.event_id == e.id
    then push_assignee w e a (find_last (is_person a.person_id) w.tables.people) others
    else others

unfoldable pub overview_event : Service → Event → OverviewEvent
unfolding overview_assignees
overview_event w e =
    let people = overview_assignees w e w.tables.assignments in
    record {
      event = e;
      assignees = people;
      reachable = count_where (λ (a : OverviewAssignee). a.is_reachable) people;
    }

abbrev pub count_state : Config → OutboxItem → OutboxSummary → OutboxSummary
count_state cfg o s = elim (outbox_state cfg o) [
  | OutboxState.delivered ↦ record s { delivered = s.delivered + 1 }
  | OutboxState.failed ↦ record s { failed = s.failed + 1 }
  | _ ↦ record s { pending = s.pending + 1 }
]

unfoldable pub summarize : Config → List OutboxItem → OutboxSummary → OutboxSummary
unfolding outbox_state
summarize cfg [] s = s
summarize cfg (o ∷ rest) s = summarize cfg rest (count_state cfg o s)

-- Overview
unfoldable pub overview : Service → Overview
unfolding overview_event summarize sort_by
overview w = record {
  events =
      sort_by (λ (x : OverviewEvent). x.event.starts_at) (map (overview_event w) w.tables.events);
  outbox = summarize w.cfg w.outbox (record { delivered = 0; pending = 0; failed = 0 });
  open_proposals = count_where (λ (p : Proposal). is_zero p.decided_at) w.tables.proposals;
  people = length w.tables.people;
}
