-- ===== src/Scheduler/Problems.antt =====
-- The channel scan of internal/core/channels.go: stored addresses that fail their own format check.
-- sort.Slice keeps the order of equal entries.

use stattii.Base.{
  Bool, List, String, [], any_of, concat, count_where, eqb, false, if◌then◌else◌, join, length, ltb,
  map, not, precedes, select, sort_less, true, ℕ, ◌&&◌, ◌++◌, ◌==◌, ◌∷◌,
}
use stattii.Model.{Address, Assignment, Event, Person, is_cancelled, usable}
use stattii.Redaction.{shown_address}
use stattii.Scheduler.Reach.{problem}
use stattii.Service.{Env, Service, audit_locked, notify_admin_locked, number, text}

pub record ChannelProblem : Type 0 where
  pub person_id : String
  pub name : String
  pub kind : String
  pub to : String
  pub problem : String
  pub assigned : ℕ

-- An event with this id is still ahead.
abbrev pub is_live_event : String → ℕ → Event → Bool
is_live_event id now e = e.id == id && not (is_cancelled e.status) && ltb now e.starts_at

-- upcomingByPersonLocked: the entry of one person.
unfoldable pub upcoming_of : String → Service → ℕ
upcoming_of person_id w =
    count_where
      (λ (a : Assignment).
        a.person_id == person_id && any_of (is_live_event a.event_id w.now) w.tables.events)
      w.tables.assignments

abbrev pub is_suspect : Env → Address → Bool
is_suspect env ch = usable ch && not (problem env ch == "")

unfoldable pub channel_problem : Person → Service → Address → ChannelProblem
unfolding upcoming_of problem
channel_problem p w ch = record {
  person_id = p.id;
  name = p.name;
  kind = ch.kind;
  to = shown_address w.env ch.kind ch.to;
  problem = problem w.env ch;
  assigned = upcoming_of p.id w;
}

unfoldable pub person_problems : Service → List Person → List ChannelProblem
unfolding problem channel_problem
person_problems w [] = []
person_problems w (p ∷ ps) =
    map (channel_problem p w) (select (is_suspect w.env) p.channels) ++ person_problems w ps

abbrev pub comes_first : ChannelProblem → ChannelProblem → Bool
comes_first a b =
    if not (eqb a.assigned b.assigned) then ltb b.assigned a.assigned else precedes a.name b.name

-- channelProblemsLocked, and ChannelProblems
unfoldable pub channel_problems_locked : Service → List ChannelProblem
unfolding person_problems sort_less
channel_problems_locked w = sort_less comes_first (person_problems w w.tables.people)

unfoldable pub audit_problems : List ChannelProblem → Service → Service
audit_problems [] w = w
audit_problems (c ∷ cs) w = audit_problems cs (
    audit_locked "channel.invalid"
      (("person_id", text c.person_id)
        ∷ ("kind", text c.kind)
        ∷ ("problem", text c.problem)
        ∷ ("assigned", number c.assigned)
        ∷ [])
      w)

abbrev pub problem_line : Service → ChannelProblem → String
problem_line w c = concat (
    "- "
    ∷ c.name
    ∷ " — "
    ∷ c.kind
    ∷ ": "
    ∷ c.to
    ∷ " ("
    ∷ c.problem
    ∷ ", "
    ∷ w.env.format_number c.assigned
    ∷ " upcoming event(s))"
    ∷ [])

abbrev pub is_pressing : ChannelProblem → Bool
is_pressing c = ltb 0 c.assigned

unfoldable pub page_problems : List ChannelProblem → Service → Service
page_problems cs w =
    if any_of is_pressing cs
    then notify_admin_locked
        (concat ("Stored channels look broken (" ∷ w.env.format_number (length cs) ∷ ")" ∷ []))
        (concat (
          "These addresses are stored but do not pass their own format check:\n"
          ∷ join "\n" (map (problem_line w) cs)
          ∷ "\n\nNothing was removed and nobody was marked unreachable — asks still go out over them, "
          ∷ "and a real delivery failure still escalates as usual. Fix them under /admin/people."
          ∷ []))
        w
    else w

unfoldable pub note_problems : List ChannelProblem → Service → Bool × Service
unfolding audit_problems page_problems
note_problems [] w = (false, w)
note_problems (c ∷ cs) w = (true, page_problems (c ∷ cs) (audit_problems (c ∷ cs) w))

abbrev pub scanned : Service → Service
scanned w = record w { process = record w.process { channels_scanned = true } }

-- noteChannelProblemsLocked
unfoldable pub note_channel_problems_locked : Service → Bool × Service
unfolding note_problems channel_problems_locked
note_channel_problems_locked w =
    if w.process.channels_scanned
    then (false, w)
    else note_problems (channel_problems_locked (scanned w)) (scanned w)
