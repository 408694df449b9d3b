-- ===== src/Deliveries/Passes.antt =====
-- collectOutboxLocked of internal/core/outbox.go: which rows a pass sends and which it escalates.

use stattii.Base.{
  Bool, List, Option, String, [], any_of, concat, false, if◌then◌else◌, leb, ltb, none, not, some,
  true, ℕ, ◌&&◌, ◌*◌, ◌++◌, ◌+◌, ◌-◌, ◌/◌, ◌==◌, ◌||◌, ◌∷◌,
}
use stattii.Deliveries.Marks.{mark, recipient_key, set_mark}
use stattii.Model.{Button, OutboxItem, Purpose, is_delivered, is_escalation, is_zero}
use stattii.Redaction.{redact_address}
use stattii.Service.{Config, Context, Service, notify_admin_locked}

-- outboxAttempt; its message is the part of the row that the sender reads.
pub record OutboxAttempt : Type 0 where
  pub id : String
  pub event_id : String
  pub purpose : Purpose
  pub kind : String
  pub to : String
  pub attempts : ℕ
  pub subject : String
  pub body : String
  pub buttons : List Button
  pub headers : List (String × String)

-- The attempt for a row, with messageOf.
abbrev pub attempt_of : OutboxItem → OutboxAttempt
attempt_of o = record {
  id = o.id;
  event_id = o.event_id;
  purpose = o.purpose;
  kind = o.kind;
  to = o.to;
  attempts = o.attempts;
  subject = o.subject;
  body = o.body;
  buttons = o.buttons;
  headers = o.headers;
}

-- What the loop keeps besides the rows.
pub record Pass : Type 0 where
  pub changed : Bool
  pub mine : List String
  pub escalations : List (String × String)
  pub attempts : List OutboxAttempt
  pub sending : List (String × ℕ)
  pub sending_to : List (String × ℕ)

-- `EscalatedAt.IsZero() && Purpose != "escalation" && now.Sub(CreatedAt) >= EscalateAfter`
abbrev pub is_stuck : Config → ℕ → OutboxItem → Bool
is_stuck cfg now o =
    is_zero o.escalated_at
    && not (is_escalation o.purpose)
    && leb (o.created_at + cfg.escalate_after) now

-- time.Minute, and Duration.Round of a duration that is not negative.
abbrev pub minute : ℕ
minute = 60_000_000_000

abbrev pub round_minute : ℕ → ℕ
round_minute d = (d + minute / 2) / minute * minute

unfoldable pub stuck_page : Context → ℕ → OutboxItem → String × String
unfolding redact_address
stuck_page c now o = (
  concat ("Delivery stuck: " ∷ o.subject ∷ []),
  concat (
      "Undelivered for "
      ∷ c.env.format_duration (round_minute (now - o.created_at))
      ∷ " via "
      ∷ o.kind
      ∷ " to "
      ∷ redact_address c.env o.kind o.to
      ∷ ": "
      ∷ o.last_error
      ∷ []),
)

-- `only`, none where it is nil.
abbrev pub in_selection : Option (List String) → OutboxItem → Bool
in_selection none o = true
in_selection (some ids) o = any_of (λ i. i == o.id) ids

abbrev pub who_of : OutboxItem → String
who_of o = recipient_key o.kind o.to

abbrev pub is_mine : String → Pass → Bool
is_mine who p = any_of (λ k. k == who) p.mine

-- The three guards before a row is taken.
abbrev pub takes : Config → ℕ → Option (List String) → OutboxItem → Pass → Bool
takes cfg now only o p =
    in_selection only o
    && not (leb cfg.max_attempts o.attempts || ltb now o.next_attempt)
    && not (ltb 0 (mark (who_of o) p.sending_to) && not (is_mine (who_of o) p))

unfoldable pub take_row : OutboxItem → Pass → Pass
take_row o p = record p {
  mine = who_of o ∷ p.mine;
  sending = set_mark o.id 0 p.sending;
  sending_to = set_mark (who_of o) (mark (who_of o) p.sending_to + 1) p.sending_to;
  attempts = p.attempts ++ attempt_of o ∷ [];
}

unfoldable pub escalate_row : Context → ℕ → OutboxItem → Pass → OutboxItem × Pass
unfolding stuck_page
escalate_row c now o p =
    if is_stuck c.cfg now o
    then (
      record o { escalated_at = now },
      record p { changed = true; escalations = p.escalations ++ stuck_page c now o ∷ [] },
    )
    else (o, p)

-- One row of the loop.
unfoldable pub collect_row :
    Context → ℕ → Option (List String) → OutboxItem → Pass → OutboxItem × Pass
unfolding escalate_row take_row
collect_row c now only o p =
    if is_delivered o
    then (o, p)
    else (let (o', p') = escalate_row c now o p in
        (o', if takes c.cfg now only o' p' then take_row o' p' else p'))

unfoldable pub collect_rows :
    Context → ℕ → Option (List String) → List OutboxItem → Pass → List OutboxItem × Pass
unfolding collect_row
collect_rows c now only [] p = ([], p)
collect_rows c now only (o ∷ rest) p =
    let (o', p1) = collect_row c now only o p in
    let (rest', p2) = collect_rows c now only rest p1 in (o' ∷ rest', p2)

unfoldable pub page_all : List (String × String) → Service → Service
page_all [] w = w
page_all ((subject, body) ∷ rest) w = page_all rest (notify_admin_locked subject body w)

abbrev pub new_pass : Service → Pass
new_pass w = record {
  changed = false;
  mine = [];
  escalations = [];
  attempts = [];
  sending = w.process.sending;
  sending_to = w.process.sending_to;
}

-- collectOutboxLocked
unfoldable pub collect_outbox_locked :
    ℕ → Option (List String) → Service → (List OutboxAttempt × Bool) × Service
unfolding collect_rows page_all
collect_outbox_locked now only w =
    let (rows, p) = collect_rows w.ctx now only w.outbox (new_pass w) in
    let w1 = record w {
      outbox = rows;
      process = record w.process { sending = p.sending; sending_to = p.sending_to };
    } in
    ((p.attempts, p.changed), page_all p.escalations w1)
