-- ===== src/Views/Lists.antt =====
-- The lists of internal/core/views.go. A copy is the value itself; sort.Slice keeps the order of
-- equal starts.

use stattii.Base.{
  Bool, List, Option, Result, String, err, map, none, not_found, ok, reject, select, some, sort_by,
  ◌&&◌, ◌==◌, ◌>>=◌, ◌||◌,
}
use stattii.Links.{portal_url}
use stattii.Model.{
  Broadcast, Event, OutboxItem, Person, Proposal, Response, Webhook, event, is_delivered, person,
}
use stattii.Redaction.{shown_address, shown_outbox, shown_target}
use stattii.Registry.{shown_channels}
use stattii.Service.{Service}

-- Events
unfoldable pub events_view : Service → List Event
unfolding sort_by
events_view w = sort_by (λ e. e.starts_at) w.tables.events

unfoldable pub or_not_found {ℓ} : {A : Type ℓ} → Option A → Result A
or_not_found none = err not_found
or_not_found (some a) = ok a

-- EventByID
abbrev pub event_by_id : String → Service → Result Event
event_by_id id w = or_not_found (event w.tables id)

-- People
unfoldable pub people_view : Service → List Person
people_view w =
    map (λ (p : Person). record p { channels = shown_channels w.env p.channels }) w.tables.people

-- PersonPortalURL
unfoldable pub person_portal_url : String → Service → Result String
unfolding or_not_found
person_portal_url id w =
    or_not_found (person w.tables id) >>= (λ p. ok (portal_url w p.portal_token))

-- Proposals
abbrev pub proposals_view : Service → List Proposal
proposals_view w = w.tables.proposals

-- Broadcasts
unfoldable pub broadcasts_view : Service → List Broadcast
broadcasts_view w =
    map (λ (b : Broadcast). record b { to = shown_address w.env b.kind b.to }) w.tables.broadcasts

-- Webhooks
unfoldable pub webhooks_view : Service → List Webhook
webhooks_view w =
    map (λ (h : Webhook). record h { url = shown_target w.env h.url }) w.tables.webhooks

-- Responses
unfoldable pub responses_view : String → Service → List Response
responses_view event_id w =
    select (λ (r : Response). event_id == "" || r.event_id == event_id) w.tables.responses

-- OutboxItems
unfoldable pub outbox_items : Bool → Service → List OutboxItem
outbox_items pending_only w =
    shown_outbox w.env (reject (λ o. pending_only && is_delivered o) w.outbox)
