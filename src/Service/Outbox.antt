-- ===== src/Service/Outbox.antt =====
-- enqueueToPersonLocked, OutboxState and the webhook fan-out of outbox.go.

use stattii.Base.{
  Bool, List, Option, String, [], any_of, concat, count_where, false, if◌then◌else◌, leb, ltb, none,
  some, true, ℕ, ◌==◌, ◌∷◌,
}
use stattii.Model.{
  Address, OutboxItem, Person, Webhook, event, is_delivered, reachable, usable, webhook,
}
use stattii.Service.Defs.{Config, Payload, Service, text}
use stattii.Service.Store.{audit_locked, enqueue_locked, mail}

unfoldable pub enqueue_channels :
    String → OutboxItem → List Address → Service → List String × Service
enqueue_channels person_id item [] w = ([], w)
enqueue_channels person_id item (ch ∷ rest) w =
    if usable ch
    then (let (id, w') =
          enqueue_locked (record item { person_id = person_id; kind = ch.kind; to = ch.to }) w in
        let (ids, w'') = enqueue_channels person_id item rest w' in (id ∷ ids, w''))
    else enqueue_channels person_id item rest w

-- enqueueToPersonLocked
unfoldable pub enqueue_to_person_locked : Person → OutboxItem → Service → List String × Service
unfolding enqueue_channels
enqueue_to_person_locked p item w =
    if reachable p then enqueue_channels p.id item p.channels w else (
      [],
      audit_locked "delivery.skipped"
          (("event_id", text item.event_id)
            ∷ ("person_id", text p.id)
            ∷ ("error", text "person has no usable channel")
            ∷ [])
          w,
    )

pub data OutboxState : Type 0 where
  delivered failed retrying queued : OutboxState

-- Service.OutboxState
unfoldable pub outbox_state : Config → OutboxItem → OutboxState
outbox_state cfg o =
    if is_delivered o
    then OutboxState.delivered
    else if leb cfg.max_attempts o.attempts
    then failed
    else if ltb 0 o.attempts
    then retrying
    else queued

abbrev pub no_events : List String → Bool
no_events [] = true
no_events _ = false

-- webhookMatches
unfoldable pub webhook_matches : Webhook → String → Bool
webhook_matches h event = if no_events h.events then true else any_of (λ e. e == event) h.events

-- webhooksMatchingLocked
unfoldable pub webhooks_matching_locked : String → Service → ℕ
unfolding webhook_matches
webhooks_matching_locked event w = count_where (λ h. webhook_matches h event) w.webhooks

unfoldable pub signed : Service → String → String → Webhook → OutboxItem
signed w event payload h = record (mail webhook "webhook" h.url event payload) {
  headers =
      ("X-Stattii-Event", event)
      ∷ ("X-Stattii-Signature", concat ("sha256=" ∷ w.env.sign h.secret payload ∷ []))
      ∷ [];
}

unfoldable pub fire_each : String → String → List Webhook → Service → Service
unfolding webhook_matches signed
fire_each event payload [] w = w
fire_each event payload (h ∷ rest) w =
    fire_each event payload rest
      (if webhook_matches h event then (enqueue_locked (signed w event payload h) w).1 else w)

unfoldable pub fire_payload : String → Option String → Service → Service
unfolding fire_each
fire_payload event none w = w
fire_payload event (some body) w = fire_each event body w.webhooks w

unfoldable pub no_webhooks : List Webhook → Bool
no_webhooks [] = true
no_webhooks _ = false

-- fireWebhooksLocked: a payload that does not marshal is logged and dropped.
unfoldable pub fire_webhooks_locked : String → Payload → Service → Service
unfolding fire_payload no_webhooks
fire_webhooks_locked event payload w =
    if no_webhooks w.webhooks then w else fire_payload event (w.env.marshal event w.now payload) w
