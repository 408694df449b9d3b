-- ===== src/Service/Frame/Messages.antt =====
-- The frame of enqueueToPersonLocked and fireWebhooksLocked: what they append is built from the
-- message that they are given.

use stattii.Base.{Bool-cases, List, Option, String, [], inl, inr, none, refl, some, ℕ, ◌∷◌}
use stattii.Model.{Address, OutboxItem, Person, Webhook, reachable, usable}
use stattii.Service.Defs.{Payload, Service}
use stattii.Service.Frame.{
  Emits, Emits-refl, Emits-trans, Emits-if, Emits-page, NoTxn, audit-Emits, enqueue-Emits,
}
use stattii.Service.Outbox.{
  enqueue_channels, enqueue_to_person_locked, fire_each, fire_payload, fire_webhooks_locked,
  no_webhooks, signed, webhook_matches,
}
use stattii.Service.Store.{enqueue_locked, stamp}

stamp-NoTxn : (id : String) (now : ℕ) (item : OutboxItem) → NoTxn item → NoTxn (stamp id now item)
unfolding stamp
stamp-NoTxn id now item h = h

enqueue_channels-Emits :
    (person_id : String) (item : OutboxItem) (chs : List Address) (w : Service)
    → NoTxn item
    → Emits NoTxn w (enqueue_channels person_id item chs w).1
unfolding enqueue_channels
enqueue_channels-Emits person_id item [] w h = Emits-refl w
enqueue_channels-Emits person_id item (ch ∷ rest) w h = elim (Bool-cases (usable ch)) [
  | inl e ↦ rw e (
      Emits-trans
        (enqueue-Emits (record item { person_id = person_id; kind = ch.kind; to = ch.to }) w
          (stamp-NoTxn _ w.now (record item { person_id = person_id; kind = ch.kind; to = ch.to })
            h))
        (enqueue_channels-Emits person_id item rest
          (enqueue_locked (record item { person_id = person_id; kind = ch.kind; to = ch.to }) w).1
          h))
  | inr e ↦ rw e (enqueue_channels-Emits person_id item rest w h)
]

pub person-Emits :
    (p : Person) (item : OutboxItem) (w : Service)
    → NoTxn item
    → Emits NoTxn w (enqueue_to_person_locked p item w).1
unfolding enqueue_to_person_locked
person-Emits p item w h = elim (Bool-cases (reachable p)) [
  | inl e ↦ rw (e, enqueue_to_person_locked) (enqueue_channels-Emits p.id item p.channels w h)
  | inr e ↦ rw (e, enqueue_to_person_locked) (Emits-page (audit-Emits _ _ w))
]

fire_each-Emits :
    (event payload : String) (hs : List Webhook) (w : Service)
    → Emits NoTxn w (fire_each event payload hs w)
unfolding fire_each
fire_each-Emits event payload [] w = Emits-refl w
fire_each-Emits event payload (h ∷ rest) w =
    Emits-trans
      (Emits-if (webhook_matches h event)
        (enqueue-Emits (signed w event payload h) w (unfold signed stamp in refl)) (Emits-refl w))
      (fire_each-Emits event payload rest _)

fire_payload-Emits :
    (event : String) (payload : Option String) (w : Service)
    → Emits NoTxn w (fire_payload event payload w)
unfolding fire_payload
fire_payload-Emits event none w = Emits-refl w
fire_payload-Emits event (some body) w = fire_each-Emits event body w.webhooks w

pub fire-Emits :
    (event : String) (payload : Payload) (w : Service)
    → Emits NoTxn w (fire_webhooks_locked event payload w)
unfolding fire_webhooks_locked
fire-Emits event payload w =
    Emits-if (no_webhooks w.webhooks) (Emits-refl w) (fire_payload-Emits event _ w)
