-- ===== src/Lifecycle/Delivery.antt =====
-- fanOutLocked delivers what `Recipients` owes: the three loops, and the whole transaction.

use stattii.Base.{
  Bool, Bool-cases, List, String, [], ap, false, if◌then◌else◌, inl, inr, length, true, ℕ, ◌+◌, ◌∷◌,
  ◌≡◌, ◌≢◌,
}
use stattii.Lifecycle.FanOut.{send_broadcasts, send_guest, send_guests, send_people, skips_guest}
use stattii.Lifecycle.Recipients.{
  Emits-Sends, Sends, Sends-trans, broadcast_letters, channel_letters, channel_letters-nil,
  enqueue-Sends, guest_letter, guest_letters, people_letters, unstamped,
}
use stattii.Model.{Address, Broadcast, Guest, OutboxItem, Person, reachable, usable}
use stattii.Service.{Service, enqueue_channels, enqueue_locked, enqueue_to_person_locked}
use stattii.Service.Frame.{Emits-refl, Emits-page, audit-Emits}

-- The messages that the loops build for one transaction.
pub record IsLetter (txn : String) (item : OutboxItem) : Type 0 where
  pub named : item.txn_id ≡ txn
  pub fresh : unstamped item ≡ item

module _ {txn : String} (named : txn ≢ "") where
  pub send_broadcasts-Sends :
      (item : String → String → OutboxItem) (bs : List Broadcast) (n : ℕ) (w : Service)
      → ((kind to : String) → IsLetter txn (item kind to))
      → Sends txn w (send_broadcasts item bs n w).1 (broadcast_letters item bs)
  unfolding send_broadcasts
  send_broadcasts-Sends item [] n w h = Emits-Sends named (Emits-refl w)
  send_broadcasts-Sends item (b ∷ rest) n w h =
      Sends-trans {xs = item b.kind b.to ∷ []}
        (enqueue-Sends (item b.kind b.to) w (h b.kind b.to).named (h b.kind b.to).fresh)
        (send_broadcasts-Sends item rest (n + 1) (enqueue_locked (item b.kind b.to) w).1 h)

  to_channel : OutboxItem → String → Address → OutboxItem
  to_channel item person_id ch = record item { person_id = person_id; kind = ch.kind; to = ch.to }

  enqueue_channels-Sends :
      (person_id : String) (item : OutboxItem) (chs : List Address) (w : Service)
      → IsLetter txn item
      → Sends txn w (enqueue_channels person_id item chs w).1 (channel_letters item person_id chs)
  unfolding enqueue_channels to_channel
  enqueue_channels-Sends person_id item [] w h = Emits-Sends named (Emits-refl w)
  enqueue_channels-Sends person_id item (ch ∷ rest) w h = elim (Bool-cases (usable ch)) [
    | inl e ↦ rw e (
        Sends-trans {xs = to_channel item person_id ch ∷ []}
          (enqueue-Sends (to_channel item person_id ch) w h.named
            (ap (λ o. to_channel o person_id ch) h.fresh))
          (enqueue_channels-Sends person_id item rest
            (enqueue_locked (to_channel item person_id ch) w).1 h))
    | inr e ↦ rw e (enqueue_channels-Sends person_id item rest w h)
  ]

  person-Sends :
      (p : Person) (item : OutboxItem) (w : Service)
      → IsLetter txn item
      → Sends txn w (enqueue_to_person_locked p item w).1 (channel_letters item p.id p.channels)
  unfolding enqueue_to_person_locked
  person-Sends p item w h = elim (Bool-cases (reachable p)) [
    | inl e ↦ rw (e, enqueue_to_person_locked) (enqueue_channels-Sends p.id item p.channels w h)
    | inr e ↦
        rw (e, enqueue_to_person_locked, channel_letters-nil item p.id p.channels e)
          (Emits-Sends named (Emits-page (audit-Emits _ _ w)))
  ]

  pub send_people-Sends :
      (item : String → String → OutboxItem) (ps : List Person) (n : ℕ) (w : Service)
      → IsLetter txn (item "" "")
      → Sends txn w (send_people item ps n w).1 (people_letters (item "" "") ps)
  unfolding send_people
  send_people-Sends item [] n w h = Emits-Sends named (Emits-refl w)
  send_people-Sends item (p ∷ rest) n w h = Sends-trans (person-Sends p (item "" "") w h) (
      send_people-Sends item rest (n + length (enqueue_to_person_locked p (item "" "") w).0)
        (enqueue_to_person_locked p (item "" "") w).1 h)

  to_guest : (String → String → OutboxItem) → Guest → OutboxItem
  to_guest item g = record (item "email" g.email) { guest_id = g.id }

  pub send_guest-Sends :
      (skip : Bool) (item : String → String → OutboxItem) (g : Guest) (n : ℕ) (w : Service)
      → ((kind to : String) → IsLetter txn (item kind to))
      → Sends txn w (send_guest skip item g n w).1 (guest_letter skip item g)
  unfolding send_guest to_guest
  send_guest-Sends true item g n w h = Emits-Sends named (Emits-refl w)
  send_guest-Sends false item g n w h =
      enqueue-Sends (to_guest item g) w (h "email" g.email).named
        (ap {A = OutboxItem} (λ o. record o { guest_id = g.id }) (h "email" g.email).fresh)

  pub send_guests-Sends :
      (lower : String → String) (item : String → String → OutboxItem) (gs : List Guest)
      (seen : List String) (n : ℕ) (w : Service)
      → ((kind to : String) → IsLetter txn (item kind to))
      → Sends txn w (send_guests lower item gs seen n w).1 (guest_letters lower item gs seen)
  unfolding send_guests
  send_guests-Sends lower item [] seen n w h = Emits-Sends named (Emits-refl w)
  send_guests-Sends lower item (g ∷ rest) seen n w h =
      let sent = send_guest (skips_guest lower g seen) item g n w in
      Sends-trans (send_guest-Sends (skips_guest lower g seen) item g n w h) (
        send_guests-Sends lower item rest
          (if skips_guest lower g seen then seen else lower g.email ∷ seen) sent.0 sent.1 h)
