-- ===== src/Lifecycle/Counts.antt =====
-- The number that fanOutLocked returns is the number of the messages that it owes.

use stattii.Base.{
  Bool, Bool-cases, List, String, [], ap, arith, false, if◌then◌else◌, inl, inr, length,
  length-append, refl, suc, true, ℕ, ◌+◌, ◌∷◌, ◌≡◌,
}
use stattii.Lifecycle.FanOut.{send_broadcasts, send_guest, send_guests, send_people, skips_guest}
use stattii.Lifecycle.Recipients.{
  broadcast_letters, channel_letters, channel_letters-nil, guest_letter, guest_letters,
  people_letters,
}
use stattii.Model.{Address, Broadcast, Guest, OutboxItem, Person, reachable, usable}
use stattii.Service.{Service, enqueue_channels, enqueue_locked, enqueue_to_person_locked}

pub send_broadcasts-count :
    (item : String → String → OutboxItem) (bs : List Broadcast) (n : ℕ) (w : Service)
    → (send_broadcasts item bs n w).0 ≡ n + length (broadcast_letters item bs)
unfolding send_broadcasts
send_broadcasts-count item [] n w = omega arith
send_broadcasts-count item (b ∷ rest) n w =
    omega (arith, send_broadcasts-count item rest (n + 1) (enqueue_locked (item b.kind b.to) w).1)

enqueue_channels-count :
    (person_id : String) (item : OutboxItem) (chs : List Address) (w : Service)
    → length (enqueue_channels person_id item chs w).0 ≡ length (channel_letters item person_id chs)
unfolding enqueue_channels
enqueue_channels-count person_id item [] w = refl
enqueue_channels-count person_id item (ch ∷ rest) w = elim (Bool-cases (usable ch)) [
  | inl e ↦ rw e (
      ap suc (
        enqueue_channels-count person_id item rest
          (enqueue_locked (record item { person_id = person_id; kind = ch.kind; to = ch.to }) w).1))
  | inr e ↦ rw e (enqueue_channels-count person_id item rest w)
]

person-count :
    (p : Person) (item : OutboxItem) (w : Service)
    → length (enqueue_to_person_locked p item w).0 ≡ length (channel_letters item p.id p.channels)
unfolding enqueue_to_person_locked
person-count p item w = elim (Bool-cases (reachable p)) [
  | inl e ↦ rw (e, enqueue_to_person_locked) (enqueue_channels-count p.id item p.channels w)
  | inr e ↦ rw (e, enqueue_to_person_locked, channel_letters-nil item p.id p.channels e) refl
]

pub send_people-count :
    (item : String → String → OutboxItem) (ps : List Person) (n : ℕ) (w : Service)
    → (send_people item ps n w).0 ≡ n + length (people_letters (item "" "") ps)
unfolding send_people
send_people-count item [] n w = omega arith
send_people-count item (p ∷ rest) n w =
    let sent = enqueue_to_person_locked p (item "" "") w in
    omega (
      arith,
      send_people-count item rest (n + length sent.0) sent.1,
      person-count p (item "" "") w,
      length-append (channel_letters (item "" "") p.id p.channels)
          (people_letters (item "" "") rest),
    )

pub send_guest-count :
    (skip : Bool) (item : String → String → OutboxItem) (g : Guest) (n : ℕ) (w : Service)
    → (send_guest skip item g n w).0 ≡ n + length (guest_letter skip item g)
unfolding send_guest
send_guest-count true item g n w = omega arith
send_guest-count false item g n w = omega arith

pub send_guests-count :
    (lower : String → String) (item : String → String → OutboxItem) (gs : List Guest)
    (seen : List String) (n : ℕ) (w : Service)
    → (send_guests lower item gs seen n w).0 ≡ n + length (guest_letters lower item gs seen)
unfolding send_guests
send_guests-count lower item [] seen n w = omega arith
send_guests-count lower item (g ∷ rest) seen n w =
    let skip = skips_guest lower g seen in
    let next = if skip then seen else lower g.email ∷ seen in
    let sent = send_guest skip item g n w in
    omega (
      arith,
      send_guests-count lower item rest next sent.0 sent.1,
      send_guest-count skip item g n w,
      length-append (guest_letter skip item g) (guest_letters lower item rest next),
    )
