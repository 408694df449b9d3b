-- ===== src/Lifecycle/Letters.antt =====
-- Every message that a propagation owes is about its event.

use stattii.Base.{
  Bool, Bool-cases, List, String, [], ap, ap₂, arith, count_where, count_where-append,
  count_where-le-length, eq_iff, false, if◌then◌else◌, inl, inr, length, length-append, refl, suc,
  sym, true, ◌&&◌, ◌++◌, ◌+◌, ◌==◌, ◌∙◌, ◌∷◌, ◌≡◌,
}
use stattii.Lifecycle.FanOut.{skips_guest}
use stattii.Lifecycle.Recipients.{
  broadcast_letters, channel_letters, guest_letter, guest_letters, in_txn, letters, owed,
  people_letters,
}
use stattii.Model.{
  Address, Broadcast, Guest, OutboxItem, Person, Tables, assignees, guests_for, usable,
}

module _ (id : String) where
  abbrev pub is_about : OutboxItem → Bool
  is_about o = o.event_id == id

  -- Every message is about the event.
  abbrev pub AllOf : List OutboxItem → Type 0
  AllOf os = count_where is_about os ≡ length os

  AllOf-append : (xs ys : List OutboxItem) → AllOf xs → AllOf ys → AllOf (xs ++ ys)
  AllOf-append xs ys h k =
      count_where-append is_about xs ys ∙ ap₂ (λ a b. a + b) h k ∙ sym (length-append xs ys)

  AllOf-cons : (o : OutboxItem) (os : List OutboxItem) → o.event_id ≡ id → AllOf os → AllOf (o ∷ os)
  AllOf-cons o os h k =
      let hit : is_about o ≡ true = (eq_iff o.event_id id).1 h in rw hit (ap suc k)

  module _ (item : String → String → OutboxItem)
      (about : (kind to : String) → (item kind to).event_id ≡ id) where
    broadcasts-AllOf : (bs : List Broadcast) → AllOf (broadcast_letters item bs)
    broadcasts-AllOf [] = refl
    broadcasts-AllOf (b ∷ bs) =
        AllOf-cons (item b.kind b.to) (broadcast_letters item bs) (about b.kind b.to)
          (broadcasts-AllOf bs)

    channels-AllOf :
        (person_id : String) (chs : List Address)
        → AllOf (channel_letters (item "" "") person_id chs)
    channels-AllOf person_id [] = refl
    channels-AllOf person_id (ch ∷ chs) = elim (Bool-cases (usable ch)) [
      | inl e ↦ rw e (
          AllOf-cons (record (item "" "") { person_id = person_id; kind = ch.kind; to = ch.to })
            (channel_letters (item "" "") person_id chs) (about "" "")
            (channels-AllOf person_id chs))
      | inr e ↦ rw e (channels-AllOf person_id chs)
    ]

    people-AllOf : (ps : List Person) → AllOf (people_letters (item "" "") ps)
    people-AllOf [] = refl
    people-AllOf (p ∷ ps) =
        AllOf-append (channel_letters (item "" "") p.id p.channels) (people_letters (item "" "") ps)
          (channels-AllOf p.id p.channels) (people-AllOf ps)

    guest-AllOf : (skip : Bool) (g : Guest) → AllOf (guest_letter skip item g)
    guest-AllOf true g = refl
    guest-AllOf false g =
        AllOf-cons (record (item "email" g.email) { guest_id = g.id }) [] (about "email" g.email)
          refl

    guests-AllOf :
        (lower : String → String) (gs : List Guest) (seen : List String)
        → AllOf (guest_letters lower item gs seen)
    guests-AllOf lower [] seen = refl
    guests-AllOf lower (g ∷ gs) seen =
        let skip = skips_guest lower g seen in
        let seen' = if skip then seen else lower g.email ∷ seen in
        AllOf-append (guest_letter skip item g) (guest_letters lower item gs seen')
          (guest-AllOf skip g) (guests-AllOf lower gs seen')

    pub owed-AllOf : (lower : String → String) (t : Tables) → AllOf (owed lower item id t)
    owed-AllOf lower t =
        let bs = broadcast_letters item t.broadcasts in
        let ps = people_letters (item "" "") (assignees t id) in
        let gs = guest_letters lower item (guests_for t id) [] in
        AllOf-append bs (ps ++ gs) (broadcasts-AllOf t.broadcasts) (
          AllOf-append ps gs (people-AllOf (assignees t id))
            (guests-AllOf lower (guests_for t id) []))

  -- The rows of the outbox that carry the transaction and the event are the letters of both.
  pub letters-count :
      (txn : String) (os : List OutboxItem)
      → AllOf (letters txn os)
      → count_where (λ o. is_about o && in_txn txn o) os ≡ length (letters txn os)
  letters-count txn [] h = refl
  letters-count txn (o ∷ os) h = elim (Bool-cases (in_txn txn o)) [
    | inl e ↦
        let all = rw e at h in
        let bound = count_where-le-length is_about (letters txn os) in
        rw e (ground (arith, all, bound, letters-count txn os))
    | inr e ↦ rw e (ground (arith, letters-count txn os (rw e at h)))
  ]
