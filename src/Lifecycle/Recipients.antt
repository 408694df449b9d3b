-- ===== src/Lifecycle/Recipients.antt =====
-- What a propagation transaction owes: the list of its messages, computed from the tables alone.
-- `Sends` relates it to a run of the loops of fanOutLocked, whatever pages and webhooks the run
-- puts between the messages.

use stattii.Base.{
  All, Bool, List, String, [], any_of, ap, append_assoc, ap₂, arith, eq_iff, false, find_first,
  if◌then◌else◌, map, map-append, refl, select, select-append, true, ◌++◌, ◌==◌, ◌∙◌, ◌∷◌, ◌≡◌, ◌≢◌,
}
use stattii.Lifecycle.FanOut.{skips_guest}
use stattii.Model.{
  Address, Assignment, Broadcast, Guest, OutboxItem, Person, Tables, assigned_people, assignees,
  guests_for, is_person, push_found, usable,
}
use stattii.Service.{Service, enqueue_locked, stamp}
use stattii.Service.Frame.{Emits, NoTxn}

-- A message without what enqueueLocked stamps on it.
abbrev pub unstamped : OutboxItem → OutboxItem
unstamped o = record o { id = ""; created_at = 0; next_attempt = 0 }

abbrev pub in_txn : String → OutboxItem → Bool
in_txn txn o = o.txn_id == txn

-- The messages of one transaction, in the order of the outbox.
abbrev pub letters : String → List OutboxItem → List OutboxItem
letters txn os = map unstamped (select (in_txn txn) os)

abbrev pub broadcast_letters : (String → String → OutboxItem) → List Broadcast → List OutboxItem
broadcast_letters item [] = []
broadcast_letters item (b ∷ rest) = item b.kind b.to ∷ broadcast_letters item rest

abbrev pub channel_letters : OutboxItem → String → List Address → List OutboxItem
channel_letters item person_id [] = []
channel_letters item person_id (ch ∷ rest) =
    let more = channel_letters item person_id rest in
    if usable ch
    then record item { person_id = person_id; kind = ch.kind; to = ch.to } ∷ more
    else more

abbrev pub people_letters : OutboxItem → List Person → List OutboxItem
people_letters item [] = []
people_letters item (p ∷ rest) = channel_letters item p.id p.channels ++ people_letters item rest

abbrev pub guest_letter : Bool → (String → String → OutboxItem) → Guest → List OutboxItem
guest_letter true item g = []
guest_letter false item g = record (item "email" g.email) { guest_id = g.id } ∷ []

abbrev pub guest_letters :
    (String → String) → (String → String → OutboxItem) → List Guest → List String → List OutboxItem
guest_letters lower item [] seen = []
guest_letters lower item (g ∷ rest) seen =
    let skip = skips_guest lower g seen in
    guest_letter skip item g
    ++ guest_letters lower item rest (if skip then seen else lower g.email ∷ seen)

-- One message for each broadcast target, each usable channel of each assignee, and each distinct
-- address among the event's guests.
abbrev pub owed :
    (String → String) → (String → String → OutboxItem) → String → Tables → List OutboxItem
owed lower item event_id t =
    broadcast_letters item t.broadcasts
    ++ (people_letters (item "" "") (assignees t event_id)
        ++ guest_letters lower item (guests_for t event_id) [])

-- Somebody without a usable channel is owed nothing.
pub channel_letters-nil :
    (item : OutboxItem) (person_id : String) (chs : List Address)
    → any_of usable chs ≡ false
    → channel_letters item person_id chs ≡ []
channel_letters-nil item person_id [] h = refl
channel_letters-nil item person_id (ch ∷ rest) h =
    ground (arith, channel_letters-nil item person_id rest)

pub record Sends (txn : String) (v w : Service) (items : List OutboxItem) : Type 0 where
  pub ctx : w.ctx ≡ v.ctx
  pub tables : w.tables ≡ v.tables
  pub process : w.process ≡ v.process
  pub sent : List OutboxItem
  pub outbox : w.outbox ≡ v.outbox ++ sent
  pub letters : letters txn sent ≡ items

module _ {txn : String} where
  pub Sends-trans :
      {u v w : Service} {xs ys : List OutboxItem}
      → Sends txn u v xs
      → Sends txn v w ys
      → Sends txn u w (xs ++ ys)
  Sends-trans {u} {xs = xs} {ys = ys} a b = record {
    ctx = b.ctx ∙ a.ctx;
    tables = b.tables ∙ a.tables;
    process = b.process ∙ a.process;
    sent = a.sent ++ b.sent;
    outbox = b.outbox ∙ ap (λ o. o ++ b.sent) a.outbox ∙ append_assoc u.outbox a.sent b.sent;
    letters =
        ap (map unstamped) (select-append (in_txn txn) a.sent b.sent)
        ∙ map-append unstamped (select (in_txn txn) a.sent) (select (in_txn txn) b.sent)
        ∙ ap₂ (λ l r. l ++ r) a.letters b.letters;
  }

  pub letters-NoTxn : (os : List OutboxItem) → txn ≢ "" → All NoTxn os → letters txn os ≡ []
  letters-NoTxn [] h k = refl
  letters-NoTxn (o ∷ os) h k = ground (arith, eq_iff o.txn_id txn, letters-NoTxn os h k.1)

  -- Pages and webhooks are no messages of the transaction.
  pub Emits-Sends : {v w : Service} → txn ≢ "" → Emits NoTxn v w → Sends txn v w []
  Emits-Sends h a = record {
    ctx = a.ctx;
    tables = a.tables;
    process = a.process;
    sent = a.sent;
    outbox = a.outbox;
    letters = letters-NoTxn a.sent h a.all;
  }

  pub enqueue-Sends :
      (item : OutboxItem) (w : Service)
      → item.txn_id ≡ txn
      → unstamped item ≡ item
      → Sends txn w (enqueue_locked item w).1 (item ∷ [])
  unfolding enqueue_locked stamp
  enqueue-Sends item w h k = record {
    ctx = refl;
    tables = refl;
    process = refl;
    sent = stamp (w.env.new_id "ob" w.drawn) w.now item ∷ [];
    outbox = refl;
    letters = rw ((eq_iff item.txn_id txn).1 h) (ap (λ o. o ∷ []) k);
  }

assigned_people-people :
    (t t' : Tables) (event_id : String) (rows : List Assignment)
    → t.people ≡ t'.people
    → assigned_people t event_id rows ≡ assigned_people t' event_id rows
unfolding assigned_people
assigned_people-people t t' event_id [] h = refl
assigned_people-people t t' event_id (a ∷ rest) h =
    ap₂
      (λ found ps.
        if a.event_id == event_id
        then push_found (find_first (is_person a.person_id) ps) found
        else found)
      (assigned_people-people t t' event_id rest h) h

-- What is owed depends on four tables only.
pub owed-tables :
    (lower : String → String) (item : String → String → OutboxItem) (event_id : String)
    (t t' : Tables)
    → t.broadcasts ≡ t'.broadcasts
    → t.people ≡ t'.people
    → t.assignments ≡ t'.assignments
    → t.guests ≡ t'.guests
    → owed lower item event_id t ≡ owed lower item event_id t'
unfolding assignees
owed-tables lower item event_id t t' b p a g =
    ap₂ (λ x y. x ++ y) (ap (broadcast_letters item) b)
      (ap₂ (λ x y. x ++ y)
        (ap (people_letters (item "" "")) (
          assigned_people-people t t' event_id t.assignments p
          ∙ ap (assigned_people t' event_id) a))
        (ap (λ gs. guest_letters lower item (select (λ g. g.event_id == event_id) gs) []) g))
