-- ===== src/Lifecycle/Propagation.antt =====
-- The whole propagation transaction: what fanOutLocked enqueues, counts and records.

use stattii.Base.{
  List, String, [], ap, arith, length, length-append, refl, subst, suc, update_first, ℕ, ◌++◌, ◌+◌,
  ◌∙◌, ◌≡◌, ◌≢◌,
}
use stattii.Lifecycle.Counts.{send_broadcasts-count, send_guests-count, send_people-count}
use stattii.Lifecycle.Delivery.{
  IsLetter, send_broadcasts-Sends, send_guests-Sends, send_people-Sends,
}
use stattii.Lifecycle.FanOut.{
  fan_out_locked, notice, put_event, send_broadcasts, send_guests, send_people,
}
use stattii.Lifecycle.Recipients.{
  Sends, Sends-trans, broadcast_letters, guest_letters, letters, owed, people_letters,
}
use stattii.Model.{Event, OutboxItem, Purpose, Tables, assignees, guests_for, has_id}
use stattii.Service.{Context, Service}

-- The message of the transaction `txn` for one address.
abbrev pub letter_of : Event → Purpose → String → String → String → String → String → OutboxItem
letter_of e purpose txn subject body kind to = notice e purpose txn kind to subject body

-- The identifier that the next draw gives a transaction.
abbrev pub next_txn : Service → String
next_txn w = w.env.new_id "tx" w.drawn

-- Everything that the transaction owes for an event in a state.
abbrev pub owed_for : Event → Purpose → String → String → Service → List OutboxItem
owed_for e purpose subject body w =
    owed w.env.to_lower (letter_of e purpose (next_txn w) subject body) e.id w.tables

pub record Announced (e : Event) (purpose : Purpose) (subject body : String) (w : Service)
    (r : ℕ × Event × Service) : Type 0 where
  pub ctx : r.2.ctx ≡ w.ctx
  pub process : r.2.process ≡ w.process
  pub tables : r.2.tables ≡ (put_event r.1 w).tables
  pub sent : List OutboxItem
  pub outbox : r.2.outbox ≡ w.outbox ++ sent
  pub messages : letters (next_txn w) sent ≡ owed_for e purpose subject body w
  pub count : r.0 ≡ length (owed_for e purpose subject body w)
  pub row : r.1 ≡ record e { fan_out_at = w.now; fan_out_count = r.0; fan_out_txn_id = next_txn w }

letter_of-IsLetter :
    (e : Event) (purpose : Purpose) (txn subject body kind to : String)
    → IsLetter txn (letter_of e purpose txn subject body kind to)
unfolding notice
letter_of-IsLetter e purpose txn subject body kind to = record { named = refl; fresh = refl }

module _ (e : Event) (purpose : Purpose) (subject body : String) (w : Service) where
  draw : Service
  draw = record w { drawn = suc w.drawn }

  item : String → String → OutboxItem
  item = letter_of e purpose (next_txn w) subject body

  broadcast : ℕ × Service
  broadcast = send_broadcasts item w.tables.broadcasts 0 draw

  asked : ℕ × Service
  asked = send_people item (assignees broadcast.1.tables e.id) broadcast.0 broadcast.1

  invited : ℕ × Service
  invited =
      send_guests asked.1.env.to_lower item (guests_for asked.1.tables e.id) [] asked.0 asked.1

  module _ (named : next_txn w ≢ "") where
    fresh : (kind to : String) → IsLetter (next_txn w) (item kind to)
    unfolding item
    fresh = letter_of-IsLetter e purpose (next_txn w) subject body

    broadcast-Sends :
        Sends (next_txn w) draw broadcast.1 (broadcast_letters item w.tables.broadcasts)
    unfolding broadcast draw
    broadcast-Sends = send_broadcasts-Sends named item w.tables.broadcasts 0 draw fresh

    asked-Sends :
        Sends
          (next_txn w)
          broadcast.1
          asked.1
          (people_letters (item "" "") (assignees w.tables e.id))
    unfolding asked draw
    asked-Sends =
        subst
          (λ t.
            Sends (next_txn w) broadcast.1 asked.1 (people_letters (item "" "") (assignees t e.id)))
          broadcast-Sends.tables
          (send_people-Sends named item (assignees broadcast.1.tables e.id) broadcast.0 broadcast.1
            (fresh "" ""))

    asked-tables : asked.1.tables ≡ w.tables
    unfolding draw
    asked-tables = asked-Sends.tables ∙ broadcast-Sends.tables

    asked-ctx : asked.1.ctx ≡ w.ctx
    unfolding draw
    asked-ctx = asked-Sends.ctx ∙ broadcast-Sends.ctx

    invited-Sends :
        Sends
          (next_txn w)
          asked.1
          invited.1
          (guest_letters w.env.to_lower item (guests_for w.tables e.id) [])
    unfolding invited
    invited-Sends =
        subst
          (λ t.
            Sends (next_txn w) asked.1 invited.1
              (guest_letters w.env.to_lower item (guests_for t e.id) []))
          asked-tables
          (subst
            (λ c.
              Sends (next_txn w) asked.1 invited.1
                (guest_letters c.env.to_lower item (guests_for asked.1.tables e.id) []))
            asked-ctx
            (send_guests-Sends named asked.1.env.to_lower item (guests_for asked.1.tables e.id) []
              asked.0 asked.1 fresh))

    all-Sends : Sends (next_txn w) draw invited.1 (owed w.env.to_lower item e.id w.tables)
    all-Sends = Sends-trans broadcast-Sends (Sends-trans asked-Sends invited-Sends)

    asked-count :
        asked.0 ≡ broadcast.0 + length (people_letters (item "" "") (assignees w.tables e.id))
    unfolding asked draw
    asked-count =
        subst (λ t. asked.0 ≡ broadcast.0 + length (people_letters (item "" "") (assignees t e.id)))
          broadcast-Sends.tables
          (send_people-count item (assignees broadcast.1.tables e.id) broadcast.0 broadcast.1)

    invited-count :
        invited.0
        ≡ asked.0 + length (guest_letters w.env.to_lower item (guests_for w.tables e.id) [])
    unfolding invited
    invited-count =
        subst
          (λ t.
            invited.0 ≡ asked.0 + length (guest_letters w.env.to_lower item (guests_for t e.id) []))
          asked-tables
          (subst
            (λ c.
              invited.0
              ≡ asked.0
                + length (guest_letters c.env.to_lower item (guests_for asked.1.tables e.id) []))
            asked-ctx
            (send_guests-count asked.1.env.to_lower item (guests_for asked.1.tables e.id) [] asked.0
              asked.1))

    counted : invited.0 ≡ length (owed w.env.to_lower item e.id w.tables)
    unfolding broadcast
    counted =
        let bs = broadcast_letters item w.tables.broadcasts in
        let ps = people_letters (item "" "") (assignees w.tables e.id) in
        let gs = guest_letters w.env.to_lower item (guests_for w.tables e.id) [] in
        omega (
          arith,
          send_broadcasts-count item w.tables.broadcasts 0 draw,
          asked-count,
          invited-count,
          length-append bs (ps ++ gs),
          length-append ps gs,
        )

  -- Where the id drawn next is not empty, the transaction enqueues exactly what it owes, counts it,
  -- and records it on the event.
  pub fan_out_lem :
      next_txn w ≢ "" → Announced e purpose subject body w (fan_out_locked e purpose subject body w)
  unfolding fan_out_locked draw item broadcast asked invited
  fan_out_lem named = record {
    ctx = (all-Sends named).ctx;
    process = (all-Sends named).process;
    tables =
        ap {A = Tables} {B = Tables}
          (λ t. record t { events = update_first (has_id e.id) (λ _. row) t.events })
          (all-Sends named).tables;
    sent = (all-Sends named).sent;
    outbox = (all-Sends named).outbox;
    messages = (all-Sends named).letters;
    count = counted named;
    row =
        ap {A = Context} {B = Event}
          (λ c. record e {
            fan_out_at = c.now;
            fan_out_count = invited.0;
            fan_out_txn_id = next_txn w;
          })
          (all-Sends named).ctx;
  }
    where
      row : Event
      row = (fan_out_locked e purpose subject body w).1
